-- ===== src/Paths.antt =====
-- src/fs.c, paths: `skipelem`.
--
-- A path is the list of its bytes before the zero byte. The element is copied to the buffer `name`,
-- which has room for `DIRSIZ` bytes and keeps what it held behind the element.
pub mod Element
pub mod Walk
mod Tests
use ztl_os.Base.{
  ℕ, zero, suc, ◌+◌, ◌-◌, Bool, true, false, Option, none, some, List, [], ◌∷◌, ◌==◌, ltb,
  if◌then◌else◌, update, length, take,
}
use ztl_os.Fs.Transfers.{overlay}

abbrev pub dirsiz : ℕ
dirsiz = 14

abbrev pub slash : ℕ
slash = 47

-- `while(*path == '/') path++;`
unfoldable pub skip_slashes : List ℕ → List ℕ
skip_slashes [] = []
skip_slashes (c ∷ path) = let rest = skip_slashes path in if c == slash then rest else c ∷ path

-- `while(*path != '/' && *path != 0) path++;`: what it passes, and where it stops
unfoldable pub pass_element : List ℕ → List ℕ × List ℕ
pass_element [] = ([], [])
pass_element (c ∷ path) =
    let rest = pass_element path in if c == slash then ([], c ∷ path) else (c ∷ rest.0, rest.1)

-- The two `memmove`s of `skipelem`.
unfoldable pub copy_name : List ℕ → (ℕ → ℕ) → ℕ → ℕ
copy_name element name =
    let len = length element in
    if ltb len dirsiz
    then update (overlay 0 element name) len 0
    else overlay 0 (take dirsiz element) name

-- The path behind the element, and the buffer; `none` is 0.
unfoldable pub skipelem : List ℕ → (ℕ → ℕ) → Option (List ℕ × (ℕ → ℕ))
skipelem path name = elim (skip_slashes path) [
  | [] ↦ none
  | c ∷ rest ↦
      let passed = pass_element (c ∷ rest) in some (skip_slashes passed.1, copy_name passed.0 name)
]
