-- ===== src/Paths/Element.antt =====
-- What `skipelem` takes from a path.
use ztl_os.Base.{
  ℕ, ◌<◌, ◌≡◌, ◌≢◌, refl, sym, ap, ◌∙◌, arith, false, inl, inr, List, [], ◌∷◌, ◌==◌, ltb,
  if◌then◌else◌, Bool-cases, update, length, take, get_or, length-take,
}
use ztl_os.Strings.Names.{name_at-list, name_at}
use ztl_os.Fs.Transfers.{overlay}
use ztl_os.Fs.Laid.{laid, overlay_lem, get_or-take}
use ztl_os.Paths.{dirsiz, slash, skip_slashes, pass_element, copy_name}

-- The path cut at every slash.
unfoldable pub begins_with : ℕ → List (List ℕ) → List (List ℕ)
begins_with c [] = (c ∷ []) ∷ []
begins_with c (piece ∷ pieces) = (c ∷ piece) ∷ pieces

unfoldable pub cut : List ℕ → List (List ℕ)
cut [] = [] ∷ []
cut (c ∷ path) = let rest = cut path in if c == slash then [] ∷ rest else begins_with c rest

unfoldable pub filled : List (List ℕ) → List (List ℕ)
filled [] = []
filled ([] ∷ pieces) = filled pieces
filled ((c ∷ piece) ∷ pieces) = (c ∷ piece) ∷ filled pieces

-- The elements of a path: the pieces between slashes that are not empty.
abbrev pub elements : List ℕ → List (List ℕ)
elements path = filled (cut path)

pub skip-elements : (path : List ℕ) → elements (skip_slashes path) ≡ elements path
unfolding skip_slashes cut filled
skip-elements [] = refl
skip-elements (c ∷ path) = elim (Bool-cases (c == slash)) [
  | inl yes_slash ↦
      let same : skip_slashes (c ∷ path) ≡ skip_slashes path = rw yes_slash refl in
      let dropped : cut (c ∷ path) ≡ [] ∷ cut path = rw yes_slash refl in
      ap elements same ∙ skip-elements path ∙ sym (ap filled dropped)
  | inr no_slash ↦
      let same : skip_slashes (c ∷ path) ≡ c ∷ path = rw no_slash refl in ap elements same
]

-- the pieces behind a slash
unfoldable behind : List ℕ → List (List ℕ)
behind [] = []
behind (s ∷ path) = cut path

pass-cut : (path : List ℕ) → cut path ≡ (pass_element path).0 ∷ behind (pass_element path).1
unfolding pass_element cut begins_with behind
pass-cut [] = refl
pass-cut (c ∷ path) = elim (Bool-cases (c == slash)) [
  | inl yes_slash ↦ rw yes_slash refl
  | inr no_slash ↦ rw no_slash (ap (begins_with c) (pass-cut path))
]

pass-behind :
    (path : List ℕ) → filled (behind (pass_element path).1) ≡ elements (pass_element path).1
unfolding pass_element cut filled behind
pass-behind [] = refl
pass-behind (c ∷ path) = elim (Bool-cases (c == slash)) [
  | inl yes_slash ↦
      let passed : pass_element (c ∷ path) ≡ ([], c ∷ path) = rw yes_slash refl in
      let dropped : cut (c ∷ path) ≡ [] ∷ cut path = rw yes_slash refl in
      ap (λ r. filled (behind r.1)) passed
      ∙ sym (ap filled dropped)
      ∙ sym (ap (λ r. elements r.1) passed)
  | inr no_slash ↦
      let passed : (pass_element (c ∷ path)).1 ≡ (pass_element path).1 = rw no_slash refl in
      ap (λ r. filled (behind r)) passed ∙ pass-behind path ∙ sym (ap elements passed)
]

-- An element that is not empty, and those behind it.
pub pass-elements :
    (c : ℕ) (path : List ℕ)
    → c ≢ slash
    → elements (c ∷ path)
      ≡ (pass_element (c ∷ path)).0 ∷ elements (skip_slashes (pass_element (c ∷ path)).1)
unfolding pass_element filled
pass-elements c path n =
    let no_slash : (c == slash) ≡ false = ground (arith, n) in
    let passed : (pass_element (c ∷ path)).0 ≡ c ∷ (pass_element path).0 = rw no_slash refl in
    ap filled (pass-cut (c ∷ path))
    ∙ ap (λ e. filled (e ∷ behind (pass_element (c ∷ path)).1)) passed
    ∙ ap (λ es. (c ∷ (pass_element path).0) ∷ es)
        (pass-behind (c ∷ path) ∙ sym (skip-elements (pass_element (c ∷ path)).1))
    ∙ ap (λ e. e ∷ elements (skip_slashes (pass_element (c ∷ path)).1)) (sym passed)

-- What the first loop leaves begins with no slash.
pub skip-first : (path : List ℕ) (c : ℕ) (rest : List ℕ) → skip_slashes path ≡ c ∷ rest → c ≢ slash
unfolding skip_slashes
skip-first [] c rest e = ground (arith, e)
skip-first (x ∷ path) c rest e = elim (Bool-cases (x == slash)) [
  | inl yes_slash ↦ skip-first path c rest (rw yes_slash at e)
  | inr no_slash ↦
      (let tail : x ∷ path ≡ c ∷ rest = rw no_slash at e in ground (arith, tail, no_slash))
]

-- The buffer holds the element, cut to its width.
pub copy-name :
    (element : List ℕ) (name : ℕ → ℕ)
    → ((i : ℕ) → i < length element → get_or element i 0 ≢ 0)
    → name_at 0 dirsiz (copy_name element name) ≡ take dirsiz element
unfolding copy_name laid
copy-name element name n = elim (Bool-cases (ltb (length element) dirsiz)) [
  | inl short ↦ rw short (
      name_at-list dirsiz 0 element (update (overlay 0 element name) (length element) 0)
        (λ i l k. let bytes = overlay_lem 0 element name i in ground (arith, bytes, l)) n
        (λ l. ground arith))
  | inr long ↦
      let size = length-take dirsiz element in
      rw long (
        name_at-list dirsiz 0 element (overlay 0 (take dirsiz element) name)
          (λ i l k.
            let bytes = overlay_lem 0 (take dirsiz element) name i in
            let byte = get_or-take dirsiz element i k in ground (arith, bytes, byte, size, l, k))
          n (λ l. absurd (ground (arith, long, l))))
]
