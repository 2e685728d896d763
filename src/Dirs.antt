-- ===== src/Dirs.antt =====
-- src/fs.c, directories: `dirlookup`.
--
-- A directory is a file of entries of 16 bytes, an inode number in the first two and a name in the
-- others. `dirlookup` reads each into `de`, which the comparison of names finds beside the name.
pub mod Entries
pub mod Lookup
mod Tests
use ztl_os.Base.{
  ℕ, zero, suc, ◌+◌, ◌-◌, ◌*◌, Bool, true, false, not, Option, none, some, List, [], ◌∷◌, ◌==◌, ltb,
  if◌then◌else◌, get_or, Ret, ok, fail,
}
use ztl_os.Strings.{strncmp}
use ztl_os.Paths.{dirsiz}
use ztl_os.Fs.{Fs, Inode}
use ztl_os.Fs.Transfers.{readi, Transfer}
use ztl_os.Inodes.{Slot, Cache, put_slot, iget}

-- `sizeof(de)`
abbrev pub de_size : ℕ
de_size = 16

-- `T_DIR`
abbrev pub t_dir : ℕ
t_dir = 1

-- `de.inum`
abbrev pub de_inum : List ℕ → ℕ
de_inum de = get_or de 0 0 + 256 * get_or de 1 0

-- The entry, and the name behind it.
unfoldable pub with_name : List ℕ → (ℕ → ℕ) → ℕ → ℕ
with_name de name a = if ltb a de_size then get_or de a 0 else name (a - de_size)

-- `namecmp(name, de.name)`
unfoldable pub namecmp : (ℕ → ℕ) → List ℕ → ℕ
namecmp name de = strncmp de_size 2 dirsiz (with_name de name)

abbrev pub returns_all : Ret → Bool
returns_all fail = false
returns_all (ok n) = n == de_size

-- The loop of `dirlookup`, on fuel: the inode number and the offset of an entry with the name.
unfoldable pub lookup_loop :
    (fuel off : ℕ) → (ℕ → ℕ) → Fs → Inode → Option (Option (ℕ × ℕ) × Fs × Inode)
lookup_loop zero off name fs ip = some (none, fs, ip)
lookup_loop (suc fuel) off name fs ip = elim (ltb off ip.size) [
  | false ↦ some (none, fs, ip)
  | true ↦ elim (readi off de_size fs ip) [
    | none ↦ none
    | some t ↦
        let rest = lookup_loop fuel (off + de_size) name t.fs t.ip in
        if not (returns_all t.ret)
        then none
        else if de_inum t.bytes == 0
        then rest
        else if namecmp name t.bytes == 0
        then some (some (de_inum t.bytes, off), t.fs, t.ip)
        else rest
  ]
]

-- For the directory in place `d`: the place of the inode and the offset of the entry. The directory
-- has no more entries than bytes.
unfoldable pub dirlookup : ℕ → (ℕ → ℕ) → Cache → Option (Option (ℕ × ℕ) × Cache)
dirlookup d name c =
    let s = c.slot d in
    if not (s.ip.type == t_dir) then none else elim (lookup_loop s.ip.size 0 name c.fs s.ip) [
      | none ↦ none
      | some r ↦
          let c' = put_slot d (record s { ip = r.2 }) (record c { fs = r.1 }) in
          elim r.0 [
            | none ↦ some (none, c')
            | some e ↦ elim (iget e.0 c') [ none ↦ none | some q ↦ some (some (q.0, e.1), q.1) ]
          ]
    ]
