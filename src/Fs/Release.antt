-- ===== src/Fs/Release.antt =====
-- `itrunc`.
use ztl_os.Base.{ℕ, zero, suc, ◌+◌, true, false, Option, none, some, ◌==◌, if◌then◌else◌}
use ztl_os.Fs.{Fs, Inode, ndirect, nindirect, entry, with_addr, bfree, iupdate}

-- The loop of `itrunc` over the file's own addresses, from entry `i` on.
unfoldable pub free_own : (k i : ℕ) → Fs → Inode → Option (Fs × Inode)
free_own zero i fs ip = some (fs, ip)
free_own (suc k) i fs ip = elim (ip.addrs i == 0) [
  | true ↦ free_own k (i + 1) fs ip
  | false ↦ elim (bfree (ip.addrs i) fs) [
    | none ↦ none
    | some fs' ↦ free_own k (i + 1) fs' (with_addr i 0 ip)
  ]
]

-- The loop over the block `a` of addresses, from entry `j` on.
unfoldable pub free_listed : (k j : ℕ) → (ℕ → ℕ) → Fs → Option Fs
free_listed zero j a fs = some fs
free_listed (suc k) j a fs = elim (entry a j == 0) [
  | true ↦ free_listed k (j + 1) a fs
  | false ↦ elim (bfree (entry a j) fs) [ none ↦ none | some fs' ↦ free_listed k (j + 1) a fs' ]
]

-- `if(ip->addrs[NDIRECT])` of `itrunc`
unfoldable pub free_list : Fs → Inode → Option (Fs × Inode)
free_list fs ip =
    if ip.addrs ndirect == 0
    then some (fs, ip)
    else elim (free_listed nindirect 0 (fs.block (ip.addrs ndirect)) fs) [
      | none ↦ none
      | some fs' ↦ elim (bfree (ip.addrs ndirect) fs') [
        | none ↦ none
        | some fs'' ↦ some (fs'', with_addr ndirect 0 ip)
      ]
    ]

unfoldable pub itrunc : Fs → Inode → Option (Fs × Inode)
itrunc fs ip = elim (free_own ndirect 0 fs ip) [
  | none ↦ none
  | some r ↦ elim (free_list r.0 r.1) [
    | none ↦ none
    | some q ↦ let ip' = record (q.1) { size = 0 } in some (iupdate q.0 ip', ip')
  ]
]
