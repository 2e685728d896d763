-- ===== src/Fs/Mapped.antt =====
-- The blocks of a file, and the bytes that they make up.
use ztl_os.Base.{
  refl, arith, inr, inl, Bool-cases, ℕ, ◌-◌, ◌/◌, ◌%◌, ◌<◌, ◌≤◌, ◌≡◌, ◌≢◌, true, ◌==◌, ltb,
  if◌then◌else◌,
}
use ztl_os.Fs.{Fs, Inode, bsize, ndirect, maxfile, entry}
use ztl_os.Fs.Blocks.{in_use}

-- The block that holds block `bn` of the file, 0 if there is none.
unfoldable pub address : Fs → Inode → ℕ → ℕ
address fs ip bn =
    if ltb bn ndirect
    then ip.addrs bn
    else if ip.addrs ndirect == 0
    then 0
    else entry (fs.block (ip.addrs ndirect)) (bn - ndirect)

-- Byte `off` of the file; a block that is not there is full of zeros.
unfoldable pub content : Fs → Inode → ℕ → ℕ
content fs ip off =
    let a = address fs ip (off / bsize) in if a == 0 then 0 else fs.block a (off % bsize)

-- The file's blocks and its block of addresses are different blocks, marked as in use; block 0 is
-- in use by no file, and addresses are words.
pub record IsMapped (fs : Fs) (ip : Inode) : Type 0 where
  pub boot : in_use fs 0 ≡ true
  pub words : fs.size ≤ 4294967296
  pub used : (bn : ℕ) → bn < maxfile → address fs ip bn ≢ 0 → in_use fs (address fs ip bn) ≡ true
  pub distinct :
      (i j : ℕ)
      → i < maxfile
      → j < maxfile
      → address fs ip i ≢ 0
      → address fs ip i ≡ address fs ip j
      → i ≡ j
  pub list_used : ip.addrs ndirect ≢ 0 → in_use fs (ip.addrs ndirect) ≡ true
  pub list_apart :
      (bn : ℕ) → bn < maxfile → address fs ip bn ≢ 0 → address fs ip bn ≢ ip.addrs ndirect

pub content-same :
    (fs fs' : Fs) (ip ip' : Inode) (off : ℕ)
    → address fs' ip' (off / bsize) ≡ address fs ip (off / bsize)
    → (address fs ip (off / bsize) ≢ 0
        → fs'.block (address fs ip (off / bsize)) (off % bsize)
          ≡ fs.block (address fs ip (off / bsize)) (off % bsize))
    → content fs' ip' off ≡ content fs ip off
unfolding content
content-same fs fs' ip ip' off same block = elim (Bool-cases (address fs ip (off / bsize) == 0)) [
  | inl z ↦ rw (same, z) refl
  | inr n ↦ rw (same, n) (block (ground (arith, n)))
]

pub content_there :
    (fs : Fs) (ip : Inode) (p : ℕ)
    → address fs ip (p / bsize) ≢ 0
    → content fs ip p ≡ fs.block (address fs ip (p / bsize)) (p % bsize)
unfolding content
content_there fs ip p n = ground (arith, n)
