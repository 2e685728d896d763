-- ===== src/Fs/Truncate.antt =====
-- The two loops of `itrunc`.
use ztl_os.Base.{
  ℕ, zero, suc, ◌+◌, ◌<◌, ◌≤◌, ◌≡◌, ◌≢◌, arith, Bool, true, not, ◌&&◌, ◌||◌, Option, none, some,
  inl, inr, ◌==◌, Bool-cases,
}
use ztl_os.Fs.{Fs, Inode, ndirect, nindirect, entry, with_addr, bfree}
use ztl_os.Fs.Release.{free_own, free_list}
use ztl_os.Fs.Blocks.{in_use}
use ztl_os.Fs.Freed.{
  listed, Freeable, Frees, frees, bfree-Frees, not_listed, later, skipped, free_listed-Frees,
  FreesOwn, frees_own, own_skipped, own_freed,
}

own_bfree :
    (k i : ℕ) (fs : Fs) (ip : Inode)
    → ip.addrs i ≢ 0
    → ((bits : ℕ → ℕ → Bool)
        → ((b : ℕ) → in_use (record fs { bits = bits }) b ≡ (in_use fs b && not (ip.addrs i == b)))
        → FreesOwn
            (record fs { bits = bits })
            (with_addr i 0 ip)
            k
            (i + 1)
            (free_own k (i + 1) (record fs { bits = bits }) (with_addr i 0 ip)))
    → {r : Option Fs} → Frees fs (λ b. ip.addrs i == b) r
    → FreesOwn fs ip
        (suc k)
        i
        (elim r [ none ↦ none | some fs' ↦ free_own k (i + 1) fs' (with_addr i 0 ip) ])
own_bfree k i fs ip n rest (frees bits e) = own_freed fs ip k i bits n e (rest bits e)

moved :
    (i k : ℕ) (fs : Fs) (ip : Inode)
    → Freeable fs ip.addrs k (i + 1)
    → Freeable fs (with_addr i 0 ip).addrs k (i + 1)
moved i k fs ip v = record {
  used = λ j a b n. ground (arith, v.used j a b, n, a);
  once = λ j l a b c d n same. ground (arith, v.once j l a b c d, n, same, a, c);
}

pub free_own-FreesOwn :
    (k i : ℕ) (fs : Fs) (ip : Inode)
    → Freeable fs ip.addrs k i
    → FreesOwn fs ip k i (free_own k i fs ip)
unfolding free_own listed
free_own-FreesOwn zero i fs ip v =
    frees_own fs.bits ip.addrs (λ b. ground arith) (λ j. ground arith)
free_own-FreesOwn (suc k) i fs ip v = elim (Bool-cases (ip.addrs i == 0)) [
  | inl none_there ↦
      rw (free_own, none_there)
        (own_skipped fs ip k i (ground (arith, none_there))
          (free_own-FreesOwn k (i + 1) fs ip (skipped ip.addrs k i fs v)))
  | inr there ↦
      let n : ip.addrs i ≢ 0 = ground (arith, there) in
      rw (free_own, there)
        (own_bfree k i fs ip n
          (λ bits e.
            free_own-FreesOwn k (i + 1) _ (with_addr i 0 ip)
              (moved i k _ ip (later ip.addrs k i fs _ e n v)))
          (bfree-Frees (ip.addrs i) fs (v.used i (omega arith) (omega arith) n)))
]

-- The file has no addresses, and the blocks that `lost` names are free.
pub data Emptied (fs : Fs) (ip : Inode) (lost : ℕ → Bool) : Option (Fs × Inode) → Type 0 where
  emptied :
      (bits : ℕ → ℕ → Bool) (addrs : ℕ → ℕ)
      → ((b : ℕ) → in_use (record fs { bits = bits }) b ≡ (in_use fs b && not (lost b)))
      → ((j : ℕ) → j ≤ ndirect → addrs j ≡ 0)
      → Emptied fs ip lost (some (record fs { bits = bits }, record ip { addrs = addrs }))

pub after :
    (fs : Fs) (ip : Inode) (bits : ℕ → ℕ → Bool) (addrs : ℕ → ℕ) (lost lost' lost'' : ℕ → Bool)
    → ((b : ℕ) → in_use (record fs { bits = bits }) b ≡ (in_use fs b && not (lost b)))
    → ((b : ℕ) → (lost b || lost' b) ≡ lost'' b)
    → {r : Option (Fs × Inode)}
    → Emptied (record fs { bits = bits }) (record ip { addrs = addrs }) lost' r
    → Emptied fs ip lost'' r
after fs ip bits addrs lost lost' lost'' e h (emptied bits' addrs' e' z) =
    emptied bits' addrs' (λ b. ground (arith, e b, e' b, h b)) z

-- `bfree` of the block of addresses
unlist : Fs → Inode → Option (Fs × Inode)
unlist fs ip = elim (bfree (ip.addrs ndirect) fs) [
  | none ↦ none
  | some fs' ↦ some (fs', with_addr ndirect 0 ip)
]

module _ (fs : Fs) (ip : Inode) (direct : (j : ℕ) → j < ndirect → ip.addrs j ≡ 0) where
  unlisted :
      {r : Option Fs}
      → Frees fs (λ b. ip.addrs ndirect == b) r
      → Emptied fs ip
          (λ b. ip.addrs ndirect == b)
          (elim r [ none ↦ none | some fs' ↦ some (fs', with_addr ndirect 0 ip) ])
  unlisted (frees bits e) =
      emptied bits (with_addr ndirect 0 ip).addrs e (λ j l. ground (arith, direct j, l))

-- the blocks that the block of addresses `L` lists, and itself
abbrev pub listed_lost : Fs → Inode → ℕ → Bool
listed_lost fs ip b =
    not (ip.addrs ndirect == 0)
    && (listed (entry (fs.block (ip.addrs ndirect))) nindirect 0 b || ip.addrs ndirect == b)

module _ (fs : Fs) (ip : Inode) (direct : (j : ℕ) → j < ndirect → ip.addrs j ≡ 0)
    (used : ip.addrs ndirect ≢ 0 → in_use fs (ip.addrs ndirect) ≡ true)
    (lists : ip.addrs ndirect ≢ 0 → Freeable fs (entry (fs.block (ip.addrs ndirect))) nindirect 0)
    (apart : (j : ℕ)
      → j < nindirect
      → ip.addrs ndirect ≢ 0
      → entry (fs.block (ip.addrs ndirect)) j ≢ 0
      → entry (fs.block (ip.addrs ndirect)) j ≢ ip.addrs ndirect) where
  abbrev entries : ℕ → ℕ
  entries = entry (fs.block (ip.addrs ndirect))

  list_freed :
      ip.addrs ndirect ≢ 0
      → {r : Option Fs} → Frees fs (listed entries nindirect 0) r
      → Emptied fs ip (listed_lost fs ip) (elim r [ none ↦ none | some fs' ↦ unlist fs' ip ])
  unfolding unlist
  list_freed n (frees bits e) =
      let other =
        not_listed entries nindirect 0 (ip.addrs ndirect) (λ j a b. apart j (omega (arith, b)) n) in
      let still = e (ip.addrs ndirect) in
      after fs ip bits ip.addrs (listed entries nindirect 0) (λ b. ip.addrs ndirect == b)
        (listed_lost fs ip) e (λ b. ground (arith, n))
        (unlisted (record fs { bits = bits }) ip direct
          (bfree-Frees (ip.addrs ndirect) (record fs { bits = bits })
            (ground (arith, still, used n, other))))

  pub free_list-Emptied : Emptied fs ip (listed_lost fs ip) (free_list fs ip)
  unfolding free_list unlist
  free_list-Emptied = elim (Bool-cases (ip.addrs ndirect == 0)) [
    | inl none_there ↦ rw none_there (
        emptied fs.bits ip.addrs (λ b. ground (arith, none_there))
          (λ j l. ground (arith, direct j, l, none_there)))
    | inr there ↦
        let n : ip.addrs ndirect ≢ 0 = ground (arith, there) in
        rw there
          (list_freed n (free_listed-Frees nindirect 0 (fs.block (ip.addrs ndirect)) fs (lists n)))
  ]
