-- ===== src/Fs/Truncated.antt =====
-- `itrunc` gives a file's blocks back, and no others.
use ztl_os.Base.{
  ℕ, ◌+◌, ◌-◌, ◌<◌, ◌≤◌, ◌≡◌, ◌≢◌, refl, sym, ap, ◌∙◌, subst, arith, Bool, true, false, not, ◌&&◌,
  ◌||◌, Option, none, some, inl, inr, ◌==◌, if◌then◌else◌, Bool-cases, update_self, update_ne,
}
use native.Mathlib.Decide.{dec_lt}
use ztl_os.Strings.Move.{in_range}
use ztl_os.Fs.{Fs, Inode, ndirect, nindirect, maxfile, entry, dinode_of, iupdate}
use ztl_os.Fs.Release.{free_list, itrunc}
use ztl_os.Fs.Blocks.{in_use}
use ztl_os.Fs.Mapped.{address, IsMapped}
use ztl_os.Fs.Slots.{address_direct, address_listed, address_unlisted}
use ztl_os.Fs.Freed.{listed, Freeable, not_listed, is_listed, FreesOwn, frees_own}
use ztl_os.Fs.Truncate.{free_own-FreesOwn, Emptied, emptied, after, listed_lost, free_list-Emptied}

-- The file has no block any more; its blocks are free, and all others as before.
pub data Truncates (fs : Fs) (ip : Inode) : Option (Fs × Inode) → Type 0 where
  truncates :
      {fs' : Fs} {ip' : Inode}
      → ((j : ℕ) → j ≤ ndirect → ip'.addrs j ≡ 0)
      → ip'.size ≡ 0
      → ip'.inum ≡ ip.inum
      → fs'.dinodes ip.inum ≡ dinode_of ip'
      → ((j : ℕ) → j < maxfile → address fs ip j ≢ 0 → in_use fs' (address fs ip j) ≡ false)
      → (ip.addrs ndirect ≢ 0 → in_use fs' (ip.addrs ndirect) ≡ false)
      → ((b : ℕ)
          → ((j : ℕ) → j < maxfile → address fs ip j ≢ 0 → address fs ip j ≢ b)
          → (ip.addrs ndirect ≢ 0 → ip.addrs ndirect ≢ b)
          → in_use fs' b ≡ in_use fs b)
      → fs'.block ≡ fs.block
      → ((n : ℕ) → n ≢ ip.inum → fs'.dinodes n ≡ fs.dinodes n)
      → Truncates fs ip (some (fs', ip'))

module _ (fs : Fs) (ip : Inode) (v : IsMapped fs ip) where
  behind :
      (j : ℕ)
      → ip.addrs ndirect ≢ 0
      → address fs ip (ndirect + j) ≡ entry (fs.block (ip.addrs ndirect)) j
  behind j n =
      address_listed fs ip (ndirect + j) (omega arith) n
      ∙ ap (entry (fs.block (ip.addrs ndirect))) (omega arith)

  direct_blocks : Freeable fs ip.addrs ndirect 0
  direct_blocks = record {
    used = λ j a b n. ground (arith, v.used j (omega (arith, b)), address_direct fs ip j b, n);
    once = λ j l a b c d n same.
        v.distinct j l (omega (arith, b)) (omega (arith, d))
          (λ z. n (sym (address_direct fs ip j b) ∙ z))
          (address_direct fs ip j b ∙ same ∙ sym (address_direct fs ip l d));
  }

  abbrev lost : ℕ → Bool
  lost b = listed ip.addrs ndirect 0 b || listed_lost fs ip b

  -- a listed block is none of the file's own
  entry_apart :
      (j : ℕ)
      → j < nindirect
      → ip.addrs ndirect ≢ 0
      → entry (fs.block (ip.addrs ndirect)) j ≢ 0
      → listed ip.addrs ndirect 0 (entry (fs.block (ip.addrs ndirect)) j) ≡ false
  entry_apart j l n m =
      not_listed ip.addrs ndirect 0 (entry (fs.block (ip.addrs ndirect)) j) (λ i a b k same.
        let distinct =
          v.distinct i (ndirect + j) (omega (arith, b)) (omega (arith, l))
            (λ z. k (sym (address_direct fs ip i b) ∙ z))
            (address_direct fs ip i b ∙ same ∙ sym (behind j n)) in
        omega (arith, distinct, b))

  list_apart : ip.addrs ndirect ≢ 0 → listed ip.addrs ndirect 0 (ip.addrs ndirect) ≡ false
  list_apart n = not_listed ip.addrs ndirect 0 (ip.addrs ndirect) (λ i a b k same.
      v.list_apart i (omega (arith, b)) (λ z. k (sym (address_direct fs ip i b) ∙ z))
        (address_direct fs ip i b ∙ same))

  module _ (bits : ℕ → ℕ → Bool)
      (e : (b : ℕ)
        → in_use (record fs { bits = bits }) b
          ≡ (in_use fs b && not (listed ip.addrs ndirect 0 b))) where
    listed_blocks :
        ip.addrs ndirect ≢ 0
        → Freeable (record fs { bits = bits }) (entry (fs.block (ip.addrs ndirect))) nindirect 0
    listed_blocks n = record {
      used = λ j a b m.
          let used = v.used (ndirect + j) (omega (arith, b)) in
          ground (
            arith,
            e (entry (fs.block (ip.addrs ndirect)) j),
            entry_apart j b n m,
            used,
            behind j n,
            m,
          );
      once = λ j l a b c d m same.
          let distinct =
            v.distinct (ndirect + j) (ndirect + l) (omega (arith, b)) (omega (arith, d))
              (λ z. m (sym (behind j n) ∙ z)) (behind j n ∙ same ∙ sym (behind l n)) in
          omega (arith, distinct);
    }

    module _ (addrs : ℕ → ℕ)
        (c : (j : ℕ) → addrs j ≡ (if in_range 0 ndirect j then 0 else ip.addrs j)) where
      abbrev fs₁ : Fs
      fs₁ = record fs { bits = bits }

      abbrev ip₁ : Inode
      ip₁ = record ip { addrs = addrs }

      same_list : addrs ndirect ≡ ip.addrs ndirect
      same_list = c ndirect

      list_emptied : Emptied fs₁ ip₁ (listed_lost fs₁ ip₁) (free_list fs₁ ip₁)
      list_emptied =
          free_list-Emptied fs₁ ip₁ (λ j l. ground (arith, c j, l))
            (λ n.
              subst (λ a. in_use fs₁ a ≡ true) (sym same_list)
                (let m : ip.addrs ndirect ≢ 0 = λ z. n (same_list ∙ z) in
                  ground (arith, e (ip.addrs ndirect), v.list_used m, list_apart m)))
            (λ n.
              subst (λ a. Freeable fs₁ (entry (fs.block a)) nindirect 0) (sym same_list)
                (listed_blocks (λ z. n (same_list ∙ z))))
            (λ j l n.
              subst (λ a. entry (fs.block a) j ≢ 0 → entry (fs.block a) j ≢ a) (sym same_list)
                (λ m same.
                  let n' : ip.addrs ndirect ≢ 0 = λ z. n (same_list ∙ z) in
                  v.list_apart (ndirect + j) (omega (arith, l)) (λ z. m (sym (behind j n') ∙ z))
                    (behind j n' ∙ same)))

  blocks_lost : (j : ℕ) → j < maxfile → address fs ip j ≢ 0 → lost (address fs ip j) ≡ true
  blocks_lost j l n = elim (dec_lt j ndirect) [
    | yes low ↦
        let same = address_direct fs ip j low in
        let found = is_listed ip.addrs ndirect 0 j (omega arith) low (λ z. n (same ∙ z)) in
        ground (arith, same, found)
    | no high ↦
        let there : ip.addrs ndirect ≢ 0 = λ z. n (address_unlisted fs ip j (omega arith) z) in
        let same = address_listed fs ip j (omega arith) there in
        let found =
          is_listed (entry (fs.block (ip.addrs ndirect))) nindirect 0 (j - ndirect) (omega arith)
            (omega (arith, l)) (λ z. n (same ∙ z)) in
        ground (arith, same, found, there)
  ]

  not_lost :
      (b : ℕ)
      → ((j : ℕ) → j < maxfile → address fs ip j ≢ 0 → address fs ip j ≢ b)
      → (ip.addrs ndirect ≢ 0 → ip.addrs ndirect ≢ b)
      → lost b ≡ false
  not_lost b h k =
      let own = not_listed ip.addrs ndirect 0 b (λ j a c n same.
        h j (omega (arith, c)) (λ z. n (sym (address_direct fs ip j c) ∙ z))
          (address_direct fs ip j c ∙ same)) in
      elim (Bool-cases (ip.addrs ndirect == 0)) [
        | inl none_there ↦ ground (arith, own, none_there)
        | inr there ↦
            let n : ip.addrs ndirect ≢ 0 = ground (arith, there) in
            let others =
              not_listed (entry (fs.block (ip.addrs ndirect))) nindirect 0 b (λ j a c m same.
                h (ndirect + j) (omega (arith, c)) (λ z. m (sym (behind j n) ∙ z))
                  (behind j n ∙ same)) in
            ground (arith, own, others, k n)
      ]

  finish :
      {r : Option (Fs × Inode)}
      → Emptied fs ip lost r
      → Truncates fs ip (elim r [
        | none ↦ none
        | some q ↦ let ip' = record (q.1) { size = 0 } in some (iupdate q.0 ip', ip')
      ])
  unfolding in_use
  finish (emptied bits addrs e z) =
      truncates z refl refl (update_self fs.dinodes ip.inum _)
        (λ j l n. let gone = blocks_lost j l n in e (address fs ip j) ∙ ground (arith, gone))
        (λ n. e (ip.addrs ndirect) ∙ ground (arith, n))
        (λ b h k. let stays = not_lost b h k in e b ∙ ground (arith, stays)) refl
        (λ n other. update_ne fs.dinodes ip.inum _ n other)

  own_freed_then :
      {r : Option (Fs × Inode)}
      → FreesOwn fs ip ndirect 0 r
      → Truncates fs ip (elim r [
        | none ↦ none
        | some r ↦ elim (free_list r.0 r.1) [
          | none ↦ none
          | some q ↦ let ip' = record (q.1) { size = 0 } in some (iupdate q.0 ip', ip')
        ]
      ])
  own_freed_then (frees_own bits addrs e c) = finish (
      after fs ip bits addrs (listed ip.addrs ndirect 0) _ lost e
        (λ b.
          ap
            (λ a.
              listed ip.addrs ndirect 0 b
              || (not (a == 0) && (listed (entry (fs.block a)) nindirect 0 b || a == b)))
            (same_list bits e addrs c))
        (list_emptied bits e addrs c))

-- `itrunc` does not panic: it leaves the file with no addresses and the size 0, its inode written
-- back; the blocks that were the file's are free, and all other blocks and inodes as before.
pub itrunc-Truncates : (fs : Fs) (ip : Inode) → IsMapped fs ip → Truncates fs ip (itrunc fs ip)
unfolding itrunc
itrunc-Truncates fs ip v =
    own_freed_then fs ip v (free_own-FreesOwn ndirect 0 fs ip (direct_blocks fs ip v))
