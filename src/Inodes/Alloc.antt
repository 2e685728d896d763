-- ===== src/Inodes/Alloc.antt =====
-- `ialloc` takes the lowest free inode.
use ztl_os.Base.{
  ℕ, zero, suc, ◌+◌, ◌-◌, ◌<◌, ◌≡◌, ◌≢◌, ap, ◌∙◌, arith, Option, none, some, inl, inr, ◌==◌,
  Bool-cases, update, subst, update_ne, update_self,
}
use native.Mathlib.Decide.{dec_lt}
use ztl_os.Fs.{Dinode}
use ztl_os.Inodes.{ninode, Cache, find_type, iget, ialloc}
use ztl_os.Inodes.Counted.{Counted, refs, inums}
use ztl_os.Inodes.Get.{Gets, gets, cache_full, iget-Gets}

-- Every inode from 1 on and below `to` has a type.
pub AllTyped : (to : ℕ) → (ℕ → Dinode) → Type 0
AllTyped to dinodes = (m : ℕ) → 0 < m → m < to → (dinodes m).type ≢ 0

-- The lowest free inode, which now has the type and is in the cache with one more reference; or no
-- inode is free, or every place of the cache is used.
pub data Allocs (type : ℕ) (c : Cache) (f : ℕ → ℕ) : Option (ℕ × Cache) → Type 0 where
  allocs :
      {n i : ℕ} {c' : Cache}
      → 0 < n
      → n < c.ninodes
      → (c.fs.dinodes n).type ≡ 0
      → AllTyped n c.fs.dinodes
      → i < ninode
      → inums c' i ≡ n
      → Counted (refs c') (inums c') (update f n (f n + 1))
      → (c'.fs.dinodes n).type ≡ type
      → ((m : ℕ) → m ≢ n → c'.fs.dinodes m ≡ c.fs.dinodes m)
      → Allocs type c f (some (i, c'))
  no_inodes : AllTyped c.ninodes c.fs.dinodes → Allocs type c f none
  no_place : ((j : ℕ) → j < ninode → 0 < refs c j) → Allocs type c f none

data Lowest (dinodes : ℕ → Dinode) (to : ℕ) : Option ℕ → Type 0 where
  lowest :
      {n : ℕ}
      → 0 < n
      → n < to
      → (dinodes n).type ≡ 0
      → AllTyped n dinodes
      → Lowest dinodes to (some n)
  all_typed : AllTyped to dinodes → Lowest dinodes to none

find_type-Lowest :
    (k n to : ℕ) (dinodes : ℕ → Dinode)
    → n + k ≡ to
    → 0 < n
    → AllTyped n dinodes
    → Lowest dinodes to (find_type k n dinodes)
unfolding find_type AllTyped
find_type-Lowest zero n to dinodes h p t = all_typed (λ m a b. t m a (omega (arith, b, h)))
find_type-Lowest (suc k) n to dinodes h p t = elim (Bool-cases ((dinodes n).type == 0)) [
  | inl free ↦ rw (find_type, free) (lowest p (omega (arith, h)) (ground (arith, free)) t)
  | inr taken ↦
      rw (find_type, taken)
        (find_type-Lowest k (n + 1) to dinodes (omega (arith, h)) (omega arith) (λ m a b.
          elim (dec_lt m n) [
            | yes low ↦ t m a low
            | no high ↦
                let same : n ≡ m = omega (arith, b) in
                subst (λ x. (dinodes x).type ≢ 0) same (ground (arith, taken))
          ]))
]

-- what `ialloc` leaves on the disk
abbrev fresh : ℕ → Dinode
fresh type = record { type = type; major = 0; minor = 0; nlink = 0; size = 0; addrs = λ a. 0 }

abbrev marked : ℕ → ℕ → Cache → Cache
marked type n c = record c { fs = record (c.fs) { dinodes = update c.fs.dinodes n (fresh type) } }

module _ (type : ℕ) (c : Cache) (f : ℕ → ℕ) where
  placed :
      (n : ℕ)
      → 0 < n
      → n < c.ninodes
      → (c.fs.dinodes n).type ≡ 0
      → AllTyped n c.fs.dinodes
      → {r : Option (ℕ × Cache)} → Gets n (marked type n c) f r
      → Allocs type c f r
  placed n p l z t (gets at same used counted disk others place) =
      allocs p l z t at same counted
        (ap (λ fs. (fs.dinodes n).type) disk
          ∙ ap (λ d. d.type) (update_self c.fs.dinodes n (fresh type)))
        (λ m k. ap (λ fs. fs.dinodes m) disk ∙ update_ne c.fs.dinodes n (fresh type) m k)
  placed n p l z t (cache_full all none_yet) = no_place all

  found :
      Counted (refs c) (inums c) f
      → {r : Option ℕ} → Lowest c.fs.dinodes c.ninodes r
      → Allocs type c f (elim r [ none ↦ none | some n ↦ iget n (marked type n c) ])
  found v (all_typed t) = no_inodes t
  found v (lowest {n} p l z t) = placed n p l z t (iget-Gets n (marked type n c) f v)

-- `ialloc` takes the lowest free inode, writes its type to the disk and gives a place of the cache
-- with one more reference to it; it panics only without a free inode or with every place used.
pub ialloc-Allocs :
    (type : ℕ) (c : Cache) (f : ℕ → ℕ)
    → 0 < c.ninodes
    → Counted (refs c) (inums c) f
    → Allocs type c f (ialloc type c)
unfolding ialloc AllTyped
ialloc-Allocs type c f some_inodes v = found type c f v (
    find_type-Lowest (c.ninodes - 1) 1 c.ninodes c.fs.dinodes (omega arith) (omega arith)
      (λ m a b. absurd (omega arith)))
