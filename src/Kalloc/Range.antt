-- ===== src/Kalloc/Range.antt =====
-- `freerange` frees the whole pages of a range.
use ztl_os.Base.{
  ℕ, zero, suc, ◌+◌, ◌-◌, ◌/◌, ◌%◌, ◌≤◌, ◌<◌, ◌≡◌, refl, arith, true, false, some, List, [], ◌∷◌,
  leb,
}
use ztl_os.Kalloc.{Kmem, free_from, freerange, page_size, page_round_up, phystop, kernbase}
use ztl_os.Kalloc.Chain.{count, IsFree, kfree-IsFree}

-- `n` pages from `p` on, pushed onto a list one after the other
pub pages_onto : ℕ → ℕ → List ℕ → List ℕ
pages_onto zero p vs = vs
pages_onto (suc n) p vs = pages_onto n (p + page_size) (p ∷ vs)

-- the whole pages between two addresses
abbrev pub whole_pages : ℕ → ℕ → ℕ
whole_pages p vend = (vend - p) / page_size

module _ (end vend : ℕ) (pos : 0 < end) (bound : vend ≤ kernbase + phystop) where
  free_from-IsFree :
      (n fuel p : ℕ) (k : Kmem) (free : List ℕ)
      → n ≤ fuel
      → n ≡ whole_pages p vend
      → end ≤ p
      → kernbase ≤ p
      → p % page_size ≡ 0
      → ((w : ℕ) → 0 < count w free → w < p)
      → IsFree end k free
      → (k' : Kmem) × (free_from fuel end vend p k ≡ some k') × IsFree end k' (pages_onto n p free)
  unfolding free_from pages_onto
  free_from-IsFree zero zero p k free a b d e f g h = (k, refl, h)
  free_from-IsFree zero (suc fuel) p k free a b d e f g h =
      let done : leb (p + page_size) vend ≡ false = ground arith in
      rw (done, free_from) (k, refl, h)
  free_from-IsFree (suc n) zero p k free a b d e f g h = absurd (omega (arith, a))
  free_from-IsFree (suc n) (suc fuel) p k free a b d e f g h =
      let more : leb (p + page_size) vend ≡ true = ground arith in
      let (k', taken, h') = kfree-IsFree end p k free pos h (ground arith) (ground (arith, g p)) in
      rw (more, free_from, taken)
        (free_from-IsFree n fuel (p + page_size) k' (p ∷ free) (omega (arith, a)) (omega (arith, b))
          (omega arith) (omega arith) (omega (arith, f)) (λ w c. ground (arith, g w)) h')

-- From an empty list, for a range that begins behind the kernel and begins and ends in the memory
-- that the kernel maps, `freerange` does not panic and frees the whole pages of the range and nothing
-- else, the last one first.
pub freerange-IsFree :
    (end vstart vend : ℕ) (k : Kmem)
    → 0 < end
    → end ≤ vstart
    → kernbase ≤ vstart
    → vstart ≤ kernbase + phystop
    → vend ≤ kernbase + phystop
    → IsFree end k []
    → let p = page_round_up vstart in
      (k' : Kmem) × (freerange end vstart vend k ≡ some k')
      × IsFree end k' (pages_onto (whole_pages p vend) p [])
unfolding freerange
freerange-IsFree end vstart vend k pos low base top high h =
    let p = page_round_up vstart in
    free_from-IsFree end vend pos high (whole_pages p vend) vend p k [] (omega arith) refl
      (omega arith) (omega arith) (omega arith) (λ w c. absurd (omega (arith, c))) h
