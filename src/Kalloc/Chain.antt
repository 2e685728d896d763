-- ===== src/Kalloc/Chain.antt =====
-- The list that the free pages form in memory.
use ztl_os.Base.{
  sym, update_self, subst, ℕ, ◌+◌, ◌≤◌, ◌<◌, ◌≡◌, ◌≢◌, refl, arith, true, some, List, [], ◌∷◌, ◌==◌,
  if◌then◌else◌, update,
}
use ztl_os.Kalloc.{kalloc, Kmem, kfree, fill_page, page_ok}

-- how often a page is in a list
abbrev pub count : ℕ → List ℕ → ℕ
count v [] = 0
count v (w ∷ ws) = (if w == v then 1 else 0) + count v ws

-- From `p` the pages follow each other in memory, up to the null pointer.
unfoldable pub Chain : (ℕ → ℕ) → ℕ → List ℕ → Type 0
Chain memory p [] = p ≡ 0
Chain memory p (v ∷ vs) = (p ≡ v) × (v ≢ 0) × Chain memory (memory v) vs

pub Chain-frame :
    (memory memory' : ℕ → ℕ) (p : ℕ) (vs : List ℕ)
    → ((w : ℕ) → 0 < count w vs → memory' w ≡ memory w)
    → Chain memory p vs
    → Chain memory' p vs
unfolding Chain
Chain-frame memory memory' p [] same h = h
Chain-frame memory memory' p (v ∷ vs) same (e, nonzero, h) = (
  e,
  nonzero,
  rw (same v (ground arith))
      (Chain-frame memory memory' (memory v) vs (λ w c. same w (ground arith)) h),
)

-- The free list is these pages, each once and each a page that `kfree` takes.
pub record IsFree (end : ℕ) (k : Kmem) (free : List ℕ) : Type 0 where
  pub chain : Chain k.memory k.freelist free
  pub once : (w : ℕ) → count w free ≤ 1
  pub pages : (w : ℕ) → 0 < count w free → page_ok end w ≡ true

freed : ℕ → Kmem → Kmem
freed v k = record { memory = update (fill_page v k.memory) v k.freelist; freelist = v }

freed-link : (v : ℕ) (k : Kmem) → (freed v k).memory v ≡ k.freelist
unfolding freed
freed-link v k = update_self (fill_page v k.memory) v k.freelist

freed-same :
    (end v w : ℕ) (k : Kmem)
    → page_ok end v ≡ true
    → page_ok end w ≡ true
    → w ≢ v
    → (freed v k).memory w ≡ k.memory w
unfolding freed fill_page
freed-same end v w k good good' ne = ground arith

kfree-freed : (end v : ℕ) (k : Kmem) → page_ok end v ≡ true → kfree end v k ≡ some (freed v k)
unfolding kfree freed
kfree-freed end v k good = rw good refl

-- A page that is not free is taken, and is then the first one to be given out.
pub kfree-IsFree :
    (end v : ℕ) (k : Kmem) (free : List ℕ)
    → 0 < end
    → IsFree end k free
    → page_ok end v ≡ true
    → count v free ≡ 0
    → (k' : Kmem) × (kfree end v k ≡ some k') × IsFree end k' (v ∷ free)
unfolding Chain freed
kfree-IsFree end v k free pos h good new = (
  freed v k,
  kfree-freed end v k good,
  record {
    chain = (
      refl,
      ground arith,
      subst (λ p. Chain (freed v k).memory p free) (sym (freed-link v k))
          (Chain-frame k.memory (freed v k).memory k.freelist free
            (λ w c. freed-same end v w k good (h.pages w c) (ground arith)) h.chain),
    );
    once = λ w. ground (arith, h.once w);
    pages = λ w c. ground (arith, h.pages w);
  },
)

kalloc-taken :
    (k : Kmem) (v : ℕ) → k.freelist ≡ v → v ≢ 0 → kalloc k ≡ (v, record k { freelist = k.memory v })
unfolding kalloc
kalloc-taken k v e nonzero = ground (arith, e)

-- The page given out is the first one of the list.
pub kalloc-IsFree :
    (end : ℕ) (k : Kmem) (v : ℕ) (free : List ℕ)
    → IsFree end k (v ∷ free)
    → (v ≢ 0) × (k' : Kmem) × (kalloc k ≡ (v, k')) × IsFree end k' free
unfolding Chain
kalloc-IsFree end k v free h =
    let (e, nonzero, rest) = h.chain in
    (
      nonzero,
      record k { freelist = k.memory v },
      kalloc-taken k v e nonzero,
      record {
        chain = rest;
        once = λ w. ground (arith, h.once w);
        pages = λ w c. h.pages w (ground arith);
      },
    )

-- Without a free page it is 0.
pub kalloc_none : (end : ℕ) (k : Kmem) → IsFree end k [] → kalloc k ≡ (0, k)
unfolding kalloc Chain
kalloc_none end k h = ground (arith, h.chain)
