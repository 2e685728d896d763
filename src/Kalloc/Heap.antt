-- ===== src/Kalloc/Heap.antt =====
-- The allocator together with the pages that its clients hold.
use mathlib.Core.Bool.{false≢true}
use native.Mathlib.Decide.{dec_lt}
use ztl_os.Base.{
  inr, update_ne, inl, ◌∙◌, Bool-cases, sym, subst, ℕ, ◌+◌, ◌≤◌, ◌<◌, ◌≡◌, refl, arith, Bool, true,
  false, not, ◌&&◌, ◌||◌, Option, none, some, List, [], ◌∷◌, ◌==◌, ltb, if◌then◌else◌, update,
}
use ztl_os.Kalloc.{Kmem, kfree, kalloc, page_ok, page_size}
use ztl_os.Kalloc.Chain.{count, Chain-frame, IsFree, kfree-IsFree, kalloc-IsFree, kalloc_none}

pub record Heap : Type 0 where
  pub kmem : Kmem
  pub held : List ℕ

-- A client asks for a page, frees a page, or stores a word.
pub data Op : Type 0 where
  alloc : Op
  give_back : ℕ → Op
  store : ℕ → ℕ → Op

-- an address in one of the pages
abbrev pub within : ℕ → List ℕ → Bool
within a [] = false
within a (v ∷ vs) = not (ltb a v) && ltb a (v + page_size) || within a vs

abbrev pub remove : ℕ → List ℕ → List ℕ
remove v [] = []
remove v (w ∷ ws) = let rest = remove v ws in if w == v then ws else w ∷ rest

-- Clients free and write only pages that they hold; `none` is the panic of `kfree`.
pub perform : (end : ℕ) → Op → Heap → Option Heap
perform end alloc h =
    let (p, k) = kalloc h.kmem in
    some (record { kmem = k; held = if p == 0 then h.held else p ∷ h.held })
perform end (give_back v) h =
    if ltb 0 (count v h.held)
    then elim (kfree end v h.kmem) [
      | none ↦ none
      | some k ↦ some (record { kmem = k; held = remove v h.held })
    ]
    else some h
perform end (store a x) h =
    if within a h.held
    then some (record h { kmem = record (h.kmem) { memory = update h.kmem.memory a x } })
    else some h

pub run : (end : ℕ) → List Op → Heap → Option Heap
run end [] h = some h
run end (o ∷ os) h = elim (perform end o h) [ none ↦ none | some h' ↦ run end os h' ]

-- No page is in two places.
pub record IsHeap (end : ℕ) (h : Heap) (free : List ℕ) : Type 0 where
  pub listed : IsFree end h.kmem free
  pub once : (w : ℕ) → count w free + count w h.held ≤ 1
  pub pages : (w : ℕ) → 0 < count w h.held → page_ok end w ≡ true

-- What is left of a heap after some operations: the same pages, free or held.
pub data Safe (end : ℕ) (h : Heap) (free : List ℕ) : Option Heap → Type 0 where
  safe :
      {h' : Heap} {free' : List ℕ}
      → IsHeap end h' free'
      → ((w : ℕ) → count w free' + count w h'.held ≡ count w free + count w h.held)
      → Safe end h free (some h')

count-remove :
    (v w : ℕ) (ws : List ℕ)
    → 0 < count v ws
    → count w (remove v ws) + (if v == w then 1 else 0) ≡ count w ws
count-remove v w [] c = absurd (omega (arith, c))
count-remove v w (x ∷ xs) c = ground (arith, count-remove v w xs)

within-held :
    (a : ℕ) (vs : List ℕ)
    → within a vs ≡ true
    → (v : ℕ) × (0 < count v vs) × (v ≤ a) × (a < v + page_size)
within-held a [] h = absurd (false≢true h)
within-held a (v ∷ vs) h = elim (Bool-cases (not (ltb a v) && ltb a (v + page_size))) [
  | inl here ↦ (v, ground arith, ground arith, ground arith)
  | inr there ↦
      let (w, c, low, high) = within-held a vs (ground arith) in (w, ground arith, low, high)
]

module _ (end : ℕ) (pos : 0 < end) where
  alloc-Safe :
      (h : Heap) (free : List ℕ) → IsHeap end h free → Safe end h free (perform end alloc h)
  unfolding perform
  alloc-Safe h [] s = rw (kalloc_none end h.kmem s.listed) (safe s (λ w. refl))
  alloc-Safe h (v ∷ free) s =
      let (nonzero, k, e, listed) = kalloc-IsFree end h.kmem v free s.listed in
      let given : perform end alloc h ≡ some (record { kmem = k; held = v ∷ h.held }) =
        ground (arith, e) in
      subst (Safe end h (v ∷ free)) (sym given) (
        safe {free' = free}
          (record {
            listed = listed;
            once = λ w. ground (arith, s.once w);
            pages = λ w c. ground (arith, s.pages w, s.listed.pages w);
          })
          (λ w. ground arith))

  give_back-Safe :
      (v : ℕ) (h : Heap) (free : List ℕ)
      → IsHeap end h free
      → Safe end h free (perform end (give_back v) h)
  unfolding perform
  give_back-Safe v h free s = elim (dec_lt 0 (count v h.held)) [
    | yes c ↦
        let (k, e, listed) =
          kfree-IsFree end v h.kmem free pos s.listed (s.pages v c) (omega (arith, s.once v)) in
        let back : perform end (give_back v) h
            ≡ some (record { kmem = k; held = remove v h.held }) =
          ground (arith, e) in
        subst (Safe end h free) (sym back) (
          safe {free' = v ∷ free}
            (record {
              listed = listed;
              once = λ w. ground (arith, s.once w, count-remove v w h.held c);
              pages = λ w d. s.pages w (omega (arith, count-remove v w h.held c));
            })
            (λ w. ground (arith, count-remove v w h.held c)))
    | no c ↦
        let kept : perform end (give_back v) h ≡ some h = ground arith in
        subst (Safe end h free) (sym kept) (safe s (λ w. refl))
  ]

  store-Safe :
      (a x : ℕ) (h : Heap) (free : List ℕ)
      → IsHeap end h free
      → Safe end h free (perform end (store a x) h)
  unfolding perform
  store-Safe a x h free s = elim (Bool-cases (within a h.held)) [
    | inl inside ↦
        let (v, c, low, high) = within-held a h.held inside in
        rw inside (
          safe {free' = free}
            (record {
              listed = record {
                chain =
                    Chain-frame h.kmem.memory (update h.kmem.memory a x) h.kmem.freelist free
                      (λ w d.
                        update_ne h.kmem.memory a x w
                          (λ e. ground (arith, s.once w, s.pages v c, s.listed.pages w d)))
                      s.listed.chain;
                once = s.listed.once;
                pages = s.listed.pages;
              };
              once = s.once;
              pages = s.pages;
            })
            (λ w. refl))
    | inr outside ↦ rw outside (safe s (λ w. refl))
  ]

  perform-Safe :
      (o : Op) (h : Heap) (free : List ℕ) → IsHeap end h free → Safe end h free (perform end o h)
  perform-Safe alloc h free s = alloc-Safe h free s
  perform-Safe (give_back v) h free s = give_back-Safe v h free s
  perform-Safe (store a x) h free s = store-Safe a x h free s

joined :
    {end : ℕ} {h h' : Heap} {free free' : List ℕ} {r : Option Heap}
    → Safe end h' free' r
    → ((w : ℕ) → count w free' + count w h'.held ≡ count w free + count w h.held)
    → Safe end h free r
joined (safe s after) before = safe s (λ w. after w ∙ before w)

further :
    {end : ℕ} {h : Heap} {free : List ℕ} (k : Heap → Option Heap)
    → ((h' : Heap) (free' : List ℕ) → IsHeap end h' free' → Safe end h' free' (k h'))
    → {r : Option Heap} → Safe end h free r
    → Safe end h free (elim r [ none ↦ none | some h' ↦ k h' ])
further k f (safe {h'} {free'} s same) = joined (f h' free' s) same

-- Whatever their clients do with the pages that they hold, `kfree` does not panic, no page is held
-- twice or held while it is free, and each page that was free or held still is one of the two.
pub run-Safe :
    (end : ℕ) (os : List Op) (h : Heap) (free : List ℕ)
    → 0 < end
    → IsHeap end h free
    → Safe end h free (run end os h)
unfolding run
run-Safe end [] h free pos s = safe s (λ w. refl)
run-Safe end (o ∷ os) h free pos s =
    further (run end os) (λ h' free' s'. run-Safe end os h' free' pos s')
      (perform-Safe end pos o h free s)
