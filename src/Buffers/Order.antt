-- ===== src/Buffers/Order.antt =====
-- The buffers in the order of their last use.
use ztl_os.Base.{◌∙◌}
use ztl_os.Base.{◌≢◌}
use ztl_os.Base.{refl}
use ztl_os.Base.{ap}
use ztl_os.Base.{Bool-cases}
use ztl_os.Base.{
  List, [], ◌∷◌, ◌++◌, ℕ, suc, if◌then◌else◌, ◌==◌, ◌≡◌, ◌<◌, inl, inr, All, length, arith,
}
use ztl_os.Buffers.{Links, head, nbuf, link_first, unlink}
use ztl_os.Buffers.Ring.{Linked, Apart, unlink-Linked, link_first-Linked}

-- Taken out of a list.
unfoldable pub remove : ℕ → List ℕ → List ℕ
remove b [] = []
remove b (x ∷ xs) = let rest = remove b xs in if x == b then xs else x ∷ rest

pub data Among (b : ℕ) : List ℕ → Type 0 where
  here : {x : ℕ} {xs : List ℕ} → x ≡ b → Among b (x ∷ xs)
  there : {x : ℕ} {xs : List ℕ} → Among b xs → Among b (x ∷ xs)

record Split (b : ℕ) (xs : List ℕ) : Type 0 where
  before : List ℕ
  behind : List ℕ
  parts : xs ≡ before ++ b ∷ behind
  removed : remove b xs ≡ before ++ behind

split : (b : ℕ) (xs : List ℕ) → Among b xs → Split b xs
unfolding remove
split b [] a = elim a [ ]
split b (x ∷ xs) (here e) = record {
  before = [];
  behind = xs;
  parts = ap (λ t. t ∷ xs) e;
  removed = ground (arith, e);
}
split b (x ∷ xs) (there a) = elim (Bool-cases (x == b)) [
  | inl same ↦ record {
    before = [];
    behind = xs;
    parts = ap (λ t. t ∷ xs) (ground (arith, same));
    removed = rw same refl;
  }
  | inr other ↦
      let s = split b xs a in
      record {
        before = x ∷ s.before;
        behind = s.behind;
        parts = ap (λ t. x ∷ t) s.parts;
        removed = rw other (ap (λ t. x ∷ t) s.removed);
      }
]

pub All-remove : (P : ℕ → Type 0) (b : ℕ) (xs : List ℕ) → All P xs → All P (remove b xs)
unfolding remove
All-remove P b [] h = tt
All-remove P b (x ∷ xs) h = elim (Bool-cases (x == b)) [
  | inl same ↦ rw same (h.1)
  | inr other ↦ rw other (h.0, All-remove P b xs h.1)
]

pub Apart-remove :
    (b : ℕ) (xs : List ℕ)
    → Apart xs
    → Apart (remove b xs) × (Among b xs → All (λ j. j ≢ b) (remove b xs))
unfolding remove Apart
Apart-remove b [] h = (tt, λ a. elim a [ ])
Apart-remove b (x ∷ xs) h =
    let r = Apart-remove b xs h.1 in
    elim (Bool-cases (x == b)) [
      | inl same ↦ let e : x ≡ b = ground (arith, same) in rw same (h.1, λ a. rw e at h.0)
      | inr other ↦ rw other (
        (All-remove (λ y. y ≢ x) b xs h.0, r.0),
        λ a. (
          ground (arith, other),
          r.1 (elim a [ here e ↦ absurd (ground (arith, e, other)) | there k ↦ k ]),
        ),
      )
    ]

Among-moved : (b j : ℕ) (xs : List ℕ) → Among j xs → Among j (b ∷ remove b xs)
unfolding remove
Among-moved b j [] a = elim a [ ]
Among-moved b j (x ∷ xs) a = elim (Bool-cases (x == b)) [
  | inl same ↦ let e : b ≡ x = ground (arith, same) in rw (same, e) a
  | inr other ↦ elim a [
    | here e ↦ rw other (there (here e))
    | there k ↦ elim (Among-moved b j xs k) [
      | here e ↦ here e
      | there m ↦ rw other (there (there m))
    ]
  ]
]

pub length-remove : (b : ℕ) (xs : List ℕ) → Among b xs → suc (length (remove b xs)) ≡ length xs
unfolding remove
length-remove b [] a = elim a [ ]
length-remove b (x ∷ xs) a = elim (Bool-cases (x == b)) [
  | inl same ↦ rw same refl
  | inr other ↦ elim a [
    | here e ↦ absurd (ground (arith, e, other))
    | there k ↦ rw other (ap suc (length-remove b xs k))
  ]
]

-- The links lead through every buffer once, in this order.
pub record IsRing (l : Links) (order : List ℕ) : Type 0 where
  pub linked : Linked l head order head
  pub apart : Apart (head ∷ order)
  pub size : length order ≡ nbuf
  pub bounded : All (λ b. b < nbuf) order
  pub every : (b : ℕ) → b < nbuf → Among b order

-- A buffer is moved to the front.
pub moved-IsRing :
    (b : ℕ) (l : Links) (order : List ℕ)
    → b < nbuf
    → IsRing l order
    → IsRing (link_first b (unlink b l)) (b ∷ remove b order)
unfolding Apart
moved-IsRing b l order n r =
    let a = r.every b n in
    let s = split b order a in
    let unlinked : Linked (unlink b l) head (remove b order) head =
      rw (s.removed) (
        unlink-Linked b l s.before s.behind (rw (s.parts) at r.apart) (rw (s.parts) at r.linked)) in
    let d = Apart-remove b order r.apart.1 in
    let apart : Apart (head ∷ b ∷ remove b order) =
      ((omega (arith, n), All-remove (λ y. y ≢ head) b order r.apart.0), (d.1 a, d.0)) in
    record {
      linked = link_first-Linked b (unlink b l) (remove b order) apart unlinked;
      apart = apart;
      size = length-remove b order a ∙ r.size;
      bounded = (n, All-remove (λ j. j < nbuf) b order r.bounded);
      every = λ j m. Among-moved b j order (r.every j m);
    }
