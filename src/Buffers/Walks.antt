-- ===== src/Buffers/Walks.antt =====
-- The loops of `bget` find buffers by the order of their last use.
use ztl_os.Base.{◌∙◌}
use ztl_os.Base.{sym}
use ztl_os.Base.{ap}
use ztl_os.Base.{Bool-cases}
use native.Mathlib.Nat.{zero-add}
use ztl_os.Base.{◌≢◌}
use ztl_os.Base.{
  List, [], ◌∷◌, ◌++◌, ℕ, zero, suc, true, false, Bool, if◌then◌else◌, ◌==◌, ◌≡◌, ◌<◌, ◌+◌, inl,
  inr, All, length, arith, refl,
}
use ztl_os.Buffers.{Links, head, nbuf, Search, found, missing, lost, follow}
use ztl_os.Buffers.Ring.{Linked, Apart}
use ztl_os.Buffers.Order.{IsRing}

-- The first and the last of a list that pass a test.
unfoldable pub first : (ℕ → Bool) → List ℕ → Search
first test [] = missing
first test (x ∷ xs) = let rest = first test xs in if test x then found x else rest

-- `found b`, or else what comes otherwise
abbrev or_else : Search → Search → Search
or_else (found b) s = found b
or_else missing s = s
or_else lost s = s

unfoldable pub latest : (ℕ → Bool) → List ℕ → Search
latest test [] = missing
latest test (x ∷ xs) = or_else (latest test xs) (if test x then found x else missing)

regroup :
    (s : Search) (t : Bool) (x : ℕ) (w : Search)
    → or_else s (if t then found x else w) ≡ or_else (or_else s (if t then found x else missing)) w
regroup (found b) t x w = refl
regroup missing true x w = refl
regroup missing false x w = refl
regroup lost true x w = refl
regroup lost false x w = refl

module _ (test : ℕ → Bool) (l : Links) where
  walk_on :
      (a : ℕ) (xs : List ℕ) (fuel : ℕ)
      → All (λ j. j ≢ head) xs
      → length xs < fuel
      → Linked l a xs head
      → follow l.next test fuel (l.next a) ≡ first test xs
  unfolding follow first Linked
  walk_on a xs zero n m h = absurd (omega arith)
  walk_on a [] (suc fuel) n m h = ground (arith, h.0)
  walk_on a (x ∷ xs) (suc fuel) n m h =
      let other : (x == head) ≡ false = ground (arith, n.0) in
      rw (h.0, other, walk_on x xs fuel n.1 (omega (arith, m)) h.2) refl

  walk_back :
      (a : ℕ) (xs : List ℕ) (z fuel : ℕ)
      → All (λ j. j ≢ head) xs
      → Linked l a xs z
      → follow l.prev test (length xs + fuel) (l.prev z)
        ≡ or_else (latest test xs) (follow l.prev test fuel a)
  unfolding follow latest Linked
  walk_back a [] z fuel n h = rw (h.1, zero-add) refl
  walk_back a (x ∷ xs) z fuel n h =
      let other : (x == head) ≡ false = ground (arith, n.0) in
      let e : suc (length xs) + fuel ≡ length xs + suc fuel = omega arith in
      rw (e, walk_back x xs z (suc fuel) n.1 h.2, other, h.1)
        (regroup (latest test xs) (test x) x (follow l.prev test fuel a))

-- Where a search ends, in the order of the list.
pub data First (test : ℕ → Bool) (xs : List ℕ) : Search → Type 0 where
  first_at :
      {b : ℕ} (before behind : List ℕ)
      → xs ≡ before ++ b ∷ behind
      → test b ≡ true
      → All (λ j. test j ≡ false) before
      → First test xs (found b)
  none_at_all : All (λ j. test j ≡ false) xs → First test xs missing

pub data Last (test : ℕ → Bool) (xs : List ℕ) : Search → Type 0 where
  last_at :
      {b : ℕ} (before behind : List ℕ)
      → xs ≡ before ++ b ∷ behind
      → test b ≡ true
      → All (λ j. test j ≡ false) behind
      → Last test xs (found b)
  none_at_all : All (λ j. test j ≡ false) xs → Last test xs missing

module _ (test : ℕ → Bool) where
  before_one :
      (x : ℕ) (xs : List ℕ) {s : Search} → test x ≡ false → First test xs s → First test (x ∷ xs) s
  before_one x xs f (first_at ys zs e t a) = first_at (x ∷ ys) zs (ap (λ r. x ∷ r) e) t (f, a)
  before_one x xs f (First.none_at_all a) = First.none_at_all (f, a)

  first-First : (xs : List ℕ) → First test xs (first test xs)
  unfolding first
  first-First [] = First.none_at_all tt
  first-First (x ∷ xs) = elim (Bool-cases (test x)) [
    | inl yes_x ↦ rw yes_x (first_at [] xs refl yes_x tt)
    | inr no_x ↦ rw no_x (before_one x xs no_x (first-First xs))
  ]

  behind_one :
      (x : ℕ) (xs : List ℕ) {s : Search}
      → Last test xs s
      → Last test (x ∷ xs) (or_else s (if test x then found x else missing))
  behind_one x xs (last_at ys zs e t a) = last_at (x ∷ ys) zs (ap (λ r. x ∷ r) e) t a
  behind_one x xs (Last.none_at_all a) = elim (Bool-cases (test x)) [
    | inl yes_x ↦ rw yes_x (last_at [] xs refl yes_x a)
    | inr no_x ↦ rw no_x (Last.none_at_all (no_x, a))
  ]

  latest-Last : (xs : List ℕ) → Last test xs (latest test xs)
  unfolding latest
  latest-Last [] = Last.none_at_all tt
  latest-Last (x ∷ xs) = behind_one x xs (latest-Last xs)

or_missing : (s : Search) (test : ℕ → Bool) (xs : List ℕ) → Last test xs s → or_else s missing ≡ s
or_missing s test xs (last_at ys zs e t a) = refl
or_missing s test xs (Last.none_at_all a) = refl

module _ {order : List ℕ} (l : Links) (test : ℕ → Bool) (r : IsRing l order) where
  pub follow-First : First test order (follow l.next test (nbuf + 1) (l.next head))
  unfolding Apart
  follow-First =
      rw (walk_on test l head order (nbuf + 1) r.apart.0 (omega (arith, r.size)) r.linked)
        (first-First test order)

  pub follow-Last : Last test order (follow l.prev test (nbuf + 1) (l.prev head))
  unfolding Apart follow
  follow-Last =
      let e : length order + 1 ≡ nbuf + 1 = omega (arith, r.size) in
      let eq : follow l.prev test (nbuf + 1) (l.prev head) ≡ latest test order =
        ap (λ k. follow l.prev test k (l.prev head)) (sym e)
        ∙ walk_back test l head order head 1 r.apart.0 r.linked
        ∙ or_missing (latest test order) test order (latest-Last test order) in
      rw eq (latest-Last test order)
