-- ===== src/Buffers/Ring.antt =====
-- The circular list of the buffers, in both directions.
use ztl_os.Base.{refl}
use ztl_os.Base.{arith}
use ztl_os.Base.{update_ne}
use ztl_os.Base.{All-append_right}
use ztl_os.Base.{update_self}
use ztl_os.Base.{update}
use ztl_os.Base.{append-nil}
use ztl_os.Base.{All-append_left}
use ztl_os.Base.{[], sym}
use ztl_os.Base.{[], ◌≢◌}
use ztl_os.Base.{[], ◌∙◌}
use ztl_os.Base.{[], subst}
use ztl_os.Base.{[], ◌∷◌}
use ztl_os.Base.{[], ◌++◌}
use ztl_os.Base.{[], All}
use ztl_os.Base.{[], List}
use ztl_os.Base.{[], ℕ, ◌≡◌}
use ztl_os.Buffers.{Links, head, link_first, unlink}

-- From `a` to `z` along the links there are `xs`, and back along `prev`.
unfoldable pub Linked : Links → ℕ → List ℕ → ℕ → Type 0
Linked l a [] z = (l.next a ≡ z) × (l.prev z ≡ a)
Linked l a (x ∷ xs) z = (l.next a ≡ x) × (l.prev x ≡ a) × Linked l x xs z

-- No element occurs twice.
unfoldable pub Apart : List ℕ → Type 0
Apart [] = Unit
Apart (x ∷ xs) = All (λ y. y ≢ x) xs × Apart xs

Linked-append :
    (l : Links) (a : ℕ) (xs : List ℕ) (b : ℕ) (ys : List ℕ) (z : ℕ)
    → Linked l a (xs ++ b ∷ ys) z
    → Linked l a xs b × Linked l b ys z
unfolding Linked
Linked-append l a [] b ys z h = ((h.0, h.1), h.2)
Linked-append l a (x ∷ xs) b ys z h =
    let r = Linked-append l x xs b ys z h.2 in ((h.0, h.1, r.0), r.1)

Linked-join :
    (l : Links) (a : ℕ) (xs : List ℕ) (b : ℕ) (ys : List ℕ) (z : ℕ)
    → Linked l a xs b
    → Linked l b ys z
    → Linked l a (xs ++ b ∷ ys) z
unfolding Linked
Linked-join l a [] b ys z h k = (h.0, h.1, k)
Linked-join l a (x ∷ xs) b ys z h k = (h.0, h.1, Linked-join l x xs b ys z h.2 k)

-- Links that agree.
Linked-frame :
    (l l' : Links) (a : ℕ) (xs : List ℕ) (z : ℕ)
    → All (λ j. l'.next j ≡ l.next j) (a ∷ xs)
    → All (λ j. l'.prev j ≡ l.prev j) (z ∷ xs)
    → Linked l a xs z
    → Linked l' a xs z
unfolding Linked
Linked-frame l l' a [] z n p h = (n.0 ∙ h.0, p.0 ∙ h.1)
Linked-frame l l' a (x ∷ xs) z n p h =
    (n.0 ∙ h.0, p.1.0 ∙ h.1, Linked-frame l l' x xs z n.1 (p.0, p.1.1) h.2)

-- What precedes `z` is `a` or one of `xs`.
prev_all :
    (P : ℕ → Type 0) (l : Links) (a : ℕ) (xs : List ℕ) (z : ℕ)
    → All P (a ∷ xs)
    → Linked l a xs z
    → P (l.prev z)
unfolding Linked
prev_all P l a [] z h k = subst P (sym k.1) h.0
prev_all P l a (x ∷ xs) z h k = prev_all P l x xs z h.1 k.2

All-map : {P Q : ℕ → Type 0} (xs : List ℕ) → ((x : ℕ) → P x → Q x) → All P xs → All Q xs
All-map [] f h = tt
All-map (x ∷ xs) f h = (f x h.0, All-map xs f h.1)

All-both :
    {P Q R : ℕ → Type 0} (xs : List ℕ)
    → ((x : ℕ) → P x → Q x → R x)
    → All P xs
    → All Q xs
    → All R xs
All-both [] f h k = tt
All-both (x ∷ xs) f h k = (f x h.0 k.0, All-both xs f h.1 k.1)

module _ (l l' : Links) (b : ℕ) where
  abbrev Next : (p n : ℕ) → Type 0
  Next p n = (l'.next p ≡ n) × ((j : ℕ) → j ≢ p → l'.next j ≡ l.next j)

  abbrev Prev : (p n : ℕ) → Type 0
  Prev p n = (l'.prev n ≡ p) × ((j : ℕ) → j ≢ n → l'.prev j ≡ l.prev j)

  -- The last link of a stretch is led to `n`.
  relink :
      (a : ℕ) (xs : List ℕ) (n : ℕ)
      → Apart (a ∷ xs)
      → All (λ j. j ≢ n) xs
      → Next (l.prev b) n
      → Prev (l.prev b) n
      → Linked l a xs b
      → Linked l' a xs n
  unfolding Linked Apart
  relink a [] n d m f g h = (rw (h.1) at f.0, g.0 ∙ h.1)
  relink a (x ∷ xs) n d m f g h =
      let last : l.prev b ≢ a = prev_all (λ j. j ≢ a) l x xs b d.0 h.2 in
      (f.1 a (λ e. last (sym e)) ∙ h.0, g.1 x m.0 ∙ h.1, relink x xs n d.1 m.1 f g h.2)

unlink_next : (b : ℕ) (l : Links) → l.next b ≢ b → Next l (unlink b l) b (l.prev b) (l.next b)
unfolding unlink
unlink_next b l h =
    let same : update l.prev (l.next b) (l.prev b) b ≡ l.prev b =
      update_ne l.prev (l.next b) (l.prev b) b (λ e. h (sym e)) in
    rw same
      (update_self l.next (l.prev b) (l.next b), λ j n. update_ne l.next (l.prev b) (l.next b) j n)

unlink_prev : (b : ℕ) (l : Links) → Prev l (unlink b l) b (l.prev b) (l.next b)
unfolding unlink
unlink_prev b l =
    (update_self l.prev (l.next b) (l.prev b), λ j n. update_ne l.prev (l.next b) (l.prev b) j n)

-- Two parts of a list without repetitions.
record Parts (xs ys : List ℕ) : Type 0 where
  first : Apart xs
  second : Apart ys
  between : All (λ x. All (λ y. y ≢ x) ys) xs

Apart-append : (xs ys : List ℕ) → Apart (xs ++ ys) → Parts xs ys
unfolding Apart
Apart-append [] ys h = record { first = tt; second = h; between = tt }
Apart-append (x ∷ xs) ys h =
    let r = Apart-append xs ys h.1 in
    record {
      first = (All-append_left (λ y. y ≢ x) xs ys h.0, r.first);
      second = r.second;
      between = (All-append_right (λ y. y ≢ x) xs ys h.0, r.between);
    }

-- `unlink` takes a buffer out of the list.
pub unlink-Linked :
    (b : ℕ) (l : Links) (ys zs : List ℕ)
    → Apart (head ∷ (ys ++ b ∷ zs))
    → Linked l head (ys ++ b ∷ zs) head
    → Linked (unlink b l) head (ys ++ zs) head
unfolding Linked Apart
unlink-Linked b l ys [] d h =
    let p = Apart-append (head ∷ ys) (b ∷ []) d in
    let r = Linked-append l head ys b [] head h in
    let at_b : l.next b ≡ head = r.1.0 in
    let other : l.next b ≢ b = λ e. (p.between.0.0) (sym e ∙ at_b) in
    rw (append-nil ys) (
      relink l (unlink b l) b head ys head p.first p.first.0 (rw at_b at (unlink_next b l other))
        (rw at_b at (unlink_prev b l)) r.0)
unlink-Linked b l ys (n ∷ zs) d h =
    let p = Apart-append (head ∷ ys) (b ∷ n ∷ zs) d in
    let r = Linked-append l head ys b (n ∷ zs) head h in
    let at_b : l.next b ≡ n = r.1.0 in
    let other : l.next b ≢ b = λ e. (p.second.0.0) (sym at_b ∙ e) in
    let f : Next l (unlink b l) b (l.prev b) n = rw at_b at (unlink_next b l other) in
    let g : Prev l (unlink b l) b (l.prev b) n = rw at_b at (unlink_prev b l) in
    let outside = prev_all (λ j. All (λ y. y ≢ j) (b ∷ n ∷ zs)) l head ys b p.between r.0 in
    let front =
      relink l (unlink b l) b head ys n p.first (All-map ys (λ j e q. e.1.0 (sym q)) p.between.1) f
        g r.0 in
    let rest =
      Linked-frame l (unlink b l) n zs head (All-map (n ∷ zs) (λ j e. f.1 j e) outside.1)
        (g.1 head (λ e. p.between.0.1.0 (sym e)), All-map zs (λ j e. g.1 j e) p.second.1.0) r.1.2 in
    Linked-join (unlink b l) head ys n zs head front rest

-- `link_first` puts a buffer in front.
pub link_first-Linked :
    (b : ℕ) (l : Links) (xs : List ℕ)
    → Apart (head ∷ b ∷ xs)
    → Linked l head xs head
    → Linked (link_first b l) head (b ∷ xs) head
unfolding Linked Apart link_first
link_first-Linked b l [] d h =
    let other : b ≢ head = d.0.0 in
    let last : l.next head ≡ head = h.0 in
    (refl, ground (arith, other, last), (ground (arith, other, last), ground (arith, other, last)))
link_first-Linked b l (x ∷ xs) d h =
    let other : b ≢ head = d.0.0 in
    let different : x ≢ b = d.1.0.0 in
    let apart : x ≢ head = d.0.1.0 in
    let at_head : l.next head ≡ x = h.0 in
    let rest =
      Linked-frame l (link_first b l) x xs head
        (All-both (x ∷ xs) (λ j m n. ground (arith, m, n)) d.0.1 d.1.0)
        (
          ground (arith, other, apart, at_head),
          All-both xs (λ j m n. ground (arith, m, n, at_head)) d.1.0.1 d.1.1.0,
        )
        h.2 in
    (
      refl,
      ground (arith, other, different, at_head),
      (ground (arith, other, at_head), ground (arith, at_head), rest),
    )
