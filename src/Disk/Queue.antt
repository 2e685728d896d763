-- ===== src/Disk/Queue.antt =====
-- The queue as a list.
use ztl_os.Buffers.Order.{All-remove}
use ztl_os.Base.{◌⊎◌}
use ztl_os.Base.{◌∙◌}
use ztl_os.Base.{sym}
use ztl_os.Base.{update_self}
use ztl_os.Base.{update_ne}
use ztl_os.Base.{subst}
use ztl_os.Base.{
  ℕ, zero, suc, ◌≡◌, ◌≢◌, ◌<◌, ◌≤◌, List, [], ◌∷◌, ◌++◌, Option, none, some, All, arith, refl,
  length, update, inl, inr, Bool-cases, ◌==◌,
}
use ztl_os.Buffers.Ring.{Apart}
use ztl_os.Buffers.Order.{remove, Among, here, there, Apart-remove, length-remove}
use ztl_os.Disk.{put_behind}

unfoldable pub Queued : (ℕ → Option ℕ) → Option ℕ → List ℕ → Type 0
Queued qnext q [] = q ≡ none
Queued qnext q (x ∷ xs) = (q ≡ some x) × Queued qnext (qnext x) xs

-- Links of others do not matter.
pub Queued-update :
    (qnext : ℕ → Option ℕ) (q : Option ℕ) (xs : List ℕ) (b : ℕ) (n : Option ℕ)
    → All (λ x. x ≢ b) xs
    → Queued qnext q xs
    → Queued (update qnext b n) q xs
unfolding Queued
Queued-update qnext q [] b n a h = h
Queued-update qnext q (x ∷ xs) b n a h = (
  h.0,
  subst (λ r. Queued (update qnext b n) r xs) (sym (update_ne qnext b n x a.0))
      (Queued-update qnext (qnext x) xs b n a.1 h.1),
)

behind_end :
    (fuel a b : ℕ) (qnext : ℕ → Option ℕ)
    → qnext a ≡ none
    → put_behind (suc fuel) a b qnext ≡ update qnext a (some b)
unfolding put_behind
behind_end fuel a b qnext e = rw (e, put_behind) refl

behind_next :
    (fuel a b x : ℕ) (qnext : ℕ → Option ℕ)
    → qnext a ≡ some x
    → put_behind (suc fuel) a b qnext ≡ put_behind fuel x b qnext
unfolding put_behind
behind_next fuel a b x qnext e = rw (e, put_behind) refl

-- `put_behind` leaves the links of what comes before it.
behind_off :
    (fuel a b y : ℕ) (qnext : ℕ → Option ℕ) (xs : List ℕ)
    → y ≢ a
    → length xs < fuel
    → All (λ x. x ≢ y) xs
    → Queued qnext (qnext a) xs
    → put_behind fuel a b qnext y ≡ qnext y
unfolding Queued
behind_off zero a b y qnext xs n l h q = absurd (omega arith)
behind_off (suc fuel) a b y qnext [] n l h q =
    rw (behind_end fuel a b qnext q) (update_ne qnext a (some b) y n)
behind_off (suc fuel) a b y qnext (x ∷ xs) n l h q =
    rw (behind_next fuel a b x qnext q.0)
      (behind_off fuel x b y qnext xs (λ e. h.0 (sym e)) (omega (arith, l)) h.1 q.1)

-- It puts the buffer behind the others.
pub put_behind-Queued :
    (fuel a b : ℕ) (qnext : ℕ → Option ℕ) (xs : List ℕ)
    → length xs < fuel
    → Apart (a ∷ xs)
    → All (λ x. x ≢ b) (a ∷ xs)
    → qnext b ≡ none
    → Queued qnext (qnext a) xs
    → Queued (put_behind fuel a b qnext) (put_behind fuel a b qnext a) (xs ++ b ∷ [])
unfolding Queued Apart
put_behind-Queued zero a b qnext xs l d m e q = absurd (omega arith)
put_behind-Queued (suc fuel) a b qnext [] l d m e q =
    rw (behind_end fuel a b qnext q)
      (update_self qnext a (some b), update_ne qnext a (some b) b (λ r. m.0 (sym r)) ∙ e)
put_behind-Queued (suc fuel) a b qnext (x ∷ xs) l d m e q =
    subst (λ f. Queued f (f a) (x ∷ (xs ++ b ∷ []))) (sym (behind_next fuel a b x qnext q.0))
      (
        behind_off fuel x b a qnext xs (λ r. d.0.0 (sym r)) (omega (arith, l)) d.0.1 q.1 ∙ q.0,
        put_behind-Queued fuel x b qnext xs (omega (arith, l)) d.1 m.1 e q.1,
      )

-- Whether a number is in a list.
member : (n : ℕ) (xs : List ℕ) → Among n xs ⊎ All (λ x. x ≢ n) xs
member n [] = inr tt
member n (x ∷ xs) = elim (Bool-cases (x == n)) [
  | inl same ↦ inl (here (ground (arith, same)))
  | inr other ↦ elim (member n xs) [
    | inl m ↦ inl (there m)
    | inr m ↦ inr (ground (arith, other), m)
  ]
]

lower : (n : ℕ) (xs : List ℕ) → All (λ x. x < suc n) xs → All (λ x. x ≢ n) xs → All (λ x. x < n) xs
lower n [] h k = tt
lower n (x ∷ xs) h k = (ground (arith, h.0, k.0), lower n xs h.1 k.1)

-- A list of different numbers is not longer than there are numbers.
pub length-Apart : (n : ℕ) (xs : List ℕ) → Apart xs → All (λ x. x < n) xs → length xs ≤ n
unfolding Apart
length-Apart zero [] d h = omega arith
length-Apart zero (x ∷ xs) d h = absurd (omega (arith, h.0))
length-Apart (suc n) xs d h = elim (member n xs) [
  | inl m ↦
      let r = Apart-remove n xs d in
      let few =
        length-Apart n (remove n xs) r.0
          (lower n (remove n xs) (All-remove (λ x. x < suc n) n xs h) (r.1 m)) in
      omega (arith, few, length-remove n xs m)
  | inr m ↦ omega (arith, length-Apart n xs d (lower n xs h m))
]
