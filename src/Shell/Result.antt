-- ===== src/Shell/Result.antt =====
-- How a parse ends.
use ztl_os.Base.{◌≡◌, refl, Bool, true, false, if◌then◌else◌}

-- `panics` is a call of `panic`, which ends the process; `out_of_fuel` has no counterpart in the
-- shell.
pub data Result {ℓ} (A : Type ℓ) : Type ℓ where
  ok : A → Result A
  panics : Result A
  out_of_fuel : Result A

abbrev pub bind {ℓ κ} : {A : Type ℓ} {B : Type κ} → Result A → (A → Result B) → Result B
bind (ok a) f = f a
bind panics f = panics
bind out_of_fuel f = out_of_fuel

-- The fuel was enough, and what is returned has the property.
pub data Ends {ℓ κ} {A : Type ℓ} (P : A → Type κ) : Result A → Type (ℓ ⊔ κ) where
  returns : {a : A} → P a → Ends P (ok a)
  stops : Ends P panics

module _ {ℓ κ} {A : Type ℓ} {P : A → Type κ} where
  pub Ends-if :
      (b : Bool) {x y : Result A}
      → (b ≡ true → Ends P x)
      → (b ≡ false → Ends P y)
      → Ends P (if b then x else y)
  Ends-if true hx hy = hx refl
  Ends-if false hx hy = hy refl

  pub Ends-bind {ℓ' κ'} :
      {B : Type ℓ'} {Q : B → Type κ'} {r : Result A} {f : A → Result B}
      → Ends P r
      → ((a : A) → P a → Ends Q (f a))
      → Ends Q (bind r f)
  Ends-bind (returns {a} h) k = k a h
  Ends-bind stops k = stops

  pub Ends-weaken {κ'} :
      {Q : A → Type κ'} {r : Result A} → ((a : A) → P a → Q a) → Ends P r → Ends Q r
  Ends-weaken f (returns {a} h) = returns (f a h)
  Ends-weaken f stops = stops
