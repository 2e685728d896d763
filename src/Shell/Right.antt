-- ===== src/Shell/Right.antt =====
-- What a part of the parser does that is right whenever it has enough fuel.
use ztl_os.Base.{◌≡◌, List, ℕ}
use ztl_os.Shell.{Cmd}
use ztl_os.Shell.Result.{Result, ok, out_of_fuel, bind}
use ztl_os.Shell.Printer.{Form, form}

-- Too little fuel, or what is right; never a syntax error.
pub data Right {ℓ κ} {A : Type ℓ} (P : A → Type κ) : Result A → Type (ℓ ⊔ κ) where
  right : {a : A} → P a → Right P (ok a)
  too_little : Right P out_of_fuel

module _ {ℓ κ ℓ' κ'} {A : Type ℓ} {P : A → Type κ} {B : Type ℓ'} {Q : B → Type κ'} where
  pub Right-bind :
      {r : Result A} {f : A → Result B}
      → Right P r
      → ((a : A) → P a → Right Q (f a))
      → Right Q (bind r f)
  Right-bind (right {a} p) k = k a p
  Right-bind too_little k = too_little

module _ {ℓ κ κ'} {A : Type ℓ} {P : A → Type κ} {Q : A → Type κ'} where
  pub Right-weaken : {r : Result A} → ((a : A) → P a → Q a) → Right P r → Right Q r
  Right-weaken f (right {a} p) = right (f a p)
  Right-weaken f too_little = too_little

-- The command means `f`, and the rest of the line is left.
pub record Means (f : Form) (rest : List ℕ) (r : Cmd × List ℕ) : Type 0 where
  pub left : r.1 ≡ rest
  pub means : form r.0 ≡ f
