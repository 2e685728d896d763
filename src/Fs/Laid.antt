-- ===== src/Fs/Laid.antt =====
-- Bytes stored over the bytes of a file or of a block.
use ztl_os.Base.{
  length-drop, length-take, ℕ, zero, suc, ◌+◌, ◌-◌, ◌<◌, ◌≤◌, ◌≡◌, refl, ap, ◌∙◌, arith, List, [],
  ◌∷◌, if◌then◌else◌, update, length, take, drop, get_or,
}
use ztl_os.Strings.Move.{in_range}
use ztl_os.Fs.Transfers.{overlay}

-- Bytes laid over others, from `o` on.
unfoldable pub laid : ℕ → List ℕ → (ℕ → ℕ) → ℕ → ℕ
laid o src f i = if in_range o (length src) i then get_or src (i - o) 0 else f i

get_or-cons : (c : ℕ) (src : List ℕ) (k : ℕ) → 0 < k → get_or (c ∷ src) k 0 ≡ get_or src (k - 1) 0
get_or-cons c src zero h = absurd (omega arith)
get_or-cons c src (suc k) h = ap (λ x. get_or src x 0) (omega arith)

pub overlay_lem : (o : ℕ) (src : List ℕ) (f : ℕ → ℕ) (i : ℕ) → overlay o src f i ≡ laid o src f i
unfolding overlay laid
overlay_lem o [] f i = ground arith
overlay_lem o (c ∷ src) f i =
    let step_down : i - o - 1 ≡ i - (o + 1) = omega arith in
    overlay_lem (o + 1) src (update f o c) i ∙ ground (arith, get_or-cons c src (i - o), step_down)

pub get_or-take : (m : ℕ) (src : List ℕ) (k : ℕ) → k < m → get_or (take m src) k 0 ≡ get_or src k 0
get_or-take zero src k h = absurd (omega arith)
get_or-take (suc m) [] k h = refl
get_or-take (suc m) (c ∷ src) zero h = refl
get_or-take (suc m) (c ∷ src) (suc k) h = get_or-take m src k (omega (arith, h))

get_or-drop : (m : ℕ) (src : List ℕ) (k : ℕ) → get_or (drop m src) k 0 ≡ get_or src (m + k) 0
get_or-drop zero src k = ap (λ x. get_or src x 0) (omega arith)
get_or-drop (suc m) [] k = refl
get_or-drop (suc m) (c ∷ src) k =
    let sum : suc (m + k) ≡ suc m + k = omega arith in
    get_or-drop m src k ∙ ap (λ x. get_or (c ∷ src) x 0) sum

-- Laying bytes in two parts.
pub laid-split :
    (off m : ℕ) (src : List ℕ) (f : ℕ → ℕ) (o : ℕ)
    → m ≤ length src
    → laid (off + m) (drop m src) (laid off (take m src) f) o ≡ laid off src f o
unfolding laid
laid-split off m src f o h = ground (
  arith,
  length-take m src,
  length-drop m src,
  get_or-take m src (o - off),
  get_or-drop m src (o - (off + m)),
  h,
)
