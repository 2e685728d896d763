-- ===== src/Console/Window.antt =====
-- The bytes that the buffer holds from an index on.
use ztl_os.Base.{
  sym, subst, ◌∙◌, update_self, update_ne, ap, ◌≢◌, ℕ, zero, suc, ◌+◌, ◌%◌, ◌≤◌, ◌<◌, ◌≡◌, arith,
  List, [], ◌∷◌, ◌++◌, update, u32_mod, length,
}
use ztl_os.Console.{input_buf, next}

-- From index `i` on the buffer holds these bytes.
unfoldable pub Window : (ℕ → ℕ) → ℕ → List ℕ → Type 0
Window buf i [] = Unit
Window buf i (c ∷ cs) = (buf (i % input_buf) ≡ c) × Window buf (next i) cs

-- the index `n` places on
abbrev pub ahead : ℕ → ℕ → ℕ
ahead i n = (i + n) % u32_mod

ahead-next : (i d : ℕ) → ahead (next i) d ≡ ahead i (suc d)
ahead-next i d = omega arith

ahead_apart :
    (i d : ℕ) → i < u32_mod → suc d < input_buf → i % input_buf ≢ ahead i (suc d) % input_buf
ahead_apart i d a b = omega arith

ahead_here : (i : ℕ) → i < u32_mod → ahead i 0 ≡ i
ahead_here i a = omega arith

pub Window-update :
    (buf : ℕ → ℕ) (i d v : ℕ) (cs : List ℕ)
    → i < u32_mod
    → length cs ≤ d
    → d < input_buf
    → Window buf i cs
    → Window (update buf (ahead i d % input_buf) v) i cs
unfolding Window
Window-update buf i d v [] a b c h = tt
Window-update buf i zero v (x ∷ xs) a b c h = absurd (omega (arith, b))
Window-update buf i (suc d) v (x ∷ xs) a b c h = (
  update_ne buf (ahead i (suc d) % input_buf) v (i % input_buf) (ahead_apart i d a c) ∙ h.0,
  subst (λ j. Window (update buf (j % input_buf) v) (next i) xs) (ahead-next i d)
      (Window-update buf (next i) d v xs (omega arith) (omega (arith, b)) (omega arith) h.1),
)

pub Window-snoc :
    (buf : ℕ → ℕ) (i v : ℕ) (cs : List ℕ)
    → i < u32_mod
    → length cs < input_buf
    → Window buf i cs
    → Window (update buf (ahead i (length cs) % input_buf) v) i (cs ++ v ∷ [])
unfolding Window
Window-snoc buf i v [] a b h = (rw (ahead_here i a) (update_self buf (i % input_buf) v), tt)
Window-snoc buf i v (x ∷ xs) a b h = (
  update_ne buf (ahead i (suc (length xs)) % input_buf) v (i % input_buf)
        (ahead_apart i (length xs) a b)
      ∙ h.0,
  subst (λ j. Window (update buf (j % input_buf) v) (next i) (xs ++ v ∷ []))
      (ahead-next i (length xs))
      (Window-snoc buf (next i) v xs (omega arith) (omega (arith, b)) h.1),
)

pub Window-init : (buf : ℕ → ℕ) (i : ℕ) (cs ds : List ℕ) → Window buf i (cs ++ ds) → Window buf i cs
unfolding Window
Window-init buf i [] ds h = tt
Window-init buf i (c ∷ cs) ds h = (h.0, Window-init buf (next i) cs ds h.1)

pub Window-last :
    (buf : ℕ → ℕ) (i v : ℕ) (cs : List ℕ)
    → i < u32_mod
    → Window buf i (cs ++ v ∷ [])
    → buf (ahead i (length cs) % input_buf) ≡ v
unfolding Window
Window-last buf i v [] a h = ap (λ j. buf (j % input_buf)) (ahead_here i a) ∙ h.0
Window-last buf i v (c ∷ cs) a h =
    ap (λ j. buf (j % input_buf)) (sym (ahead-next i (length cs)))
    ∙ Window-last buf (next i) v cs (omega arith) h.1
