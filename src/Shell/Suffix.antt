-- ===== src/Shell/Suffix.antt =====
-- Pointers into the same line.
use ztl_os.Base.{
  ◌∙◌, suc, ap, ◌+◌, ◌-◌, get_or, refl, ℕ, ◌≤◌, ◌≡◌, arith, subst, false, not, ◌&&◌, inl, inr, List,
  [], ◌∷◌, Bool-cases, length,
}
use ztl_os.Shell.{strchr, whitespace, symbols, at, skip_white, skip_word}

-- The first pointer is the second or stands behind it.
pub data Suffix : List ℕ → List ℕ → Type 0 where
  same : {s : List ℕ} → Suffix s s
  later : {s line : List ℕ} {c : ℕ} → Suffix s line → Suffix s (c ∷ line)

pub Suffix-trans : {a b c : List ℕ} → Suffix a b → Suffix b c → Suffix a c
Suffix-trans p same = p
Suffix-trans p (later q) = later (Suffix-trans p q)

pub length-Suffix : {a b : List ℕ} → Suffix a b → length a ≤ length b
length-Suffix same = omega arith
length-Suffix (later p) = omega (arith, length-Suffix p)

pub skip_white-Suffix : (s : List ℕ) → Suffix (skip_white s) s
unfolding skip_white
skip_white-Suffix [] = same
skip_white-Suffix (c ∷ s) = elim (Bool-cases (strchr whitespace c)) [
  | inl white ↦ rw white (later (skip_white-Suffix s))
  | inr other ↦ rw other same
]

pub skip_word-Suffix : (s : List ℕ) → Suffix (skip_word s) s
unfolding skip_word
skip_word-Suffix [] = same
skip_word-Suffix (c ∷ s) = elim (Bool-cases (not (strchr whitespace c) && not (strchr symbols c))) [
  | inl inside ↦ rw inside (later (skip_word-Suffix s))
  | inr outside ↦ rw outside same
]

-- What follows white space is none.
pub skip_white-first :
    (s : List ℕ) {c : ℕ} {rest : List ℕ} → skip_white s ≡ c ∷ rest → strchr whitespace c ≡ false
unfolding skip_white
skip_white-first [] e = ground (arith, e)
skip_white-first (x ∷ s) e = elim (Bool-cases (strchr whitespace x)) [
  | inl white ↦ skip_white-first s (rw white at e)
  | inr other ↦
      let tail : x ∷ s ≡ _ ∷ _ = rw other at e in
      subst (λ l. strchr whitespace (at l) ≡ false) tail other
]

pub nil-Suffix : (s : List ℕ) → Suffix [] s
nil-Suffix [] = same
nil-Suffix (c ∷ s) = later (nil-Suffix s)

-- Pointers with as much of the line behind them are the same.
pub Suffix-equal : {a b : List ℕ} → Suffix a b → length b ≤ length a → a ≡ b
Suffix-equal same l = refl
Suffix-equal (later p) l = absurd (omega (arith, l, length-Suffix p))

-- The bytes behind a pointer.
pub get_or-Suffix :
    {a line : List ℕ} (i : ℕ)
    → Suffix a line
    → get_or a i 0 ≡ get_or line (length line - length a + i) 0
get_or-Suffix {a} i same =
    let here : i ≡ length a - length a + i = omega arith in ap (λ j. get_or a j 0) here
get_or-Suffix {a} i (later {line} {c} p) =
    let l = length-Suffix p in
    let there : suc (length line - length a + i) ≡ suc (length line) - length a + i =
      omega (arith, l) in
    get_or-Suffix i p ∙ ap (λ j. get_or (c ∷ line) j 0) there
