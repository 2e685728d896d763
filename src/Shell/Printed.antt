-- ===== src/Shell/Printed.antt =====
-- The tokens of a line that was written out.
use ztl_os.Base.{ℕ, ◌≡◌, refl, ap, arith, true, false, not, ◌&&◌, List, [], ◌∷◌, ◌++◌, ◌==◌, All}
use ztl_os.Shell.{
  strchr, whitespace, symbols, at, skip_white, skip_word, scan_token, scan_greater, is_single,
  gettoken, peek, letter_a, greater, plus,
}
use ztl_os.Shell.Tokens.{ordinary}
use ztl_os.Shell.Arguments.{leading_word}
use ztl_os.Shell.Printer.{space, IsText, is_text}

-- What follows does not begin with white space.
unfoldable pub Clean : List ℕ → Type 0
Clean s = skip_white s ≡ s

Clean-cons : (c : ℕ) (s : List ℕ) → strchr whitespace c ≡ false → Clean (c ∷ s)
unfolding Clean skip_white
Clean-cons c s h = rw h refl

pub Clean-text : {t : List ℕ} (s : List ℕ) → IsText t → Clean (t ++ s)
Clean-text {t} s (is_text {c} {s = r} o a) = Clean-cons c (r ++ s) (ground (arith, o))

pub Clean-symbol : (c : ℕ) (s : List ℕ) → strchr symbols c ≡ true → Clean (c ∷ s)
unfolding strchr
Clean-symbol c s h = Clean-cons c s (ground (arith, h))

skip_space : (s : List ℕ) → Clean s → skip_white (space ∷ s) ≡ s
unfolding skip_white strchr Clean
skip_space s h = h

-- On a clean line `peek` stays.
pub peek-Clean :
    (toks s : List ℕ) → Clean s → peek toks s ≡ (not (at s == 0) && strchr toks (at s), s)
unfolding peek Clean
peek-Clean toks s h = rw h refl

skip_text : (t s : List ℕ) → All (λ d. ordinary d ≡ true) t → skip_word (t ++ space ∷ s) ≡ space ∷ s
unfolding skip_word strchr
skip_text [] s a = refl
skip_text (c ∷ t) s a = rw (a.0) (skip_text t s a.1)

leading_text : (t s : List ℕ) → All (λ d. ordinary d ≡ true) t → leading_word (t ++ space ∷ s) ≡ t
unfolding leading_word strchr
leading_text [] s a = refl
leading_text (c ∷ t) s a = rw (a.0) (ap (λ r. c ∷ r) (leading_text t s a.1))

pub leading_word-text : {t : List ℕ} (s : List ℕ) → IsText t → leading_word (t ++ space ∷ s) ≡ t
unfolding leading_word
leading_word-text {t} s (is_text {c} {s = r} o a) = rw o (ap (λ r. c ∷ r) (leading_text r s a))

-- A word is read as a word.
pub record IsWord (t s : List ℕ) : Type 0 where
  pub ret : (gettoken (t ++ space ∷ s)).ret ≡ letter_a
  pub begins : (gettoken (t ++ space ∷ s)).word.q ≡ t ++ space ∷ s
  pub rest : (gettoken (t ++ space ∷ s)).rest ≡ s

word_byte : (c : ℕ) → ordinary c ≡ true → (is_single c ≡ false) × ((c == greater) ≡ false)
unfolding strchr
word_byte c o = (ground (arith, o), ground (arith, o))

scan_text :
    (c : ℕ) (t s : List ℕ)
    → ordinary c ≡ true
    → All (λ d. ordinary d ≡ true) t
    → scan_token (c ∷ (t ++ space ∷ s)) ≡ (letter_a, space ∷ s)
unfolding scan_token
scan_text c t s o a =
    let byte = word_byte c o in
    rw (byte.0, byte.1) (ap (λ e. (letter_a, e)) (skip_text (c ∷ t) s (o, a)))

pub gettoken-text : {t : List ℕ} (s : List ℕ) → IsText t → Clean s → IsWord t s
unfolding gettoken Clean
gettoken-text {t} s (is_text {c} {s = r} o a) h =
    let clean = Clean-text (space ∷ s) (is_text o a) in
    let scanned = scan_text c r s o a in
    record {
      ret = rw (clean, scanned) refl;
      begins = clean;
      rest = rw (clean, scanned) (skip_space s h);
    }

-- A symbol is read as itself.
pub gettoken-single :
    (c : ℕ) (s : List ℕ)
    → is_single c ≡ true
    → Clean s
    → (gettoken (c ∷ space ∷ s)).ret ≡ c × ((gettoken (c ∷ space ∷ s)).rest ≡ s)
unfolding gettoken Clean scan_token strchr
gettoken-single c s single h =
    let clean = Clean-symbol c (space ∷ s) (ground (arith, single)) in
    let scanned : scan_token (c ∷ space ∷ s) ≡ (c, space ∷ s) = rw single refl in
    (rw (clean, scanned) refl, rw (clean, scanned) (skip_space s h))

-- So is a doubled >.
pub gettoken-greater :
    (s : List ℕ)
    → Clean s
    → ((gettoken (greater ∷ space ∷ s)).ret ≡ greater)
      × ((gettoken (greater ∷ space ∷ s)).rest ≡ s)
      × ((gettoken (greater ∷ greater ∷ space ∷ s)).ret ≡ plus)
      × ((gettoken (greater ∷ greater ∷ space ∷ s)).rest ≡ s)
unfolding gettoken skip_white scan_token scan_greater strchr Clean
gettoken-greater s h = (refl, h, refl, h)
