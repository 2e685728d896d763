-- ===== src/Shell/Tokens.antt =====
-- What `gettoken` and `peek` do.
use ztl_os.Base.{
  ℕ, ◌<◌, ◌≡◌, ◌≢◌, refl, arith, subst, Bool, true, false, not, ◌&&◌, inl, inr, List, [], ◌∷◌, ◌==◌,
  Bool-cases, length,
}
use ztl_os.Shell.{
  Word, strchr, whitespace, symbols, at, skip_white, skip_word, scan_token, scan_greater, is_single,
  greater, gettoken, peek, letter_a,
}
use ztl_os.Shell.Suffix.{
  Suffix, same, later, Suffix-trans, length-Suffix, skip_white-Suffix, skip_word-Suffix,
  skip_white-first,
}

-- A byte of a word.
abbrev pub ordinary : ℕ → Bool
ordinary c = not (strchr whitespace c) && not (strchr symbols c)

-- A word is not empty and ends where its bytes do.
pub data IsToken : Word → Type 0 where
  is_token :
      {c : ℕ} {s : List ℕ}
      → ordinary c ≡ true
      → IsToken (record { q = c ∷ s; eq = skip_word (c ∷ s) })

scan_greater-Suffix : (s : List ℕ) → Suffix (scan_greater s).1 s
unfolding scan_greater
scan_greater-Suffix [] = same
scan_greater-Suffix (d ∷ s) = elim (Bool-cases (d == greater)) [
  | inl twice ↦ rw twice (later same)
  | inr once ↦ rw once same
]

-- A byte that is no white space is part of the token.
scan_token-shorter :
    (c : ℕ) (s : List ℕ) → strchr whitespace c ≡ false → Suffix (scan_token (c ∷ s)).1 s
unfolding scan_token strchr skip_word
scan_token-shorter c s h = elim (Bool-cases (is_single c)) [
  | inl single ↦ rw single same
  | inr other ↦ elim (Bool-cases (c == greater)) [
    | inl great ↦ rw (other, great) (scan_greater-Suffix s)
    | inr word ↦
        let inside : ordinary c ≡ true = ground (arith, other, word, h) in
        rw (other, word, inside) (skip_word-Suffix s)
  ]
]

scan_greater-ret : (s : List ℕ) → (scan_greater s).0 ≢ letter_a
unfolding scan_greater
scan_greater-ret [] e = omega (arith, e)
scan_greater-ret (d ∷ s) e = elim (Bool-cases (d == greater)) [
  | inl twice ↦ omega (arith, rw twice at e)
  | inr once ↦ omega (arith, rw once at e)
]

scan_token-word :
    (c : ℕ) (s : List ℕ)
    → strchr whitespace c ≡ false
    → (scan_token (c ∷ s)).0 ≡ letter_a
    → IsToken (record { q = c ∷ s; eq = (scan_token (c ∷ s)).1 })
unfolding scan_token scan_greater strchr
scan_token-word c s h e = elim (Bool-cases (is_single c)) [
  | inl single ↦ absurd (ground (arith, rw single at e, single))
  | inr other ↦ elim (Bool-cases (c == greater)) [
    | inl great ↦ absurd (scan_greater-ret s (rw (other, great) at e))
    | inr word ↦ rw (other, word) (is_token (ground (arith, other, word, h)))
  ]
]

skip_again : (s : List ℕ) → skip_white (skip_white s) ≡ skip_white s
unfolding skip_white
skip_again [] = refl
skip_again (c ∷ s) = elim (Bool-cases (strchr whitespace c)) [
  | inl white ↦ rw white (skip_again s)
  | inr other ↦ rw other (rw other refl)
]

-- `peek` only passes over white space.
pub peek-Suffix : (toks ps : List ℕ) → Suffix (peek toks ps).1 ps
unfolding peek
peek-Suffix toks ps = skip_white-Suffix ps

gettoken_at :
    (ps s : List ℕ)
    → skip_white ps ≡ s
    → (Suffix (skip_white (scan_token s).1) ps)
      × (at s ≢ 0 → length (skip_white (scan_token s).1) < length ps)
unfolding scan_token skip_white
gettoken_at ps [] e = (subst (λ x. Suffix x ps) e (skip_white-Suffix ps), λ n. absurd (n refl))
gettoken_at ps (c ∷ s) e =
    let there = subst (λ x. Suffix x ps) e (skip_white-Suffix ps) in
    let shorter = scan_token-shorter c s (skip_white-first ps e) in
    let rest = Suffix-trans (skip_white-Suffix (scan_token (c ∷ s)).1) shorter in
    (
      Suffix-trans rest (Suffix-trans (later same) there),
      (λ n. omega (arith, length-Suffix rest, length-Suffix there)),
    )

-- A token is passed over with the white space around it.
pub gettoken-Suffix : (ps : List ℕ) → Suffix (gettoken ps).rest ps
unfolding gettoken
gettoken-Suffix ps = (gettoken_at ps (skip_white ps) refl).0

-- Behind a `peek` that found something there is a token.
pub peek-shorter :
    (toks ps : List ℕ)
    → (peek toks ps).0 ≡ true
    → length (gettoken (peek toks ps).1).rest < length ps
unfolding peek gettoken
peek-shorter toks ps h =
    rw (skip_again ps) ((gettoken_at ps (skip_white ps) refl).1 (ground (arith, h)))

-- A word that `gettoken` returns.
pub record Reads (ps : List ℕ) : Type 0 where
  pub token : IsToken (gettoken ps).word
  pub begins : Suffix (gettoken ps).word.q ps
  pub ends : Suffix (gettoken ps).rest (gettoken ps).word.eq
  pub shorter : length (gettoken ps).rest < length ps

reads_at :
    (ps s : List ℕ)
    → skip_white ps ≡ s
    → (scan_token s).0 ≡ letter_a
    → (IsToken (record { q = s; eq = (scan_token s).1 }))
      × (length (skip_white (scan_token s).1) < length ps)
unfolding scan_token
reads_at ps [] e h = absurd (omega (arith, h))
reads_at ps (c ∷ s) e h =
    let first = skip_white-first ps e in
    let there = subst (λ x. Suffix x ps) e (skip_white-Suffix ps) in
    let rest =
      Suffix-trans (skip_white-Suffix (scan_token (c ∷ s)).1) (scan_token-shorter c s first) in
    (scan_token-word c s first h, omega (arith, length-Suffix rest, length-Suffix there))

pub gettoken-Reads : (ps : List ℕ) → (gettoken ps).ret ≡ letter_a → Reads ps
unfolding gettoken
gettoken-Reads ps h =
    let found = reads_at ps (skip_white ps) refl h in
    record {
      token = found.0;
      begins = skip_white-Suffix ps;
      ends = skip_white-Suffix (scan_token (skip_white ps)).1;
      shorter = found.1;
    }
