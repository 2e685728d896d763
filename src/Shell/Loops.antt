-- ===== src/Shell/Loops.antt =====
-- The loops of the parser end with the fuel that they have, and the words that they find do not
-- overlap.
use ztl_os.Base.{
  ℕ, zero, suc, ◌<◌, ◌≡◌, ◌⊎◌, inl, inr, arith, not, ◌||◌, List, [], ◌∷◌, ◌++◌, ◌==◌, ltb, length,
  Bool-cases,
}
use ztl_os.Shell.{
  Word, Redir, maxargs, bar, rparen, semicolon, ampersand, less, greater, plus, letter_a, gettoken,
  peek,
}
use ztl_os.Shell.Result.{Ends, returns, stops, Ends-if, Ends-bind, Ends-weaken}
use ztl_os.Shell.Suffix.{Suffix, Suffix-trans, length-Suffix}
use ztl_os.Shell.Tokens.{peek-Suffix, gettoken-Suffix, peek-shorter, Reads, gettoken-Reads}
use ztl_os.Shell.Parser.{add_redir, parseredirs, parseargs}
use ztl_os.Shell.Words.{
  IsArg, IsFile, newest, older, Between, Spread, Spread-both, Spread-lower, Spread-one, IsArg-last,
}

added : {w : Word} {r : Redir} {rs : List Redir} → IsFile w (r ∷ rs) → IsFile w rs ⊎ (r.file ≡ w)
added (newest e) = inr e
added (older h) = inl h

add_redir-IsFile :
    (t : ℕ) (u w : Word) (rs : List Redir) → IsFile w (add_redir t u rs) → IsFile w rs ⊎ (u ≡ w)
unfolding add_redir
add_redir-IsFile t u w rs h = elim (Bool-cases (t == less)) [
  | inl input ↦ added (rw input at h)
  | inr other ↦ elim (Bool-cases ((t == greater) || (t == plus))) [
    | inl output ↦ added (rw (other, output) at h)
    | inr none_of ↦ inl (rw (other, none_of) at h)
  ]
]

-- The word that follows a token of the line.
word_behind :
    (ps mid : List ℕ)
    → Suffix mid ps
    → Reads mid
    → Between (gettoken mid).rest ps (gettoken mid).word
word_behind ps mid a r = record { token = r.token; begins = Suffix-trans r.begins a; ends = r.ends }

module _ (hi : List ℕ) (Q : Word → Type 0) where
  abbrev pub Redirected : List ℕ → List Redir × List ℕ → Type 0
  Redirected ps r = Suffix r.1 ps × Spread r.1 hi (λ w. Q w ⊎ IsFile w r.0)

  pub parseredirs-Ends :
      (fuel : ℕ) (rs : List Redir) (ps : List ℕ)
      → length ps < fuel
      → Suffix ps hi
      → Spread ps hi (λ w. Q w ⊎ IsFile w rs)
      → Ends (Redirected ps) (parseredirs fuel rs ps)
  unfolding parseredirs
  parseredirs-Ends zero rs ps l a s = absurd (omega arith)
  parseredirs-Ends (suc fuel) rs ps l a s =
      let next = peek (less ∷ greater ∷ []) ps in
      let tok = gettoken next.1 in
      let name = gettoken tok.rest in
      let passed = peek-Suffix (less ∷ greater ∷ []) ps in
      let behind = Suffix-trans (gettoken-Suffix next.1) passed in
      Ends-if next.0
        (λ more.
          Ends-if (name.ret == letter_a)
            (λ word.
              let reads = gettoken-Reads tok.rest (ground (arith, word)) in
              let shorter = peek-shorter (less ∷ greater ∷ []) ps more in
              let rest = Suffix-trans (gettoken-Suffix tok.rest) behind in
              let b = word_behind ps tok.rest behind reads in
              Ends-weaken (λ r q. (Suffix-trans q.0 rest, q.1))
                (parseredirs-Ends fuel (add_redir tok.ret name.word rs) name.rest
                  (omega (arith, l, shorter, reads.shorter)) (Suffix-trans rest a)
                  (Spread-both s (Spread-one b (λ w e. e)) rest a (λ w h. elim h [
                    | inl arg ↦ inl (inl arg)
                    | inr file ↦ elim (add_redir-IsFile tok.ret name.word w rs file) [
                      | inl old ↦ inl (inr old)
                      | inr new ↦ inr new
                    ]
                  ]))))
            (λ other. stops))
        (λ done. returns (passed, Spread-lower passed s))

module _ (hi : List ℕ) where
  abbrev pub Collected : List ℕ → List Word × List Redir × List ℕ → Type 0
  Collected ps r =
      (length r.0 < maxargs) × Suffix r.2 ps × Spread r.2 hi (λ w. IsArg w r.0 ⊎ IsFile w r.1)

  pub parseargs-Ends :
      (fuel : ℕ) (args : List Word) (rs : List Redir) (ps : List ℕ)
      → length ps < fuel
      → length args < maxargs
      → Suffix ps hi
      → Spread ps hi (λ w. IsArg w args ⊎ IsFile w rs)
      → Ends (Collected ps) (parseargs fuel args rs ps)
  unfolding parseargs
  parseargs-Ends zero args rs ps l n a s = absurd (omega arith)
  parseargs-Ends (suc fuel) args rs ps l n a s =
      let toks = bar ∷ rparen ∷ ampersand ∷ semicolon ∷ [] in
      let next = peek toks ps in
      let tok = gettoken next.1 in
      let args' = args ++ tok.word ∷ [] in
      let passed = peek-Suffix toks ps in
      let rest = Suffix-trans (gettoken-Suffix next.1) passed in
      Ends-if next.0 (λ e. returns (n, passed, Spread-lower passed s))
        (λ e.
          Ends-if (tok.ret == 0) (λ z. returns (n, rest, Spread-lower rest s))
            (λ z.
              Ends-if (not (tok.ret == letter_a)) (λ y. stops)
                (λ word.
                  Ends-if (not (ltb (length args') maxargs)) (λ y. stops)
                    (λ fits.
                      let reads = gettoken-Reads next.1 (ground (arith, word)) in
                      let b = word_behind ps next.1 passed reads in
                      let shorter = length-Suffix passed in
                      let more = Spread-both s (Spread-one b (λ w e. e)) rest a (λ w h. elim h [
                        | inl arg ↦ elim (IsArg-last args tok.word w arg) [
                          | inl old ↦ inl (inl old)
                          | inr new ↦ inr new
                        ]
                        | inr file ↦ inl (inr file)
                      ]) in
                      Ends-bind
                        (parseredirs-Ends hi (λ w. IsArg w args') fuel rs tok.rest
                          (omega (arith, l, reads.shorter, shorter)) (Suffix-trans rest a) more)
                        (λ r q.
                          Ends-weaken (λ x y. (y.0, Suffix-trans y.1 (Suffix-trans q.0 rest), y.2))
                            (parseargs-Ends fuel args' r.0 r.1
                              (omega (arith, l, reads.shorter, shorter, length-Suffix q.0))
                              (ground (arith, fits)) (Suffix-trans q.0 (Suffix-trans rest a))
                              q.1))))))
