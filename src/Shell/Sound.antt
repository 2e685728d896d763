-- ===== src/Shell/Sound.antt =====
-- The fuel of the parser is enough for every line, and the words that it finds do not overlap.
use ztl_os.Base.{ℕ, zero, suc, ◌+◌, ◌*◌, ◌<◌, ◌⊎◌, inl, inr, arith, List, [], ◌∷◌, length}
use ztl_os.Shell.{Word, Cmd, exec, back, bar, lparen, rparen, semicolon, ampersand, gettoken, peek}
use ztl_os.Shell.Result.{ok, panics, Ends, returns, stops, Ends-if, Ends-bind, Ends-weaken}
use ztl_os.Shell.Suffix.{Suffix, same, Suffix-trans, length-Suffix, nil-Suffix}
use ztl_os.Shell.Tokens.{peek-Suffix, gettoken-Suffix, peek-shorter}
use ztl_os.Shell.Parser.{
  parsebacks, parsesimple, parseline, parsepipe, parseexec, parseblock, parse_whole,
}
use ztl_os.Shell.Words.{
  IsArg, IsFile, Has, has_arg, in_pipe_left, in_pipe_right, in_list_left, in_list_right, in_back,
  Fits, wrap-Fits, Spread, Spread-both, Spread-fewer, Spread-lower, Has-wrap,
}
use ztl_os.Shell.Loops.{parseredirs-Ends, parseargs-Ends}

-- What a part of the parser returns: a command with its words between where it began and where it
-- stopped.
pub Parsed : List ℕ → Cmd × List ℕ → Type 0
Parsed ps r = Suffix r.1 ps × Spread r.1 ps (λ w. Has w r.0) × Fits r.0

no_words : {ps hi : List ℕ} → Spread ps hi (λ w. IsArg w [] ⊎ IsFile w [])
no_words = record {
  between = λ w h. elim h [ inl a ↦ elim a [ ] | inr f ↦ elim f [ ] ];
  apart = λ w v h. elim h [ inl a ↦ elim a [ ] | inr f ↦ elim f [ ] ];
}

parsesimple-Ends :
    (fuel : ℕ) (ps : List ℕ) → length ps < fuel → Ends (Parsed ps) (parsesimple fuel ps)
unfolding parsesimple Parsed Fits
parsesimple-Ends fuel ps l =
    Ends-bind (parseredirs-Ends ps (λ w. IsArg w []) fuel [] ps l same no_words) (λ r q.
      Ends-bind
        (parseargs-Ends ps fuel [] r.0 r.1 (omega (arith, l, length-Suffix q.0)) (omega arith) q.0
          q.1)
        (λ a y. returns (
          Suffix-trans y.1 q.0,
          Spread-fewer y.2 (λ w h. elim (Has-wrap a.1 (exec a.0) w h) [
            | inl (has_arg m) ↦ inl m
            | inr file ↦ inr file
          ]),
          wrap-Fits a.1 (exec a.0) y.0,
        )))

parsebacks-Ends :
    (hi : List ℕ) (fuel : ℕ) (c : Cmd) (ps : List ℕ)
    → length ps < fuel
    → Suffix ps hi
    → Spread ps hi (λ w. Has w c)
    → Fits c
    → Ends (λ r. Suffix r.1 ps × Spread r.1 hi (λ w. Has w r.0) × Fits r.0) (parsebacks fuel c ps)
unfolding parsebacks Fits
parsebacks-Ends hi zero c ps l a s f = absurd (omega arith)
parsebacks-Ends hi (suc fuel) c ps l a s f =
    let next = peek (ampersand ∷ []) ps in
    let passed = peek-Suffix (ampersand ∷ []) ps in
    let rest = Suffix-trans (gettoken-Suffix next.1) passed in
    Ends-if next.0
      (λ more.
        Ends-weaken (λ r q. (Suffix-trans q.0 rest, q.1, q.2))
          (parsebacks-Ends hi fuel (back c) (gettoken next.1).rest
            (omega (arith, l, peek-shorter (ampersand ∷ []) ps more)) (Suffix-trans rest a)
            (Spread-lower rest (Spread-fewer s (λ w h. elim h [ in_back x ↦ x ]))) f))
      (λ done. returns (passed, Spread-lower passed s, f))

spread_higher :
    {lo hi hi' : List ℕ} {P : Word → Type 0} → Suffix hi hi' → Spread lo hi P → Spread lo hi' P
spread_higher a p = record {
  between = λ w x.
      let s = p.between w x in
      record { token = s.token; begins = Suffix-trans s.begins a; ends = s.ends };
  apart = p.apart;
}

higher : {ps ps' : List ℕ} → Suffix ps ps' → (r : Cmd × List ℕ) → Parsed ps r → Parsed ps' r
unfolding Parsed
higher a r p = (Suffix-trans p.0 a, spread_higher a p.1, p.2)

redirs_none :
    {lo hi : List ℕ} {P : Word → Type 0} → Spread lo hi P → Spread lo hi (λ w. P w ⊎ IsFile w [])
redirs_none p = Spread-fewer p (λ w h. elim h [ inl x ↦ x | inr f ↦ elim f [ ] ])

-- One induction on the fuel: every call is on less of the line, or on a smaller part of a command.
mutual
  unfolding parseline Parsed Fits

  parseline-Ends :
      (fuel : ℕ) (ps : List ℕ) → 4 * length ps + 4 < fuel → Ends (Parsed ps) (parseline fuel ps)
  parseline-Ends zero ps l = absurd (omega arith)
  parseline-Ends (suc fuel) ps l = Ends-bind (parsepipe-Ends fuel ps (omega (arith, l))) (λ c p.
      Ends-bind (parsebacks-Ends ps fuel c.0 c.1 (omega (arith, l, length-Suffix p.0)) p.0 p.1 p.2)
        (λ b q.
          let next = peek (semicolon ∷ []) b.1 in
          let passed = peek-Suffix (semicolon ∷ []) b.1 in
          let behind = Suffix-trans (gettoken-Suffix next.1) passed in
          let all = Suffix-trans q.0 p.0 in
          Ends-if next.0
            (λ more.
              let shorter = peek-shorter (semicolon ∷ []) b.1 more in
              Ends-bind
                (parseline-Ends fuel (gettoken next.1).rest
                  (omega (arith, l, shorter, length-Suffix all)))
                (λ r s. returns (
                  Suffix-trans s.0 (Suffix-trans behind all),
                  Spread-both (Spread-lower behind q.1) s.1 s.0 (Suffix-trans behind all)
                      (λ w h. elim h [ in_list_left x ↦ inl x | in_list_right y ↦ inr y ]),
                  (q.2, s.2),
                )))
            (λ done. returns (Suffix-trans passed all, Spread-lower passed q.1, q.2))))

  parsepipe-Ends :
      (fuel : ℕ) (ps : List ℕ) → 4 * length ps + 3 < fuel → Ends (Parsed ps) (parsepipe fuel ps)
  parsepipe-Ends zero ps l = absurd (omega arith)
  parsepipe-Ends (suc fuel) ps l = Ends-bind (parseexec-Ends fuel ps (omega (arith, l))) (λ c p.
      let next = peek (bar ∷ []) c.1 in
      let passed = peek-Suffix (bar ∷ []) c.1 in
      let behind = Suffix-trans (gettoken-Suffix next.1) passed in
      Ends-if next.0
        (λ more.
          let shorter = peek-shorter (bar ∷ []) c.1 more in
          Ends-bind
            (parsepipe-Ends fuel (gettoken next.1).rest
              (omega (arith, l, shorter, length-Suffix p.0)))
            (λ r s. returns (
              Suffix-trans s.0 (Suffix-trans behind p.0),
              Spread-both (Spread-lower behind p.1) s.1 s.0 (Suffix-trans behind p.0)
                  (λ w h. elim h [ in_pipe_left x ↦ inl x | in_pipe_right y ↦ inr y ]),
              (p.2, s.2),
            )))
        (λ done. returns (Suffix-trans passed p.0, Spread-lower passed p.1, p.2)))

  parseexec-Ends :
      (fuel : ℕ) (ps : List ℕ) → 4 * length ps + 2 < fuel → Ends (Parsed ps) (parseexec fuel ps)
  parseexec-Ends zero ps l = absurd (omega arith)
  parseexec-Ends (suc fuel) ps l =
      let next = peek (lparen ∷ []) ps in
      let passed = peek-Suffix (lparen ∷ []) ps in
      Ends-if next.0
        (λ open_paren.
          Ends-weaken (λ r. higher passed r)
            (parseblock-Ends fuel next.1 (omega (arith, l, length-Suffix passed))))
        (λ done.
          Ends-weaken (λ r. higher passed r)
            (parsesimple-Ends fuel next.1 (omega (arith, l, length-Suffix passed))))

  parseblock-Ends :
      (fuel : ℕ) (ps : List ℕ) → 4 * length ps + 1 < fuel → Ends (Parsed ps) (parseblock fuel ps)
  parseblock-Ends zero ps l = absurd (omega arith)
  parseblock-Ends (suc fuel) ps l =
      let next = peek (lparen ∷ []) ps in
      let passed = peek-Suffix (lparen ∷ []) ps in
      let behind = Suffix-trans (gettoken-Suffix next.1) passed in
      Ends-if next.0
        (λ open_paren.
          let shorter = peek-shorter (lparen ∷ []) ps open_paren in
          Ends-bind (parseline-Ends fuel (gettoken next.1).rest (omega (arith, l, shorter))) (λ c p.
            let close = peek (rparen ∷ []) c.1 in
            let closed = Suffix-trans (gettoken-Suffix close.1) (peek-Suffix (rparen ∷ []) c.1) in
            let all = Suffix-trans closed (Suffix-trans p.0 behind) in
            Ends-if close.0
              (λ closes.
                Ends-bind
                  (parseredirs-Ends ps (λ w. Has w c.0) fuel [] (gettoken close.1).rest
                    (omega (arith, l, shorter, length-Suffix all)) all
                    (redirs_none (Spread-lower closed (spread_higher behind p.1))))
                  (λ r q. returns (
                    Suffix-trans q.0 all,
                    Spread-fewer q.1 (λ w h. Has-wrap r.0 c.0 w h),
                    wrap-Fits r.0 c.0 p.2,
                  )))
              (λ open_still. stops)))
        (λ done. stops)

whole_line :
    {A : Type 0} {P : A → Type 0} (a : A) (left : List ℕ)
    → P a
    → Ends P (elim left [ [] ↦ ok a | c ∷ rest ↦ panics ])
whole_line a [] h = returns h
whole_line a (c ∷ rest) h = stops

-- The command and the words that are found, or a syntax error; never too little fuel.
pub parse_whole-Ends :
    (s : List ℕ) → Ends (λ c. Spread [] s (λ w. Has w c) × Fits c) (parse_whole s)
unfolding parse_whole Parsed
parse_whole-Ends s =
    Ends-bind (parseline-Ends (4 * length s + 5) s (omega arith))
      (λ r p. whole_line r.0 (peek [] r.1).1 (Spread-lower (nil-Suffix r.1) p.1, p.2))
