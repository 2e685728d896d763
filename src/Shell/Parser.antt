-- ===== src/Shell/Parser.antt =====
-- The recursive descent of src/sh.c. Each call and each round of a loop costs a unit of fuel.
--
-- A command is built before its redirections are complete: `parseexec` goes on to store words in
-- the `execcmd` that they wrap. Here the words and the redirections are collected, the last one
-- first, and put together at the end.
use ztl_os.Base.{
  update, ◌-◌, ℕ, zero, suc, ◌+◌, ◌*◌, not, ◌||◌, List, [], ◌∷◌, ◌++◌, ◌==◌, ltb, if◌then◌else◌,
  length,
}
use ztl_os.Shell.{
  execcmd, redircmd, pipecmd, listcmd, backcmd, Word, Redir, Cmd, exec, redir, pipe, list, back,
  o_rdonly, o_wronly, o_create, maxargs, bar, lparen, rparen, semicolon, ampersand, less, greater,
  plus, letter_a, gettoken, peek,
}
use ztl_os.Shell.Result.{Result, ok, panics, out_of_fuel, bind}

-- The redirections around a command.
unfoldable pub wrap : List Redir → Cmd → Cmd
wrap [] c = c
wrap (r ∷ rs) c = redircmd (wrap rs c) r

-- The `switch` of `parseredirs`.
unfoldable pub add_redir : ℕ → Word → List Redir → List Redir
add_redir tok w rs =
    if tok == less
    then record { file = w; mode = o_rdonly; fd = 0 } ∷ rs
    else if (tok == greater) || (tok == plus)
    then record { file = w; mode = o_wronly + o_create; fd = 1 } ∷ rs
    else rs

unfoldable pub parseredirs : ℕ → List Redir → List ℕ → Result (List Redir × List ℕ)
parseredirs zero rs ps = out_of_fuel
parseredirs (suc fuel) rs ps =
    let next = peek (less ∷ greater ∷ []) ps in
    let tok = gettoken next.1 in
    let name = gettoken tok.rest in
    let more = parseredirs fuel (add_redir tok.ret name.word rs) name.rest in
    if next.0 then (if name.ret == letter_a then more else panics) else ok (rs, next.1)

-- The loop of `parseexec`.
unfoldable pub parseargs :
    ℕ → List Word → List Redir → List ℕ → Result (List Word × List Redir × List ℕ)
parseargs zero args rs ps = out_of_fuel
parseargs (suc fuel) args rs ps =
    let next = peek (bar ∷ rparen ∷ ampersand ∷ semicolon ∷ []) ps in
    let tok = gettoken next.1 in
    let args' = args ++ tok.word ∷ [] in
    let more = bind (parseredirs fuel rs tok.rest) (λ r. parseargs fuel args' r.0 r.1) in
    if next.0
    then ok (args, rs, next.1)
    else if tok.ret == 0
    then ok (args, rs, tok.rest)
    else if not (tok.ret == letter_a)
    then panics
    else if not (ltb (length args') maxargs)
    then panics
    else more

-- The loop of `parseline` over &.
unfoldable pub parsebacks : ℕ → Cmd → List ℕ → Result (Cmd × List ℕ)
parsebacks zero c ps = out_of_fuel
parsebacks (suc fuel) c ps =
    let next = peek (ampersand ∷ []) ps in
    let more = parsebacks fuel (backcmd c) (gettoken next.1).rest in
    if next.0 then more else ok (c, next.1)

-- `parseexec` from where it allocates the `execcmd`
unfoldable pub parsesimple : ℕ → List ℕ → Result (Cmd × List ℕ)
parsesimple fuel ps =
    bind (parseredirs fuel [] ps)
      (λ r. bind (parseargs fuel [] r.0 r.1) (λ a. ok (wrap a.1 (execcmd a.0), a.2)))

unfoldable mutual
  pub parseline : ℕ → List ℕ → Result (Cmd × List ℕ)
  parseline zero ps = out_of_fuel
  parseline (suc fuel) ps = bind (parsepipe fuel ps) (λ c. bind (parsebacks fuel c.0 c.1) (λ b.
      let next = peek (semicolon ∷ []) b.1 in
      let more = bind (parseline fuel (gettoken next.1).rest) (λ r. ok (listcmd b.0 r.0, r.1)) in
      if next.0 then more else ok (b.0, next.1)))

  pub parsepipe : ℕ → List ℕ → Result (Cmd × List ℕ)
  parsepipe zero ps = out_of_fuel
  parsepipe (suc fuel) ps = bind (parseexec fuel ps) (λ c.
      let next = peek (bar ∷ []) c.1 in
      let more = bind (parsepipe fuel (gettoken next.1).rest) (λ r. ok (pipecmd c.0 r.0, r.1)) in
      if next.0 then more else ok (c.0, next.1))

  pub parseexec : ℕ → List ℕ → Result (Cmd × List ℕ)
  parseexec zero ps = out_of_fuel
  parseexec (suc fuel) ps =
      let next = peek (lparen ∷ []) ps in
      let block = parseblock fuel next.1 in
      let simple = parsesimple fuel next.1 in if next.0 then block else simple

  pub parseblock : ℕ → List ℕ → Result (Cmd × List ℕ)
  parseblock zero ps = out_of_fuel
  parseblock (suc fuel) ps =
      let next = peek (lparen ∷ []) ps in
      let more = bind (parseline fuel (gettoken next.1).rest) (λ c.
        let close = peek (rparen ∷ []) c.1 in
        let redirected =
          bind (parseredirs fuel [] (gettoken close.1).rest) (λ r. ok (wrap r.0 c.0, r.1)) in
        if close.0 then redirected else panics) in
      if next.0 then more else panics

-- `parsecmd` up to the call of `nulterminate`: what is left must be white space. Every line has
-- enough fuel with four calls for a byte.
unfoldable pub parse_whole : List ℕ → Result Cmd
parse_whole s =
    bind (parseline (4 * length s + 5) s)
      (λ r. elim (peek [] r.1).1 [ [] ↦ ok r.0 | c ∷ rest ↦ panics ])

-- The index in `buf` of a pointer into the line of `n` bytes.
abbrev pub index : (n : ℕ) → List ℕ → ℕ
index n p = n - length p

-- `for(i=0; ecmd->argv[i]; i++) *ecmd->eargv[i] = 0;`
unfoldable pub end_args : (n : ℕ) → List Word → (ℕ → ℕ) → ℕ → ℕ
end_args n [] m = m
end_args n (w ∷ ws) m = end_args n ws (update m (index n w.eq) 0)

unfoldable pub nulterminate : (n : ℕ) → Cmd → (ℕ → ℕ) → ℕ → ℕ
nulterminate n (exec ws) m = end_args n ws m
nulterminate n (redir c r) m = update (nulterminate n c m) (index n (r.file).eq) 0
nulterminate n (pipe c d) m = nulterminate n d (nulterminate n c m)
nulterminate n (list c d) m = nulterminate n d (nulterminate n c m)
nulterminate n (back c) m = nulterminate n c m

-- For the line `s` at the beginning of `buf`: the command, and `buf` with its words ended.
unfoldable pub parsecmd : List ℕ → (ℕ → ℕ) → Result (Cmd × (ℕ → ℕ))
parsecmd s m = bind (parse_whole s) (λ c. ok (c, nulterminate (length s) c m))
