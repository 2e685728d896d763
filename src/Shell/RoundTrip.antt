-- ===== src/Shell/RoundTrip.antt =====
-- A line that was written out is parsed as what it means.
use ztl_os.Shell.Result.{stops}
use ztl_os.Shell.Result.{ok}
use ztl_os.Base.{◌+◌}
use ztl_os.Base.{length}
use ztl_os.Shell.Parser.{nulterminate}
use ztl_os.Base.{◌*◌}
use ztl_os.Shell.{skip_white}
use ztl_os.Base.{}
use ztl_os.Shell.Parser.{wrap}
use ztl_os.Shell.{peek}
use ztl_os.Shell.{Cmd}
use ztl_os.Shell.Printer.{meant_targets}
use ztl_os.Shell.Heads.{redirects}
use ztl_os.Shell.Stretches.{parseredirs-Right}
use ztl_os.Shell.Heads.{print_targets-Clean}
use ztl_os.Shell.{rparen}
use ztl_os.Shell.Printer.{print_targets}
use ztl_os.Shell.Printer.{Target}
use ztl_os.Shell.Stretches.{parsesimple-Right}
use ztl_os.Shell.Heads.{items_miss}
use ztl_os.Shell.Printer.{print_items}
use ztl_os.Shell.Heads.{targets_miss}
use ztl_os.Shell.Heads.{print_simple-Clean}
use ztl_os.Shell.{lparen}
use ztl_os.Shell.Printer.{print_simple}
use ztl_os.Shell.Printer.{meant_simple}
use ztl_os.Shell.Heads.{ends_command}
use ztl_os.Shell.Printer.{IsSimple}
use ztl_os.Shell.Printer.{Simple}
use ztl_os.Shell.Heads.{print_pipe-Clean}
use ztl_os.Shell.{bar}
use ztl_os.Shell.Printer.{print_pipe}
use ztl_os.Shell.Printer.{meant_pipe}
use ztl_os.Shell.Heads.{ends_pipe}
use ztl_os.Shell.Printer.{IsPipeline}
use ztl_os.Shell.Printer.{Pipeline}
use ztl_os.Shell.Printer.{meant_amps}
use ztl_os.Base.{ap}
use ztl_os.Base.{◌∙◌}
use ztl_os.Base.{ap₂}
use ztl_os.Shell.Printed.{gettoken-single}
use ztl_os.Shell.Printer.{space}
use ztl_os.Shell.Heads.{print_line-Clean}
use ztl_os.Base.{arith}
use ztl_os.Shell.Heads.{Follows-misses}
use ztl_os.Shell.Heads.{amps_stops}
use ztl_os.Shell.Heads.{pipe_stops}
use ztl_os.Shell.Heads.{Follows-Clean, amps_follow}
use ztl_os.Shell.Printer.{print_amps}
use ztl_os.Shell.Right.{Right-bind}
use ztl_os.Shell.Heads.{line_stops}
use ztl_os.Shell.Right.{Means}
use ztl_os.Shell.Printer.{Line, form}
use ztl_os.Shell.Printer.{IsLine}
use ztl_os.Shell.Printer.{meant_line}
use ztl_os.Shell.Printer.{print_line}
use ztl_os.Shell.Heads.{ends_line, Follows, at_end, symbol}
use ztl_os.Shell.Right.{Right, right, too_little}
use ztl_os.Shell.Printer.{last, before, single, into, plain, group, lists, pipes}
use ztl_os.Base.{[], ◌∷◌, List, ℕ, zero, suc, ◌≡◌, refl}
use ztl_os.Shell.Parser.{parseline, parsepipe, parseexec, parseblock, parse_whole, parsecmd}
use ztl_os.Shell.{semicolon, strchr}
use ztl_os.Shell.Stretches.{parsebacks-Right}
use ztl_os.Shell.Printed.{peek-Clean}
use ztl_os.Shell.Sound.{parse_whole-Ends}
use ztl_os.Shell.Result.{returns, Ends, Result}

-- One induction on the fuel, for each call with what may follow its part of the line.
mutual
  unfolding parseline print_line meant_line IsLine form strchr wrap

  parseline-Right :
      (fuel : ℕ) (l : Line) (rest : List ℕ)
      → IsLine l
      → Follows ends_line rest
      → Right (Means (meant_line l) rest) (parseline fuel (print_line l rest))
  parseline-Right zero l rest v f = too_little
  parseline-Right (suc fuel) (last p n) rest v f =
      let amps = line_stops f in
      Right-bind (parsepipe-Right fuel p (print_amps n rest) v (amps_follow n rest amps)) (λ c q.
        rw (q.left, ← q.means)
          (Right-bind (parsebacks-Right fuel c.0 n rest amps) (λ b y.
            rw
              (
                y.left,
                peek-Clean (semicolon ∷ []) rest (Follows-Clean (pipe_stops (amps_stops amps))),
                Follows-misses (semicolon ∷ []) (λ d h. ground (arith, h)) f,
              )
              (right (record { left = refl; means = y.means })))))
  parseline-Right (suc fuel) (before p n l) rest v f =
      let clean =
        print_line-Clean l rest v.1 (Follows-Clean (pipe_stops (amps_stops (line_stops f)))) in
      let tail = semicolon ∷ space ∷ print_line l rest in
      let tok = gettoken-single semicolon (print_line l rest) refl clean in
      let amps = symbol semicolon (space ∷ print_line l rest) refl in
      Right-bind (parsepipe-Right fuel p (print_amps n tail) v.0 (amps_follow n tail amps)) (λ c q.
        rw (q.left) (
          Right-bind (parsebacks-Right fuel c.0 n tail amps) (λ b y.
            rw
              (
                y.left,
                peek-Clean (semicolon ∷ []) tail (Follows-Clean (pipe_stops (amps_stops amps))),
                tok.1,
              )
              (Right-bind (parseline-Right fuel l rest v.1 f) (λ r z. right (record {
                left = z.left;
                means = ap₂ lists (y.means ∙ ap (meant_amps n) (q.means)) z.means;
              }))))))

  parsepipe-Right :
      (fuel : ℕ) (p : Pipeline) (rest : List ℕ)
      → IsPipeline p
      → Follows ends_pipe rest
      → Right (Means (meant_pipe p) rest) (parsepipe fuel (print_pipe p rest))
  parsepipe-Right zero p rest v f = too_little
  parsepipe-Right (suc fuel) (single s) rest v f =
      Right-bind (parseexec-Right fuel s rest v (pipe_stops f)) (λ c q.
        rw
          (
            q.left,
            peek-Clean (bar ∷ []) rest (Follows-Clean (pipe_stops f)),
            Follows-misses (bar ∷ []) (λ d h. ground (arith, h)) f,
          )
          (right (record { left = refl; means = q.means })))
  parsepipe-Right (suc fuel) (into s p) rest v f =
      let clean = print_pipe-Clean p rest v.1 (Follows-Clean (pipe_stops f)) in
      let tail = bar ∷ space ∷ print_pipe p rest in
      let tok = gettoken-single bar (print_pipe p rest) refl clean in
      let stop = symbol bar (space ∷ print_pipe p rest) refl in
      Right-bind (parseexec-Right fuel s tail v.0 stop) (λ c q.
        rw (q.left, peek-Clean (bar ∷ []) tail (Follows-Clean stop), tok.1)
          (Right-bind (parsepipe-Right fuel p rest v.1 f)
            (λ r z. right (record { left = z.left; means = ap₂ pipes q.means z.means }))))

  parseexec-Right :
      (fuel : ℕ) (s : Simple) (rest : List ℕ)
      → IsSimple s
      → Follows ends_command rest
      → Right (Means (meant_simple s) rest) (parseexec fuel (print_simple s rest))
  parseexec-Right zero s rest v f = too_little
  parseexec-Right (suc fuel) (plain ts items) rest v f =
      rw
        (
          peek-Clean (lparen ∷ []) _ (print_simple-Clean (plain ts items) rest v (Follows-Clean f)),
          targets_miss ts (print_items items rest) (items_miss items rest v.1 f).1,
        )
        (parsesimple-Right fuel ts items rest v f)
  parseexec-Right (suc fuel) (group l ts) rest v f =
      rw (peek-Clean (lparen ∷ []) _ (print_simple-Clean (group l ts) rest v (Follows-Clean f)))
        (parseblock-Right fuel l ts rest v f)

  parseblock-Right :
      (fuel : ℕ) (l : Line) (ts : List Target) (rest : List ℕ)
      → IsSimple (group l ts)
      → Follows ends_command rest
      → Right
          (Means (meant_simple (group l ts)) rest)
          (parseblock fuel (print_simple (group l ts) rest))
  parseblock-Right zero l ts rest v f = too_little
  parseblock-Right (suc fuel) l ts rest v f =
      let behind = print_targets ts rest in
      let close = rparen ∷ space ∷ behind in
      let ends = symbol rparen (space ∷ behind) refl in
      let clean = Follows-Clean f in
      let inside = Follows-Clean (pipe_stops (amps_stops (line_stops ends))) in
      let opened =
        gettoken-single lparen (print_line l close) refl (print_line-Clean l close v.0 inside) in
      let closed = gettoken-single rparen behind refl (print_targets-Clean ts rest clean) in
      rw (peek-Clean (lparen ∷ []) _ (print_simple-Clean (group l ts) rest v clean), opened.1)
        (Right-bind (parseline-Right fuel l close v.0 ends) (λ c q.
          rw (q.left, peek-Clean (rparen ∷ []) close inside, closed.1)
            (Right-bind
              (parseredirs-Right fuel [] ts rest v.1 clean
                (Follows-misses redirects (λ d h. ground (arith, h)) f))
              (λ r z.
                right
                  (record { left = z.left; means = z.acts c.0 ∙ ap (meant_targets ts) q.means })))))

-- Enough fuel and nothing wrong is the result.
result_of :
    {A : Type 0} {P Q : A → Type 0} {r : Result A}
    → Ends P r
    → Right Q r
    → (a : A) × (r ≡ ok a) × Q a
result_of (returns {a} p) (right q) = (a, refl, q)
result_of stops h = elim h [ ]

parse_whole-Right :
    (l : Line) → IsLine l → Right (λ c. form c ≡ meant_line l) (parse_whole (print_line l []))
unfolding parse_whole peek skip_white
parse_whole-Right l v =
    Right-bind (parseline-Right (4 * length (print_line l []) + 5) l [] v at_end)
      (λ r q. rw (q.left) (right q.means))

parsed :
    (l : Line)
    → IsLine l
    → (c : Cmd) × (parse_whole (print_line l []) ≡ ok c) × (form c ≡ meant_line l)
parsed l v = result_of (parse_whole-Ends (print_line l [])) (parse_whole-Right l v)

-- A line that is written out with a space behind every token, its words made of bytes that are
-- neither white space nor symbols and fewer than `MAXARGS` of them in a simple command, is
-- accepted, and the command that `parsecmd` returns is the one that it means: the words, the files
-- with their modes and descriptors, and the pipes, lists and background commands in their places.
pub parsecmd-print_line :
    (l : Line) (m : ℕ → ℕ)
    → IsLine l
    → (r : Cmd × (ℕ → ℕ)) × (parsecmd (print_line l []) m ≡ ok r) × (form r.0 ≡ meant_line l)
unfolding parsecmd
parsecmd-print_line l m v =
    let p = parsed l v in ((p.0, nulterminate (length (print_line l [])) p.0 m), rw (p.1) refl, p.2)
