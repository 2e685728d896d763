-- ===== src/Shell/Tests.antt =====
-- The line a>b|(c;d)& and some others.
use ztl_os.Base.{ℕ, ◌+◌, ◌≡◌, refl, arith, List, [], ◌∷◌, length, get_or}
use ztl_os.Strings.Names.{name_at}
use ztl_os.Paths.Walk.{NoZero, NoZero-nil, NoZero-cons}
use ztl_os.Shell.{
  Word, Cmd, exec, redir, pipe, list, back, bar, lparen, rparen, semicolon, ampersand, greater,
  gettoken, peek, scan_token, scan_greater, skip_white, skip_word, strchr,
}
use ztl_os.Shell.Result.{Result, Ends, ok}
use ztl_os.Shell.Parser.{
  index, parsecmd, parse_whole, parseline, parsesimple, parsebacks, parseargs, parseredirs,
  add_redir, wrap,
}
use ztl_os.Shell.Words.{Has, Fits}
use ztl_os.Shell.Printer.{
  reads, appends, Line, last, before, single, into, plain, group, print_line, form, meant_line,
  IsLine, is_text, IsText,
}
use ztl_os.Shell.RoundTrip.{parsecmd-print_line}
use ztl_os.Shell.Arguments.{leading_word, parsecmd-Ends}

abbrev a : ℕ
a = 97

abbrev b : ℕ
b = 98

abbrev line : List ℕ
line = a ∷ greater ∷ b ∷ bar ∷ lparen ∷ a ∷ semicolon ∷ b ∷ rparen ∷ ampersand ∷ []

abbrev buf : ℕ → ℕ
buf i = get_or line i 0

line-NoZero : NoZero line
line-NoZero = NoZero-cons a _ (omega arith) (
    NoZero-cons greater _ (omega arith) (
      NoZero-cons b _ (omega arith) (
        NoZero-cons bar _ (omega arith) (
          NoZero-cons lparen _ (omega arith) (
            NoZero-cons a _ (omega arith) (
              NoZero-cons semicolon _ (omega arith) (
                NoZero-cons b _ (omega arith) (
                  NoZero-cons rparen _ (omega arith)
                    (NoZero-cons ampersand _ (omega arith) NoZero-nil)))))))))

parsecmd_example :
    Ends
      (λ r.
        Fits r.0
        × ((w : Word)
            → Has w r.0
            → name_at (index (length line) w.q) (length line + 1) r.1 ≡ leading_word w.q))
      (parsecmd line buf)
unfolding NoZero
parsecmd_example = parsecmd-Ends line buf line-NoZero (λ i l. refl)

-- a command without its words
abbrev outline : Cmd → List ℕ
outline (exec ws) = length ws ∷ []
outline (redir c r) = greater ∷ outline c
outline (pipe c d) = bar ∷ outline c
outline (list c d) = semicolon ∷ outline d
outline (back c) = ampersand ∷ outline c

outcome : Result Cmd → List ℕ
outcome (ok c) = outline c
outcome _ = []

-- The ampersand stands for the pipe.
line_parses : outcome (parse_whole line) ≡ ampersand ∷ bar ∷ greater ∷ 1 ∷ []
unfolding outcome parse_whole parseline gettoken peek scan_token scan_greater skip_white skip_word
    strchr parsesimple parsebacks parseargs parseredirs add_redir wrap
line_parses = refl

-- A closing parenthesis alone is an error.
paren_fails : outcome (parse_whole (rparen ∷ [])) ≡ []
unfolding outcome parse_whole parseline gettoken peek scan_token scan_greater skip_white skip_word
    strchr parsesimple parsebacks parseargs parseredirs add_redir wrap
paren_fails = refl

-- ( a < b ; b a ) >> a | b &
abbrev written : Line
written =
    last
      (into
        (group
          (before
            (single (
              plain [] (
                record { text = a ∷ []; targets = record { sign = reads; name = b ∷ [] } ∷ [] }
                ∷ [])))
            0
            (last
              (single (
                plain [] (
                  record { text = b ∷ []; targets = [] }
                  ∷ record { text = a ∷ []; targets = [] }
                  ∷ [])))
              0))
          (record { sign = appends; name = a ∷ [] } ∷ []))
        (single (plain [] (record { text = b ∷ []; targets = [] } ∷ []))))
      1

a-IsText : IsText (a ∷ [])
unfolding strchr
a-IsText = is_text refl tt

b-IsText : IsText (b ∷ [])
unfolding strchr
b-IsText = is_text refl tt

written-IsLine : IsLine written
unfolding IsLine
written-IsLine = (
  (
    (
      (tt, ((a-IsText, (b-IsText, tt)), tt), omega arith),
      (tt, ((b-IsText, tt), ((a-IsText, tt), tt)), omega arith),
    ),
    (a-IsText, tt),
  ),
  (tt, ((b-IsText, tt), tt), omega arith),
)

parsecmd-print_line_example :
    (r : Cmd × (ℕ → ℕ)) × (parsecmd (print_line written []) buf ≡ ok r)
    × (form r.0 ≡ meant_line written)
parsecmd-print_line_example = parsecmd-print_line written buf written-IsLine
