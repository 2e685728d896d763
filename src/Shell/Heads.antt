-- ===== src/Shell/Heads.antt =====
-- Which tokens stand in front of a line that was written out.
use ztl_os.Base.{
  ℕ, zero, suc, ◌≡◌, refl, arith, Bool, true, false, not, ◌&&◌, List, [], ◌∷◌, ◌++◌, ◌==◌,
}
use ztl_os.Shell.{greater, less, lparen, skip_white, strchr, at, bar, rparen, semicolon, ampersand}
use ztl_os.Shell.Tokens.{ordinary}
use ztl_os.Shell.Printer.{
  space, Sign, reads, writes, appends, Target, Item, Line, last, before, Pipeline, single, into,
  Simple, plain, group, print_sign, print_targets, print_items, print_amps, print_line, print_pipe,
  print_simple, IsText, is_text, AreItems, IsLine, IsPipeline, IsSimple,
}
use ztl_os.Shell.Printed.{Clean, Clean-text, Clean-symbol}

-- What `peek` finds on a clean line.
abbrev pub hits : List ℕ → List ℕ → Bool
hits toks s = not (at s == 0) && strchr toks (at s)

-- The tokens that stop a command, a pipe, the ampersands behind it, and a line.
abbrev pub ends_command : List ℕ
ends_command = bar ∷ rparen ∷ ampersand ∷ semicolon ∷ []

abbrev pub ends_pipe : List ℕ
ends_pipe = rparen ∷ ampersand ∷ semicolon ∷ []

abbrev pub ends_amps : List ℕ
ends_amps = rparen ∷ semicolon ∷ []

abbrev pub ends_line : List ℕ
ends_line = rparen ∷ []

-- The line's end, or one of the symbols.
pub data Follows (toks : List ℕ) : List ℕ → Type 0 where
  at_end : Follows toks []
  symbol : (c : ℕ) (s : List ℕ) → strchr toks c ≡ true → Follows toks (c ∷ s)

Follows-more :
    {toks toks' rest : List ℕ}
    → ((c : ℕ) → strchr toks c ≡ true → strchr toks' c ≡ true)
    → Follows toks rest
    → Follows toks' rest
Follows-more f at_end = at_end
Follows-more f (symbol c s e) = symbol c s (f c e)

pub pipe_stops : {rest : List ℕ} → Follows ends_pipe rest → Follows ends_command rest
unfolding strchr
pipe_stops f = Follows-more {toks = ends_pipe} (λ c h. ground (arith, h)) f

pub amps_stops : {rest : List ℕ} → Follows ends_amps rest → Follows ends_pipe rest
unfolding strchr
amps_stops f = Follows-more {toks = ends_amps} (λ c h. ground (arith, h)) f

pub line_stops : {rest : List ℕ} → Follows ends_line rest → Follows ends_amps rest
unfolding strchr
line_stops f = Follows-more {toks = ends_line} (λ c h. ground (arith, h)) f

pub Follows-Clean : {rest : List ℕ} → Follows ends_command rest → Clean rest
unfolding strchr Clean skip_white
Follows-Clean at_end = refl
Follows-Clean (symbol c s h) = Clean-symbol c s (ground (arith, h))

-- Tokens of another kind do not follow.
pub Follows-misses :
    (others : List ℕ) {toks rest : List ℕ}
    → ((c : ℕ) → strchr toks c ≡ true → strchr others c ≡ false)
    → Follows toks rest
    → hits others rest ≡ false
Follows-misses others f at_end = refl
Follows-misses others f (symbol c s h) = rw (f c h) (ground arith)

-- A word begins with none of the symbols.
pub text_misses :
    (toks : List ℕ)
    → ((c : ℕ) → ordinary c ≡ true → strchr toks c ≡ false)
    → {t : List ℕ} → (s : List ℕ) → IsText t
    → hits toks (t ++ s) ≡ false
text_misses toks f s (is_text {c} o a) = rw (f c o) (ground arith)

pub print_sign-Clean : (g : Sign) (s : List ℕ) → Clean (print_sign g s)
unfolding print_sign strchr
print_sign-Clean reads s = Clean-symbol _ _ refl
print_sign-Clean writes s = Clean-symbol _ _ refl
print_sign-Clean appends s = Clean-symbol _ _ refl

pub print_targets-Clean :
    (ts : List Target) (rest : List ℕ) → Clean rest → Clean (print_targets ts rest)
unfolding print_targets
print_targets-Clean [] rest h = h
print_targets-Clean (t ∷ ts) rest h = print_sign-Clean t.sign _

pub print_items-Clean :
    (items : List Item) (rest : List ℕ)
    → AreItems items
    → Clean rest
    → Clean (print_items items rest)
unfolding print_items
print_items-Clean [] rest a h = h
print_items-Clean (i ∷ items) rest a h = Clean-text _ a.0.0

pub print_amps-Clean : (n : ℕ) (rest : List ℕ) → Clean rest → Clean (print_amps n rest)
unfolding print_amps strchr
print_amps-Clean zero rest h = h
print_amps-Clean (suc n) rest h = Clean-symbol _ _ refl

-- In front of words and redirections there is no parenthesis that opens a block, nor a further
-- redirection in front of words.
abbrev pub redirects : List ℕ
redirects = less ∷ greater ∷ []

pub items_miss :
    (items : List Item) (rest : List ℕ)
    → AreItems items
    → Follows ends_command rest
    → (hits redirects (print_items items rest) ≡ false)
      × (hits (lparen ∷ []) (print_items items rest) ≡ false)
unfolding print_items strchr
items_miss [] rest a f = (
  Follows-misses redirects (λ c h. ground (arith, h)) f,
  Follows-misses (lparen ∷ []) (λ c h. ground (arith, h)) f,
)
items_miss (i ∷ items) rest a f = (
  text_misses redirects (λ c h. ground (arith, h)) _ a.0.0,
  text_misses (lparen ∷ []) (λ c h. ground (arith, h)) _ a.0.0,
)

sign_misses : (g : Sign) (s : List ℕ) → hits (lparen ∷ []) (print_sign g s) ≡ false
unfolding print_sign strchr
sign_misses reads s = refl
sign_misses writes s = refl
sign_misses appends s = refl

pub targets_miss :
    (ts : List Target) (rest : List ℕ)
    → hits (lparen ∷ []) rest ≡ false
    → hits (lparen ∷ []) (print_targets ts rest) ≡ false
unfolding print_targets
targets_miss [] rest h = h
targets_miss (t ∷ ts) rest h = sign_misses t.sign _

mutual
  unfolding print_line IsLine strchr

  pub print_line-Clean :
      (l : Line) (rest : List ℕ) → IsLine l → Clean rest → Clean (print_line l rest)
  print_line-Clean (last p n) rest v h = print_pipe-Clean p _ v (print_amps-Clean n rest h)
  print_line-Clean (before p n l) rest v h =
      print_pipe-Clean p _ v.0 (print_amps-Clean n _ (Clean-symbol _ _ refl))

  pub print_pipe-Clean :
      (p : Pipeline) (rest : List ℕ) → IsPipeline p → Clean rest → Clean (print_pipe p rest)
  print_pipe-Clean (single s) rest v h = print_simple-Clean s rest v h
  print_pipe-Clean (into s p) rest v h = print_simple-Clean s _ v.0 (Clean-symbol _ _ refl)

  pub print_simple-Clean :
      (s : Simple) (rest : List ℕ) → IsSimple s → Clean rest → Clean (print_simple s rest)
  print_simple-Clean (plain ts items) rest v h =
      print_targets-Clean ts _ (print_items-Clean items rest v.1 h)
  print_simple-Clean (group l ts) rest v h = Clean-symbol _ _ refl

pub amps_follow :
    (n : ℕ) (rest : List ℕ) → Follows ends_amps rest → Follows ends_pipe (print_amps n rest)
unfolding print_amps strchr
amps_follow zero rest f = amps_stops f
amps_follow (suc n) rest f = symbol ampersand (space ∷ print_amps n rest) refl
