-- ===== src/Shell/Printer.antt =====
-- Command lines written out, with a space behind every token, and the commands that they mean.
use ztl_os.Base.{ℕ, zero, suc, ◌+◌, ◌<◌, ◌≡◌, true, List, [], ◌∷◌, ◌++◌, map, length, All}
use ztl_os.Shell.{
  Word, Cmd, exec, redir, pipe, list, back, o_rdonly, o_wronly, o_create, maxargs, bar, lparen,
  rparen, semicolon, ampersand, less, greater,
}
use ztl_os.Shell.Tokens.{ordinary}
use ztl_os.Shell.Arguments.{leading_word}

pub data Sign : Type 0 where
  reads : Sign
  writes : Sign
  appends : Sign

-- A redirection: its sign and the name of the file.
pub record Target : Type 0 where
  pub sign : Sign
  pub name : List ℕ

-- A word of a simple command, and the redirections behind it.
pub record Item : Type 0 where
  pub text : List ℕ
  pub targets : List Target

-- `amps` is the number of ampersands behind a pipe.
mutual
  pub data Line : Type 0 where
    last : Pipeline → (amps : ℕ) → Line
    before : Pipeline → (amps : ℕ) → Line → Line

  pub data Pipeline : Type 0 where
    single : Simple → Pipeline
    into : Simple → Pipeline → Pipeline

  pub data Simple : Type 0 where
    plain : List Target → List Item → Simple
    group : Line → List Target → Simple

-- a space
abbrev pub space : ℕ
space = 32

-- Each prints in front of what follows.
unfoldable pub print_sign : Sign → List ℕ → List ℕ
print_sign reads rest = less ∷ space ∷ rest
print_sign writes rest = greater ∷ space ∷ rest
print_sign appends rest = greater ∷ greater ∷ space ∷ rest

unfoldable pub print_targets : List Target → List ℕ → List ℕ
print_targets [] rest = rest
print_targets (t ∷ ts) rest = print_sign t.sign (t.name ++ space ∷ print_targets ts rest)

unfoldable pub print_items : List Item → List ℕ → List ℕ
print_items [] rest = rest
print_items (i ∷ items) rest = i.text ++ space ∷ print_targets i.targets (print_items items rest)

unfoldable pub print_amps : ℕ → List ℕ → List ℕ
print_amps zero rest = rest
print_amps (suc n) rest = ampersand ∷ space ∷ print_amps n rest

unfoldable mutual
  pub print_line : Line → List ℕ → List ℕ
  print_line (last p amps) rest = print_pipe p (print_amps amps rest)
  print_line (before p amps l) rest =
      print_pipe p (print_amps amps (semicolon ∷ space ∷ print_line l rest))

  pub print_pipe : Pipeline → List ℕ → List ℕ
  print_pipe (single s) rest = print_simple s rest
  print_pipe (into s p) rest = print_simple s (bar ∷ space ∷ print_pipe p rest)

  pub print_simple : Simple → List ℕ → List ℕ
  print_simple (plain ts items) rest = print_targets ts (print_items items rest)
  print_simple (group l ts) rest =
      lparen ∷ space ∷ print_line l (rparen ∷ space ∷ print_targets ts rest)

-- A command whose words are the bytes that they stand for.
pub data Form : Type 0 where
  runs : List (List ℕ) → Form
  opens : Form → (name : List ℕ) (mode fd : ℕ) → Form
  pipes : Form → Form → Form
  lists : Form → Form → Form
  backs : Form → Form

abbrev pub texts : List Word → List (List ℕ)
texts ws = map (λ w. leading_word w.q) ws

unfoldable pub form : Cmd → Form
form (exec ws) = runs (texts ws)
form (redir c r) = opens (form c) (leading_word (r.file).q) r.mode r.fd
form (pipe c d) = pipes (form c) (form d)
form (list c d) = lists (form c) (form d)
form (back c) = backs (form c)

-- What the shell is to do for a line: the redirections of a command are around it in their order.
unfoldable pub meant_sign : Sign → List ℕ → Form → Form
meant_sign reads n f = opens f n o_rdonly 0
meant_sign writes n f = opens f n (o_wronly + o_create) 1
meant_sign appends n f = opens f n (o_wronly + o_create) 1

abbrev pub meant_target : Target → Form → Form
meant_target t f = meant_sign t.sign t.name f

unfoldable pub meant_targets : List Target → Form → Form
meant_targets [] f = f
meant_targets (t ∷ ts) f = meant_targets ts (meant_target t f)

unfoldable pub meant_items : List Item → Form → Form
meant_items [] f = f
meant_items (i ∷ items) f = meant_items items (meant_targets i.targets f)

unfoldable pub meant_amps : ℕ → Form → Form
meant_amps zero f = f
meant_amps (suc n) f = meant_amps n (backs f)

unfoldable mutual
  pub meant_line : Line → Form
  meant_line (last p amps) = meant_amps amps (meant_pipe p)
  meant_line (before p amps l) = lists (meant_amps amps (meant_pipe p)) (meant_line l)

  pub meant_pipe : Pipeline → Form
  meant_pipe (single s) = meant_simple s
  meant_pipe (into s p) = pipes (meant_simple s) (meant_pipe p)

  pub meant_simple : Simple → Form
  meant_simple (plain ts items) =
      meant_items items (meant_targets ts (runs (map (λ i. i.text) items)))
  meant_simple (group l ts) = meant_targets ts (meant_line l)

-- Words are not empty and made of bytes that are neither white space nor symbols, and no command
-- has too many of them.
pub data IsText : List ℕ → Type 0 where
  is_text :
      {c : ℕ} {s : List ℕ} → ordinary c ≡ true → All (λ d. ordinary d ≡ true) s → IsText (c ∷ s)

abbrev pub AreTargets : List Target → Type 0
AreTargets ts = All (λ t. IsText t.name) ts

abbrev pub AreItems : List Item → Type 0
AreItems items = All (λ i. IsText i.text × AreTargets i.targets) items

unfoldable mutual
  pub IsLine : Line → Type 0
  IsLine (last p amps) = IsPipeline p
  IsLine (before p amps l) = IsPipeline p × IsLine l

  pub IsPipeline : Pipeline → Type 0
  IsPipeline (single s) = IsSimple s
  IsPipeline (into s p) = IsSimple s × IsPipeline p

  pub IsSimple : Simple → Type 0
  IsSimple (plain ts items) = AreTargets ts × AreItems items × (length items < maxargs)
  IsSimple (group l ts) = IsLine l × AreTargets ts
