-- ===== src/Shell.antt =====
-- src/sh.c: the parser of command lines, with `strchr` of src/ulib.c.
--
-- A pointer into the line is the list of the bytes from there to the zero byte at the line's end,
-- so that a pointer at `es` is the empty list.
pub mod Result
pub mod Parser
pub mod Suffix
pub mod Tokens
pub mod Words
pub mod Loops
pub mod Sound
pub mod Buffer
pub mod Arguments
pub mod Printer
pub mod Printed
pub mod Right
pub mod Heads
pub mod Stretches
pub mod RoundTrip
mod Tests
use ztl_os.Base.{
  ℕ, zero, suc, Bool, true, false, not, ◌||◌, ◌&&◌, List, [], ◌∷◌, ◌==◌, if◌then◌else◌, length,
}

-- the constants of src/fcntl.h that the parser uses
abbrev pub o_rdonly : ℕ
o_rdonly = 0

abbrev pub o_wronly : ℕ
o_wronly = 1

abbrev pub o_create : ℕ
o_create = 512

abbrev pub maxargs : ℕ
maxargs = 10

-- A word of the line: from `q` to `eq`.
pub record Word : Type 0 where
  pub q : List ℕ
  pub eq : List ℕ

-- What a `redircmd` opens, beside the command that it is for.
pub record Redir : Type 0 where
  pub file : Word
  pub mode : ℕ
  pub fd : ℕ

pub data Cmd : Type 0 where
  exec : List Word → Cmd
  redir : Cmd → Redir → Cmd
  pipe : Cmd → Cmd → Cmd
  list : Cmd → Cmd → Cmd
  back : Cmd → Cmd

-- The constructors of commands; `malloc` is taken to succeed.
abbrev pub execcmd : List Word → Cmd
execcmd ws = exec ws

abbrev pub redircmd : Cmd → Redir → Cmd
redircmd c r = redir c r

abbrev pub pipecmd : Cmd → Cmd → Cmd
pipecmd left right = pipe left right

abbrev pub listcmd : Cmd → Cmd → Cmd
listcmd left right = list left right

abbrev pub backcmd : Cmd → Cmd
backcmd c = back c

-- `*s`, which is 0 at the end of the line
abbrev pub at : List ℕ → ℕ
at [] = 0
at (c ∷ s) = c

-- `strchr(s, c) != 0`
unfoldable pub strchr : List ℕ → ℕ → Bool
strchr [] c = false
strchr (x ∷ s) c = (x == c) || strchr s c

-- " \t\r\n\v"
abbrev pub whitespace : List ℕ
whitespace = 32 ∷ 9 ∷ 13 ∷ 10 ∷ 11 ∷ []

abbrev pub bar : ℕ
bar = 124

abbrev pub lparen : ℕ
lparen = 40

abbrev pub rparen : ℕ
rparen = 41

abbrev pub semicolon : ℕ
semicolon = 59

abbrev pub ampersand : ℕ
ampersand = 38

abbrev pub less : ℕ
less = 60

abbrev pub greater : ℕ
greater = 62

-- '+', which stands for >>
abbrev pub plus : ℕ
plus = 43

-- 'a', which stands for a word
abbrev pub letter_a : ℕ
letter_a = 97

-- "<|>&;()"
abbrev pub symbols : List ℕ
symbols = less ∷ bar ∷ greater ∷ ampersand ∷ semicolon ∷ lparen ∷ rparen ∷ []

-- `while(s < es && strchr(whitespace, *s)) s++;`
unfoldable pub skip_white : List ℕ → List ℕ
skip_white [] = []
skip_white (c ∷ s) = let rest = skip_white s in if strchr whitespace c then rest else c ∷ s

-- `while(s < es && !strchr(whitespace, *s) && !strchr(symbols, *s)) s++;`
unfoldable pub skip_word : List ℕ → List ℕ
skip_word [] = []
skip_word (c ∷ s) =
    let rest = skip_word s in
    if not (strchr whitespace c) && not (strchr symbols c) then rest else c ∷ s

-- What `gettoken` returns, and the pointers that it sets.
pub record Token : Type 0 where
  pub ret : ℕ
  pub word : Word
  pub rest : List ℕ

-- The symbols that are a token by themselves.
abbrev pub is_single : ℕ → Bool
is_single c =
    (c == bar)
    || (c == lparen)
    || (c == rparen)
    || (c == semicolon)
    || (c == ampersand)
    || (c == less)

-- `case '>'`, behind the sign
unfoldable pub scan_greater : List ℕ → ℕ × List ℕ
scan_greater [] = (greater, [])
scan_greater (d ∷ s) = if d == greater then (plus, s) else (greater, d ∷ s)

-- The `switch` of `gettoken` at `s`: what is returned, and the end of the token.
unfoldable pub scan_token : List ℕ → ℕ × List ℕ
scan_token [] = (0, [])
scan_token (c ∷ s) =
    if is_single c
    then (c, s)
    else if c == greater
    then scan_greater s
    else (letter_a, skip_word (c ∷ s))

unfoldable pub gettoken : List ℕ → Token
gettoken ps =
    let s = skip_white ps in
    let r = scan_token s in
    record { ret = r.0; word = record { q = s; eq = r.1 }; rest = skip_white r.1 }

-- Whether the next byte is one of `toks`, and `*ps`.
unfoldable pub peek : List ℕ → List ℕ → Bool × List ℕ
peek toks ps = let s = skip_white ps in (not (at s == 0) && strchr toks (at s), s)
