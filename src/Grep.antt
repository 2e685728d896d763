-- ===== src/Grep.antt =====
-- src/grep.c: the matcher of regular expressions.
--
-- A string is the list of its bytes before the NUL.
pub mod Language
pub mod Star
pub mod Correct
mod Tests
use ztl_os.Base.{ℕ, Bool, true, false, ◌&&◌, ◌||◌, List, [], ◌∷◌, ◌==◌, if◌then◌else◌}

-- the bytes `^`, `$`, `.` and `*`
abbrev pub caret : ℕ
caret = 94

abbrev pub dollar : ℕ
dollar = 36

abbrev pub dot : ℕ
dot = 46

abbrev pub star : ℕ
star = 42

-- `matchstar(c, re, text)`, with `matchhere(re, ·)` as an argument
unfoldable pub matchstar : ℕ → (List ℕ → Bool) → List ℕ → Bool
matchstar c here [] = here []
matchstar c here (t ∷ ts) = here (t ∷ ts) || (t == c || c == dot) && matchstar c here ts

-- `re[0] == '.' || re[0] == *text`, at a byte of the text
abbrev pub fits : ℕ → ℕ → Bool
fits c t = c == dot || c == t

-- The last two tests of `matchhere`, with `matchhere(re + 1, ·)` as an argument.
unfoldable pub match_one : ℕ → (List ℕ → Bool) → List ℕ → Bool
match_one c here [] = false
match_one c here (t ∷ ts) = fits c t && here ts

abbrev pub is_nil : List ℕ → Bool
is_nil [] = true
is_nil (_ ∷ _) = false

unfoldable pub matchhere : List ℕ → List ℕ → Bool
unfolding matchstar match_one
matchhere [] text = true
matchhere (c ∷ []) text = if c == dollar then is_nil text else match_one c (matchhere []) text
matchhere (c ∷ d ∷ re) text =
    if d == star then matchstar c (matchhere re) text else match_one c (matchhere (d ∷ re)) text

-- The loop of `match`: it looks at the empty string, too.
unfoldable pub match_from : List ℕ → List ℕ → Bool
match_from re [] = matchhere re []
match_from re (t ∷ ts) = matchhere re (t ∷ ts) || match_from re ts

-- `match(re, text)`
unfoldable pub match_text : List ℕ → List ℕ → Bool
match_text [] text = match_from [] text
match_text (c ∷ re) text = if c == caret then matchhere re text else match_from (c ∷ re) text
