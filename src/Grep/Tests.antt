-- ===== src/Grep/Tests.antt =====
-- Runs of the matcher, and its theorem at a concrete expression.
use ztl_os.Base.{ℕ, ◌≡◌, refl, ◌↔◌, true, false, List, [], ◌∷◌}
use ztl_os.Grep.{match_text, matchhere, matchstar, match_one, match_from}
use ztl_os.Grep.Language.{IsMatch}
use ztl_os.Grep.Correct.{match_text_iff}

-- `ab*.$`
abbrev tied : List ℕ
tied = 97 ∷ 98 ∷ 42 ∷ 46 ∷ 36 ∷ []

-- `xabbc` has it, `abcd` does not.
found : match_text tied (120 ∷ 97 ∷ 98 ∷ 98 ∷ 99 ∷ []) ≡ true
unfolding match_text match_from matchhere matchstar match_one
found = refl

not_found : match_text tied (97 ∷ 98 ∷ 99 ∷ 100 ∷ []) ≡ false
unfolding match_text match_from matchhere matchstar match_one
not_found = refl

match_text_iff_example :
    (match_text tied (120 ∷ 97 ∷ 98 ∷ 98 ∷ 99 ∷ []) ≡ true)
    ↔ IsMatch tied (120 ∷ 97 ∷ 98 ∷ 98 ∷ 99 ∷ [])
match_text_iff_example = match_text_iff tied (120 ∷ 97 ∷ 98 ∷ 98 ∷ 99 ∷ [])
