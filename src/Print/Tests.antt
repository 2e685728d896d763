-- ===== src/Print/Tests.antt =====
-- Printing concrete numbers and formats.
use ztl_os.Base.{ℕ, ◌-◌, ◌^◌, ◌≡◌, refl, arith, true, false, List, [], ◌∷◌}
use ztl_os.Print.{
  fill, backwards, buffer, printint, atoi, printf, cprintf, printf_loop, convert, upper_digit,
}
use ztl_os.Print.RoundTrip.{atoi-printint}
use ztl_os.Print.Formats.{Shared, cprintf-printf}

-- `-42`
negative : printint upper_digit (2 ^ 32 - 42) 10 true ≡ 45 ∷ 52 ∷ 50 ∷ []
unfolding printint buffer fill backwards
negative = refl

atoi-printint_example : atoi (printint upper_digit 4294967295 10 false) ≡ 4294967295
atoi-printint_example = atoi-printint 4294967295 false (omega arith) refl

-- `n=%d%%`
abbrev format : List ℕ
format = 110 ∷ 61 ∷ 37 ∷ 100 ∷ 37 ∷ 37 ∷ []

printed : printf (λ _. []) format (7 ∷ []) ≡ 110 ∷ 61 ∷ 55 ∷ 37 ∷ []
unfolding printf printf_loop convert printint buffer fill backwards
printed = refl

format-Shared : Shared format
unfolding Shared
format-Shared = (refl, (refl, tt))

cprintf-printf_example : cprintf (λ _. []) format (7 ∷ []) ≡ printf (λ _. []) format (7 ∷ [])
cprintf-printf_example = cprintf-printf (λ _. []) format (7 ∷ []) format-Shared
