-- ===== src/Print/RoundTrip.antt =====
-- Printing a number and reading it back.
use ztl_os.Base.{
  All-append, ℕ, ◌+◌, ◌-◌, ◌*◌, ◌%◌, ◌<◌, ◌≡◌, refl, ◌∙◌, arith, Bool, false, ◌&&◌, List, [], ◌∷◌,
  ◌++◌, All, u32_mod,
}
use ztl_os.Print.{
  fill, buffer, printint, backwards, atoi, atoi_loop, enough, is_negative, upper_digit,
}
use ztl_os.Print.Digits.{value, IsDigit, value-fill, fill-IsDigit}

-- One more digit at the end of a row of digits is read behind the others.
atoi_loop-snoc :
    (ds : List ℕ) (n d : ℕ)
    → All IsDigit ds
    → IsDigit d
    → atoi_loop n (ds ++ d ∷ []) ≡ (atoi_loop n ds * 10 + d + (u32_mod - 48)) % u32_mod
unfolding atoi_loop
atoi_loop-snoc [] n d h i = ground (arith, i.0, i.1)
atoi_loop-snoc (c ∷ ds) n d h i =
    let rest = atoi_loop-snoc ds ((n * 10 + c + (u32_mod - 48)) % u32_mod) d h.1 i in
    ground (arith, h.0.0, h.0.1, rest)

All-backwards : (ds : List ℕ) → All IsDigit ds → All IsDigit (backwards ds)
unfolding backwards
All-backwards [] h = tt
All-backwards (d ∷ ds) h =
    All-append IsDigit (backwards ds) (d ∷ []) (All-backwards ds h.1) (h.0, tt)

atoi-backwards :
    (ds : List ℕ) → All IsDigit ds → value ds < u32_mod → atoi (backwards ds) ≡ value ds
unfolding atoi backwards value atoi_loop
atoi-backwards [] h small = refl
atoi-backwards (d ∷ ds) h small =
    let rest = atoi-backwards ds h.1 (omega (arith, small)) in
    atoi_loop-snoc (backwards ds) 0 d (All-backwards ds h.1) h.0 ∙ omega (arith, rest, h.0.0, small)

-- `atoi` reads back every number that `printint` prints in base 10: as it is if it is printed
-- without a sign, or is not negative.
pub atoi-printint :
    (x : ℕ) (signed : Bool)
    → x < u32_mod
    → (signed && is_negative x) ≡ false
    → atoi (printint upper_digit x 10 signed) ≡ x
unfolding printint buffer
atoi-printint x signed small plain =
    let digits = value-fill x small in
    rw plain (
      atoi-backwards (fill enough upper_digit 10 x) (fill-IsDigit enough x) (omega (arith, digits))
      ∙ digits)
