-- ===== src/Print/Formats.antt =====
-- The `printf` of the user programs and the `cprintf` of the kernel against each other.
use ztl_os.Base.{
  subst, ◌-◌, ℕ, zero, suc, ◌/◌, ◌%◌, ◌≡◌, refl, ap, arith, Bool, true, false, ◌&&◌, ◌||◌, inl, inr,
  List, [], ◌∷◌, ◌++◌, ◌==◌, if◌then◌else◌, Bool-cases, u32_mod,
}
use ztl_os.Print.{
  fill, buffer, printint, backwards, enough, minus, is_negative, upper_digit, lower_digit, percent,
  letter_x, letter_p, letter_c, argument, others, convert, cconvert, printf, printf_loop, cprintf,
}

-- whether a conversion is one of `%x`, `%p` and `%c`
abbrev pub differs : ℕ → Bool
differs d = d == letter_x || d == letter_p || d == letter_c

-- No conversion of the format is one of these.
unfoldable pub Shared : List ℕ → Type 0
Shared [] = Unit
Shared (c ∷ []) = Unit
Shared (c ∷ d ∷ fmt) = if c == percent then ((differs d ≡ false) × Shared fmt) else Shared (d ∷ fmt)

fill-lower : (n x : ℕ) → fill n lower_digit 10 x ≡ fill n upper_digit 10 x
unfolding fill
fill-lower zero x = refl
fill-lower (suc n) x =
    let digit : lower_digit (x % 10) ≡ upper_digit (x % 10) = ground arith in
    rw (digit, fill-lower n (x / 10)) refl

buffer-lower :
    (x : ℕ) (signed : Bool) → buffer lower_digit x 10 signed ≡ buffer upper_digit x 10 signed
unfolding buffer
buffer-lower x signed = elim (Bool-cases (signed && is_negative x)) [
  | inl e ↦ rw e (ap (λ ds. ds ++ minus ∷ []) (fill-lower enough ((u32_mod - x) % u32_mod)))
  | inr e ↦ rw e (fill-lower enough x)
]

printint-lower :
    (x : ℕ) (signed : Bool) → printint lower_digit x 10 signed ≡ printint upper_digit x 10 signed
unfolding printint
printint-lower x signed = ap backwards (buffer-lower x signed)

cconvert-convert :
    (strings : ℕ → List ℕ) (d a : ℕ)
    → differs d ≡ false
    → cconvert strings d a ≡ convert strings d a
unfolding cconvert convert
cconvert-convert strings d a h = let same = printint-lower a true in ground (arith, h, same)

converted :
    (c d : ℕ) (fmt : List ℕ)
    → (c == percent) ≡ true
    → Shared (c ∷ d ∷ fmt)
    → (differs d ≡ false) × Shared fmt
unfolding Shared
converted c d fmt e h =
    subst (λ b. if b then ((differs d ≡ false) × Shared fmt) else Shared (d ∷ fmt)) e h

plain : (c d : ℕ) (fmt : List ℕ) → (c == percent) ≡ false → Shared (c ∷ d ∷ fmt) → Shared (d ∷ fmt)
unfolding Shared
plain c d fmt e h =
    subst (λ b. if b then ((differs d ≡ false) × Shared fmt) else Shared (d ∷ fmt)) e h

-- On formats without `%x`, `%p` and `%c` the two print the same.
pub cprintf-printf :
    (strings : ℕ → List ℕ) (fmt args : List ℕ)
    → Shared fmt
    → cprintf strings fmt args ≡ printf strings fmt args
unfolding cprintf printf printf_loop Shared
cprintf-printf strings [] args h = refl
cprintf-printf strings (c ∷ []) args h = ground arith
cprintf-printf strings (c ∷ d ∷ fmt) args h = elim (Bool-cases (c == percent)) [
  | inl e ↦
      let (known, rest) = converted c d fmt e h in
      rw
        (
          cprintf,
          e,
          cconvert-convert strings d (argument args) known,
          cprintf-printf strings fmt (others args) rest,
          cprintf-printf strings fmt args rest,
        )
        refl
  | inr e ↦
      rw (cprintf, e)
        (ap (λ ds. c ∷ ds) (cprintf-printf strings (d ∷ fmt) args (plain c d fmt e h)))
]
