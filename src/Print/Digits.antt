-- ===== src/Print/Digits.antt =====
-- The digits that `printint` stores.
use ztl_os.Base.{
  inr, inl, ◌⊎◌, ℕ, zero, suc, ◌+◌, ◌-◌, ◌*◌, ◌/◌, ◌%◌, ◌<◌, ◌≤◌, ◌≡◌, arith, Bool, ◌&&◌, List, [],
  ◌∷◌, ◌==◌, length, length-append, All, u32_mod, Bool-cases,
}
use ztl_os.Print.{fill, buffer, enough, minus, is_negative, upper_digit}

-- 2 ^ n, by doubling
doubled : ℕ → ℕ
doubled zero = 1
doubled (suc n) = 2 * doubled n

-- the number that digits stand for, the lowest first
unfoldable pub value : List ℕ → ℕ
value [] = 0
value (d ∷ ds) = d - 48 + 10 * value ds

abbrev pub IsDigit : ℕ → Type 0
IsDigit c = (48 ≤ c) × (c ≤ 57)

fill-value : (n x : ℕ) → x < doubled n → value (fill n upper_digit 10 x) ≡ x
unfolding fill value doubled
fill-value zero x h = omega arith
fill-value (suc n) x h = let rest = fill-value n (x / 10) (omega (arith, h)) in ground (arith, rest)

pub value-fill : (x : ℕ) → x < u32_mod → value (fill enough upper_digit 10 x) ≡ x
unfolding doubled
value-fill x h = fill-value enough x h

pub fill-IsDigit : (n x : ℕ) → All IsDigit (fill n upper_digit 10 x)
unfolding fill
fill-IsDigit zero x = tt
fill-IsDigit (suc n) x =
    let rest = fill-IsDigit n (x / 10) in
    (
      ground arith,
      elim (Bool-cases (x / 10 == 0)) [ inl last ↦ rw last tt | inr more ↦ rw more rest ],
    )

-- 8 ^ n
eights : ℕ → ℕ
eights zero = 1
eights (suc n) = 8 * eights n

quotient : (base x : ℕ) → (base ≡ 10) ⊎ (base ≡ 16) → x / base ≤ x / 8
quotient base x (inl ten) = rw ten (omega arith)
quotient base x (inr sixteen) = rw sixteen (omega arith)

length-fill :
    (digit : ℕ → ℕ) (n k base x : ℕ)
    → (base ≡ 10) ⊎ (base ≡ 16)
    → x < eights (suc k)
    → length (fill n digit base x) ≤ suc k
unfolding fill eights
length-fill digit zero k base x b h = omega arith
length-fill digit (suc n) zero base x b h = let low = quotient base x b in ground (arith, low, h)
length-fill digit (suc n) (suc k) base x b h =
    let low = quotient base x b in
    let less : x / base < 8 * eights k = omega (arith, h, low) in
    let rest = length-fill digit n k base (x / base) b less in ground (arith, rest)

-- In base 10 and 16 a number and its sign fit into the 16 bytes of `buf`.
pub length-buffer :
    (digit : ℕ → ℕ) (xx base : ℕ) (signed : Bool)
    → xx < u32_mod
    → (base ≡ 10) ⊎ (base ≡ 16)
    → length (buffer digit xx base signed) ≤ 16
unfolding buffer eights
length-buffer digit xx base signed h b = elim (Bool-cases (signed && is_negative xx)) [
  | inl neg ↦
      let x = (u32_mod - xx) % u32_mod in
      let digits = length-fill digit enough 11 base x b (omega arith) in
      rw (neg, length-append (fill enough digit base x) (minus ∷ [])) (omega (arith, digits))
  | inr pos ↦
      let digits = length-fill digit enough 11 base xx b (omega (arith, h)) in
      rw pos (omega (arith, digits))
]
