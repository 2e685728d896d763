-- ===== src/Strings/Names.antt =====
-- Names of a fixed width, as the directories keep them.
use native.Mathlib.Decide.{dec_lt}
use ztl_os.Base.{
  take, ◌≢◌, get_or, length, ap₂, update_self, ◌⊎◌, ℕ, zero, suc, ◌+◌, ◌-◌, ◌<◌, ◌≤◌, ◌≡◌, ◌↔◌,
  refl, ◌∙◌, arith, true, false, inl, inr, List, [], ◌∷◌, ◌==◌, if◌then◌else◌, update, Bool-cases,
}
use ztl_os.Strings.Move.{in_range}
use ztl_os.Strings.{memcmp, strncmp, pad, strncpy, difference}

-- the bytes at `p`, up to a zero byte or the width `n`
unfoldable pub name_at : (p n : ℕ) → (ℕ → ℕ) → List ℕ
name_at p zero m = []
name_at p (suc n) m = let rest = name_at (p + 1) n m in if m p == 0 then [] else m p ∷ rest

abbrev pub AreBytes : (ℕ → ℕ) → Type 0
AreBytes m = (a : ℕ) → m a < 256

difference_zero : (a b : ℕ) → a < 256 → b < 256 → difference a b ≡ 0 → a ≡ b
difference_zero a b ha hb h = omega arith

-- `strncmp` is 0 exactly for equal names.
pub strncmp_iff :
    (p q n : ℕ) (m : ℕ → ℕ) → AreBytes m → (strncmp p q n m ≡ 0) ↔ (name_at p n m ≡ name_at q n m)
unfolding strncmp name_at
strncmp_iff p q zero m h = ((λ e. refl), (λ e. refl))
strncmp_iff p q (suc n) m h =
    let (sound, complete) = strncmp_iff (p + 1) (q + 1) n m h in
    (
      (λ e. ground (arith, e, sound, h p, h q, difference_zero (m p) (m q) (h p) (h q))),
      (λ e. ground (arith, e, complete, h p, h q)),
    )

-- `memcmp` is 0 exactly for equal bytes.
pub memcmp_iff :
    (p q n : ℕ) (m : ℕ → ℕ)
    → AreBytes m
    → (memcmp p q n m ≡ 0) ↔ ((i : ℕ) → i < n → m (p + i) ≡ m (q + i))
unfolding memcmp
memcmp_iff p q zero m h = ((λ e i l. absurd (omega arith)), (λ e. refl))
memcmp_iff p q (suc n) m h =
    let (sound, complete) = memcmp_iff (p + 1) (q + 1) n m h in
    (
      (λ e i l.
          let first : m p ≡ m q =
            ground (arith, e, h p, h q, difference_zero (m p) (m q) (h p) (h q)) in
          elim (dec_lt 0 i) [
            | yes more ↦
                let rest = sound (ground (arith, e, first)) (i - 1) (omega (arith, l)) in
                ground (arith, rest)
            | no none_yet ↦ ground (arith, first)
          ]),
      (λ e.
          let first : m (p + 0) ≡ m (q + 0) = e 0 (omega arith) in
          let rest =
            complete
              (λ i l. let at_next = e (suc i) (omega (arith, l)) in ground (arith, at_next)) in
          ground (arith, first, rest)),
    )

pad_lem : (s n : ℕ) (m : ℕ → ℕ) (a : ℕ) → pad s n m a ≡ (if in_range s n a then 0 else m a)
unfolding pad
pad_lem s zero m a = ground arith
pad_lem s (suc n) m a = pad_lem (s + 1) n (update m s 0) a ∙ ground arith

-- `strncpy` writes `n` bytes, and nothing else.
strncpy_outside : (s t n : ℕ) (m : ℕ → ℕ) (a : ℕ) → in_range s n a ≡ false → strncpy s t n m a ≡ m a
unfolding strncpy
strncpy_outside s t zero m a h = refl
strncpy_outside s t (suc n) m a h =
    let rest = strncpy_outside (s + 1) (t + 1) n (update m s (m t)) a (ground (arith, h)) in
    ground (arith, rest, pad_lem (s + 1) n (update m s (m t)) a, h)

pub name_at-same :
    (p q n : ℕ) (m m' : ℕ → ℕ)
    → ((i : ℕ) → i < n → m (p + i) ≡ m' (q + i))
    → name_at p n m ≡ name_at q n m'
unfolding name_at
name_at-same p q zero m m' h = refl
name_at-same p q (suc n) m m' h =
    let first : m (p + 0) ≡ m' (q + 0) = h 0 (omega arith) in
    let rest =
      name_at-same (p + 1) (q + 1) n m m'
        (λ i l. let at_next = h (suc i) (omega (arith, l)) in ground (arith, at_next)) in
    ground (arith, first, rest)

-- A name is a list of bytes that are not zero, if these stand there and a zero behind them.
pub name_at-list :
    (n p : ℕ) (src : List ℕ) (m : ℕ → ℕ)
    → ((i : ℕ) → i < length src → i < n → m (p + i) ≡ get_or src i 0)
    → ((i : ℕ) → i < length src → get_or src i 0 ≢ 0)
    → (length src < n → m (p + length src) ≡ 0)
    → name_at p n m ≡ take n src
unfolding name_at
name_at-list zero p src m a b c = refl
name_at-list (suc n) p [] m a b c = let end : m (p + 0) ≡ 0 = c (omega arith) in ground (arith, end)
name_at-list (suc n) p (x ∷ src) m a b c =
    let first : m (p + 0) ≡ x = a 0 (omega arith) (omega arith) in
    let nonzero : x ≢ 0 = b 0 (omega arith) in
    let rest =
      name_at-list n (p + 1) src m
        (λ i l k.
          let at_next = a (suc i) (omega (arith, l)) (omega (arith, k)) in ground (arith, at_next))
        (λ i l. b (suc i) (omega (arith, l)))
        (λ l. let end = c (omega (arith, l)) in ground (arith, end)) in
    ground (arith, first, nonzero, rest)

name_at-end : (p n : ℕ) (m : ℕ → ℕ) → (m p == 0) ≡ true → name_at p (suc n) m ≡ []
unfolding name_at
name_at-end p n m e = rw (e, name_at) refl

name_at-more :
    (p n : ℕ) (m : ℕ → ℕ) → (m p == 0) ≡ false → name_at p (suc n) m ≡ m p ∷ name_at (p + 1) n m
unfolding name_at
name_at-more p n m e = rw (e, name_at) refl

strncpy-end :
    (s t n : ℕ) (m : ℕ → ℕ)
    → (m t == 0) ≡ true
    → strncpy s t (suc n) m ≡ pad (s + 1) n (update m s (m t))
unfolding strncpy
strncpy-end s t n m e = rw (e, strncpy) refl

strncpy-more :
    (s t n : ℕ) (m : ℕ → ℕ)
    → (m t == 0) ≡ false
    → strncpy s t (suc n) m ≡ strncpy (s + 1) (t + 1) n (update m s (m t))
unfolding strncpy
strncpy-more s t n m e = rw (e, strncpy) refl

strncpy_name :
    (s t n : ℕ) (m : ℕ → ℕ)
    → (t + n ≤ s) ⊎ (s + n ≤ t)
    → name_at s n (strncpy s t n m) ≡ name_at t n m
unfolding strncpy name_at
strncpy_name s t zero m apart = refl
strncpy_name s t (suc n) m apart =
    let m' = update m s (m t) in
    let here : strncpy (s + 1) (t + 1) n m' s ≡ m t =
      strncpy_outside (s + 1) (t + 1) n m' s (ground arith) ∙ update_self m s (m t) in
    let rest : name_at (s + 1) n (strncpy (s + 1) (t + 1) n m') ≡ name_at (t + 1) n m =
      strncpy_name (s + 1) (t + 1) n m'
        (elim apart [ inl a ↦ inl (omega arith) | inr b ↦ inr (omega arith) ])
      ∙ name_at-same (t + 1) (t + 1) n m' m (λ i l. ground (arith, apart)) in
    let padded : pad (s + 1) n m' s ≡ m t = pad_lem (s + 1) n m' s ∙ ground arith in
    elim (Bool-cases (m t == 0)) [
      | inl ends ↦
          rw (strncpy-end s t n m ends, name_at-end t n m ends)
            (name_at-end s n (pad (s + 1) n m') (rw padded ends))
      | inr goes_on ↦
          rw (strncpy-more s t n m goes_on, name_at-more t n m goes_on)
            (name_at-more s n (strncpy (s + 1) (t + 1) n m') (rw here goes_on)
              ∙ ap₂ (λ x xs. x ∷ xs) here rest)
    ]

-- Where the two do not overlap, the field that `strncpy` fills has the name of its source, and no
-- byte outside of the field changes.
pub strncpy_lem :
    (s t n : ℕ) (m : ℕ → ℕ)
    → (t + n ≤ s) ⊎ (s + n ≤ t)
    → (name_at s n (strncpy s t n m) ≡ name_at t n m)
      × ((a : ℕ) → in_range s n a ≡ false → strncpy s t n m a ≡ m a)
strncpy_lem s t n m apart = (strncpy_name s t n m apart, strncpy_outside s t n m)
