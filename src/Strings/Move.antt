-- ===== src/Strings/Move.antt =====
-- `memset` and `memmove` write what they should, where they should.
use native.Mathlib.Decide.{dec_lt}
use ztl_os.Base.{
  ℕ, zero, suc, ◌+◌, ◌-◌, ◌*◌, ◌/◌, ◌%◌, ◌<◌, ◌≤◌, ◌≡◌, ◌⊎◌, inl, inr, ◌∙◌, arith, Bool, not, ◌&&◌,
  ◌==◌, ltb, if◌then◌else◌, update, Bool-cases,
}
use ztl_os.Strings.{stosb, stosl, store_word, four_times, memset, move_up, move_down, memmove}

-- whether an address lies in the `n` bytes from `d` on
abbrev pub in_range : (d n a : ℕ) → Bool
in_range d n a = not (ltb a d) && ltb a (d + n)

stosb_lem :
    (d v n : ℕ) (m : ℕ → ℕ) (a : ℕ) → stosb d v n m a ≡ (if in_range d n a then v % 256 else m a)
unfolding stosb
stosb_lem d v zero m a = ground arith
stosb_lem d v (suc n) m a = stosb_lem (d + 1) v n (update m d (v % 256)) a ∙ ground arith

four_times_bytes :
    (c : ℕ)
    → c < 256
    → (four_times c % 256 ≡ c)
      × (four_times c / 256 % 256 ≡ c)
      × (four_times c / 65536 % 256 ≡ c)
      × (four_times c / 16777216 % 256 ≡ c)
four_times_bytes c h = omega arith

stosl_lem :
    (d c n : ℕ) (m : ℕ → ℕ) (a : ℕ)
    → c < 256
    → stosl d (four_times c) n m a ≡ (if in_range d (4 * n) a then c else m a)
unfolding stosl
stosl_lem d c zero m a h = ground arith
stosl_lem d c (suc n) m a h =
    let (b0, b1, b2, b3) = four_times_bytes c h in
    stosl_lem (d + 4) c n (store_word d (four_times c) m) a h ∙ rw (b0, b1, b2, b3) ground arith

-- Every byte of the range gets the low byte of `c`, on both ways through `memset`, and no other
-- byte changes.
pub memset_lem :
    (d c n : ℕ) (m : ℕ → ℕ) (a : ℕ) → memset d c n m a ≡ (if in_range d n a then c % 256 else m a)
unfolding memset
memset_lem d c n m a = elim (Bool-cases ((d % 4 == 0) && (n % 4 == 0))) [
  | inl words ↦ rw words (stosl_lem d (c % 256) (n / 4) m a (omega arith) ∙ ground arith)
  | inr bytes ↦ rw bytes (stosb_lem d c n m a)
]

-- the memory after a copy of `n` bytes, made at once
abbrev pub copied : (d s n : ℕ) → (ℕ → ℕ) → ℕ → ℕ
copied d s n m a = if in_range d n a then m (s + (a - d)) else m a

move_up_lem :
    (d s n : ℕ) (m : ℕ → ℕ) (a : ℕ) → (d ≤ s) ⊎ (s + n ≤ d) → move_up d s n m a ≡ copied d s n m a
unfolding move_up
move_up_lem d s zero m a h = ground arith
move_up_lem d s (suc n) m a h =
    move_up_lem (d + 1) (s + 1) n (update m d (m s)) a
      (elim h [ inl before ↦ inl (omega arith) | inr apart ↦ inr (omega arith) ])
    ∙ ground (arith, h)

move_down_lem :
    (d s n : ℕ) (m : ℕ → ℕ) (a : ℕ) → s ≤ d → move_down (d + n) (s + n) n m a ≡ copied d s n m a
unfolding move_down
move_down_lem d s zero m a h = ground arith
move_down_lem d s (suc n) m a h =
    let at_d : d + suc n - 1 ≡ d + n = omega arith in
    let at_s : s + suc n - 1 ≡ s + n = omega arith in
    rw (at_d, at_s) (move_down_lem d s n (update m (d + n) (m (s + n))) a h ∙ ground arith)

-- After `memmove` the destination has the bytes that the source had, even where the two overlap,
-- and no other byte has changed.
pub memmove_lem : (d s n : ℕ) (m : ℕ → ℕ) (a : ℕ) → memmove d s n m a ≡ copied d s n m a
unfolding memmove
memmove_lem d s n m a = elim (Bool-cases (ltb s d && ltb d (s + n))) [
  | inl over ↦ rw over (move_down_lem d s n m a (ground (arith, over)))
  | inr clear ↦ rw clear (
      move_up_lem d s n m a
        (elim (dec_lt s d) [ yes l ↦ inr (ground (arith, clear, l)) | no l ↦ inl (omega arith) ]))
]
