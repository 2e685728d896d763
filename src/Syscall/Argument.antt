-- ===== src/Syscall/Argument.antt =====
-- What the fetched arguments are.
use mathlib.Core.Option.{none-ne-some}
use native.Mathlib.Decide.{dec_lt}
use ztl_os.Base.{
  ℕ, zero, suc, ◌+◌, ◌-◌, ◌%◌, ◌^◌, ◌<◌, ◌≤◌, ◌≡◌, ◌≢◌, ◌↔◌, refl, sym, ap, ◌∙◌, arith, false, not,
  ◌||◌, inl, inr, none, some, Bool-cases, Option-cases, ◌==◌, ltb, if◌then◌else◌, u32_mod,
}
use ztl_os.Syscall.{Process, scan, fetchstr, argint, argptr}

argptr_test :
    (n size i : ℕ) (p : Process)
    → argint n p ≡ some i
    → argptr n size p ≡ (
        if not (ltb size (2 ^ 31)) || not (ltb i p.sz) || ltb p.sz ((i + size) % u32_mod)
        then none
        else some i)
unfolding argptr
argptr_test n size i p e = rw (argptr, e) refl

argptr_refused : (n size : ℕ) (p : Process) → argint n p ≡ none → argptr n size p ≡ none
unfolding argptr
argptr_refused n size p e = rw (argptr, e) refl

block_test :
    (size i j sz : ℕ)
    → sz ≤ 2 ^ 31
    → (if not (ltb size (2 ^ 31)) || not (ltb j sz) || ltb sz ((j + size) % u32_mod)
        then none
        else some j)
      ≡ some i
    → (j ≡ i) × (i < sz) × (i + size ≤ sz)
block_test size i j sz low h = (ground (arith, h), ground (arith, h), ground (arith, h))

-- A pointer that `argptr` returns is the argument, and it and the block behind it are in the
-- process, if the process is below 2 ^ 31.
pub argptr_block :
    (n size i : ℕ) (p : Process)
    → p.sz ≤ 2 ^ 31
    → argptr n size p ≡ some i
    → (argint n p ≡ some i) × (i < p.sz) × (i + size ≤ p.sz)
argptr_block n size i p low h = elim (Option-cases (argint n p)) [
  | inl bad ↦ absurd (none-ne-some _ (sym (argptr_refused n size p bad) ∙ h))
  | inr (j, e) ↦
      let (same, start, all) = block_test size i j p.sz low (sym (argptr_test n size j p e) ∙ h) in
      (e ∙ ap some same, start, all)
]

-- From place `n` on, the first zero byte is at place `len`.
pub record IsEnd (m : ℕ → ℕ) (addr n len : ℕ) : Type 0 where
  pub from : n ≤ len
  pub zero_byte : m (addr + len) ≡ 0
  pub nonzero : (j : ℕ) → n ≤ j → j < len → m (addr + j) ≢ 0

scan_sound :
    (k addr n len : ℕ) (m : ℕ → ℕ) → scan k addr n m ≡ some len → (len < n + k) × IsEnd m addr n len
unfolding scan
scan_sound zero addr n len m h = absurd (none-ne-some _ h)
scan_sound (suc k) addr n len m h = elim (Bool-cases (m (addr + n) == 0)) [
  | inl stops ↦
      let here : n ≡ len = ground (arith, h, stops) in
      (
        omega (arith, here),
        record {
          from = omega (arith, here);
          zero_byte = ground (arith, h, stops);
          nonzero = λ j a b. absurd (omega (arith, here));
        },
      )
  | inr goes_on ↦
      let (b, e) = scan_sound k addr (n + 1) len m (ground (arith, h, goes_on)) in
      (
        omega (arith, b),
        record {
          from = omega (arith, e.from);
          zero_byte = e.zero_byte;
          nonzero = λ j x y. elim (dec_lt n j) [
            | yes later ↦ e.nonzero j (omega arith) y
            | no same ↦ let here : n ≡ j = omega arith in ground (arith, goes_on, here)
          ];
        },
      )
]

scan_complete :
    (k addr n len : ℕ) (m : ℕ → ℕ) → len < n + k → IsEnd m addr n len → scan k addr n m ≡ some len
unfolding scan
scan_complete zero addr n len m a e = absurd (omega (arith, a, e.from))
scan_complete (suc k) addr n len m a e = elim (dec_lt n len) [
  | no same ↦ let here : n ≡ len = omega (arith, e.from) in ground (arith, e.zero_byte, here)
  | yes later ↦
      let on : (m (addr + n) == 0) ≡ false =
        ground (arith, e.nonzero n (omega arith) (omega (arith, e.from))) in
      rw (on, scan)
        (scan_complete k addr (n + 1) len m (omega (arith, a)) (record {
          from = omega (arith, e.from);
          zero_byte = e.zero_byte;
          nonzero = λ j x y. e.nonzero j (omega (arith, x)) y;
        }))
]

-- `fetchstr` returns the length of a string exactly if its first zero byte is in the process.
pub fetchstr_iff :
    (addr len : ℕ) (p : Process)
    → (fetchstr addr p ≡ some len) ↔ ((addr + len < p.sz) × IsEnd p.memory addr 0 len)
unfolding fetchstr
fetchstr_iff addr len p = elim (Bool-cases (ltb addr p.sz)) [
  | inl inside ↦
      rw (fetchstr, inside)
        (
          (λ h.
              let (b, e) = scan_sound (p.sz - addr) addr 0 len p.memory h in (omega (arith, b), e)),
          (λ h. scan_complete (p.sz - addr) addr 0 len p.memory (omega (arith, h.0)) h.1),
        )
  | inr out ↦
      rw (fetchstr, out)
        ((λ h. absurd (none-ne-some _ h)), (λ h. absurd (ground (arith, h.0, out))))
]
