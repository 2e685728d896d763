-- ===== src/Syscall/Inside.antt =====
-- Only the process's own memory has a part in what is fetched.
use ztl_os.Base.{
  Option-cases, ℕ, zero, suc, ◌+◌, ◌-◌, ◌*◌, ◌%◌, ◌^◌, ◌<◌, ◌≤◌, ◌≡◌, refl, sym, ◌∙◌, arith, inl,
  inr, Bool-cases, ltb, u32_mod,
}
use ztl_os.Syscall.{Process, fetchint, scan, fetchstr, argint, argptr, argstr}

-- the process with another memory
abbrev pub with_memory : (ℕ → ℕ) → Process → Process
with_memory m p = record p { memory = m }

module _ (p : Process) (m : ℕ → ℕ) (low : p.sz ≤ 2 ^ 31)
    (same : (a : ℕ) → a < p.sz → p.memory a ≡ m a) where
  fetchint-inside : (addr : ℕ) → fetchint addr p ≡ fetchint addr (with_memory m p)
  unfolding fetchint
  fetchint-inside addr =
      ground (arith, same addr, same (addr + 1), same (addr + 2), same (addr + 3))

  scan-inside : (k addr n : ℕ) → addr + n + k ≤ p.sz → scan k addr n p.memory ≡ scan k addr n m
  unfolding scan
  scan-inside zero addr n h = refl
  scan-inside (suc k) addr n h =
      let rest = scan-inside k addr (n + 1) (omega arith) in
      rw (same (addr + n) (omega arith), rest) refl

  fetchstr-inside : (addr : ℕ) → fetchstr addr p ≡ fetchstr addr (with_memory m p)
  unfolding fetchstr
  fetchstr-inside addr = elim (Bool-cases (ltb addr p.sz)) [
    | inl yes_in ↦ rw (fetchstr, yes_in) (scan-inside (p.sz - addr) addr 0 (ground (arith, yes_in)))
    | inr out ↦ rw (fetchstr, out) refl
  ]

  argint-inside : (n : ℕ) → argint n p ≡ argint n (with_memory m p)
  unfolding argint
  argint-inside n = fetchint-inside ((p.esp + 4 + 4 * n) % u32_mod)

  argptr-inside : (n size : ℕ) → argptr n size p ≡ argptr n size (with_memory m p)
  unfolding argptr
  argptr-inside n size = rw (argptr, argint-inside n) refl

  argstr-inside : (n : ℕ) → argstr n p ≡ argstr n (with_memory m p)
  unfolding argstr
  argstr-inside n = elim (Option-cases (argint n p)) [
    | inl bad ↦ rw (argstr, bad, sym (argint-inside n) ∙ bad) refl
    | inr (addr, e) ↦ rw (argstr, e, sym (argint-inside n) ∙ e, fetchstr-inside addr) refl
  ]

-- A process below 2 ^ 31 gets the same arguments, and the same refusals, from any two memories that
-- agree on its addresses: nothing outside of the process is read.
pub arguments_inside :
    (p : Process) (m : ℕ → ℕ)
    → p.sz ≤ 2 ^ 31
    → ((a : ℕ) → a < p.sz → p.memory a ≡ m a)
    → ((n : ℕ) → argint n p ≡ argint n (with_memory m p))
      × ((n size : ℕ) → argptr n size p ≡ argptr n size (with_memory m p))
      × ((n : ℕ) → argstr n p ≡ argstr n (with_memory m p))
arguments_inside p m low same =
    (argint-inside p m low same, argptr-inside p m low same, argstr-inside p m low same)
