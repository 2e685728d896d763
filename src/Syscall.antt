-- ===== src/Syscall.antt =====
-- src/syscall.c: how the kernel fetches the arguments of a system call from a process.
pub mod Inside
pub mod Argument
mod Tests
use ztl_os.Base.{
  ℕ, zero, suc, ◌+◌, ◌-◌, ◌*◌, ◌%◌, ◌^◌, Bool, true, false, not, ◌||◌, Option, none, some, ◌==◌,
  ltb, leb, if◌then◌else◌, u32_mod,
}

-- What the code reads of the process: `proc->sz`, `proc->tf->esp`, and the memory, byte by byte
-- (src/proc.h does not declare these fields of `struct proc`). The processor keeps an int with its
-- low byte first.
pub record Process : Type 0 where
  pub sz : ℕ
  pub esp : ℕ
  pub memory : ℕ → ℕ

-- `*(int*)addr`, as a word of 32 bits
abbrev pub int_at : (ℕ → ℕ) → ℕ → ℕ
int_at m a = m a + 256 * m (a + 1) + 65536 * m (a + 2) + 16777216 * m (a + 3)

-- `none` is the return of -1, in each function.
unfoldable pub fetchint : ℕ → Process → Option ℕ
fetchint addr p =
    if not (ltb addr p.sz) || ltb p.sz ((addr + 4) % u32_mod)
    then none
    else some (int_at p.memory addr)

-- The loop of `fetchstr`, with the bytes that are left before `ep`; it counts `s - *pp`.
unfoldable pub scan : ℕ → ℕ → ℕ → (ℕ → ℕ) → Option ℕ
scan zero addr n m = none
scan (suc k) addr n m =
    let rest = scan k addr (n + 1) m in if m (addr + n) == 0 then some n else rest

-- The length; the string is at `addr`.
unfoldable pub fetchstr : ℕ → Process → Option ℕ
fetchstr addr p = if not (ltb addr p.sz) then none else scan (p.sz - addr) addr 0 p.memory

unfoldable pub argint : ℕ → Process → Option ℕ
argint n p = fetchint ((p.esp + 4 + 4 * n) % u32_mod) p

-- The pointer. `size` is the word of an `int`, which is negative from 2 ^ 31 on.
unfoldable pub argptr : ℕ → ℕ → Process → Option ℕ
argptr n size p = elim (argint n p) [
  | none ↦ none
  | some i ↦
      if not (ltb size (2 ^ 31)) || not (ltb i p.sz) || ltb p.sz ((i + size) % u32_mod)
      then none
      else some i
]

-- The pointer and the length.
unfoldable pub argstr : ℕ → Process → Option (ℕ × ℕ)
argstr n p = elim (argint n p) [
  | none ↦ none
  | some addr ↦ elim (fetchstr addr p) [ none ↦ none | some len ↦ some (addr, len) ]
]
