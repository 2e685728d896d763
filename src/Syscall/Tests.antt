-- ===== src/Syscall/Tests.antt =====
-- Arguments of a concrete process.
use ztl_os.Base.{ℕ, ◌+◌, ◌<◌, ◌≤◌, ◌≡◌, ◌↔◌, refl, arith, some, ◌==◌, if◌then◌else◌, ltb}
use ztl_os.Syscall.{Process, argint, argptr, argstr, fetchstr, fetchint, scan}
use ztl_os.Syscall.Inside.{with_memory, arguments_inside}
use ztl_os.Syscall.Argument.{IsEnd, argptr_block, fetchstr_iff}

-- The first argument is the address 96, where the string `hi` is.
abbrev process : Process
process = record {
  sz = 100;
  esp = 40;
  memory = λ a. if a == 44 then 96 else if a == 96 then 104 else if a == 97 then 105 else 0;
}

string : argstr 0 process ≡ some (96, 2)
unfolding argstr argint fetchint fetchstr scan
string = refl

block : argptr 0 4 process ≡ some 96
unfolding argptr argint fetchint
block = refl

argptr_block_example : (argint 0 process ≡ some 96) × (96 < 100) × (96 + 4 ≤ 100)
argptr_block_example = argptr_block 0 4 96 process (omega arith) block

fetchstr_iff_example :
    (fetchstr 96 process ≡ some 2) ↔ ((96 + 2 < 100) × IsEnd process.memory 96 0 2)
fetchstr_iff_example = fetchstr_iff 96 2 process

-- The same memory, but for the addresses from 100 on.
abbrev other_memory : ℕ → ℕ
other_memory a = if ltb a 100 then process.memory a else 7

arguments_inside_example :
    ((n : ℕ) → argint n process ≡ argint n (with_memory other_memory process))
    × ((n size : ℕ) → argptr n size process ≡ argptr n size (with_memory other_memory process))
    × ((n : ℕ) → argstr n process ≡ argstr n (with_memory other_memory process))
arguments_inside_example = arguments_inside process other_memory (omega arith) (λ a h. ground arith)
