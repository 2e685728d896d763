-- ===== src/Console.antt =====
-- src/console.c: the buffer of the lines that are typed.
--
-- `consoleintr` runs under `cons.lock` from start to end. `consoleread` runs under it from its
-- acquisition, or from the return of `sleep`, to a return or the next `sleep`: that stretch is one
-- function, and a reader that is woken runs it again.
pub mod Window
pub mod Edit
pub mod Typed
pub mod Read
pub mod Wakes
mod Tests
use ztl_os.Base.{
  ℕ, zero, suc, ◌+◌, ◌-◌, ◌%◌, Bool, true, false, not, ◌&&◌, ◌||◌, List, [], ◌∷◌, ◌++◌, ◌==◌, ltb,
  if◌then◌else◌, update, u32_mod, Ret, fail, ok,
}

abbrev pub input_buf : ℕ
input_buf = 128

-- Control-x
abbrev pub control : ℕ → ℕ
control x = x - 64

-- `C('P')`, `C('U')`, `C('H')`, `'\x7f'`, `C('D')`, `'\n'` and `'\r'`
abbrev pub list_key : ℕ
list_key = control 80

abbrev pub kill_key : ℕ
kill_key = control 85

abbrev pub back_key : ℕ
back_key = control 72

abbrev pub delete_key : ℕ
delete_key = 127

abbrev pub end_key : ℕ
end_key = control 68

abbrev pub newline : ℕ
newline = 10

abbrev pub return_key : ℕ
return_key = 13

-- the code that `consputc` takes for a backspace
abbrev pub backspace : ℕ
backspace = 256

-- `input`; the array is a function of the index.
pub record Input : Type 0 where
  pub buf : ℕ → ℕ
  pub r : ℕ
  pub w : ℕ
  pub e : ℕ

-- The buffer, and what the handler has done so far: the calls of `consputc`, whether readers were
-- woken, and `doprocdump`.
pub record Console : Type 0 where
  pub input : Input
  pub echoed : List ℕ
  pub woken : Bool
  pub dump : Bool

-- `i + 1` and `i - 1` on `uint`
abbrev pub next : ℕ → ℕ
next i = (i + 1) % u32_mod

abbrev pub previous : ℕ → ℕ
previous i = (i + (u32_mod - 1)) % u32_mod

-- `input.e--; consputc(BACKSPACE)`
unfoldable pub rub_out : Console → Console
rub_out s = record s {
  input = record (s.input) { e = previous s.input.e };
  echoed = s.echoed ++ backspace ∷ [];
}

-- The loop of `C('U')`, on fuel.
unfoldable pub kill_line : ℕ → Console → Console
kill_line zero s = s
kill_line (suc fuel) s =
    let rest = kill_line fuel (rub_out s) in
    let i = s.input in
    if not (i.e == i.w) && not (i.buf (previous i.e % input_buf) == newline) then rest else s

-- `input.buf[input.e++ % INPUT_BUF] = c; consputc(c)`
unfoldable pub append : ℕ → Console → Console
append c s =
    let i = s.input in
    record s {
      input = record i { buf = update i.buf (i.e % input_buf) c; e = next i.e };
      echoed = s.echoed ++ c ∷ [];
    }

-- `input.w = input.e; wakeup(&input.r)`
unfoldable pub commit_line : Console → Console
commit_line s = record s { input = record (s.input) { w = s.input.e }; woken = true }

-- The default case, with `c` as it is stored.
unfoldable pub store_key : ℕ → Console → Console
unfolding append commit_line
store_key c s =
    let s' = append c s in
    if c == newline || c == end_key || s'.input.e == (s'.input.r + input_buf) % u32_mod
    then commit_line s'
    else s'

-- `input.e - input.r < INPUT_BUF`, on `uint`
abbrev pub has_room : Input → Bool
has_room i = ltb ((i.e + (u32_mod - i.r)) % u32_mod) input_buf

-- One round of the loop of `consoleintr`. No more characters are edited than the buffer holds.
unfoldable pub key : ℕ → Console → Console
unfolding kill_line rub_out store_key
key c s =
    if c == list_key
    then record s { dump = true }
    else if c == kill_key
    then kill_line input_buf s
    else if c == back_key || c == delete_key
    then (if not (s.input.e == s.input.w) then rub_out s else s)
    else if not (c == 0) && has_room s.input
    then store_key (if c == return_key then newline else c) s
    else s

-- `consoleintr`, on the keys that `getc` gives before it is negative
unfoldable pub consoleintr : List ℕ → Console → Console
consoleintr [] s = s
consoleintr (c ∷ cs) s = consoleintr cs (key c s)

pub data Outcome : Type 0 where
  returned : Ret → Outcome
  -- asleep, with `n` still to be read
  asleep : ℕ → Outcome

-- A stretch of `consoleread`: what it ends with, the bytes that it stored, and the buffer.
pub record Stretch : Type 0 where
  pub outcome : Outcome
  pub bytes : List ℕ
  pub input : Input

abbrev pub and_byte : ℕ → Stretch → Stretch
and_byte c s = record s { bytes = c ∷ s.bytes }

-- `consoleread(ip, dst, target)` with `n` still to be read
unfoldable pub consoleread : Bool → (target n : ℕ) → Input → Stretch
consoleread killed target zero i = record { outcome = returned (ok target); bytes = []; input = i }
consoleread killed target (suc n) i =
    let c = i.buf (i.r % input_buf) in
    let i' : Input = record i { r = next i.r } in
    let rest = consoleread killed target n i' in
    if i.r == i.w
    then record {
      outcome = if killed then returned fail else asleep (suc n);
      bytes = [];
      input = i;
    }
    else if c == end_key
    then record {
      outcome = returned (ok (target - suc n));
      bytes = [];
      input = if ltb (suc n) target then i else i';
    }
    else if c == newline
    then record { outcome = returned (ok (target - n)); bytes = c ∷ []; input = i' }
    else and_byte c rest
