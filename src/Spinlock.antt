-- ===== src/Spinlock.antt =====
-- src/spinlock.c: `pushcli` and `popcli`, and a spin lock that several CPUs contend for.
--
-- Each access that changes the shared lock is a step of one CPU, and the CPUs take their steps in any
-- order. The two reads of `holding` are one step, together with the `pushcli` before them in
-- `acquire`, which touches this CPU alone, and with `lock->cpu = 0` after them in `release`.
pub mod Nesting
pub mod Exclusion
mod Tests
use ztl_os.Base.{
  ℕ, ◌+◌, ◌-◌, Bool, true, false, not, ◌&&◌, Option, none, some, List, [], ◌∷◌, ◌==◌, if◌then◌else◌,
  update,
}

-- The part of `struct cpu` that the locks use, and the interrupt flag of `%eflags`.
pub record Cpu : Type 0 where
  pub ncli : ℕ
  pub intena : Bool
  pub interrupts : Bool

unfoldable pub pushcli : Cpu → Cpu
pushcli c = record {
  ncli = c.ncli + 1;
  intena = if c.ncli == 0 then c.interrupts else c.intena;
  interrupts = false;
}

-- `none` is a panic. `--cpu->ncli < 0` is tested on the `int` before it is stored as ours.
unfoldable pub popcli : Cpu → Option Cpu
popcli c =
    if c.interrupts
    then none
    else if c.ncli == 0
    then none
    else some (record c {
      ncli = c.ncli - 1;
      interrupts = if c.ncli - 1 == 0 then true else c.interrupts;
    })

-- `struct spinlock`, less its name and the call stack kept for debugging.
pub record Spinlock : Type 0 where
  pub locked : Bool
  pub owner : Option ℕ

abbrev pub owned_by : ℕ → Option ℕ → Bool
owned_by i none = false
owned_by i (some j) = i == j

-- `holding(lock)` on CPU `i`
unfoldable pub holding : ℕ → Spinlock → Bool
holding i l = l.locked && owned_by i l.owner

unfoldable pub initlock : Spinlock
initlock = record { locked = false; owner = none }

-- Where a CPU stands in `acquire` and `release`.
pub data Pc : Type 0 where
  -- before `acquire`, after `release`
  outside : Pc
  -- in the loop of `xchg`
  spinning : Pc
  -- past the loop, before `lock->cpu = cpu`
  won : Pc
  -- between `acquire` and `release`
  inside : Pc
  -- past `lock->cpu = 0`, before `lock->locked = 0`
  leaving : Pc

pub record System : Type 0 where
  pub lock : Spinlock
  pub cpu : ℕ → Cpu
  pub pc : ℕ → Pc

-- The start of `acquire`: `pushcli`, and the panic if this CPU holds the lock.
start_acquire : ℕ → System → Option System
start_acquire i s =
    if holding i s.lock
    then none
    else some (record s { cpu = update s.cpu i (pushcli (s.cpu i)); pc = update s.pc i spinning })

-- One `xchg(&lock->locked, 1)`.
exchange : ℕ → System → System
exchange i s = record s {
  lock = record (s.lock) { locked = true };
  pc = if s.lock.locked then s.pc else update s.pc i won;
}

-- `lock->cpu = cpu`
take_over : ℕ → System → System
take_over i s = record s { lock = record (s.lock) { owner = some i }; pc = update s.pc i inside }

-- The start of `release`: the panic if this CPU does not hold the lock, and `lock->cpu = 0`.
start_release : ℕ → System → Option System
start_release i s =
    if not (holding i s.lock)
    then none
    else some (record s { lock = record (s.lock) { owner = none }; pc = update s.pc i leaving })

-- `lock->locked = 0`, and `popcli` (which touches this CPU alone)
finish_release : ℕ → System → Option System
finish_release i s = elim (popcli (s.cpu i)) [
  | none ↦ none
  | some c ↦ some (record {
    lock = record (s.lock) { locked = false };
    cpu = update s.cpu i c;
    pc = update s.pc i outside;
  })
]

step_from : Pc → ℕ → System → Option System
step_from outside i s = start_acquire i s
step_from spinning i s = some (exchange i s)
step_from won i s = some (take_over i s)
step_from inside i s = start_release i s
step_from leaving i s = finish_release i s

-- The next step of CPU `i`; `none` is a panic.
unfoldable pub step : ℕ → System → Option System
unfolding step_from start_acquire exchange take_over start_release finish_release
step i s = step_from (s.pc i) i s

-- A schedule names the CPU that takes each step.
unfoldable pub run : List ℕ → System → Option System
run [] s = some s
run (i ∷ is) s = elim (step i s) [ none ↦ none | some s' ↦ run is s' ]

-- All CPUs outside, with any interrupt flags.
unfoldable pub initial : (ℕ → Bool) → System
unfolding initlock
initial flags = record {
  lock = initlock;
  cpu = λ i. record { ncli = 0; intena = false; interrupts = flags i };
  pc = λ _. outside;
}
