-- ===== src/Spinlock/Nesting.antt =====
-- Nested `pushcli` and `popcli`.
use ztl_os.Base.{ap, ◌<◌, ℕ, zero, suc, ◌+◌, ◌≡◌, refl, ◌∙◌, arith, true, false, Option, none, some}
use ztl_os.Spinlock.{Cpu, pushcli, popcli}

-- `n` calls of `pushcli`, or of `popcli`
pub push_times : ℕ → Cpu → Cpu
push_times zero c = c
push_times (suc n) c = push_times n (pushcli c)

pub pop_times : ℕ → Cpu → Option Cpu
pop_times zero c = some c
pop_times (suc n) c = elim (popcli c) [ none ↦ none | some c' ↦ pop_times n c' ]

push_times-off :
    (n : ℕ) (c : Cpu)
    → c.interrupts ≡ false
    → 0 < c.ncli
    → push_times n c ≡ record c { ncli = c.ncli + n }
unfolding push_times pushcli
push_times-off zero c off nested = ground arith
push_times-off (suc n) c off nested = push_times-off n (pushcli c) refl (omega arith) ∙ ground arith

popcli_inner :
    (c : Cpu) (n : ℕ)
    → c.interrupts ≡ false
    → c.ncli ≡ suc (suc n)
    → popcli c ≡ some (record c { ncli = suc n })
unfolding popcli
popcli_inner c n off nested = ground arith

popcli_outer :
    (c : Cpu)
    → c.interrupts ≡ false
    → c.ncli ≡ 1
    → popcli c ≡ some (record { ncli = 0; intena = c.intena; interrupts = true })
unfolding popcli
popcli_outer c off nested = ground arith

pop_times-on :
    (n : ℕ) (c : Cpu)
    → c.interrupts ≡ false
    → c.ncli ≡ suc n
    → pop_times (suc n) c ≡ some (record { ncli = 0; intena = c.intena; interrupts = true })
unfolding pop_times
pop_times-on zero c off nested = rw (popcli_outer c off nested, pop_times)
pop_times-on (suc n) c off nested =
    rw (popcli_inner c n off nested, pop_times)
      (pop_times-on n (record c { ncli = suc n }) off refl)

-- A balanced nest of any depth that is not inside another `pushcli` ends with interrupts on, whatever
-- they were before it, and records in `intena` what they were.
pub nest_enables :
    (n : ℕ) (c : Cpu)
    → c.ncli ≡ 0
    → pop_times (suc n) (push_times (suc n) c)
      ≡ some (record { ncli = 0; intena = c.interrupts; interrupts = true })
unfolding push_times pushcli
nest_enables n c outer =
    let first = pushcli c in
    let pushed = push_times-off n first refl (omega arith) in
    ap (pop_times (suc n)) pushed
    ∙ pop_times-on n (record first { ncli = first.ncli + n }) refl (omega arith)
    ∙ ground arith
