-- ===== src/Spinlock/Tests.antt =====
-- Runs of the spin lock, and its theorems at concrete CPUs.
use ztl_os.Base.{ℕ, ◌≡◌, refl, true, false, some, List, [], ◌∷◌}
use ztl_os.Spinlock.{Cpu, System, inside, run, initial}
use ztl_os.Spinlock.Nesting.{push_times, pop_times, nest_enables}
use ztl_os.Spinlock.Exclusion.{mutual_exclusion}

abbrev quiet : Cpu
quiet = record { ncli = 0; intena = true; interrupts = false }

nest_enables_example :
    pop_times 3 (push_times 3 quiet) ≡ some (record { ncli = 0; intena = false; interrupts = true })
nest_enables_example = nest_enables 2 quiet refl

-- CPU 0 gets in, while CPU 1 spins
abbrev schedule : List ℕ
schedule = 0 ∷ 1 ∷ 0 ∷ 1 ∷ 0 ∷ 1 ∷ []

mutual_exclusion_example :
    (s : System) × (run schedule (initial (λ _. true)) ≡ some s)
    × ((i j : ℕ) → s.pc i ≡ inside → s.pc j ≡ inside → i ≡ j)
    × ((i : ℕ) → s.pc i ≡ inside → (s.cpu i).interrupts ≡ false)
mutual_exclusion_example = mutual_exclusion (λ _. true) schedule
