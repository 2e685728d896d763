-- ===== src/Spinlock/Exclusion.antt =====
-- Under every schedule the spin lock admits one CPU at a time, and no CPU panics.
use ztl_os.Base.{
  ℕ, ◌≡◌, refl, ap, arith, Bool, true, false, Option, none, some, List, [], ◌∷◌, if◌then◌else◌,
}
use ztl_os.Spinlock.{
  System, Pc, outside, spinning, won, inside, leaving, pushcli, popcli, holding, owned_by, step,
  run, initial, step_from, start_acquire, exchange, take_over, start_release, finish_release,
}

-- the CPU has got the lock, by `xchg`, and has not let go of it
abbrev pub owns : Pc → Bool
owns outside = false
owns spinning = false
owns won = true
owns inside = true
owns leaving = true

abbrev pub is_inside : Pc → Bool
is_inside inside = true
is_inside _ = false

abbrev pub is_outside : Pc → Bool
is_outside outside = true
is_outside _ = false

pub record IsExclusive (s : System) : Type 0 where
  pub unique : (i j : ℕ) → owns (s.pc i) ≡ true → owns (s.pc j) ≡ true → i ≡ j
  pub held : (i : ℕ) → owns (s.pc i) ≡ true → s.lock.locked ≡ true
  pub named : (i : ℕ) → owned_by i s.lock.owner ≡ is_inside (s.pc i)
  pub off : (i : ℕ) → is_outside (s.pc i) ≡ false → (s.cpu i).interrupts ≡ false
  pub depth : (i : ℕ) → (s.cpu i).ncli ≡ (if is_outside (s.pc i) then 0 else 1)

-- The step of a CPU is taken, and keeps the invariant.
pub data Keeps : Option System → Type 0 where
  keeps : {s : System} → IsExclusive s → Keeps (some s)

module _ (i : ℕ) (s : System) (v : IsExclusive s) where
  start_acquire-Keeps : s.pc i ≡ outside → Keeps (start_acquire i s)
  unfolding start_acquire holding pushcli
  start_acquire-Keeps e =
      let free : holding i s.lock ≡ false = ground (arith, v.named i) in
      rw free (
        keeps (record {
          unique = λ a b p q. ground (arith, v.unique a b);
          held = λ a p. ground (arith, v.held a);
          named = λ a. ground (arith, v.named a);
          off = λ a p. ground (arith, v.off a);
          depth = λ a. ground (arith, v.depth a);
        }))

  exchange-IsExclusive : s.pc i ≡ spinning → IsExclusive (exchange i s)
  unfolding exchange
  exchange-IsExclusive e = record {
    unique = λ a b p q. ground (arith, v.unique a b, v.held a, v.held b);
    held = λ a p. refl;
    named = λ a. ground (arith, v.named a);
    off = λ a p. ground (arith, v.off a);
    depth = λ a. ground (arith, v.depth a);
  }

  take_over-IsExclusive : s.pc i ≡ won → IsExclusive (take_over i s)
  unfolding take_over
  take_over-IsExclusive e = record {
    unique = λ a b p q. ground (arith, v.unique a b, v.unique a i, v.unique i b);
    held = λ a p. ground (arith, v.held a, v.held i);
    named = λ a. ground (arith, v.named a, v.unique a i);
    off = λ a p. ground (arith, v.off a);
    depth = λ a. ground (arith, v.depth a);
  }

  start_release-Keeps : s.pc i ≡ inside → Keeps (start_release i s)
  unfolding start_release holding
  start_release-Keeps e =
      let mine : holding i s.lock ≡ true = ground (arith, v.named i, v.held i) in
      rw mine (
        keeps (record {
          unique = λ a b p q. ground (arith, v.unique a b, v.unique a i, v.unique i b);
          held = λ a p. ground (arith, v.held a, v.held i);
          named = λ a. ground (arith, v.named a, v.unique a i);
          off = λ a p. ground (arith, v.off a);
          depth = λ a. ground (arith, v.depth a);
        }))

  popped :
      s.pc i ≡ leaving → popcli (s.cpu i) ≡ some (record (s.cpu i) { ncli = 0; interrupts = true })
  unfolding popcli
  popped e = ground (arith, v.off i, v.depth i)

  finish_release-Keeps : s.pc i ≡ leaving → Keeps (finish_release i s)
  unfolding finish_release
  finish_release-Keeps e =
      let back : popcli (s.cpu i) ≡ some (record (s.cpu i) { ncli = 0; interrupts = true }) =
        popped e in
      rw (back, finish_release)
        (keeps (record {
          unique = λ a b p q. ground (arith, v.unique a b);
          held = λ a p. ground (arith, v.unique a i, v.held a);
          named = λ a. ground (arith, v.named a, v.unique a i);
          off = λ a p. ground (arith, v.off a);
          depth = λ a. ground (arith, v.depth a);
        }))

  step_from-Keeps : (p : Pc) → s.pc i ≡ p → Keeps (step_from p i s)
  unfolding step_from
  step_from-Keeps outside e = start_acquire-Keeps e
  step_from-Keeps spinning e = keeps (exchange-IsExclusive e)
  step_from-Keeps won e = keeps (take_over-IsExclusive e)
  step_from-Keeps inside e = start_release-Keeps e
  step_from-Keeps leaving e = finish_release-Keeps e

  pub step-Keeps : Keeps (step i s)
  unfolding step
  step-Keeps = step_from-Keeps (s.pc i) refl

initial-IsExclusive : (flags : ℕ → Bool) → IsExclusive (initial flags)
unfolding initial
initial-IsExclusive flags = record {
  unique = λ a b p q. cc;
  held = λ a p. cc;
  named = λ a. refl;
  off = λ a p. cc;
  depth = λ a. refl;
}

further :
    (k : System → Option System)
    → ((s : System) → IsExclusive s → Keeps (k s))
    → {r : Option System} → Keeps r
    → Keeps (elim r [ none ↦ none | some s ↦ k s ])
further k f (keeps {s} v) = f s v

run-Keeps : (is : List ℕ) (s : System) → IsExclusive s → Keeps (run is s)
unfolding run
run-Keeps [] s v = keeps v
run-Keeps (i ∷ is) s v = further (run is) (run-Keeps is) (step-Keeps i s v)

kept : {r : Option System} → Keeps r → (s : System) × (r ≡ some s) × IsExclusive s
kept (keeps {s} v) = (s, refl, v)

-- From all CPUs outside, with any interrupt flags, and under any schedule of their steps: no panic
-- is met, two CPUs are never inside together, and a CPU that is inside runs with its interrupts off.
pub mutual_exclusion :
    (flags : ℕ → Bool) (is : List ℕ)
    → (s : System) × (run is (initial flags) ≡ some s)
      × ((i j : ℕ) → s.pc i ≡ inside → s.pc j ≡ inside → i ≡ j)
      × ((i : ℕ) → s.pc i ≡ inside → (s.cpu i).interrupts ≡ false)
mutual_exclusion flags is =
    let (s, e, v) = kept (run-Keeps is (initial flags) (initial-IsExclusive flags)) in
    (s, e, (λ i j p q. v.unique i j (ap owns p) (ap owns q)), (λ i p. v.off i (ap is_outside p)))
