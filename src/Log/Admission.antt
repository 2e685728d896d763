-- ===== src/Log/Admission.antt =====
-- `begin_op` and `end_op`: the space that the log reserves for the operations in progress.
use ztl_os.Base.{
  All-append_left, inr, All-append_right, ltb, sym, All-append, refl, length-append, sum-append,
  ◌-◌, suc, subst, Bool-cases, inl, ◌⊎◌, ℕ, ◌+◌, ◌*◌, ◌≤◌, ◌≡◌, ◌∙◌, ap, arith, true, false, some,
  List, [], ◌∷◌, ◌++◌, length, All, sum,
}
use ztl_os.Log.{
  Machine, Log, max_op_blocks, log_size, begin_op, end_op, leaves, commits, commit, end_commit,
  log_write,
}
use ztl_os.Log.Absorb.{Logged-of_some}
use ztl_os.Log.Phases.{final-log}
use ztl_os.Log.Operations.{
  finishes, ends, logs, later, fresh, begins, Step, Reach, IsReserved, System,
}

sum-le : (xs : List ℕ) → All (λ r. r ≤ max_op_blocks) xs → sum xs ≤ length xs * max_op_blocks
sum-le [] h = omega arith
sum-le (x ∷ xs) h = omega (arith, sum-le xs h.1)

begin_op-reserves :
    (l l' : Log)
    → begin_op l ≡ some l'
    → (l.committing ≡ false)
      × (l.lh.n + (l.outstanding + 1) * max_op_blocks ≤ log_size)
      × (l' ≡ record l { outstanding = l.outstanding + 1 })
unfolding begin_op
begin_op-reserves l l' e = ground arith

begins-IsReserved :
    (size : ℕ) (s : System) (l : Log)
    → IsReserved size s
    → begin_op s.machine.log ≡ some l
    → IsReserved size
        (record { machine = record (s.machine) { log = l }; budgets = max_op_blocks ∷ s.budgets })
begins-IsReserved size s l v e =
    let (idle, room, new) = begin_op-reserves s.machine.log l e in
    record {
      counted = ap (λ (k : Log). k.outstanding) new ∙ omega (arith, v.counted);
      small = (omega arith, v.small);
      fits = omega (arith, ap (λ (k : Log). k.lh.n) new, sum-le s.budgets v.small, v.counted);
      quiet = λ c. cc (ap (λ (k : Log). k.committing) new, idle);
      size_kept = ap (λ (k : Log). k.size) new ∙ v.size_kept;
    }

-- The sum and the length of a list whose element `r` is changed or taken out.
sum_middle :
    (xs ys : List ℕ) (r : ℕ) {zs : List ℕ} → zs ≡ xs ++ (r ∷ ys) → sum zs ≡ sum xs + r + sum ys
sum_middle xs ys r e = ap sum e ∙ omega (arith, sum-append xs (r ∷ ys))

length_middle :
    (xs ys : List ℕ) (r : ℕ) {zs : List ℕ}
    → zs ≡ xs ++ (r ∷ ys)
    → length zs ≡ length xs + suc (length ys)
length_middle xs ys r e = ap length e ∙ length-append xs (r ∷ ys)

small_middle :
    (xs ys : List ℕ) (r : ℕ) {zs : List ℕ}
    → zs ≡ xs ++ (r ∷ ys)
    → All (λ r. r ≤ max_op_blocks) zs
    → All (λ r. r ≤ max_op_blocks) xs × (r ≤ max_op_blocks) × All (λ r. r ≤ max_op_blocks) ys
small_middle xs ys r e h =
    let h' = subst (All (λ r. r ≤ max_op_blocks)) e h in
    let rest = All-append_right (λ r. r ≤ max_op_blocks) xs (r ∷ ys) h' in
    (All-append_left (λ r. r ≤ max_op_blocks) xs (r ∷ ys) h', rest.0, rest.1)

logs-IsReserved :
    (size : ℕ) (s : System) (b : ℕ) (m : Machine) (xs : List ℕ) (r r' : ℕ) (ys : List ℕ)
    → IsReserved size s
    → s.budgets ≡ xs ++ (r ∷ ys)
    → log_write b s.machine ≡ some m
    → m.log.lh.n + r' ≡ s.machine.log.lh.n + r
    → IsReserved size (record { machine = m; budgets = xs ++ (r' ∷ ys) })
logs-IsReserved size s b m xs r r' ys v split e cost =
    let g = Logged-of_some b s.machine e in
    let (before, mine, after) = small_middle xs ys r split v.small in
    let less : r' ≤ r = elim g.entry [
      | inl (same, at) ↦ omega arith
      | inr (more, last, new) ↦ omega arith
    ] in
    record {
      counted = omega (
        arith,
        g.outstanding,
        v.counted,
        length_middle xs ys r split,
        length-append xs (r' ∷ ys),
      );
      small = All-append (λ r. r ≤ max_op_blocks) xs (r' ∷ ys) before (omega arith, after);
      fits = omega (arith, v.fits, sum_middle xs ys r split, sum-append xs (r' ∷ ys));
      quiet = λ c. omega (
        arith,
        v.quiet (sym g.committing ∙ c),
        length_middle xs ys r split,
        length-append xs (r' ∷ ys),
      );
      size_kept = g.size ∙ v.size_kept;
    }

end_op-leaves :
    (l l' : Log)
    → end_op l ≡ leaves l'
    → (l.committing ≡ false) × (l' ≡ record l { outstanding = l.outstanding - 1 })
unfolding end_op
end_op-leaves l l' e = ground arith

end_op-commits :
    (l l' : Log)
    → end_op l ≡ commits l'
    → (l.committing ≡ false)
      × (l.outstanding - 1 ≡ 0)
      × (l' ≡ record l { outstanding = l.outstanding - 1; committing = true })
unfolding end_op
end_op-commits l l' e = ground arith

-- What both kinds of end do to the log.
record Ended (l l' : Log) : Type 0 where
  outstanding : l'.outstanding ≡ l.outstanding - 1
  number : l'.lh.n ≡ l.lh.n
  size : l'.size ≡ l.size
  last : l'.committing ≡ true → l.outstanding - 1 ≡ 0

end_op-Ended : (l l' : Log) → (end_op l ≡ leaves l') ⊎ (end_op l ≡ commits l') → Ended l l'
end_op-Ended l l' (inl e) =
    let (idle, new) = end_op-leaves l l' e in
    record {
      outstanding = ap (λ (k : Log). k.outstanding) new;
      number = ap (λ (k : Log). k.lh.n) new;
      size = ap (λ (k : Log). k.size) new;
      last = λ c. cc (ap (λ (k : Log). k.committing) new, idle);
    }
end_op-Ended l l' (inr e) =
    let (idle, none_left, new) = end_op-commits l l' e in
    record {
      outstanding = ap (λ (k : Log). k.outstanding) new;
      number = ap (λ (k : Log). k.lh.n) new;
      size = ap (λ (k : Log). k.size) new;
      last = λ c. none_left;
    }

ends-IsReserved :
    (size : ℕ) (s : System) (l : Log) (xs : List ℕ) (r : ℕ) (ys : List ℕ)
    → IsReserved size s
    → s.budgets ≡ xs ++ (r ∷ ys)
    → Ended s.machine.log l
    → IsReserved size (record { machine = record (s.machine) { log = l }; budgets = xs ++ ys })
ends-IsReserved size s l xs r ys v split g =
    let (before, mine, after) = small_middle xs ys r split v.small in
    record {
      counted =
          omega (arith, g.outstanding, v.counted, length_middle xs ys r split, length-append xs ys);
      small = All-append (λ r. r ≤ max_op_blocks) xs ys before after;
      fits = omega (arith, v.fits, g.number, sum_middle xs ys r split, sum-append xs ys);
      quiet =
          λ c. omega (arith, g.last c, v.counted, length_middle xs ys r split, length-append xs ys);
      size_kept = g.size ∙ v.size_kept;
    }

finishes-IsReserved :
    (size : ℕ) (s : System)
    → IsReserved size s
    → IsReserved size (record {
      machine = record (commit s.machine) { log = end_commit (commit s.machine).log };
      budgets = s.budgets;
    })
unfolding end_commit commit
finishes-IsReserved size s v = elim (Bool-cases (ltb 0 s.machine.log.lh.n)) [
  | inl some_logged ↦
      let (number, outstanding, same) = final-log s.machine in
      rw some_logged (record {
        counted = outstanding ∙ v.counted;
        small = v.small;
        fits = omega (arith, number, v.fits);
        quiet = λ c. cc;
        size_kept = same ∙ v.size_kept;
      })
  | inr none_logged ↦ rw none_logged (record {
    counted = v.counted;
    small = v.small;
    fits = v.fits;
    quiet = λ c. cc;
    size_kept = v.size_kept;
  })
]

Step-IsReserved : (size : ℕ) {s t : System} → Step s t → IsReserved size s → IsReserved size t
Step-IsReserved size {s} (begins l e q) v =
    subst (IsReserved size) (sym q) (begins-IsReserved size s l v e)
Step-IsReserved size {s} (logs b m xs r r' ys split e cost q) v =
    subst (IsReserved size) (sym q) (logs-IsReserved size s b m xs r r' ys v split e cost)
Step-IsReserved size {s} (ends l xs r ys split e q) v =
    subst (IsReserved size) (sym q)
      (ends-IsReserved size s l xs r ys v split (end_op-Ended s.machine.log l e))
Step-IsReserved size {s} (finishes c q) v =
    subst (IsReserved size) (sym q) (finishes-IsReserved size s v)

pub Reach-IsReserved : (size : ℕ) {s : System} → Reach size s → IsReserved size s
Reach-IsReserved size (fresh m n o c z) = record {
  counted = o;
  small = tt;
  fits = omega arith;
  quiet = λ _. refl;
  size_kept = z;
}
Reach-IsReserved size (later r st) = Step-IsReserved size st (Reach-IsReserved size r)
