-- ===== src/Log/Operations.antt =====
-- The operations of concurrent system calls on the log, as steps in any order, and what the log
-- reserves for them.
use ztl_os.Base.{◌⊎◌, ℕ, ◌+◌, ◌≤◌, ◌≡◌, true, false, some, List, [], ◌∷◌, ◌++◌, length, All, sum}
use ztl_os.Log.{
  Machine, Log, max_op_blocks, log_size, begin_op, end_op, leaves, commits, commit, end_commit,
  log_write,
}

-- A machine, and for each operation in progress how many blocks it may still add to the log.
pub record System : Type 0 where
  pub machine : Machine
  pub budgets : List ℕ

-- The operations of concurrent system calls, in any order. Each adds at most `MAXOPBLOCKS` blocks.
pub data Step (s t : System) : Type 0 where
  begins :
      (l : Log)
      → begin_op s.machine.log ≡ some l
      → t ≡ record { machine = record (s.machine) { log = l }; budgets = max_op_blocks ∷ s.budgets }
      → Step s t
  logs :
      (b : ℕ) (m : Machine) (xs : List ℕ) (r r' : ℕ) (ys : List ℕ)
      → s.budgets ≡ xs ++ (r ∷ ys)
      → log_write b s.machine ≡ some m
      → m.log.lh.n + r' ≡ s.machine.log.lh.n + r
      → t ≡ record { machine = m; budgets = xs ++ (r' ∷ ys) }
      → Step s t
  ends :
      (l : Log) (xs : List ℕ) (r : ℕ) (ys : List ℕ)
      → s.budgets ≡ xs ++ (r ∷ ys)
      → (end_op s.machine.log ≡ leaves l) ⊎ (end_op s.machine.log ≡ commits l)
      → t ≡ record { machine = record (s.machine) { log = l }; budgets = xs ++ ys }
      → Step s t
  finishes :
      s.machine.log.committing ≡ true
      → t ≡ record {
        machine = record (commit s.machine) { log = end_commit (commit s.machine).log };
        budgets = s.budgets;
      }
      → Step s t

-- the states that a freshly recovered log with `size` blocks gets into
pub data Reach (size : ℕ) : System → Type 0 where
  fresh :
      (m : Machine)
      → m.log.lh.n ≡ 0
      → m.log.outstanding ≡ 0
      → m.log.committing ≡ false
      → m.log.size ≡ size
      → Reach size (record { machine = m; budgets = [] })
  later : {s t : System} → Reach size s → Step s t → Reach size t

-- Every operation in progress is counted, and the log has room for all that they may still add.
pub record IsReserved (size : ℕ) (s : System) : Type 0 where
  pub counted : s.machine.log.outstanding ≡ length s.budgets
  pub small : All (λ r. r ≤ max_op_blocks) s.budgets
  pub fits : s.machine.log.lh.n + sum s.budgets ≤ log_size
  pub quiet : s.machine.log.committing ≡ true → length s.budgets ≡ 0
  pub size_kept : s.machine.log.size ≡ size
