-- ===== src/Log/Tests.antt =====
-- Runs of the log, and its theorems at a concrete machine.
use ztl_os.Base.{◌-◌, ◌&&◌}
use ztl_os.Log.{log_size}
use ztl_os.Base.{ltb}
use ztl_os.Base.{
  fun_ext, zero, suc, some, ◌+◌, suc, true, [], ◌⊎◌, ◌==◌, if◌then◌else◌, arith, List, inr, ◌∷◌,
  false, none, ℕ, ◌≡◌, refl,
}
use ztl_os.Log.{
  bwrite, copy_block, Machine, Log, commit, recover_from_log, log_write, begin_op, write_log,
  write_head, install_trans, clear_head, copy_loop, read_head, max_op_blocks,
}
use ztl_os.Log.Recovery.{recovered, Layout, Holds}
use ztl_os.Log.Restart.{recovery_restarts}
use ztl_os.Log.Crash.{Ready, commit_atomic}
use ztl_os.Log.Absorb.{LoggedOnce, IsOnce, log_write_lem}
use ztl_os.Log.Operations.{System}
use ztl_os.Log.Overflow.{write_all, three_operations_overflow, ◌>>=◌}

-- Block 40 is logged, with contents 7 in the cache and 3 on the disk; the log starts at block 2.
abbrev machine : ℕ → Machine
machine power = record {
  cache = λ b w. if b == 40 then 7 else 0;
  dirty = λ b. b == 40;
  disk = λ b w. if b == 40 then 3 else 0;
  power = power;
  log = record {
    start = 2;
    size = 31;
    outstanding = 1;
    committing = false;
    lh = record { n = 1; block = λ _. 40 };
  };
}

one_logged : Layout 2 1 (λ _. 40)
one_logged = record { home = λ i a. inr (omega arith); distinct = λ i j a b c z. omega arith }

machine-Ready : (p : ℕ) → Ready (machine p)
machine-Ready p = record {
  layout = one_logged;
  empty = refl;
  coherent = λ b home spared. fun_ext λ w. ground (arith, spared 0 (omega arith) (omega arith));
}

-- the write of the log goes through, that of the header does not
cut_before_header : recovered 2 31 9 (commit (machine 1)).disk 40 0 ≡ 3
unfolding recovered commit recover_from_log read_head write_log write_head install_trans clear_head
    copy_loop copy_block bwrite
cut_before_header = refl

cut_after_header : recovered 2 31 9 (commit (machine 2)).disk 40 0 ≡ 7
unfolding recovered commit recover_from_log read_head write_log write_head install_trans clear_head
    copy_loop copy_block bwrite
cut_after_header = refl

commit_atomic_example : recovered 2 31 9 (commit (machine 2)).disk 40 ≡ (machine 2).cache 40
commit_atomic_example =
    commit_atomic 31 9 40 (machine 2) (machine-Ready 2) (omega arith) (inr (omega arith))

-- a disk whose log holds block 40
abbrev logged_disk : ℕ → ℕ → ℕ
logged_disk b w = if b == 2 then (if w == 0 then 1 else 40) else if b == 3 then 7 else 0

logged_disk-Holds : Holds 2 1 (λ _. 40) logged_disk
logged_disk-Holds = record { number = refl; blocks = λ i a. ground arith }

recovery_restarts_example :
    recovered 2 31 2 (recovered 2 31 1 logged_disk) 40 ≡ recovered 2 31 2 logged_disk 40
recovery_restarts_example =
    recovery_restarts 2 31 1 1 2 40 (λ _. 40) logged_disk one_logged logged_disk-Holds (omega arith)
      (inr (omega arith))

machine-IsOnce : IsOnce (machine 0)
machine-IsOnce i j l k e = omega (arith, l, k)

log_write_lem_example :
    ((ltb 1 log_size && ltb 1 (31 - 1) && ltb 0 (machine 0).log.outstanding ≡ false)
      × (log_write 41 (machine 0) ≡ none))
    ⊎ ((ltb 1 log_size && ltb 1 (31 - 1) && ltb 0 (machine 0).log.outstanding ≡ true)
        × ((m' : Machine) × (log_write 41 (machine 0) ≡ some m') × LoggedOnce 41 (machine 0) m'))
log_write_lem_example = log_write_lem 41 (machine 0) machine-IsOnce

abbrev idle_log : ℕ → Log
idle_log size = record {
  start = 2;
  size = size;
  outstanding = 0;
  committing = false;
  lh = record { n = 0; block = λ _. 0 };
}

abbrev idle : ℕ → Machine
idle size = record {
  cache = λ _ _. 0;
  dirty = λ _. false;
  disk = λ _ _. 0;
  power = 100;
  log = idle_log size;
}

abbrev begun : System
begun = record {
  machine = record (idle 31) { log = record (idle_log 31) { outstanding = 1 } };
  budgets = max_op_blocks ∷ [];
}

abbrev count_from : ℕ → ℕ → List ℕ
count_from i zero = []
count_from i (suc n) = i ∷ count_from (i + 1) n

abbrev admitted : Log
admitted = record (idle_log 30) { outstanding = 3 }

three_operations_overflow_example :
    ((begin_op (idle_log 30) >>= begin_op >>= begin_op) ≡ some admitted)
    × (write_all (count_from 60 30) (record (idle 30) { log = admitted }) ≡ none)
three_operations_overflow_example =
    three_operations_overflow (idle 30) (count_from 60 30) refl refl refl refl (omega arith) refl
