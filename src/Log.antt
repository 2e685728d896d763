-- ===== src/Log.antt =====
-- src/log.c: the write-ahead log, with `readsb` of src/fs.c.
--
-- A block is its words (`uint`s). `cache` is what `bread` returns for a block number, `disk` what a
-- reboot finds. The power may fail at any time: `power` is the number of block writes that reach
-- the disk before it does, and the code that the model runs after that leaves the disk alone.
-- A block is written whole or not at all. There is one device, `log.dev`.
pub mod Copies
pub mod Header
pub mod Steps
pub mod Recovery
pub mod Restart
pub mod Phases
pub mod Crash
pub mod Absorb
pub mod InLog
pub mod Operations
pub mod Admission
pub mod Overflow
mod Tests
use ztl_os.Base.{
  ℕ, zero, suc, ◌+◌, ◌-◌, ◌*◌, Bool, true, false, ◌||◌, Option, none, some, ◌==◌, ltb, leb,
  if◌then◌else◌, update,
}

-- src/param.h and src/fs.h
abbrev pub max_op_blocks : ℕ
max_op_blocks = 10

abbrev pub log_size : ℕ
log_size = max_op_blocks * 3

abbrev pub bsize : ℕ
bsize = 512

abbrev pub Block : Type 0
Block = ℕ → ℕ

-- `struct logheader`
pub record LogHeader : Type 0 where
  pub n : ℕ
  pub block : ℕ → ℕ

-- `struct log`, less its lock
pub record Log : Type 0 where
  pub start : ℕ
  pub size : ℕ
  pub outstanding : ℕ
  pub committing : Bool
  pub lh : LogHeader

pub record Machine : Type 0 where
  pub cache : ℕ → Block
  pub dirty : ℕ → Bool
  pub disk : ℕ → Block
  pub power : ℕ
  pub log : Log

-- `bwrite(b)`: the cached contents go to the disk, and `iderw` clears B_DIRTY.
unfoldable pub bwrite : ℕ → Machine → Machine
bwrite b m = record m {
  disk = if m.power == 0 then m.disk else update m.disk b (m.cache b);
  power = m.power - 1;
  dirty = update m.dirty b false;
}

-- Read two blocks, copy the first into the second, write the second: the body of both loops below.
unfoldable pub copy_block : (src dst : ℕ) → Machine → Machine
unfolding bwrite
copy_block src dst m = bwrite dst (record m { cache = update m.cache dst (m.cache src) })

-- `for (tail = …; tail < log.lh.n; tail++)`, with the number of rounds that are left
unfoldable pub copy_loop : (src dst : ℕ → ℕ) → ℕ → ℕ → Machine → Machine
copy_loop src dst zero tail m = m
copy_loop src dst (suc k) tail m =
    copy_loop src dst k (tail + 1) (copy_block (src tail) (dst tail) m)

-- where the log keeps the contents of its block `tail`
abbrev pub slot : Log → ℕ → ℕ
slot l tail = l.start + tail + 1

-- Committed blocks go from the log to their home location.
unfoldable pub install_trans : Machine → Machine
install_trans m = copy_loop (slot m.log) m.log.lh.block m.log.lh.n 0 m

-- Modified blocks go from the cache to the log.
unfoldable pub write_log : Machine → Machine
write_log m = copy_loop m.log.lh.block (slot m.log) m.log.lh.n 0 m

-- `for (i = …; i < log.lh.n; i++) log.lh.block[i] = lh->block[i]`
unfoldable pub load_blocks : ℕ → ℕ → Block → (ℕ → ℕ) → ℕ → ℕ
load_blocks zero i words block = block
load_blocks (suc k) i words block = load_blocks k (i + 1) words (update block i (words (i + 1)))

unfoldable pub read_head : Machine → Machine
unfolding load_blocks
read_head m =
    let words = m.cache m.log.start in
    record m {
      log = record (m.log) {
        lh = record { n = words 0; block = load_blocks (words 0) 0 words m.log.lh.block };
      };
    }

-- `for (i = …; i < log.lh.n; i++) hb->block[i] = log.lh.block[i]`
unfoldable pub store_blocks : ℕ → ℕ → (ℕ → ℕ) → Block → Block
store_blocks zero i block words = words
store_blocks (suc k) i block words = store_blocks k (i + 1) block (update words (i + 1) (block i))

abbrev pub header_words : LogHeader → Block → Block
header_words h words = store_blocks h.n 0 h.block (update words 0 h.n)

unfoldable pub write_head : Machine → Machine
unfolding store_blocks bwrite
write_head m =
    let b = m.log.start in
    bwrite b (record m { cache = update m.cache b (header_words m.log.lh (m.cache b)) })

-- `log.lh.n = 0`
unfoldable pub clear_head : Machine → Machine
clear_head m = record m { log = record (m.log) { lh = record { n = 0; block = m.log.lh.block } } }

unfoldable pub recover_from_log : Machine → Machine
recover_from_log m = write_head (clear_head (install_trans (read_head m)))

-- The two fields of `struct superblock` that the log reads, from words 3 and 4 of block 1.
pub record SuperBlock : Type 0 where
  pub nlog : ℕ
  pub logstart : ℕ

unfoldable pub readsb : Machine → SuperBlock
readsb m = record { nlog = m.cache 1 3; logstart = m.cache 1 4 }

-- `none` is the panic.
unfoldable pub initlog : Machine → Option Machine
unfolding readsb recover_from_log
initlog m =
    let sb = readsb m in
    if leb bsize (4 * (log_size + 1))
    then none
    else some (
        recover_from_log
          (record m { log = record (m.log) { start = sb.logstart; size = sb.nlog } }))

-- `begin_op`, one round of its loop under the lock: `none` when it sleeps.
unfoldable pub begin_op : Log → Option Log
begin_op l =
    if l.committing
    then none
    else if ltb log_size (l.lh.n + (l.outstanding + 1) * max_op_blocks)
    then none
    else some (record l { outstanding = l.outstanding + 1 })

unfoldable pub commit : Machine → Machine
commit m =
    if ltb 0 m.log.lh.n
    then write_head (clear_head (install_trans (write_head (write_log m))))
    else m

-- What `end_op` does before it lets go of the lock.
pub data Ending : Type 0 where
  panics : Ending
  -- other operations go on; `wakeup(&log)`
  leaves : Log → Ending
  -- this was the last one: it commits
  commits : Log → Ending

-- `outstanding` counts the operations begun and not ended, the caller among them, so it is not 0.
unfoldable pub end_op : Log → Ending
end_op l =
    let l' : Log = record l { outstanding = l.outstanding - 1 } in
    if l.committing
    then panics
    else if l'.outstanding == 0
    then commits (record l' { committing = true })
    else leaves l'

-- The end of `end_op`, after `commit`: `log.committing = 0; wakeup(&log)`.
unfoldable pub end_commit : Log → Log
end_commit l = record l { committing = false }

-- The first `i` from `i` on, of the `k` that are left, where the log has block `b`; else the end.
unfoldable pub find_block : ℕ → ℕ → (ℕ → ℕ) → ℕ → ℕ
find_block zero i block b = i
find_block (suc k) i block b =
    let rest = find_block k (i + 1) block b in if block i == b then i else rest

-- `log_write(b)` for a buffer of block `b`; `none` is a panic.
unfoldable pub log_write : ℕ → Machine → Option Machine
unfolding find_block
log_write b m =
    let n = m.log.lh.n in
    if leb log_size n || leb (m.log.size - 1) n
    then none
    else if ltb m.log.outstanding 1
    then none
    else let i = find_block n 0 m.log.lh.block b in
      some (record m {
        log = record (m.log) {
          lh = record { n = if i == n then n + 1 else n; block = update m.log.lh.block i b };
        };
        dirty = update m.dirty b true;
      })
