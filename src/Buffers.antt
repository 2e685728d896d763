-- ===== src/Buffers.antt =====
-- src/bio.c, the cache of disk blocks, with what `iderw` of src/ide.c does to a buffer.
--
-- A pointer to a buffer is its index in `bcache.buf`, and `head` is the index of `bcache.head`. A
-- stretch under `bcache.lock` is one step. `iderw` runs to its end; the queue of requests is in
-- `Disk`.
pub mod Ring
pub mod Order
pub mod Walks
pub mod Get
pub mod Once
pub mod Contents
pub mod Coherence
pub mod Calls
pub mod Users
pub mod Shared
pub mod Preserved
pub mod Start
pub mod Exclusive
mod Tests
use ztl_os.Base.{
  leb, ℕ, zero, suc, ◌+◌, ◌-◌, ◌*◌, ◌%◌, Bool, true, false, not, ◌&&◌, ◌||◌, List, [], ◌∷◌, ◌==◌,
  if◌then◌else◌, update, u32_mod,
}

-- NBUF
abbrev pub nbuf : ℕ
nbuf = 30

abbrev pub head : ℕ
head = nbuf

-- `struct buf`, less its links: `valid` and `dirty` are `B_VALID` and `B_DIRTY`, `locked` the sleep
-- lock's, and `bytes` is `data`.
pub record Buf : Type 0 where
  pub valid : Bool
  pub dirty : Bool
  pub dev : ℕ
  pub blockno : ℕ
  pub locked : Bool
  pub refcnt : ℕ
  pub bytes : List ℕ

pub record Links : Type 0 where
  pub next : ℕ → ℕ
  pub prev : ℕ → ℕ

-- `bcache`, and the blocks of each disk.
pub record Bcache : Type 0 where
  pub links : Links
  pub buf : ℕ → Buf
  pub disk : ℕ → ℕ → List ℕ

abbrev pub put_buf : ℕ → Buf → Bcache → Bcache
put_buf b x c = record c { buf = update c.buf b x }

-- `panics` is a call of `panic`; `out_of_fuel` has no counterpart in the code.
pub data Outcome {ℓ} (A : Type ℓ) : Type ℓ where
  done : A → Outcome A
  panics : Outcome A
  out_of_fuel : Outcome A

-- `b->next = head.next; b->prev = &head; head.next->prev = b; head.next = b;`
unfoldable pub link_first : ℕ → Links → Links
link_first b l =
    let l' : Links = record { next = update l.next b (l.next head); prev = update l.prev b head } in
    record { next = update l'.next head b; prev = update l'.prev (l'.next head) b }

-- `b->next->prev = b->prev; b->prev->next = b->next;`
unfoldable pub unlink : ℕ → Links → Links
unlink b l =
    let l' : Links = record l { prev = update l.prev (l.next b) (l.prev b) } in
    record l' { next = update l'.next (l'.prev b) (l'.next b) }

-- The loop of `binit` over the first `k` buffers, in the state in which they are zero.
unfoldable pub binit_loop : ℕ → Links → Links
binit_loop zero l = l
binit_loop (suc k) l = link_first k (binit_loop k l)

abbrev pub zero_buf : Buf
zero_buf = record {
  valid = false;
  dirty = false;
  dev = 0;
  blockno = 0;
  locked = false;
  refcnt = 0;
  bytes = [];
}

unfoldable pub binit : (ℕ → ℕ → List ℕ) → Bcache
binit disk = record {
  links = binit_loop nbuf (record { next = λ i. head; prev = λ i. head });
  buf = λ i. zero_buf;
  disk = disk;
}

-- Where a loop of `bget` ends.
pub data Search : Type 0 where
  found : ℕ → Search
  missing : Search
  lost : Search

-- A loop of `bget` along the links: `lost` has no counterpart, it is when the fuel runs out.
unfoldable pub follow : (ℕ → ℕ) → (ℕ → Bool) → ℕ → ℕ → Search
follow link test zero b = lost
follow link test (suc fuel) b =
    let rest = follow link test fuel (link b) in
    if b == head then missing else if test b then found b else rest

-- `b->dev == dev && b->blockno == blockno`
abbrev pub is_block : ℕ → ℕ → Buf → Bool
is_block dev blockno x = x.dev == dev && x.blockno == blockno

-- `b->refcnt == 0 && (b->flags & B_DIRTY) == 0`
abbrev pub is_unused : Buf → Bool
is_unused x = x.refcnt == 0 && not x.dirty

-- `b->refcnt++`
abbrev pub take_ref : Buf → Buf
take_ref x = record x { refcnt = (x.refcnt + 1) % u32_mod }

abbrev pub recycle : ℕ → ℕ → Buf → Buf
recycle dev blockno x = record x {
  dev = dev;
  blockno = blockno;
  valid = false;
  dirty = false;
  refcnt = 1;
}

unfoldable pub bget_recycle : ℕ → ℕ → Bcache → Search → Outcome (ℕ × Bcache)
bget_recycle dev blockno c (found b) = done (b, put_buf b (recycle dev blockno (c.buf b)) c)
bget_recycle dev blockno c missing = panics
bget_recycle dev blockno c lost = out_of_fuel

unfoldable pub bget_cached : ℕ → ℕ → Bcache → Search → Outcome (ℕ × Bcache)
bget_cached dev blockno c (found b) = done (b, put_buf b (take_ref (c.buf b)) c)
bget_cached dev blockno c missing =
    bget_recycle dev blockno c
      (follow c.links.prev (λ b. is_unused (c.buf b)) (nbuf + 1) (c.links.prev head))
bget_cached dev blockno c lost = out_of_fuel

-- `bget` up to where it lets `bcache.lock` go; the sleep lock is taken by `acquiresleep`.
unfoldable pub bget : ℕ → ℕ → Bcache → Outcome (ℕ × Bcache)
bget dev blockno c =
    bget_cached dev blockno c
      (follow c.links.next (λ b. is_block dev blockno (c.buf b)) (nbuf + 1) (c.links.next head))

-- `b->refcnt--; if(b->refcnt == 0) …`, under `bcache.lock`
unfoldable pub lose_ref : ℕ → Bcache → Bcache
lose_ref b c =
    let n = ((c.buf b).refcnt + (u32_mod - 1)) % u32_mod in
    let c' = put_buf b (record (c.buf b) { refcnt = n }) c in
    if n == 0 then record c' { links = link_first b (unlink b c.links) } else c'

-- `holdingsleep`, `acquiresleep` past its loop and `releasesleep` (src/sleeplock.c) on the lock of a
-- buffer, less the process that is recorded for debugging.
abbrev pub holdingsleep : Buf → Bool
holdingsleep x = x.locked

abbrev pub acquiresleep : Buf → Buf
acquiresleep x = record x { locked = true }

abbrev pub releasesleep : Buf → Buf
releasesleep x = record x { locked = false }

-- What the disk and `ideintr` do for a request: a dirty buffer is written to the disk and any other
-- is read, and it is then valid and clean.
unfoldable pub serve : ℕ → Bcache → Bcache
serve b c =
    let x = c.buf b in
    let served = record x {
      valid = true;
      dirty = false;
      bytes = if x.dirty then x.bytes else c.disk x.dev x.blockno;
    } in
    let written =
      if x.dirty then update c.disk x.dev (update (c.disk x.dev) x.blockno x.bytes) else c.disk in
    record (put_buf b served c) { disk = written }

-- FSSIZE
abbrev pub fssize : ℕ
fssize = 1000

-- `iderw`, which returns when the request was served. The last test is `idestart`'s. `disk1` is `havedisk1`.
unfoldable pub iderw : (disk1 : Bool) → ℕ → Bcache → Outcome Bcache
iderw disk1 b c =
    let x = c.buf b in
    if not (holdingsleep x)
    then panics
    else if x.valid && not x.dirty
    then panics
    else if not (x.dev == 0) && not disk1
    then panics
    else if leb fssize x.blockno
    then panics
    else done (serve b c)

-- `bread` behind `bget`
unfoldable pub bread_block : (disk1 : Bool) → ℕ → Bcache → Outcome Bcache
bread_block disk1 b c = if not (c.buf b).valid then iderw disk1 b c else done c

unfoldable pub bwrite : (disk1 : Bool) → ℕ → Bcache → Outcome Bcache
bwrite disk1 b c =
    if not (holdingsleep (c.buf b))
    then panics
    else iderw disk1 b (put_buf b (record (c.buf b) { dirty = true }) c)

-- `brelse` up to where it takes `bcache.lock`; then it goes on with `lose_ref`.
unfoldable pub brelse : ℕ → Bcache → Outcome Bcache
brelse b c =
    if not (holdingsleep (c.buf b)) then panics else done (put_buf b (releasesleep (c.buf b)) c)
