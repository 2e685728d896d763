-- ===== src/Inodes.antt =====
-- src/fs.c, the cache of inodes: `iget`, `idup`, `ilock`, `iunlock`, `iput` and `ialloc`.
--
-- One device. The reference counts change under the lock of the cache, so that each call is one
-- step. A pointer to an inode is its place in the cache.
pub mod Scan
pub mod Counted
pub mod Get
pub mod Put
pub mod Lock
pub mod Alloc
mod Tests
use ztl_os.Base.{
  ℕ, zero, suc, ◌+◌, ◌-◌, Bool, true, false, not, ◌&&◌, ◌||◌, Option, none, some, ◌==◌, ltb,
  if◌then◌else◌, update,
}
use ztl_os.Fs.{Fs, Inode, Dinode, dinode_of, iupdate}
use ztl_os.Fs.Release.{itrunc}

abbrev pub ninode : ℕ
ninode = 50

-- `struct inode`: `valid` is `I_VALID`, `locked` the sleep lock's.
pub record Slot : Type 0 where
  pub ip : Inode
  pub ref : ℕ
  pub valid : Bool
  pub locked : Bool

-- The cache, the disk and `sb.ninodes`.
pub record Cache : Type 0 where
  pub ninodes : ℕ
  pub fs : Fs
  pub slot : ℕ → Slot

abbrev pub put_slot : ℕ → Slot → Cache → Cache
put_slot i s c = record c { slot = update c.slot i s }

-- Where the loop of `iget` ends.
pub data Found : Type 0 where
  cached : ℕ → Found
  empty_slot : ℕ → Found
  no_slot : Found

-- `if(empty == 0 && ip->ref == 0) empty = ip;`
unfoldable pub remember : ℕ → Slot → Option ℕ → Option ℕ
remember i s (some e) = some e
remember i s none = if s.ref == 0 then some i else none

unfoldable pub find_slot : (k i : ℕ) → Option ℕ → ℕ → (ℕ → Slot) → Found
find_slot zero i none inum slots = no_slot
find_slot zero i (some e) inum slots = empty_slot e
find_slot (suc k) i empty inum slots =
    let rest = find_slot k (i + 1) (remember i (slots i) empty) inum slots in
    if ltb 0 (slots i).ref && (slots i).ip.inum == inum then cached i else rest

-- `none` is a panic, here and below.
unfoldable pub iget : ℕ → Cache → Option (ℕ × Cache)
iget inum c = elim (find_slot ninode 0 none inum c.slot) [
  | cached i ↦ some (i, put_slot i (record (c.slot i) { ref = (c.slot i).ref + 1 }) c)
  | empty_slot i ↦
      let s = c.slot i in
      some
        (i, put_slot i (record s { ip = record (s.ip) { inum = inum }; ref = 1; valid = false }) c)
  | no_slot ↦ none
]

unfoldable pub idup : ℕ → Cache → Cache
idup i c = put_slot i (record (c.slot i) { ref = (c.slot i).ref + 1 }) c

-- The callers hold a reference: the count is not 0.
unfoldable pub drop_ref : ℕ → Cache → Cache
drop_ref i c = put_slot i (record (c.slot i) { ref = (c.slot i).ref - 1 }) c

unfoldable pub iput : ℕ → Cache → Option Cache
iput i c =
    let s = c.slot i in
    if (s.ref == 1) && s.valid && (s.ip.nlink == 0)
    then elim (itrunc c.fs s.ip) [
      | none ↦ none
      | some r ↦
          let ip' : Inode = record (r.1) { type = 0 } in
          some (
            drop_ref i (
              put_slot i (record s { ip = ip'; valid = false })
                (record c { fs = iupdate r.0 ip' })))
    ]
    else some (drop_ref i c)

-- `ip->type = dip->type; …`
abbrev pub loaded : ℕ → Dinode → Inode
loaded inum d = record {
  inum = inum;
  type = d.type;
  major = d.major;
  minor = d.minor;
  nlink = d.nlink;
  size = d.size;
  addrs = d.addrs;
}

-- How `ilock` ends, or where it sleeps: it goes on in the same place when it is woken.
pub data Locking : Type 0 where
  asleep : Locking
  panics : Locking
  locks : Cache → Locking

unfoldable pub ilock : ℕ → Cache → Locking
ilock i c =
    let s = c.slot i in
    let ip' = loaded s.ip.inum (c.fs.dinodes s.ip.inum) in
    if ltb s.ref 1
    then panics
    else if s.locked
    then asleep
    else if s.valid
    then locks (put_slot i (record s { locked = true }) c)
    else if ip'.type == 0
    then panics
    else locks (put_slot i (record s { ip = ip'; valid = true; locked = true }) c)

unfoldable pub iunlock : ℕ → Cache → Option Cache
iunlock i c =
    let s = c.slot i in
    if not s.locked || ltb s.ref 1 then none else some (put_slot i (record s { locked = false }) c)

-- The loop of `ialloc`, with the inodes that are left.
unfoldable pub find_type : (k inum : ℕ) → (ℕ → Dinode) → Option ℕ
find_type zero inum dinodes = none
find_type (suc k) inum dinodes =
    let rest = find_type k (inum + 1) dinodes in
    if (dinodes inum).type == 0 then some inum else rest

unfoldable pub ialloc : ℕ → Cache → Option (ℕ × Cache)
ialloc type c = elim (find_type (c.ninodes - 1) 1 c.fs.dinodes) [
  | none ↦ none
  | some inum ↦
      let dip : Dinode = record {
        type = type;
        major = 0;
        minor = 0;
        nlink = 0;
        size = 0;
        addrs = λ a. 0;
      } in
      iget inum (record c { fs = record (c.fs) { dinodes = update c.fs.dinodes inum dip } })
]
