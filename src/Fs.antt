-- ===== src/Fs.antt =====
-- src/fs.c: blocks, and the contents of files.
--
-- The state is what the buffer cache shows of the disk: `log_write` and `brelse` do not change it.
-- A call of `log_write` is taken to succeed: its panics, on a full log and outside a transaction,
-- are those of Log.antt. `filewrite` splits what it writes into pieces that fit a transaction.
-- The free map is kept by bits and the other blocks by bytes; the boot block, the super block, the
-- log, the inodes and the free map itself are marked as in use (by mkfs.c), so that `balloc` never
-- gives them to a file. One device; the calls run one after the other.
pub mod Blocks
pub mod Transfers
pub mod Release
pub mod Mapped
pub mod Extend
pub mod Slots
pub mod NewList
pub mod Map
pub mod Read
pub mod Laid
pub mod Stored
pub mod Stores
pub mod Later
pub mod Write
pub mod Written
pub mod RoundTrip
pub mod Freed
pub mod Truncate
pub mod Truncated
mod Tests
use ztl_os.Base.{
  ◌&&◌, ℕ, zero, suc, ◌+◌, ◌-◌, ◌*◌, ◌/◌, ◌%◌, Bool, true, false, not, ◌||◌, Option, none, some,
  List, [], ◌∷◌, ◌++◌, ◌==◌, ltb, if◌then◌else◌, update, min, length, take, drop, Ret, fail, ok,
  u32_mod,
}
use ztl_os.Strings.{store_word}
use ztl_os.Syscall.{int_at}

abbrev pub bsize : ℕ
bsize = 512

-- `BPB`
abbrev pub bpb : ℕ
bpb = 4096

abbrev pub ndirect : ℕ
ndirect = 12

abbrev pub nindirect : ℕ
nindirect = 128

abbrev pub maxfile : ℕ
maxfile = ndirect + nindirect

-- `struct dinode`
pub record Dinode : Type 0 where
  pub type : ℕ
  pub major : ℕ
  pub minor : ℕ
  pub nlink : ℕ
  pub size : ℕ
  pub addrs : ℕ → ℕ

-- What the file system reads and writes: `sb.size` and `sb.bmapstart`; the inodes; the bits of each
-- block of the free map; and the bytes of each block.
pub record Fs : Type 0 where
  pub size : ℕ
  pub bmapstart : ℕ
  pub dinodes : ℕ → Dinode
  pub bits : ℕ → ℕ → Bool
  pub block : ℕ → ℕ → ℕ

-- `struct inode` of a locked file, without its place in the cache.
pub record Inode : Type 0 where
  pub inum : ℕ
  pub type : ℕ
  pub major : ℕ
  pub minor : ℕ
  pub nlink : ℕ
  pub size : ℕ
  pub addrs : ℕ → ℕ

-- `BBLOCK(b, sb)`
abbrev pub bblock : ℕ → Fs → ℕ
bblock b fs = b / bpb + fs.bmapstart

-- The inner loop of `balloc`, with the bits that are left.
unfoldable pub find_bit : ℕ → (b bi : ℕ) → Fs → Option ℕ
find_bit zero b bi fs = none
find_bit (suc k) b bi fs =
    let rest = find_bit k b (bi + 1) fs in
    if ltb (b + bi) fs.size
    then (if not (fs.bits (bblock b fs) bi) then some bi else rest)
    else none

-- The outer loop, on fuel: the number of the first free block.
unfoldable pub find_free : ℕ → ℕ → Fs → Option ℕ
find_free zero b fs = none
find_free (suc fuel) b fs = elim (ltb b fs.size) [
  | true ↦ elim (find_bit bpb b 0 fs) [
    | some bi ↦ some (b + bi)
    | none ↦ find_free fuel (b + bpb) fs
  ]
  | false ↦ none
]

-- `bp->data[bi/8] |= m`, or `&= ~m`, for the bit of block `b`
abbrev pub set_bit : Bool → ℕ → Fs → Fs
set_bit v b fs =
    let i = bblock b fs in record fs { bits = update fs.bits i (update (fs.bits i) (b % bpb) v) }

unfoldable pub bzero : ℕ → Fs → Fs
bzero b fs = record fs { block = update fs.block b (λ _. 0) }

-- `none` is a panic, here and below. Each round of the outer loop goes on by `bpb` blocks.
unfoldable pub balloc : Fs → Option (ℕ × Fs)
unfolding bzero
balloc fs = elim (find_free fs.size 0 fs) [
  | none ↦ none
  | some b ↦ some (b, bzero b (set_bit true b fs))
]

unfoldable pub bfree : ℕ → Fs → Option Fs
bfree b fs = if not (fs.bits (bblock b fs) (b % bpb)) then none else some (set_bit false b fs)

-- `a[bn]`, for the block `a` of addresses
abbrev pub entry : (ℕ → ℕ) → ℕ → ℕ
entry a bn = int_at a (4 * bn)

abbrev pub with_addr : ℕ → ℕ → Inode → Inode
with_addr i a ip = record ip { addrs = update ip.addrs i a }

-- `if((addr = ip->addrs[i]) == 0) ip->addrs[i] = addr = balloc(ip->dev);`
unfoldable pub own_addr : ℕ → Fs → Inode → Option (ℕ × Fs × Inode)
own_addr i fs ip =
    if ip.addrs i == 0
    then elim (balloc fs) [ none ↦ none | some r ↦ some (r.0, r.1, with_addr i r.0 ip) ]
    else some (ip.addrs i, fs, ip)

-- The same for entry `bn` of the block of addresses `i`.
unfoldable pub listed_addr : (i bn : ℕ) → Fs → Option (ℕ × Fs)
listed_addr i bn fs =
    if entry (fs.block i) bn == 0
    then elim (balloc fs) [
      | none ↦ none
      | some r ↦ some (
        r.0,
        record (r.1) { block = update (r.1).block i (store_word (4 * bn) r.0 ((r.1).block i)) },
      )
    ]
    else some (entry (fs.block i) bn, fs)

unfoldable pub bmap : ℕ → Fs → Inode → Option (ℕ × Fs × Inode)
bmap bn fs ip =
    if ltb bn ndirect
    then own_addr bn fs ip
    else if ltb (bn - ndirect) nindirect
    then elim (own_addr ndirect fs ip) [
      | none ↦ none
      | some r ↦ elim (listed_addr r.0 (bn - ndirect) r.1) [
        | none ↦ none
        | some q ↦ some (q.0, q.1, r.2)
      ]
    ]
    else none

-- what `iupdate` copies
abbrev pub dinode_of : Inode → Dinode
dinode_of ip = record {
  type = ip.type;
  major = ip.major;
  minor = ip.minor;
  nlink = ip.nlink;
  size = ip.size;
  addrs = ip.addrs;
}

abbrev pub iupdate : Fs → Inode → Fs
iupdate fs ip = record fs { dinodes = update fs.dinodes ip.inum (dinode_of ip) }
