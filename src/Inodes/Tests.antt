-- ===== src/Inodes/Tests.antt =====
-- A cache with one inode, of a file that no directory names.
use ztl_os.Base.{ℕ, ◌≡◌, ◌≢◌, refl, arith, true, false, none, some, ◌==◌, ltb, if◌then◌else◌}
use ztl_os.Fs.{Fs, Inode}
use ztl_os.Inodes.{ilock, Cache, iget, find_slot, remember, ialloc, find_type}
use ztl_os.Inodes.Counted.{Counted, refs, inums}
use ztl_os.Inodes.Get.{Gets, iget-Gets}
use ztl_os.Inodes.Alloc.{Allocs, ialloc-Allocs}
use ztl_os.Inodes.Lock.{Locks, ilock-Locks}

-- Inodes 3 and 4 are free, and blocks from 20 on.
abbrev disk : Fs
disk = record {
  size = 64;
  bmapstart = 3;
  dinodes = λ i. record {
    type = if ltb i 3 then 2 else 0;
    major = 0;
    minor = 0;
    nlink = 0;
    size = 5;
    addrs = λ a. if a == 0 then 10 else 0;
  };
  bits = λ i b. ltb b 20;
  block = λ b o. 0;
}

abbrev file : Inode
file = record {
  inum = 2;
  type = 2;
  major = 0;
  minor = 0;
  nlink = 0;
  size = 5;
  addrs = λ a. if a == 0 then 10 else 0;
}

abbrev cache : Cache
cache = record {
  ninodes = 5;
  fs = disk;
  slot = λ i. record { ip = file; ref = if i == 0 then 1 else 0; valid = true; locked = false };
}

abbrev references : ℕ → ℕ
references m = if m == 2 then 1 else 0

cache-Counted : Counted (refs cache) (inums cache) references
cache-Counted = record {
  counts = λ i l u. ground (arith, u);
  alone = λ i j k l u w e. ground (arith, u, w);
  absent = λ m h. let other : 2 ≢ m = h 0 (omega arith) (omega arith) in ground (arith, other);
}

-- Another inode goes to the place after the first.
iget_example : Gets 4 cache references (iget 4 cache)
iget_example = iget-Gets 4 cache references cache-Counted

iget_takes : (elim (iget 4 cache) [ none ↦ 0 | some r ↦ r.0 ]) == 1 ≡ true
unfolding iget find_slot remember
iget_takes = refl

-- The lowest free inode.
ialloc_takes : (elim (ialloc 1 cache) [ none ↦ 0 | some r ↦ ((r.1).slot r.0).ip.inum ]) == 3 ≡ true
unfolding ialloc find_type iget find_slot remember
ialloc_takes = refl

ialloc_example : Allocs 1 cache references (ialloc 1 cache)
ialloc_example = ialloc-Allocs 1 cache references (omega arith) cache-Counted

ilock_example : Locks 0 cache (ilock 0 cache)
ilock_example = ilock-Locks 0 cache
