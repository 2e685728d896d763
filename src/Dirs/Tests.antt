-- ===== src/Dirs/Tests.antt =====
-- A directory of two entries, the first of which is not used.
use ztl_os.Base.{ℕ, ◌≢◌, refl, arith, true, ◌==◌, ltb, if◌then◌else◌}
use ztl_os.Strings.Names.{AreBytes}
use ztl_os.Fs.{Fs, Inode}
use ztl_os.Fs.Mapped.{address, content}
use ztl_os.Fs.Read.{IsFilled}
use ztl_os.Inodes.{Cache}
use ztl_os.Inodes.Counted.{Counted, refs, inums}
use ztl_os.Dirs.{dirlookup}
use ztl_os.Dirs.Lookup.{LooksUp, dirlookup-LooksUp}

-- The entries stand in block 10; the second has the name a and the inode 4.
abbrev disk : Fs
disk = record {
  size = 64;
  bmapstart = 3;
  dinodes = λ i. record { type = 0; major = 0; minor = 0; nlink = 0; size = 0; addrs = λ a. 0 };
  bits = λ i b. ltb b 20;
  block = λ b o. if o == 16 then 4 else if o == 18 then 97 else 0;
}

abbrev directory : Inode
directory = record {
  inum = 1;
  type = 1;
  major = 0;
  minor = 0;
  nlink = 1;
  size = 32;
  addrs = λ a. if a == 0 then 10 else 0;
}

abbrev cache : Cache
cache = record {
  ninodes = 5;
  fs = disk;
  slot = λ i. record { ip = directory; ref = if i == 0 then 1 else 0; valid = true; locked = true };
}

abbrev references : ℕ → ℕ
references m = if m == 1 then 1 else 0

-- the name a
abbrev name : ℕ → ℕ
name i = if i == 0 then 97 else 0

cache-Counted : Counted (refs cache) (inums cache) references
cache-Counted = record {
  counts = λ i l u. ground (arith, u);
  alone = λ i j k l u w e. ground (arith, u, w);
  absent = λ m h. let other : 1 ≢ m = h 0 (omega arith) (omega arith) in ground (arith, other);
}

directory-IsFilled : IsFilled disk directory
unfolding address
directory-IsFilled = record { short = omega arith; filled = λ j l. ground (arith, l) }

directory-AreBytes : AreBytes (content disk directory)
unfolding content
directory-AreBytes a = ground arith

name-AreBytes : AreBytes name
name-AreBytes a = ground arith

dirlookup_example : LooksUp 0 name cache references (dirlookup 0 name cache)
dirlookup_example =
    dirlookup-LooksUp 0 name cache references 2 cache-Counted directory-IsFilled refl
      directory-AreBytes name-AreBytes
