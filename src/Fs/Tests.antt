-- ===== src/Fs/Tests.antt =====
-- A small file system for the theorems.
use ztl_os.Base.{
  true, ℕ, ◌+◌, ◌≡◌, refl, arith, none, some, [], ◌∷◌, ◌==◌, ltb, if◌then◌else◌, update, ok,
}
use ztl_os.Fs.{Fs, Inode, balloc, bmap, find_free, find_bit, bzero, own_addr, iupdate}
use ztl_os.Fs.Transfers.{Transfer, readi, writei, write_loop, overlay, grown}
use ztl_os.Fs.Release.{itrunc}
use ztl_os.Fs.Blocks.{in_use}
use ztl_os.Fs.Mapped.{address, IsMapped}
use ztl_os.Fs.Map.{Maps, bmap-Maps}
use ztl_os.Fs.Read.{IsFilled}
use ztl_os.Fs.Written.{Written, writei-Written}
use ztl_os.Fs.RoundTrip.{readi-writei}
use ztl_os.Fs.Truncated.{Truncates, itrunc-Truncates}

-- Blocks below 20 are in use. Block 10 holds five bytes; block 11 lists block 12.
abbrev disk : Fs
disk = record {
  size = 64;
  bmapstart = 3;
  dinodes = λ i. record { type = 0; major = 0; minor = 0; nlink = 0; size = 0; addrs = λ a. 0 };
  bits = λ i b. ltb b 20;
  block = λ b o.
      if b == 10
      then (if ltb o 5 then 65 + o else 0)
      else if (b == 11)
      then (if o == 0 then 12 else 0)
      else 0;
}

-- a file of five bytes
abbrev file : Inode
file = record {
  inum = 2;
  type = 2;
  major = 0;
  minor = 0;
  nlink = 1;
  size = 5;
  addrs = λ i. if i == 0 then 10 else 0;
}

-- a file with a block of addresses
abbrev long_file : Inode
long_file = record file { addrs = λ i. if i == 0 then 10 else if i == 12 then 11 else 0 }

-- the blocks of the files
address-file : (bn : ℕ) → address disk file bn ≡ (if bn == 0 then 10 else 0)
unfolding address
address-file bn = ground arith

address-long_file :
    (bn : ℕ) → address disk long_file bn ≡ (if bn == 0 then 10 else if bn == 12 then 12 else 0)
unfolding address
address-long_file bn = ground arith

file-IsMapped : IsMapped disk file
unfolding in_use
file-IsMapped = record {
  boot = refl;
  words = omega arith;
  used = λ bn l n. ground (arith, address-file bn, n);
  distinct = λ i j l m n same. ground (arith, address-file i, address-file j, n, same);
  list_used = λ n. absurd (n refl);
  list_apart = λ bn l n same. ground (arith, address-file bn, n, same);
}

long_file-IsMapped : IsMapped disk long_file
unfolding in_use
long_file-IsMapped = record {
  boot = refl;
  words = omega arith;
  used = λ bn l n. ground (arith, address-long_file bn, n);
  distinct = λ i j l m n same. ground (arith, address-long_file i, address-long_file j, n, same);
  list_used = λ n. refl;
  list_apart = λ bn l n same. ground (arith, address-long_file bn, n, same);
}

file-IsFilled : IsFilled disk file
file-IsFilled = record { short = omega arith; filled = λ j l. ground (arith, address-file j, l) }

-- A second block for the file, from the free ones.
bmap_example : Maps 1 disk file (bmap 1 disk file)
bmap_example = bmap-Maps 1 disk file (omega arith) file-IsMapped

-- The new block is the lowest free one.
bmap_takes : (elim (bmap 1 disk file) [ none ↦ 0 | some r ↦ r.0 ]) == 20 ≡ true
unfolding bmap own_addr balloc bzero find_free find_bit
bmap_takes = refl

-- Two bytes at the end of the file.
writei_example : Written 5 (1 ∷ 2 ∷ []) disk file (writei 5 (1 ∷ 2 ∷ []) disk file)
writei_example =
    writei-Written 5 (1 ∷ 2 ∷ []) disk file (omega arith) (omega arith) file-IsMapped file-IsFilled

-- the file system with the bytes in it
abbrev longer : Transfer
longer =
    let ip' : Inode = record file { size = 7 } in
    record {
      ret = ok 2;
      bytes = [];
      fs =
          iupdate
            (record disk { block = update disk.block 10 (overlay 5 (1 ∷ 2 ∷ []) (disk.block 10)) })
            ip';
      ip = ip';
    }

writes_longer : writei 5 (1 ∷ 2 ∷ []) disk file ≡ some longer
unfolding writei write_loop bmap own_addr grown
writes_longer = refl

read_back_example :
    readi 5 2 longer.fs longer.ip
    ≡ some (record { ret = ok 2; bytes = 1 ∷ 2 ∷ []; fs = longer.fs; ip = longer.ip })
read_back_example =
    readi-writei 5 (1 ∷ 2 ∷ []) disk file longer (omega arith) (omega arith) file-IsMapped
      file-IsFilled writes_longer

itrunc_example : Truncates disk long_file (itrunc disk long_file)
itrunc_example = itrunc-Truncates disk long_file long_file-IsMapped
