-- ===== src/Fs/Written.antt =====
-- What `writei` does, and reading back what was written.
use Prim.Native.Nat.{max}
use native.Mathlib.Decide.{dec_lt}
use ztl_os.Base.{
  ap, ℕ, ◌+◌, ◌*◌, ◌/◌, ◌%◌, ◌<◌, ◌≤◌, ◌≡◌, ◌≢◌, ◌⊎◌, subst, arith, ◌&&◌, ◌||◌, Option, none, some,
  inl, inr, List, [], ltb, Bool-cases, ok, fail, u32_mod, length, update, update_self,
}
use ztl_os.Fs.Blocks.{in_use}
use ztl_os.Fs.{Dinode, dinode_of, Fs, Inode, bsize, maxfile}
use ztl_os.Fs.Transfers.{grown, Transfer, writei}
use ztl_os.Fs.Mapped.{address, content, IsMapped}
use ztl_os.Fs.Later.{Later}
use ztl_os.Fs.Map.{NoneLeft}
use ztl_os.Fs.Write.{last, Writes, writes, disk_full, write_loop-Writes}
use ztl_os.Fs.Read.{IsFilled}
use ztl_os.Fs.Laid.{laid}
use ztl_os.Fs.Stores.{Stores}

-- A write is refused if it begins behind the file's end or ends behind the largest file; else the
-- file has the bytes, the rest of it is as before, and a file that has grown has its inode on the
-- disk; or the disk had too few blocks.
pub data Written (off : ℕ) (src : List ℕ) (fs : Fs) (ip : Inode) : Option Transfer → Type 0 where
  refused :
      ip.size < off ⊎ (maxfile * bsize < off + length src)
      → Written off src fs ip (some (record { ret = fail; bytes = []; fs = fs; ip = ip }))
  written :
      {fs' : Fs} {ip' : Inode}
      → off ≤ ip.size
      → off + length src ≤ maxfile * bsize
      → IsMapped fs' ip'
      → IsFilled fs' ip'
      → ((o : ℕ) → o < maxfile * bsize → content fs' ip' o ≡ laid off src (content fs ip) o)
      → ip'.size ≡ max ip.size (off + length src)
      → (ip.size < off + length src → Stores (fs'.dinodes ip'.inum) ip')
      → Written off src fs ip
          (some (record { ret = ok (length src); bytes = []; fs = fs'; ip = ip' }))
  panicked :
      {fs' : Fs} {ip' : Inode} (j : ℕ)
      → off / bsize ≤ j
      → j * bsize < off + length src
      → Later (off / bsize) (last off (length src)) fs ip fs' ip'
      → address fs' ip' j ≡ 0
      → NoneLeft j fs' ip'
      → Written off src fs ip none

-- Neither the size nor the inodes on disk are part of the map of a file.
resized-IsMapped :
    (d : ℕ → Dinode) (z : ℕ) (fs : Fs) (ip : Inode)
    → IsMapped fs ip
    → IsMapped (record fs { dinodes = d }) (record ip { size = z })
unfolding address in_use
resized-IsMapped d z fs ip v = record {
  boot = v.boot;
  words = v.words;
  used = v.used;
  distinct = v.distinct;
  list_used = v.list_used;
  list_apart = v.list_apart;
}

written_back : (d : ℕ → Dinode) (ip : Inode) → Stores (update d ip.inum (dinode_of ip) ip.inum) ip
written_back d ip =
    let same = update_self d ip.inum (dinode_of ip) in
    record {
      type_same = ap (λ x. x.type) same;
      major_same = ap (λ x. x.major) same;
      minor_same = ap (λ x. x.minor) same;
      nlink_same = ap (λ x. x.nlink) same;
      size_same = ap (λ x. x.size) same;
      addrs_same = λ j. ap (λ x. x.addrs j) same;
    }

module _ (off : ℕ) (src : List ℕ) (fs : Fs) (ip : Inode) (low : off ≤ ip.size)
    (room : off + length src ≤ maxfile * bsize) (f : IsFilled fs ip) where
  module _ (d : ℕ → Dinode) (fs' : Fs) (ip' : Inode) (v : IsMapped fs' ip')
      (c : (o : ℕ) → o < maxfile * bsize → content fs' ip' o ≡ laid off src (content fs ip) o)
      (k : (j : ℕ) → j < maxfile → address fs ip j ≢ 0 → address fs' ip' j ≢ 0)
      (n : (o : ℕ) → off ≤ o → o < off + length src → address fs' ip' (o / bsize) ≢ 0) (z : ℕ)
      (e : z ≡ max ip.size (off + length src)) where
    abbrev fs'' : Fs
    fs'' = record fs' { dinodes = d }

    abbrev ip'' : Inode
    ip'' = record ip' { size = z }

    resized-IsFilled : IsFilled fs'' ip''
    unfolding address
    resized-IsFilled = record {
      short = omega (arith, e, room, f.short);
      filled = λ j l. elim (dec_lt (j * bsize) ip.size) [
        | yes old ↦ k j (omega (arith, old, f.short)) (f.filled j old)
        | no new ↦
            let quotient : j * bsize / bsize ≡ j = omega arith in
            subst (λ q. address fs' ip' q ≢ 0) quotient
              (n (j * bsize) (omega arith) (omega (arith, e, l)))
      ];
    }

    finish :
        (ip.size < off + length src → Stores (d ip'.inum) ip'')
        → Written off src fs ip
            (some (record { ret = ok (length src); bytes = []; fs = fs''; ip = ip'' }))
    unfolding content address
    finish g = written low room (resized-IsMapped d z fs' ip' v) resized-IsFilled c e g

  set_size :
      {r : Option (Fs × Inode)}
      → Writes off src fs ip r
      → Written off src fs ip
          (elim r [ none ↦ none | some q ↦ some (grown off (length src) q.0 q.1) ])
  unfolding grown
  set_size (disk_full j low l later none_there left_none) =
      panicked j low l later none_there left_none
  set_size (writes {fs'} {ip'} v c z k n) =
      let end = off + length src in
      elim (Bool-cases (ltb 0 (length src) && ltb ip'.size end)) [
        | inl grows ↦
            let ip'' : Inode = record ip' { size = end } in
            rw grows (
              finish (update fs'.dinodes ip'.inum (dinode_of ip'')) fs' ip' v c k n end
                (ground (arith, grows, z, low)) (λ h. written_back fs'.dinodes ip''))
        | inr stays ↦ rw stays (
            finish fs'.dinodes fs' ip' v c k n ip'.size (ground (arith, stays, z, low))
              (λ h. ground (arith, stays, z, low, h)))
      ]

-- `writei` refuses a write that begins behind the file's end or ends behind the largest file;
-- otherwise it stores all the bytes there and keeps the rest of the file, and if the file has grown,
-- its inode on the disk has every field of the one in memory; or it panics, for want of a block of
-- the range: then, with what the file took for its range and its block of addresses, no block is
-- left, or one where two are missing. The calls of `log_write` are taken to succeed.
pub writei-Written :
    (off : ℕ) (src : List ℕ) (fs : Fs) (ip : Inode)
    → off < u32_mod
    → length src < u32_mod
    → IsMapped fs ip
    → IsFilled fs ip
    → Written off src fs ip (writei off src fs ip)
unfolding writei
writei-Written off src fs ip a b v f =
    let test =
      ltb ip.size off
      || ltb ((off + length src) % u32_mod) off
      || ltb (maxfile * bsize) ((off + length src) % u32_mod) in
    elim (Bool-cases test) [
      | inl bad ↦ rw bad (refused (ground (arith, bad)))
      | inr good ↦ rw good (
          set_size off src fs ip (ground (arith, good)) (ground (arith, good)) f
            (write_loop-Writes (length src) off src fs ip (omega arith) (ground (arith, good)) v))
    ]
