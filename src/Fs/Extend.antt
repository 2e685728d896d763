-- ===== src/Fs/Extend.antt =====
-- A file that gets one more block.
use mathlib.Core.Bool.{false≢true}
use ztl_os.Base.{
  subst, ℕ, ◌*◌, ◌/◌, ◌%◌, ◌<◌, ◌≡◌, ◌≢◌, sym, ◌∙◌, arith, true, false, ◌==◌, if◌then◌else◌,
}
use ztl_os.Fs.{Fs, Inode, bsize, ndirect, maxfile}
use ztl_os.Fs.Blocks.{in_use}
use ztl_os.Fs.Mapped.{address, content, IsMapped}

-- Block `bn` of the file is now `a`, which was free and is full of zeros; the blocks in use have
-- not changed, but for the file's block of addresses.
pub record Extends (bn a : ℕ) (fs : Fs) (ip : Inode) (fs' : Fs) (ip' : Inode) : Type 0 where
  pub slots : (j : ℕ) → j < maxfile → address fs' ip' j ≡ (if j == bn then a else address fs ip j)
  pub hole : address fs ip bn ≡ 0
  pub list : ip'.addrs ndirect ≡ ip.addrs ndirect
  pub was_free : in_use fs a ≡ false
  pub bits : (b : ℕ) → in_use fs' b ≡ (if b == a then true else in_use fs b)
  pub size : fs'.size ≡ fs.size
  pub zero : (o : ℕ) → fs'.block a o ≡ 0
  pub kept : (b o : ℕ) → b ≢ a → b ≢ ip.addrs ndirect → fs'.block b o ≡ fs.block b o

module _ {bn a : ℕ} {fs fs' : Fs} {ip ip' : Inode} (v : IsMapped fs ip)
    (e : Extends bn a fs ip fs' ip') where
  new_nonzero : a ≢ 0
  new_nonzero z =
      let free : in_use fs 0 ≡ false = subst (λ x. in_use fs x ≡ false) z e.was_free in
      false≢true (sym free ∙ v.boot)

  new_apart : (b : ℕ) → in_use fs b ≡ true → b ≢ a
  new_apart b used same = false≢true (sym e.was_free ∙ subst (λ x. in_use fs x ≡ true) same used)

  pub Extends-IsMapped : IsMapped fs' ip'
  Extends-IsMapped = record {
    boot = e.bits 0 ∙ ground (arith, v.boot);
    words = rw (e.size) v.words;
    used = λ j l n. ground (arith, e.slots j l, e.bits (address fs' ip' j), v.used j l);
    distinct = λ i j k l n same. ground (
      arith,
      e.slots i k,
      e.slots j l,
      v.used i k,
      v.used j l,
      v.distinct i j k l,
      new_nonzero,
      new_apart (address fs ip i),
      new_apart (address fs ip j),
    );
    list_used = λ n. ground (arith, e.list, e.bits (ip'.addrs ndirect), v.list_used);
    list_apart = λ j l n. ground (
      arith,
      e.slots j l,
      e.list,
      v.list_used,
      v.list_apart j l,
      new_apart (ip.addrs ndirect),
      new_nonzero,
    );
  }

  pub Extends-content : (off : ℕ) → off < maxfile * bsize → content fs' ip' off ≡ content fs ip off
  unfolding content
  Extends-content off l =
      let j = off / bsize in
      let o = off % bsize in
      let here : j < maxfile = omega (arith, l) in
      ground (
        arith,
        e.slots j here,
        e.hole,
        e.zero o,
        e.kept (address fs ip j) o,
        v.used j here,
        new_apart (address fs ip j),
        v.list_apart j here,
      )
