-- ===== src/Fs/Later.antt =====
-- src/fs.c, what a file takes of the disk while it grows.
use ztl_os.Base.{
  ℕ, ◌+◌, ◌<◌, ◌≤◌, ◌≡◌, ◌≢◌, true, false, refl, sym, ◌∙◌, subst, arith, inl, inr, ◌==◌, Bool-cases,
}
use mathlib.Core.Bool.{false≢true}
use ztl_os.Fs.{Fs, Inode, ndirect, maxfile, with_addr, bzero}
use ztl_os.Fs.Blocks.{in_use}
use ztl_os.Fs.Mapped.{address, IsMapped}
use ztl_os.Fs.Extend.{Extends}
use ztl_os.Fs.Slots.{taken, in_use-taken}
use ztl_os.Fs.NewList.{same_slots, is_list}

-- A block that the file has now: at one of the places from `lo` up to `hi`, where it had none, or
-- as its block of addresses, of which it had none.
pub data Gained (lo hi : ℕ) (fs : Fs) (ip : Inode) (fs' : Fs) (ip' : Inode) (b : ℕ) : Type 0 where
  at_place :
      (j : ℕ)
      → lo ≤ j
      → j < hi
      → j < maxfile
      → address fs ip j ≡ 0
      → address fs' ip' j ≡ b
      → Gained lo hi fs ip fs' ip' b
  as_list : ip.addrs ndirect ≡ 0 → ip'.addrs ndirect ≡ b → Gained lo hi fs ip fs' ip' b

-- The file has kept its blocks, and every block that is in use now and was not is the file's.
pub record Later (lo hi : ℕ) (fs : Fs) (ip : Inode) (fs' : Fs) (ip' : Inode) : Type 0 where
  pub same_size : fs'.size ≡ fs.size
  pub kept_places :
      (j : ℕ) → j < maxfile → address fs ip j ≢ 0 → address fs' ip' j ≡ address fs ip j
  pub kept_list : ip.addrs ndirect ≢ 0 → ip'.addrs ndirect ≡ ip.addrs ndirect
  pub gained : (b : ℕ) → in_use fs b ≡ false → in_use fs' b ≡ true → Gained lo hi fs ip fs' ip' b

pub Later-refl : (lo hi : ℕ) (fs : Fs) (ip : Inode) → Later lo hi fs ip fs ip
Later-refl lo hi fs ip = record {
  same_size = refl;
  kept_places = λ j l n. refl;
  kept_list = λ n. refl;
  gained = λ b free used. absurd (false≢true (sym free ∙ used));
}

module _ {lo lo' hi hi' top : ℕ} {fs fs₁ fs₂ : Fs} {ip ip₁ ip₂ : Inode} (boot : in_use fs 0 ≡ true)
    (start : lo ≤ lo') (end : hi ≤ top) (end' : hi' ≤ top) (p : Later lo hi fs ip fs₁ ip₁)
    (q : Later lo' hi' fs₁ ip₁ fs₂ ip₂) where
  still_none : (j : ℕ) → j < maxfile → address fs₁ ip₁ j ≡ 0 → address fs ip j ≡ 0
  still_none j l z = elim (Bool-cases (address fs ip j == 0)) [
    | inl none_there ↦ ground (arith, none_there)
    | inr there ↦
        let n : address fs ip j ≢ 0 = ground (arith, there) in
        absurd (n (sym (p.kept_places j l n) ∙ z))
  ]

  no_list : ip₁.addrs ndirect ≡ 0 → ip.addrs ndirect ≡ 0
  no_list z = elim (Bool-cases (ip.addrs ndirect == 0)) [
    | inl none_there ↦ ground (arith, none_there)
    | inr there ↦
        let n : ip.addrs ndirect ≢ 0 = ground (arith, there) in absurd (n (sym (p.kept_list n) ∙ z))
  ]

  nonzero : (b : ℕ) → in_use fs b ≡ false → b ≢ 0
  nonzero b free z = false≢true (sym (subst (λ x. in_use fs x ≡ false) z free) ∙ boot)

  as_first :
      (b : ℕ) → in_use fs b ≡ false → Gained lo hi fs ip fs₁ ip₁ b → Gained lo top fs ip fs₂ ip₂ b
  as_first b free (at_place j x y l z e) =
      at_place j x (omega (arith, y, end)) l z
        (q.kept_places j l (λ z'. nonzero b free (sym e ∙ z')) ∙ e)
  as_first b free (as_list z e) = as_list z (q.kept_list (λ z'. nonzero b free (sym e ∙ z')) ∙ e)

  as_then : (b : ℕ) → Gained lo' hi' fs₁ ip₁ fs₂ ip₂ b → Gained lo top fs ip fs₂ ip₂ b
  as_then b (at_place j x y l z e) =
      at_place j (omega (arith, x, start)) (omega (arith, y, end')) l (still_none j l z) e
  as_then b (as_list z e) = as_list (no_list z) e

  pub Later-trans : Later lo top fs ip fs₂ ip₂
  Later-trans = record {
    same_size = q.same_size ∙ p.same_size;
    kept_places =
        λ j l n. let same = p.kept_places j l n in q.kept_places j l (λ z. n (sym same ∙ z)) ∙ same;
    kept_list = λ n. let same = p.kept_list n in q.kept_list (λ z. n (sym same ∙ z)) ∙ same;
    gained = λ b free used. elim (Bool-cases (in_use fs₁ b)) [
      | inl then_used ↦ as_first b free (p.gained b free then_used)
      | inr then_free ↦ as_then b (q.gained b then_free used)
    ];
  }

pub Extends-Later :
    {bn a : ℕ} {fs fs' : Fs} {ip ip' : Inode}
    → bn < maxfile
    → Extends bn a fs ip fs' ip'
    → Later bn (bn + 1) fs ip fs' ip'
Extends-Later {bn} {a} l e = record {
  same_size = e.size;
  kept_places = λ j h m. ground (arith, e.slots j h, e.hole, m);
  kept_list = λ n. e.list;
  gained = λ b free used.
      let same : b ≡ a = ground (arith, e.bits b, free, used) in
      at_place bn (omega arith) (omega arith) l e.hole (ground (arith, e.slots bn l, same));
}

-- the block of addresses, when it is taken
pub list_taken :
    (a lo hi : ℕ) (fs : Fs) (ip : Inode)
    → ip.addrs ndirect ≡ 0
    → in_use fs a ≡ false
    → IsMapped fs ip
    → Later lo hi fs ip (taken a fs) (with_addr ndirect a ip)
unfolding bzero
list_taken a lo hi fs ip none_yet free v = record {
  same_size = refl;
  kept_places = λ j l n. same_slots a fs ip none_yet free v j l;
  kept_list = λ n. absurd (n none_yet);
  gained = λ b was_free used.
      let same : b ≡ a = ground (arith, in_use-taken fs a b, was_free, used) in
      as_list none_yet (is_list a fs ip none_yet free v ∙ sym same);
}
