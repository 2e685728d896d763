-- ===== src/Fs/Slots.antt =====
-- Where the blocks of a file stand after a new block was taken.
use mathlib.Core.Bool.{false≢true}
use native.Mathlib.Decide.{dec_lt}
use ztl_os.Base.{
  subst, ℕ, ◌+◌, ◌-◌, ◌*◌, ◌<◌, ◌≤◌, ◌≡◌, ◌≢◌, refl, sym, ap, ◌∙◌, arith, true, false, inl, inr,
  ◌==◌, if◌then◌else◌, update, update_self, update_ne, Bool-cases,
}
use ztl_os.Strings.{store_word}
use ztl_os.Fs.{Fs, Inode, ndirect, nindirect, entry, set_bit, bzero, with_addr}
use ztl_os.Fs.Blocks.{in_use, in_use-set_bit}
use ztl_os.Fs.Mapped.{address, IsMapped}
use ztl_os.Fs.Extend.{Extends}

entry-store_word :
    (w : ℕ → ℕ) (k j a : ℕ)
    → a < 4294967296
    → entry (store_word (4 * k) a w) j ≡ (if j == k then a else entry w j)
entry-store_word w k j a h = elim (Bool-cases (j == k)) [
  | inl e ↦ ground (arith, e)
  | inr e ↦ ground (arith, e)
]

pub in_use-taken :
    (fs : Fs) (a b : ℕ)
    → in_use (bzero a (set_bit true a fs)) b ≡ (if b == a then true else in_use fs b)
unfolding bzero in_use
in_use-taken fs a b = in_use-set_bit fs true a b

pub taken-zero : (fs : Fs) (a o : ℕ) → (bzero a (set_bit true a fs)).block a o ≡ 0
unfolding bzero
taken-zero fs a o = ground arith

-- the state after `balloc` took block `a`
abbrev pub taken : ℕ → Fs → Fs
taken a fs = bzero a (set_bit true a fs)

pub taken-size : (fs : Fs) (a : ℕ) → (taken a fs).size ≡ fs.size
unfolding bzero
taken-size fs a = refl

pub taken-block : (fs : Fs) (a b : ℕ) → b ≢ a → (taken a fs).block b ≡ fs.block b
unfolding bzero
taken-block fs a b n = update_ne fs.block a (λ _. 0) b n

pub address_direct : (fs : Fs) (ip : Inode) (j : ℕ) → j < ndirect → address fs ip j ≡ ip.addrs j
unfolding address
address_direct fs ip j l = ground arith

pub address_listed :
    (fs : Fs) (ip : Inode) (j : ℕ)
    → ndirect ≤ j
    → ip.addrs ndirect ≢ 0
    → address fs ip j ≡ entry (fs.block (ip.addrs ndirect)) (j - ndirect)
unfolding address
address_listed fs ip j l n = ground arith

pub address_unlisted :
    (fs : Fs) (ip : Inode) (j : ℕ) → ndirect ≤ j → ip.addrs ndirect ≡ 0 → address fs ip j ≡ 0
unfolding address
address_unlisted fs ip j l n = ground arith

pub used_apart : (fs : Fs) (a b : ℕ) → in_use fs a ≡ false → in_use fs b ≡ true → b ≢ a
used_apart fs a b free used same = false≢true (sym free ∙ subst (λ x. in_use fs x ≡ true) same used)

-- The blocks from 12 on stand where they stood if the block of addresses is as it was.
pub address_kept :
    (fs fs' : Fs) (ip ip' : Inode) (j : ℕ)
    → ndirect ≤ j
    → ip'.addrs ndirect ≡ ip.addrs ndirect
    → (ip.addrs ndirect ≢ 0 → fs'.block (ip.addrs ndirect) ≡ fs.block (ip.addrs ndirect))
    → address fs' ip' j ≡ address fs ip j
address_kept fs fs' ip ip' j l same block = elim (Bool-cases (ip.addrs ndirect == 0)) [
  | inl none_yet ↦
      address_unlisted fs' ip' j l (ground (arith, same, none_yet))
      ∙ sym (address_unlisted fs ip j l (ground (arith, none_yet)))
  | inr there ↦
      address_listed fs' ip' j l (ground (arith, same, there))
      ∙ ap (λ i. entry (fs'.block i) (j - ndirect)) same
      ∙ ap (λ w. entry w (j - ndirect)) (block (ground (arith, there)))
      ∙ sym (address_listed fs ip j l (ground (arith, there)))
]

own-slots :
    (bn a : ℕ) (fs : Fs) (ip : Inode)
    → bn < ndirect
    → in_use fs a ≡ false
    → IsMapped fs ip
    → (j : ℕ)
    → address (taken a fs) (with_addr bn a ip) j ≡ (if j == bn then a else address fs ip j)
own-slots bn a fs ip h free v j = elim (dec_lt j ndirect) [
  | yes l ↦
      let new = address_direct (taken a fs) (with_addr bn a ip) j l in
      ground (arith, new, address_direct fs ip j l)
  | no l ↦
      let kept =
        address_kept fs (taken a fs) ip (with_addr bn a ip) j (omega arith) (ground arith) (λ n.
          taken-block fs a (ip.addrs ndirect)
            (used_apart fs a (ip.addrs ndirect) free (v.list_used n))) in
      ground (arith, kept)
]

pub own-Extends :
    (bn a : ℕ) (fs : Fs) (ip : Inode)
    → bn < ndirect
    → ip.addrs bn ≡ 0
    → in_use fs a ≡ false
    → IsMapped fs ip
    → Extends bn a fs ip (taken a fs) (with_addr bn a ip)
unfolding bzero
own-Extends bn a fs ip h hole free v = record {
  slots = λ j l. own-slots bn a fs ip h free v j;
  hole = address_direct fs ip bn h ∙ hole;
  list = ground arith;
  was_free = free;
  bits = in_use-taken fs a;
  size = refl;
  zero = taken-zero fs a;
  kept = λ b o n m. ap (λ w. w o) (taken-block fs a b n);
}

-- the state after entry `k` of block `i` was set to the new block `a`
abbrev pub linked : (i k a : ℕ) → Fs → Fs
linked i k a fs =
    let new = taken a fs in
    record new { block = update new.block i (store_word (4 * k) a (new.block i)) }

in_use-linked :
    (fs : Fs) (i k a b : ℕ) → in_use (linked i k a fs) b ≡ (if b == a then true else in_use fs b)
unfolding bzero in_use
in_use-linked fs i k a b = in_use-set_bit fs true a b

module _ (k a : ℕ) (fs : Fs) (ip : Inode) (some_list : ip.addrs ndirect ≢ 0) (small : a < fs.size)
    (free : in_use fs a ≡ false) (v : IsMapped fs ip) where
  abbrev list : ℕ
  list = ip.addrs ndirect

  list_new : list ≢ a
  list_new = used_apart fs a list free (v.list_used some_list)

  list_entries : (linked list k a fs).block list ≡ store_word (4 * k) a (fs.block list)
  list_entries =
      update_self (taken a fs).block list (store_word (4 * k) a ((taken a fs).block list))
      ∙ ap (store_word (4 * k) a) (taken-block fs a list list_new)

  listed-slots :
      (j : ℕ)
      → address (linked list k a fs) ip j ≡ (if j == ndirect + k then a else address fs ip j)
  listed-slots j = elim (dec_lt j ndirect) [
    | yes l ↦
        let new = address_direct (linked list k a fs) ip j l in
        ground (arith, new, address_direct fs ip j l)
    | no l ↦
        let new =
          address_listed (linked list k a fs) ip j (omega arith) some_list
          ∙ ap (λ w. entry w (j - ndirect)) list_entries
          ∙ entry-store_word (fs.block list) k (j - ndirect) a (omega (arith, v.words)) in
        let old = address_listed fs ip j (omega arith) some_list in ground (arith, new, old)
  ]

  pub listed-Extends :
      entry (fs.block list) k ≡ 0
      → k < nindirect
      → Extends (ndirect + k) a fs ip (linked list k a fs) ip
  unfolding bzero
  listed-Extends hole h = record {
    slots = λ j l. listed-slots j;
    hole =
        address_listed fs ip (ndirect + k) (omega arith) some_list
        ∙ ap (entry (fs.block list)) (omega arith)
        ∙ hole;
    list = refl;
    was_free = free;
    bits = in_use-linked fs list k a;
    size = refl;
    zero = λ o.
        ap (λ w. w o)
          (update_ne (taken a fs).block list (store_word (4 * k) a ((taken a fs).block list)) a
            (λ e. list_new (sym e)))
        ∙ taken-zero fs a o;
    kept = λ b o n m.
        ap (λ w. w o)
          (update_ne (taken a fs).block list (store_word (4 * k) a ((taken a fs).block list)) b m
            ∙ taken-block fs a b n);
  }
