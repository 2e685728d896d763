-- ===== src/Fs/NewList.antt =====
-- A file that gets its block of addresses.
use native.Mathlib.Decide.{dec_lt}
use mathlib.Core.Bool.{false≢true}
use ztl_os.Base.{
  ◌-◌, ◌%◌, update_ne, ◌/◌, update_self, subst, ℕ, ◌+◌, ◌*◌, ◌<◌, ◌≡◌, ◌≢◌, sym, ap, ◌∙◌, arith,
  false,
}
use ztl_os.Fs.{Fs, Inode, bsize, ndirect, maxfile, entry, with_addr}
use ztl_os.Fs.Blocks.{in_use}
use ztl_os.Fs.Mapped.{content-same, address, content, IsMapped}
use ztl_os.Fs.Slots.{
  address_unlisted, taken-block, taken-size, used_apart, taken, in_use-taken, taken-zero,
  address_direct, address_listed,
}

-- A new block of addresses, which lists nothing, changes nothing.
module _ (a : ℕ) (fs : Fs) (ip : Inode) (none_yet : ip.addrs ndirect ≡ 0)
    (free : in_use fs a ≡ false) (v : IsMapped fs ip) where
  abbrev pub fs₁ : Fs
  fs₁ = taken a fs

  abbrev pub ip₁ : Inode
  ip₁ = with_addr ndirect a ip

  pub list_nonzero : a ≢ 0
  list_nonzero z = false≢true (sym (subst (λ x. in_use fs x ≡ false) z free) ∙ v.boot)

  pub is_list : ip₁.addrs ndirect ≡ a
  is_list = update_self ip.addrs ndirect a

  empty_entries : (k : ℕ) → entry (fs₁.block a) k ≡ 0
  empty_entries k = ground (
    arith,
    taken-zero fs a (4 * k),
    taken-zero fs a (4 * k + 1),
    taken-zero fs a (4 * k + 2),
    taken-zero fs a (4 * k + 3),
  )

  pub same_slots : (j : ℕ) → j < maxfile → address fs₁ ip₁ j ≡ address fs ip j
  same_slots j l = elim (dec_lt j ndirect) [
    | yes low ↦
        address_direct fs₁ ip₁ j low
        ∙ update_ne ip.addrs ndirect a j (omega arith)
        ∙ sym (address_direct fs ip j low)
    | no high ↦
        address_listed fs₁ ip₁ j (omega arith) (λ z. list_nonzero (sym is_list ∙ z))
        ∙ ap (λ i. entry (fs₁.block i) (j - ndirect)) is_list
        ∙ empty_entries (j - ndirect)
        ∙ sym (address_unlisted fs ip j (omega arith) none_yet)
  ]

  pub listed-IsMapped : IsMapped fs₁ ip₁
  listed-IsMapped = record {
    boot = in_use-taken fs a 0 ∙ ground (arith, v.boot);
    words = rw (taken-size fs a) v.words;
    used = λ j l n. ground (arith, same_slots j l, in_use-taken fs a (address fs ip j), v.used j l);
    distinct = λ i j k l n same.
        v.distinct i j k l (λ z. n (same_slots i k ∙ z))
          (sym (same_slots i k) ∙ same ∙ same_slots j l);
    list_used = λ n. ground (arith, is_list, in_use-taken fs a a);
    list_apart = λ j l n same.
        used_apart fs a (address fs ip j) free (v.used j l (λ z. n (same_slots j l ∙ z)))
          (sym (same_slots j l) ∙ same ∙ is_list);
  }

  pub listed-content : (off : ℕ) → off < maxfile * bsize → content fs₁ ip₁ off ≡ content fs ip off
  listed-content off l =
      let j = off / bsize in
      let here : j < maxfile = omega (arith, l) in
      content-same fs fs₁ ip ip₁ off (same_slots j here) (λ n.
        ap (λ w. w (off % bsize))
          (taken-block fs a (address fs ip j)
            (used_apart fs a (address fs ip j) free (v.used j here n))))
