-- ===== src/Fs/Stored.antt =====
-- A block of a file whose bytes were replaced.
use native.Mathlib.Decide.{dec_lt}
use ztl_os.Base.{
  ℕ, ◌*◌, ◌/◌, ◌%◌, ◌<◌, ◌≡◌, ◌≢◌, refl, sym, ap, ◌∙◌, arith, inl, inr, ◌==◌, if◌then◌else◌,
  Bool-cases, update, update_self, update_ne,
}
use ztl_os.Fs.{Fs, Inode, bsize, ndirect, maxfile}
use ztl_os.Fs.Blocks.{in_use}
use ztl_os.Fs.Mapped.{content_there, address, content, IsMapped, content-same}
use ztl_os.Fs.Slots.{address_direct, address_kept}

module _ (bn : ℕ) (whole : ℕ → ℕ) (fs : Fs) (ip : Inode) (l : bn < maxfile)
    (n : address fs ip bn ≢ 0) (v : IsMapped fs ip) where
  abbrev pub stored : Fs
  stored = record fs { block = update fs.block (address fs ip bn) whole }

  in_use-stored : (b : ℕ) → in_use stored b ≡ in_use fs b
  unfolding in_use
  in_use-stored b = refl

  list_kept : stored.block (ip.addrs ndirect) ≡ fs.block (ip.addrs ndirect)
  list_kept =
      update_ne fs.block (address fs ip bn) whole (ip.addrs ndirect)
        (λ e. v.list_apart bn l n (sym e))

  pub address-stored : (j : ℕ) → address stored ip j ≡ address fs ip j
  address-stored j = elim (dec_lt j ndirect) [
    | yes low ↦ address_direct stored ip j low ∙ sym (address_direct fs ip j low)
    | no high ↦ address_kept fs stored ip ip j (omega arith) refl (λ m. list_kept)
  ]

  pub stored-IsMapped : IsMapped stored ip
  stored-IsMapped = record {
    boot = in_use-stored 0 ∙ v.boot;
    words = v.words;
    used = λ j h m. ground (arith, address-stored j, in_use-stored (address fs ip j), v.used j h);
    distinct = λ i j h k m same.
        v.distinct i j h k (λ z. m (address-stored i ∙ z))
          (sym (address-stored i) ∙ same ∙ address-stored j);
    list_used = λ m. in_use-stored (ip.addrs ndirect) ∙ v.list_used m;
    list_apart = λ j h m same.
        v.list_apart j h (λ z. m (address-stored j ∙ z)) (sym (address-stored j) ∙ same);
  }

  pub stored-content :
      (off : ℕ)
      → off < maxfile * bsize
      → content stored ip off
        ≡ (if off / bsize == bn then whole (off % bsize) else content fs ip off)
  stored-content off h = elim (Bool-cases (off / bsize == bn)) [
    | inl here ↦
        let same : off / bsize ≡ bn = ground (arith, here) in
        let at_bn = address-stored (off / bsize) ∙ ap (address fs ip) same in
        rw here (
          content_there stored ip off (λ z. n (sym at_bn ∙ z))
          ∙ ap (λ a. stored.block a (off % bsize)) at_bn
          ∙ ap (λ w. w (off % bsize)) (update_self fs.block (address fs ip bn) whole))
    | inr other ↦ rw other (
        content-same fs stored ip ip off (address-stored (off / bsize)) (λ m.
          ap (λ w. w (off % bsize))
            (update_ne fs.block (address fs ip bn) whole (address fs ip (off / bsize))
              (λ e. ground (arith, other, v.distinct (off / bsize) bn (omega (arith, h)) l m e)))))
  ]
