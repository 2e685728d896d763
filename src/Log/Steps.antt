-- ===== src/Log/Steps.antt =====
-- What each of `write_head`, `install_trans` and `write_log` does to the disk, the cache, the power
-- and the log.
use ztl_os.Base.{
  inr, true, inl, ◌==◌, ℕ, ◌+◌, ◌-◌, ◌<◌, ◌≡◌, ◌≢◌, refl, ◌∙◌, ap, arith, false, update_ne,
  update_self, Bool-cases,
}
use ztl_os.Log.{Block, Machine, slot, install_trans, write_log, write_head, header_words}
use ztl_os.Log.Copies.{
  writes, Apart, copy_loop-disk, copy_loop-cache, copy_loop-power, copy_loop-log,
}
use ztl_os.Log.Header.{header_words-n, header_words-block}

module _ (m : Machine) where
  pub write_head-other : (b : ℕ) → b ≢ m.log.start → (write_head m).disk b ≡ m.disk b
  unfolding write_head
  write_head-other b ne = elim (Bool-cases (m.power == 0)) [
    | inl off ↦ rw off
    | inr more ↦ rw more (update_ne m.disk m.log.start _ b ne)
  ]

  pub write_head-stuck : m.power ≡ 0 → (write_head m).disk ≡ m.disk
  unfolding write_head
  write_head-stuck off = let e : (m.power == 0) ≡ true = ground arith in rw e

  write_head-written :
      0 < m.power → (write_head m).disk m.log.start ≡ header_words m.log.lh (m.cache m.log.start)
  unfolding write_head
  write_head-written on =
      let e : (m.power == 0) ≡ false = ground arith in
      rw e (update_self m.disk m.log.start _ ∙ update_self m.cache m.log.start _)

  pub write_head-number : 0 < m.power → (write_head m).disk m.log.start 0 ≡ m.log.lh.n
  write_head-number on =
      ap (λ (w : Block). w 0) (write_head-written on)
      ∙ header_words-n m.log.lh (m.cache m.log.start)

  pub write_head-block :
      (j : ℕ)
      → 0 < m.power
      → j < m.log.lh.n
      → (write_head m).disk m.log.start (j + 1) ≡ m.log.lh.block j
  write_head-block j on a =
      ap (λ (w : Block). w (j + 1)) (write_head-written on)
      ∙ header_words-block m.log.lh (m.cache m.log.start) j a

  pub write_head-cache : (b : ℕ) → b ≢ m.log.start → (write_head m).cache b ≡ m.cache b
  unfolding write_head
  write_head-cache b ne = update_ne m.cache m.log.start _ b ne

  pub write_head-power : (write_head m).power ≡ m.power - 1
  unfolding write_head
  write_head-power = refl

  pub write_head-log : (write_head m).log ≡ m.log
  unfolding write_head
  write_head-log = refl

  pub install_trans-disk :
      Apart (slot m.log) m.log.lh.block 0 m.log.lh.n
      → (install_trans m).disk
        ≡ writes m.power m.log.lh.n 0 m.log.lh.block (λ i. m.cache (slot m.log i)) m.disk
  unfolding install_trans
  install_trans-disk apart =
      copy_loop-disk (slot m.log) m.log.lh.block (λ i. m.cache (slot m.log i)) m.log.lh.n 0
        m.log.lh.n m (omega arith) apart (λ i a b. refl)

  pub install_trans-power : (install_trans m).power ≡ m.power - m.log.lh.n
  unfolding install_trans
  install_trans-power = copy_loop-power (slot m.log) m.log.lh.block m.log.lh.n 0 m

  pub install_trans-log : (install_trans m).log ≡ m.log
  unfolding install_trans
  install_trans-log = copy_loop-log (slot m.log) m.log.lh.block m.log.lh.n 0 m

  pub write_log-disk :
      Apart m.log.lh.block (slot m.log) 0 m.log.lh.n
      → (write_log m).disk
        ≡ writes m.power m.log.lh.n 0 (slot m.log) (λ i. m.cache (m.log.lh.block i)) m.disk
  unfolding write_log
  write_log-disk apart =
      copy_loop-disk m.log.lh.block (slot m.log) (λ i. m.cache (m.log.lh.block i)) m.log.lh.n 0
        m.log.lh.n m (omega arith) apart (λ i a b. refl)

  pub write_log-cache :
      Apart m.log.lh.block (slot m.log) 0 m.log.lh.n
      → (write_log m).cache
        ≡ writes m.log.lh.n m.log.lh.n 0 (slot m.log) (λ i. m.cache (m.log.lh.block i)) m.cache
  unfolding write_log
  write_log-cache apart =
      copy_loop-cache m.log.lh.block (slot m.log) (λ i. m.cache (m.log.lh.block i)) m.log.lh.n
        m.log.lh.n 0 m.log.lh.n m (omega arith) (omega arith) apart (λ i a b. refl)

  pub write_log-power : (write_log m).power ≡ m.power - m.log.lh.n
  unfolding write_log
  write_log-power = copy_loop-power m.log.lh.block (slot m.log) m.log.lh.n 0 m

  pub write_log-log : (write_log m).log ≡ m.log
  unfolding write_log
  write_log-log = copy_loop-log m.log.lh.block (slot m.log) m.log.lh.n 0 m
