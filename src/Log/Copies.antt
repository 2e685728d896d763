-- ===== src/Log/Copies.antt =====
-- The loop that copies blocks, as a sequence of disk writes that the power may cut short.
use ztl_os.Base.{
  true, sym, update_self, false, ℕ, zero, suc, ◌+◌, ◌-◌, ◌≤◌, ◌<◌, ◌≡◌, refl, ◌≢◌, ◌⊎◌, inl, inr,
  ap, ◌∙◌, arith, ◌==◌, if◌then◌else◌, update, update_ne, Bool-cases, ==_iff,
}
use ztl_os.Log.{Machine, Block, copy_block, copy_loop}

-- `k` writes from round `t` on, of which the first `p` reach the disk.
pub writes : ℕ → ℕ → ℕ → (dst : ℕ → ℕ) → (val : ℕ → Block) → (ℕ → Block) → ℕ → Block
writes p zero t dst val d = d
writes p (suc k) t dst val d =
    writes (p - 1) k (t + 1) dst val (if p == 0 then d else update d (dst t) (val t))

-- The rounds from `t` on do not write what one of them reads.
abbrev pub Apart : (src dst : ℕ → ℕ) → ℕ → ℕ → Type 0
Apart src dst t e = (i j : ℕ) → t ≤ i → i < e → t ≤ j → j < e → src i ≢ dst j

module _ (src dst : ℕ → ℕ) (val : ℕ → Block) where
  pub copy_loop-disk :
      (k t e : ℕ) (m : Machine)
      → t + k ≡ e
      → Apart src dst t e
      → ((i : ℕ) → t ≤ i → i < e → m.cache (src i) ≡ val i)
      → (copy_loop src dst k t m).disk ≡ writes m.power k t dst val m.disk
  unfolding copy_loop writes copy_block
  copy_loop-disk zero t e m q apart h = refl
  copy_loop-disk (suc k) t e m q apart h =
      copy_loop-disk k (t + 1) e (copy_block (src t) (dst t) m) (omega arith)
        (λ i j a b c d. apart i j (omega arith) b (omega arith) d) (λ i a b. later i a b)
      ∙ ap (λ v. writes (m.power - 1) k (t + 1) dst val (if m.power == 0 then m.disk else v)) now
    where
      now :
          update m.disk (dst t) (update m.cache (dst t) (m.cache (src t)) (dst t))
          ≡ update m.disk (dst t) (val t)
      now =
          ap (update m.disk (dst t))
            (update_self m.cache (dst t) (m.cache (src t)) ∙ h t (omega arith) (omega arith))

      later : (i : ℕ) → t + 1 ≤ i → i < e → update m.cache (dst t) (m.cache (src t)) (src i) ≡ val i
      later i a b =
          update_ne m.cache (dst t) (m.cache (src t)) (src i)
            (apart i t (omega arith) b (omega arith) (omega arith))
          ∙ h i (omega arith) b

  pub copy_loop-cache :
      (p k t e : ℕ) (m : Machine)
      → t + k ≡ e
      → k ≤ p
      → Apart src dst t e
      → ((i : ℕ) → t ≤ i → i < e → m.cache (src i) ≡ val i)
      → (copy_loop src dst k t m).cache ≡ writes p k t dst val m.cache
  unfolding copy_loop writes copy_block
  copy_loop-cache p zero t e m q room apart h = refl
  copy_loop-cache p (suc k) t e m q room apart h =
      copy_loop-cache (p - 1) k (t + 1) e (copy_block (src t) (dst t) m) (omega arith) (omega arith)
        (λ i j a b c d. apart i j (omega arith) b (omega arith) d) later
      ∙ ap (writes (p - 1) k (t + 1) dst val) now
    where
      now :
          update m.cache (dst t) (m.cache (src t))
          ≡ (if p == 0 then m.cache else update m.cache (dst t) (val t))
      now =
          let some_left : (p == 0) ≡ false = ground arith in
          rw some_left (ap (update m.cache (dst t)) (h t (omega arith) (omega arith)))

      later : (i : ℕ) → t + 1 ≤ i → i < e → update m.cache (dst t) (m.cache (src t)) (src i) ≡ val i
      later i a b =
          update_ne m.cache (dst t) (m.cache (src t)) (src i)
            (apart i t (omega arith) b (omega arith) (omega arith))
          ∙ h i (omega arith) b

module _ (src dst : ℕ → ℕ) where
  pub copy_loop-power : (k t : ℕ) (m : Machine) → (copy_loop src dst k t m).power ≡ m.power - k
  unfolding copy_loop copy_block
  copy_loop-power zero t m = omega arith
  copy_loop-power (suc k) t m =
      omega (arith, copy_loop-power k (t + 1) (copy_block (src t) (dst t) m))

  pub copy_loop-log : (k t : ℕ) (m : Machine) → (copy_loop src dst k t m).log ≡ m.log
  unfolding copy_loop copy_block
  copy_loop-log zero t m = refl
  copy_loop-log (suc k) t m = copy_loop-log k (t + 1) (copy_block (src t) (dst t) m)

-- No round from `t` on writes block `b`.
abbrev pub Spares : (ℕ → ℕ) → ℕ → ℕ → ℕ → Type 0
Spares dst t e b = (i : ℕ) → t ≤ i → i < e → dst i ≢ b

abbrev pub Distinct : (ℕ → ℕ) → ℕ → ℕ → Type 0
Distinct dst t e = (i j : ℕ) → t ≤ i → i < j → j < e → dst i ≢ dst j

module _ (dst : ℕ → ℕ) (val : ℕ → Block) where
  pub writes-spared :
      (p k t e b : ℕ) (d : ℕ → Block)
      → t + k ≡ e
      → Spares dst t e b
      → writes p k t dst val d b ≡ d b
  unfolding writes
  writes-spared p zero t e b d q spared = refl
  writes-spared p (suc k) t e b d q spared =
      writes-spared (p - 1) k (t + 1) e b _ (omega arith) (λ i a c. spared i (omega arith) c) ∙ kept
    where
      kept : (if p == 0 then d else update d (dst t) (val t)) b ≡ d b
      kept = elim (Bool-cases (p == 0)) [
        | inl off ↦ rw off
        | inr more ↦
            rw more
              (update_ne d (dst t) (val t) b (λ e. spared t (omega arith) (omega arith) (sym e)))
      ]

  pub writes-written :
      (p k t e i : ℕ) (d : ℕ → Block)
      → t + k ≡ e
      → k ≤ p
      → Distinct dst t e
      → t ≤ i
      → i < e
      → writes p k t dst val d (dst i) ≡ val i
  unfolding writes
  writes-written p zero t e i d q room distinct a c = absurd (omega arith)
  writes-written p (suc k) t e i d q room distinct a c = elim (Bool-cases (t == i)) [
    | inl here ↦ at_t ((==_iff t i).0 here)
    | inr other ↦
        writes-written (p - 1) k (t + 1) e i _ (omega arith) (omega arith)
          (λ x y f g h. distinct x y (omega arith) g h) (ground arith) c
  ]
    where
      at_t :
          t ≡ i
          → writes
              (p - 1)
              k
              (t + 1)
              dst
              val
              (if p == 0 then d else update d (dst t) (val t))
              (dst i)
            ≡ val i
      at_t same =
          writes-spared (p - 1) k (t + 1) e (dst i) _ (omega arith)
            (λ x f g z. distinct i x (omega arith) (omega arith) g (sym z))
          ∙ stored
        where
          stored : (if p == 0 then d else update d (dst t) (val t)) (dst i) ≡ val i
          stored =
              let some_left : (p == 0) ≡ false = ground arith in
              rw some_left (rw (← same) (update_self d (dst t) (val t)))

pub Spares-cons : (dst : ℕ → ℕ) (t e b : ℕ) → dst t ≢ b → Spares dst (t + 1) e b → Spares dst t e b
Spares-cons dst t e b ne spared i a c z = elim (Bool-cases (t == i)) [
  | inl same ↦ ne (ap dst ((==_iff t i).0 same) ∙ z)
  | inr later ↦ spared i (ground arith) c z
]

-- A block is written by one of the rounds, or by none.
pub written_or_spared :
    (dst : ℕ → ℕ) (k t e b : ℕ)
    → t + k ≡ e
    → ((i : ℕ) × (t ≤ i) × (i < e) × (dst i ≡ b)) ⊎ Spares dst t e b
written_or_spared dst zero t e b q = inr (λ i a c. absurd (omega arith))
written_or_spared dst (suc k) t e b q = elim (Bool-cases (dst t == b)) [
  | inl here ↦ inl (t, omega arith, omega arith, (==_iff (dst t) b).0 here)
  | inr other ↦ elim (written_or_spared dst k (t + 1) e b (omega arith)) [
    | inl (i, a, c, h) ↦ inl (i, omega arith, c, h)
    | inr spared ↦ inr (Spares-cons dst t e b (λ z. ground arith) spared)
  ]
]

-- Without power nothing is written.
pub writes-off :
    (p k t : ℕ) (dst : ℕ → ℕ) (val : ℕ → Block) (d : ℕ → Block) → p ≡ 0 → writes p k t dst val d ≡ d
unfolding writes
writes-off p zero t dst val d off = refl
writes-off p (suc k) t dst val d off =
    let e : (p == 0) ≡ true = ground arith in
    writes-off (p - 1) k (t + 1) dst val _ (omega arith) ∙ rw e refl
