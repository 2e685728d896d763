-- ===== src/Log/Phases.antt =====
-- The four parts of `commit`, under a power that may fail: what each leaves on the disk.
use ztl_os.Base.{inr, subst, arith, ◌∙◌, sym, inl, ◌≤◌, ◌≢◌, ◌+◌, ◌<◌, ◌-◌, ap, ℕ, ◌≡◌}
use ztl_os.Log.{Log, Block, slot, Machine, write_log, write_head, install_trans, clear_head}
use ztl_os.Log.Copies.{writes-written, writes-spared, Apart, writes, Spares}
use ztl_os.Log.Recovery.{Holds, Layout}
use ztl_os.Log.Steps.{
  write_head-stuck, write_head-block, install_trans-disk, write_head-cache, write_head-number,
  write_head-other, write_log-cache, write_log-power, write_log-log, install_trans-power,
  write_head-power, write_log-disk, install_trans-log, write_head-log,
}

abbrev pub count : Machine → ℕ
count m = m.log.lh.n

-- The machine after each of the four parts of `commit`.
abbrev pub headed : Machine → Machine
headed m = write_head (write_log m)

abbrev pub installed : Machine → Machine
installed m = install_trans (headed m)

abbrev pub final : Machine → Machine
final m = write_head (clear_head (installed m))

pub headed-log : (m : Machine) → (headed m).log ≡ m.log
headed-log m = write_head-log (write_log m) ∙ write_log-log m

pub installed-log : (m : Machine) → (installed m).log ≡ m.log
installed-log m = install_trans-log (headed m) ∙ headed-log m

pub headed-power : (m : Machine) → (headed m).power ≡ m.power - count m - 1
headed-power m = omega (arith, write_head-power (write_log m), write_log-power m)

pub installed-power : (m : Machine) → (installed m).power ≡ m.power - count m - 1 - count m
installed-power m =
    omega (
      arith,
      install_trans-power (headed m),
      headed-power m,
      ap (λ (l : Log). l.lh.n) (headed-log m),
    )

module _ (m : Machine) (lay : Layout m.log.start m.log.lh.n m.log.lh.block) where
  pub Apart-slots : Apart m.log.lh.block (slot m.log) 0 (count m)
  Apart-slots i j a b c e z = elim (lay.home i b) [
    | inl below ↦ omega arith
    | inr above ↦ omega arith
  ]

  pub Apart-blocks : Apart (slot m.log) m.log.lh.block 0 (count m)
  Apart-blocks i j a b c e z = Apart-slots j i c e a b (sym z)

  pub logged-disk_other :
      (b : ℕ) → Spares (slot m.log) 0 (count m) b → (write_log m).disk b ≡ m.disk b
  logged-disk_other b spared =
      ap (λ (f : ℕ → Block). f b) (write_log-disk m Apart-slots)
      ∙ writes-spared (slot m.log) (λ i. m.cache (m.log.lh.block i)) m.power (count m) 0 (count m) b
          m.disk (omega arith) spared

  pub logged-disk_slot :
      (i : ℕ)
      → count m ≤ m.power
      → i < count m
      → (write_log m).disk (slot m.log i) ≡ m.cache (m.log.lh.block i)
  logged-disk_slot i room a =
      ap (λ (f : ℕ → Block). f (slot m.log i)) (write_log-disk m Apart-slots)
      ∙ writes-written (slot m.log) (λ j. m.cache (m.log.lh.block j)) m.power (count m) 0 (count m)
          i m.disk (omega arith) room (λ x y b c e z. omega arith) (omega arith) a

  pub logged-cache_slot :
      (i : ℕ) → i < count m → (write_log m).cache (slot m.log i) ≡ m.cache (m.log.lh.block i)
  logged-cache_slot i a =
      ap (λ (f : ℕ → Block). f (slot m.log i)) (write_log-cache m Apart-slots)
      ∙ writes-written (slot m.log) (λ j. m.cache (m.log.lh.block j)) (count m) (count m) 0
          (count m) i m.cache (omega arith) (omega arith) (λ x y b c e z. omega arith) (omega arith)
          a

  pub headed-disk_other : (b : ℕ) → b ≢ m.log.start → (headed m).disk b ≡ (write_log m).disk b
  headed-disk_other =
      subst (λ (l : Log). (b : ℕ) → b ≢ l.start → (headed m).disk b ≡ (write_log m).disk b)
        (write_log-log m) (write_head-other (write_log m))

  pub headed-cache_slot :
      (i : ℕ) → i < count m → (headed m).cache (slot m.log i) ≡ m.cache (m.log.lh.block i)
  headed-cache_slot i a =
      subst (λ (l : Log). (b : ℕ) → b ≢ l.start → (headed m).cache b ≡ (write_log m).cache b)
        (write_log-log m) (write_head-cache (write_log m)) (slot m.log i) (omega arith)
      ∙ logged-cache_slot i a

  pub headed-Holds : count m < m.power → Holds m.log.start (count m) m.log.lh.block (headed m).disk
  headed-Holds on =
      let on' : 0 < (write_log m).power = omega (arith, write_log-power m) in
      record {
        number =
            subst (λ (l : Log). (headed m).disk l.start 0 ≡ l.lh.n) (write_log-log m)
              (write_head-number (write_log m) on');
        blocks = λ i.
            subst (λ (l : Log). i < l.lh.n → (headed m).disk l.start (i + 1) ≡ l.lh.block i)
              (write_log-log m) (write_head-block (write_log m) i on');
      }

  pub installed-disk :
      (installed m).disk
      ≡ writes
          (headed m).power
          (count m)
          0
          m.log.lh.block
          (λ i. (headed m).cache (slot m.log i))
          (headed m).disk
  installed-disk =
      subst
        (λ (l : Log).
          Apart (slot l) l.lh.block 0 l.lh.n
          → (installed m).disk
            ≡ writes (headed m).power l.lh.n 0 l.lh.block (λ i. (headed m).cache (slot l i))
                (headed m).disk)
        (headed-log m) (install_trans-disk (headed m)) Apart-blocks

  pub installed-disk_other :
      (b : ℕ) → Spares m.log.lh.block 0 (count m) b → (installed m).disk b ≡ (headed m).disk b
  installed-disk_other b spared =
      ap (λ (f : ℕ → Block). f b) installed-disk
      ∙ writes-spared m.log.lh.block (λ i. (headed m).cache (slot m.log i)) (headed m).power
          (count m) 0 (count m) b (headed m).disk (omega arith) spared

  pub installed-disk_block :
      (i : ℕ)
      → count m + count m < m.power
      → i < count m
      → (installed m).disk (m.log.lh.block i) ≡ m.cache (m.log.lh.block i)
  installed-disk_block i room a =
      ap (λ (f : ℕ → Block). f (m.log.lh.block i)) installed-disk
      ∙ writes-written m.log.lh.block (λ j. (headed m).cache (slot m.log j)) (headed m).power
          (count m) 0 (count m) i (headed m).disk (omega arith) (omega (arith, headed-power m))
          lay.distinct (omega arith) a
      ∙ headed-cache_slot i a

module _ (m : Machine) where
  cleared-start : (clear_head (installed m)).log.start ≡ m.log.start
  unfolding clear_head
  cleared-start = ap (λ (l : Log). l.start) (installed-log m)

  cleared-power : (clear_head (installed m)).power ≡ m.power - count m - 1 - count m
  unfolding clear_head
  cleared-power = installed-power m

  pub final-disk_stuck : m.power ≤ count m + count m + 1 → (final m).disk ≡ (installed m).disk
  unfolding clear_head
  final-disk_stuck few = write_head-stuck (clear_head (installed m)) (omega (arith, cleared-power))

  pub final-disk_other : (b : ℕ) → b ≢ m.log.start → (final m).disk b ≡ (installed m).disk b
  unfolding clear_head
  final-disk_other b ne =
      write_head-other (clear_head (installed m)) b (λ e. ne (e ∙ cleared-start))

  pub final-number : count m + count m + 1 < m.power → (final m).disk m.log.start 0 ≡ 0
  unfolding clear_head
  final-number on =
      ap (λ s. (final m).disk s 0) (sym cleared-start)
      ∙ write_head-number (clear_head (installed m)) (omega (arith, cleared-power))

  pub final-log :
      ((final m).log.lh.n ≡ 0)
      × ((final m).log.outstanding ≡ m.log.outstanding)
      × ((final m).log.size ≡ m.log.size)
  unfolding clear_head
  final-log =
      let e = write_head-log (clear_head (installed m)) in
      (
        ap (λ (l : Log). l.lh.n) e,
        ap (λ (l : Log). l.outstanding) e ∙ ap (λ (l : Log). l.outstanding) (installed-log m),
        ap (λ (l : Log). l.size) e ∙ ap (λ (l : Log). l.size) (installed-log m),
      )
