-- ===== src/Log/Recovery.antt =====
-- `recover_from_log` after a reboot: what it makes of the disk that it finds, and that a power cut
-- during the recovery does no harm.
use ztl_os.Base.{ℕ, ◌+◌, ◌-◌, ◌≤◌, ◌<◌, ◌≡◌, ◌≢◌, ◌⊎◌, inl, inr, refl, ◌∙◌, sym, ap, arith, false}
use ztl_os.Log.{
  Block, Log, Machine, install_trans, read_head, write_head, clear_head, recover_from_log,
  load_blocks,
}
use ztl_os.Log.Copies.{writes, Apart, Spares, Distinct, writes-spared, writes-written}
use ztl_os.Log.Header.{load_blocks-loaded}
use ztl_os.Log.Steps.{
  install_trans-power, install_trans-log, install_trans-disk, write_head-stuck, write_head-number,
  write_head-other,
}

-- The machine after a reboot: nothing is cached but what the disk holds.
abbrev pub reboot : (start size power : ℕ) → (ℕ → Block) → Machine
reboot start size power d = record {
  cache = d;
  dirty = λ _. false;
  disk = d;
  power = power;
  log = record {
    start = start;
    size = size;
    outstanding = 0;
    committing = false;
    lh = record { n = 0; block = λ _. 0 };
  };
}

-- The disk after recovery.
unfoldable pub recovered : (start size power : ℕ) → (ℕ → Block) → ℕ → Block
recovered start size power d = (recover_from_log (reboot start size power d)).disk

-- Blocks outside of the log's header and its `n` slots.
abbrev pub IsHome : (start n b : ℕ) → Type 0
IsHome start n b = (b < start) ⊎ (start + n < b)

-- The logged blocks are home blocks, each logged once.
pub record Layout (start n : ℕ) (block : ℕ → ℕ) : Type 0 where
  pub home : (i : ℕ) → i < n → IsHome start n (block i)
  pub distinct : Distinct block 0 n

-- The header on disk `d` is that of the blocks `block 0`, …, `block (n - 1)`.
pub record Holds (start n : ℕ) (block : ℕ → ℕ) (d : ℕ → Block) : Type 0 where
  pub number : d start 0 ≡ n
  pub blocks : (i : ℕ) → i < n → d start (i + 1) ≡ block i

module _ (start size : ℕ) where
  abbrev loaded : (ℕ → Block) → ℕ → ℕ
  loaded d = load_blocks (d start 0) 0 (d start) (λ _. 0)

  begun : ℕ → (ℕ → Block) → Machine
  begun p d = read_head (reboot start size p d)

  finished : ℕ → (ℕ → Block) → Machine
  finished p d = clear_head (install_trans (begun p d))

  module _ (p : ℕ) (d : ℕ → Block)
      (apart : Apart (λ i. start + i + 1) (loaded d) 0 (d start 0)) where
    finished-start : (finished p d).log.start ≡ start
    unfolding finished begun read_head clear_head
    finished-start = ap (λ (l : Log). l.start) (install_trans-log (begun p d))

    finished-power : (finished p d).power ≡ p - d start 0
    unfolding finished begun read_head clear_head
    finished-power = install_trans-power (begun p d)

    finished-number : (finished p d).log.lh.n ≡ 0
    unfolding finished clear_head
    finished-number = refl

    finished-disk :
        (finished p d).disk ≡ writes p (d start 0) 0 (loaded d) (λ i. d (start + i + 1)) d
    unfolding finished begun read_head clear_head
    finished-disk = install_trans-disk (begun p d) apart

    -- Away from the header, recovery is the copying loop, cut short by the power.
    recovered-writes :
        (b : ℕ)
        → b ≢ start
        → recovered start size p d b
          ≡ writes p (d start 0) 0 (loaded d) (λ i. d (start + i + 1)) d b
    unfolding recovered recover_from_log finished begun
    recovered-writes b ne =
        write_head-other (finished p d) b (λ e. ne (e ∙ finished-start))
        ∙ ap (λ (f : ℕ → Block). f b) finished-disk

    recovered-cleared : d start 0 < p → recovered start size p d start 0 ≡ 0
    unfolding recovered recover_from_log finished begun
    recovered-cleared more =
        ap (λ s. (write_head (finished p d)).disk s 0) (sym finished-start)
        ∙ write_head-number (finished p d) (omega (arith, finished-power))
        ∙ finished-number

    recovered-intact :
        p ≤ d start 0
        → Spares (loaded d) 0 (d start 0) start
        → recovered start size p d start ≡ d start
    unfolding recovered recover_from_log finished begun
    recovered-intact few spared =
        ap (λ (f : ℕ → Block). f start)
          (write_head-stuck (finished p d) (omega (arith, finished-power)) ∙ finished-disk)
        ∙ writes-spared (loaded d) (λ i. d (start + i + 1)) p (d start 0) 0 (d start 0) start d
            (omega arith) spared

pub not_start : {start : ℕ} (n : ℕ) {b : ℕ} → b ≡ start → IsHome start n b → ⊥
not_start n e (inl below) = omega arith
not_start n e (inr above) = omega arith

-- What a disk that holds the log of `n` blocks turns into.
module _ (start size n : ℕ) (block : ℕ → ℕ) (lay : Layout start n block) where
  module _ (d : ℕ → Block) (h : Holds start n block d) where
    loaded-block : (i : ℕ) → i < d start 0 → loaded start size d i ≡ block i
    loaded-block i a =
        load_blocks-loaded (d start 0) 0 (d start 0) i (d start) (λ _. 0) (omega arith)
          (omega arith) a
        ∙ h.blocks i (omega (arith, h.number))

    loaded-Apart : Apart (λ i. start + i + 1) (loaded start size d) 0 (d start 0)
    loaded-Apart i j a b c e z = elim (lay.home j (omega (arith, h.number))) [
      | inl below ↦ omega (arith, loaded-block j e, h.number)
      | inr above ↦ omega (arith, loaded-block j e, h.number)
    ]

    loaded-Distinct : Distinct (loaded start size d) 0 (d start 0)
    loaded-Distinct i j a b c z =
        lay.distinct i j a b (omega (arith, h.number))
          (sym (loaded-block i (omega arith)) ∙ z ∙ loaded-block j c)

    -- A block that the log holds comes from its slot, once the power lasts for all of them.
    pub recovered-logged :
        (p i : ℕ) → n ≤ p → i < n → recovered start size p d (block i) ≡ d (start + i + 1)
    recovered-logged p i room a =
        recovered-writes start size p d loaded-Apart (block i) (λ e. not_start n e (lay.home i a))
        ∙ ap (writes p (d start 0) 0 (loaded start size d) (λ j. d (start + j + 1)) d)
            (sym (loaded-block i (omega (arith, h.number))))
        ∙ writes-written (loaded start size d) (λ j. d (start + j + 1)) p (d start 0) 0 (d start 0)
            i d (omega arith) (omega (arith, h.number)) loaded-Distinct (omega arith)
            (omega (arith, h.number))

    -- Other blocks are as they were.
    pub recovered-other :
        (p b : ℕ) → IsHome start n b → Spares block 0 n b → recovered start size p d b ≡ d b
    recovered-other p b home spared =
        recovered-writes start size p d loaded-Apart b (λ e. not_start n e home)
        ∙ writes-spared (loaded start size d) (λ j. d (start + j + 1)) p (d start 0) 0 (d start 0) b
            d (omega arith)
            (λ i a c z. spared i a (omega (arith, h.number)) (sym (loaded-block i c) ∙ z))

    -- The header stays as it is if the power fails before the last write, and is cleared by it.
    pub recovered-header_kept : (p : ℕ) → p ≤ n → recovered start size p d start ≡ d start
    recovered-header_kept p few =
        recovered-intact start size p d loaded-Apart (omega (arith, h.number)) start_spared
      where
        start_spared : Spares (loaded start size d) 0 (d start 0) start
        start_spared i a c z =
            not_start n (sym (loaded-block i c) ∙ z) (lay.home i (omega (arith, h.number)))

    pub recovered-header_cleared : (p : ℕ) → n < p → recovered start size p d start 0 ≡ 0
    recovered-header_cleared p more =
        recovered-cleared start size p d loaded-Apart (omega (arith, h.number))

    -- The slots of the log are never written.
    pub recovered-slot :
        (p i : ℕ) → i < n → recovered start size p d (start + i + 1) ≡ d (start + i + 1)
    recovered-slot p i a =
        recovered-writes start size p d loaded-Apart (start + i + 1) (omega arith)
        ∙ writes-spared (loaded start size d) (λ j. d (start + j + 1)) p (d start 0) 0 (d start 0)
            (start + i + 1) d (omega arith)
            (λ j b c z. loaded-Apart i j (omega arith) (omega (arith, h.number)) b c (sym z))

-- A disk whose header says 0: recovery leaves the home blocks alone.
pub recovered-empty :
    (start size p b : ℕ) (d : ℕ → Block)
    → d start 0 ≡ 0
    → b ≢ start
    → recovered start size p d b ≡ d b
recovered-empty start size p b d none_logged ne =
    recovered-writes start size p d (λ i j a c e f z. absurd (omega arith)) b ne
    ∙ writes-spared (loaded start size d) (λ j. d (start + j + 1)) p (d start 0) 0 (d start 0) b d
        (omega arith) (λ i a c z. absurd (omega arith))
