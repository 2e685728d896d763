-- ===== src/Log/Crash.antt =====
-- A power cut at any point of `commit`: after recovery the disk shows the whole transaction or
-- none of it, and the write of the header decides.
use native.Mathlib.Decide.{dec_le}
use ztl_os.Base.{
  Bool, false, Bool-cases, true, ◌≢◌, ℕ, ◌+◌, ◌≤◌, ◌<◌, ◌≡◌, refl, inl, inr, ◌∙◌, sym, ap, arith,
  leb, ltb, if◌then◌else◌,
}
use ztl_os.Log.{write_log, Block, Machine, slot, commit}
use ztl_os.Log.Copies.{writes-off, Spares, written_or_spared}
use ztl_os.Log.Recovery.{
  recovered-other, recovered-logged, recovered-empty, not_start, recovered, Layout, Holds, IsHome,
}
use ztl_os.Log.Phases.{
  installed-disk_block, headed-power, logged-disk_other, logged-disk_slot, final-disk_other,
  Apart-slots, headed-Holds, installed-disk, headed-disk_other, final-number, final-disk_stuck,
  installed-disk_other, count, headed, installed, final,
}
use ztl_os.Log.Steps.{write_log-power, write_head-stuck}

-- What `commit` starts from: the log on disk is empty, and only the logged blocks are cached
-- with contents that the disk does not have.
pub record Ready (m : Machine) : Type 0 where
  pub layout : Layout m.log.start m.log.lh.n m.log.lh.block
  pub empty : m.disk m.log.start 0 ≡ 0
  pub coherent :
      (b : ℕ)
      → IsHome m.log.start m.log.lh.n b
      → Spares m.log.lh.block 0 m.log.lh.n b
      → m.cache b ≡ m.disk b

-- a block of the file system, as seen from the log's layout
abbrev pub Home : Machine → ℕ → Type 0
Home m = IsHome m.log.start m.log.lh.n

module _ (size r : ℕ) (m : Machine) (ready : Ready m) where
  -- The power fails before the header is written: the old contents.
  cut_early :
      (b : ℕ)
      → m.power ≤ count m
      → Home m b
      → recovered m.log.start size r (final m).disk b ≡ m.disk b
  cut_early b few home =
      recovered-empty m.log.start size r b (final m).disk
        (ap (λ (f : ℕ → Block). f m.log.start 0) same
          ∙ ap (λ (w : Block). w 0)
              (logged-disk_other m ready.layout m.log.start (λ i a c. omega arith))
          ∙ ready.empty)
        (λ e. not_start (count m) e home)
      ∙ ap (λ (f : ℕ → Block). f b) same
      ∙ logged-disk_other m ready.layout b (λ i a c z. away i c z home)
    where
      away : (i : ℕ) → i < count m → slot m.log i ≡ b → Home m b → ⊥
      away i c z (inl below) = omega arith
      away i c z (inr above) = omega arith

      same : (final m).disk ≡ (write_log m).disk
      same =
          final-disk_stuck m (omega arith)
          ∙ installed-disk m ready.layout
          ∙ writes-off (headed m).power (count m) 0 m.log.lh.block
              (λ i. (headed m).cache (slot m.log i)) (headed m).disk (omega (arith, headed-power m))
          ∙ write_head-stuck (write_log m) (omega (arith, write_log-power m))

  Home-ne_slot : (i : ℕ) {b : ℕ} → i < count m → Home m b → slot m.log i ≢ b
  Home-ne_slot i a (inl below) z = omega arith
  Home-ne_slot i a (inr above) z = omega arith

  Home-ne_start : {b : ℕ} → Home m b → b ≢ m.log.start
  Home-ne_start home e = not_start (count m) e home

  -- A home block that is not logged has its contents throughout.
  installed-unlogged :
      (b : ℕ) → Home m b → Spares m.log.lh.block 0 (count m) b → (installed m).disk b ≡ m.cache b
  installed-unlogged b home spared =
      installed-disk_other m ready.layout b spared
      ∙ headed-disk_other m ready.layout b (Home-ne_start home)
      ∙ logged-disk_other m ready.layout b (λ i a c. Home-ne_slot i c home)
      ∙ sym (ready.coherent b home spared)

  installed-slot :
      (i : ℕ)
      → count m ≤ m.power
      → i < count m
      → (installed m).disk (slot m.log i) ≡ m.cache (m.log.lh.block i)
  installed-slot i room a =
      installed-disk_other m ready.layout (slot m.log i)
        (λ j b c. Apart-slots m ready.layout j i (omega arith) c (omega arith) a)
      ∙ headed-disk_other m ready.layout (slot m.log i) (omega arith)
      ∙ logged-disk_slot m ready.layout i room a

  installed-Holds :
      count m < m.power → Holds m.log.start (count m) m.log.lh.block (installed m).disk
  installed-Holds on =
      let h = headed-Holds m ready.layout on in
      let same = installed-disk_other m ready.layout m.log.start start_spared in
      record {
        number = ap (λ (w : Block). w 0) same ∙ h.number;
        blocks = λ i a. ap (λ (w : Block). w (i + 1)) same ∙ h.blocks i a;
      }
    where
      start_spared : Spares m.log.lh.block 0 (count m) m.log.start
      start_spared i a c e = not_start (count m) e (ready.layout.home i c)

  -- The power fails between the writes of the two headers: the new contents, from the log.
  cut_between :
      (b : ℕ)
      → count m < m.power
      → m.power ≤ count m + count m + 1
      → count m ≤ r
      → Home m b
      → recovered m.log.start size r (final m).disk b ≡ m.cache b
  cut_between b on off room home =
      ap (λ d. recovered m.log.start size r d b) (final-disk_stuck m off)
      ∙ elim (written_or_spared m.log.lh.block (count m) 0 (count m) b (omega arith)) [
        | inl (i, a, c, z) ↦ rw (← z) (
            recovered-logged m.log.start size (count m) m.log.lh.block ready.layout
              (installed m).disk (installed-Holds on) r i room c
            ∙ installed-slot i (omega arith) c)
        | inr spared ↦
            recovered-other m.log.start size (count m) m.log.lh.block ready.layout
              (installed m).disk (installed-Holds on) r b home spared
            ∙ installed-unlogged b home spared
      ]

  -- The power lasts: the new contents, at home.
  cut_late :
      (b : ℕ)
      → count m + count m + 1 < m.power
      → Home m b
      → recovered m.log.start size r (final m).disk b ≡ m.cache b
  cut_late b on home =
      recovered-empty m.log.start size r b (final m).disk (final-number m on) (Home-ne_start home)
      ∙ final-disk_other m b (Home-ne_start home)
      ∙ elim (written_or_spared m.log.lh.block (count m) 0 (count m) b (omega arith)) [
        | inl (i, a, c, z) ↦ rw (← z) (installed-disk_block m ready.layout i (omega arith) c)
        | inr spared ↦ installed-unlogged b home spared
      ]

  final_atomic :
      (b : ℕ)
      → count m ≤ r
      → Home m b
      → recovered m.log.start size r (final m).disk b
        ≡ (if leb m.power (count m) then m.disk b else m.cache b)
  final_atomic b room home = elim (dec_le m.power (count m)) [
    | yes few ↦ let e : leb m.power (count m) ≡ true = ground arith in rw e (cut_early b few home)
    | no on ↦
        let e : leb m.power (count m) ≡ false = ground arith in
        rw e (elim (dec_le m.power (count m + count m + 1)) [
          | yes off ↦ cut_between b (omega arith) off room home
          | no last ↦ cut_late b (omega arith) home
        ])
  ]

-- `commit` is atomic under a power cut. Let the power last for any number of block writes, then
-- reboot and recover, with power for the recovery: every home block has its old contents, that of
-- the disk before, if the power failed before the header was written (the write number
-- `log.lh.n + 1`), and its new contents, that of the cache, otherwise.
pub commit_atomic :
    (size r b : ℕ) (m : Machine)
    → Ready m
    → m.log.lh.n ≤ r
    → Home m b
    → recovered m.log.start size r (commit m).disk b
      ≡ (if leb m.power m.log.lh.n then m.disk b else m.cache b)
unfolding commit
commit_atomic size r b m ready room home = elim (Bool-cases (ltb 0 m.log.lh.n)) [
  | inl some_logged ↦ rw some_logged (final_atomic size r m ready b room home)
  | inr none_logged ↦ rw none_logged (
      recovered-empty m.log.start size r b m.disk ready.empty (λ e. not_start m.log.lh.n e home)
      ∙ either (leb m.power m.log.lh.n) none_logged)
]
  where
    either : (x : Bool) → ltb 0 m.log.lh.n ≡ false → m.disk b ≡ (if x then m.disk b else m.cache b)
    either true none_logged = refl
    either false none_logged = sym (ready.coherent b home (λ i a c. absurd (ground arith)))
