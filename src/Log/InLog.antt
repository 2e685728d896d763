-- ===== src/Log/InLog.antt =====
-- What `log_write` keeps true of the logged blocks.
use native.Mathlib.Decide.{dec_lt}
use ztl_os.Base.{ap, ℕ, ◌+◌, ◌≤◌, ◌<◌, ◌≡◌, inl, inr, ◌∙◌, sym, arith, some}
use ztl_os.Log.{Machine, Log, log_write}
use ztl_os.Log.Copies.{Distinct, Spares}
use ztl_os.Log.Recovery.{Layout, IsHome}
use ztl_os.Log.Absorb.{Logged, Logged-of_some}

-- The logged blocks are distinct, and lie outside of the `s + 1` blocks from the log's start on.
pub record InLog (s : ℕ) (l : Log) : Type 0 where
  pub home : (i : ℕ) → i < l.lh.n → IsHome l.start s (l.lh.block i)
  pub distinct : Distinct l.lh.block 0 l.lh.n
  pub room : l.lh.n ≤ s

IsHome-le : {start s n b : ℕ} → n ≤ s → IsHome start s b → IsHome start n b
IsHome-le h (inl below) = inl below
IsHome-le h (inr above) = inr (omega arith)

pub InLog-Layout : (s : ℕ) (l : Log) → InLog s l → Layout l.start l.lh.n l.lh.block
InLog-Layout s l h = record { home = λ i a. IsHome-le h.room (h.home i a); distinct = h.distinct }

IsHome-same :
    {start start' : ℕ} (s : ℕ) {b b' : ℕ}
    → start' ≡ start
    → b' ≡ b
    → IsHome start s b
    → IsHome start' s b'
IsHome-same s p q (inl below) = inl (omega arith)
IsHome-same s p q (inr above) = inr (omega arith)

absorbed-InLog :
    (s b : ℕ) (m m' : Machine)
    → InLog s m.log
    → Logged b m m'
    → m'.log.lh.n ≡ m.log.lh.n
    → InLog s m'.log
absorbed-InLog s b m m' h g same = record {
  home = λ i a. IsHome-same s g.start (g.kept i (omega arith)) (h.home i (omega arith));
  distinct = λ i j a c e z.
      h.distinct i j a c (omega arith) (sym (g.kept i (omega arith)) ∙ z ∙ g.kept j (omega arith));
  room = omega (arith, h.room);
}

appended-InLog :
    (s b : ℕ) (m m' : Machine)
    → InLog s m.log
    → IsHome m.log.start s b
    → m.log.lh.n < s
    → Logged b m m'
    → m'.log.lh.n ≡ m.log.lh.n + 1
    → m'.log.lh.block m.log.lh.n ≡ b
    → Spares m.log.lh.block 0 m.log.lh.n b
    → InLog s m'.log
appended-InLog s b m m' h home room g more last fresh = record {
  home = λ i a. elim (dec_lt i m.log.lh.n) [
    | yes old ↦ IsHome-same s g.start (g.kept i old) (h.home i old)
    | no new ↦ IsHome-same s g.start (at_end i (omega arith)) home
  ];
  distinct = λ i j a c e z. elim (dec_lt j m.log.lh.n) [
    | yes old ↦ h.distinct i j a c old (sym (g.kept i (omega arith)) ∙ z ∙ g.kept j old)
    | no new ↦ fresh i a (omega arith) (sym (g.kept i (omega arith)) ∙ z ∙ at_end j (omega arith))
  ];
  room = omega arith;
}
  where
    at_end : (i : ℕ) → i ≡ m.log.lh.n → m'.log.lh.block i ≡ b
    at_end i e = ap m'.log.lh.block e ∙ last

-- `log_write` of a home block keeps the logged blocks distinct home blocks, while the log has room.
pub log_write-InLog :
    (s b : ℕ) (m : Machine) {m' : Machine}
    → InLog s m.log
    → IsHome m.log.start s b
    → m.log.lh.n < s
    → log_write b m ≡ some m'
    → InLog s m'.log
log_write-InLog s b m {m'} h home room e =
    let g = Logged-of_some b m e in
    elim g.entry [
      | inl (same, at) ↦ absorbed-InLog s b m m' h g same
      | inr (more, last, fresh) ↦ appended-InLog s b m m' h home room g more last fresh
    ]
