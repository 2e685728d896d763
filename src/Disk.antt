-- ===== src/Disk.antt =====
-- src/ide.c, the queue of requests: `iderw` up to where it sleeps, and `ideintr`.
--
-- A pointer to a buffer is a number below `nbuf`, and the disk works on one request at a time: what
-- `idestart` writes to its ports stands for that request until its interrupt.
pub mod Queue
pub mod Runs
mod Tests
use ztl_os.Base.{
  ℕ, zero, suc, Bool, true, false, not, ◌&&◌, Option, none, some, List, [], ◌∷◌, ◌==◌,
  if◌then◌else◌, update,
}
use ztl_os.Buffers.{nbuf}

-- `idequeue` and the links, what the disk works on, and the requests that were served, the last
-- one first. `clash` is when `idestart` is called while the disk works.
pub record Ide : Type 0 where
  pub idequeue : Option ℕ
  pub qnext : ℕ → Option ℕ
  pub working : Option ℕ
  pub served : List ℕ
  pub clash : Bool

-- `idestart`, less the ports and the panics on the number of the block.
unfoldable pub idestart : ℕ → Ide → Ide
idestart b s = elim s.working [
  | none ↦ record s { working = some b }
  | some other ↦ record s { clash = true }
]

-- The loop over `pp`, from a buffer in the queue, with `*pp = b` behind it. The fuel is the number
-- of buffers.
unfoldable pub put_behind : ℕ → ℕ → ℕ → (ℕ → Option ℕ) → ℕ → Option ℕ
put_behind zero a b qnext = qnext
put_behind (suc fuel) a b qnext = elim (qnext a) [
  | none ↦ update qnext a (some b)
  | some next ↦ put_behind fuel next b qnext
]

-- `iderw` from where it takes `idelock`
unfoldable pub request : ℕ → Ide → Ide
request b s =
    let qnext = update s.qnext b none in
    elim s.idequeue [
      | none ↦ idestart b (record s { idequeue = some b; qnext = qnext })
      | some a ↦
          let s' = record s { qnext = put_behind nbuf a b qnext } in
          if a == b then idestart b s' else s'
    ]

-- `ideintr`, when the disk has done what it worked on.
unfoldable pub ideintr : Ide → Ide
ideintr s = elim s.idequeue [
  | none ↦ record s { working = none }
  | some b ↦
      let s' = record s { idequeue = s.qnext b; working = none; served = b ∷ s.served } in
      elim (s.qnext b) [ none ↦ s' | some next ↦ idestart next s' ]
]

-- No request; the links are zero.
abbrev pub idle_disk : Ide
idle_disk = record {
  idequeue = none;
  qnext = λ b. none;
  working = none;
  served = [];
  clash = false;
}

pub data Event : Type 0 where
  asks : ℕ → Event
  interrupts : Event

abbrev pub happen : Event → Ide → Ide
happen (asks b) s = request b s
happen interrupts s = ideintr s

unfoldable pub run : List Event → Ide → Ide
run [] s = s
run (e ∷ es) s = run es (happen e s)
