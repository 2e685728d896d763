-- ===== src/Log/Absorb.antt =====
-- `log_write`: a block is logged once, in the order of the first writes, and pinned in the cache.
use native.Mathlib.Decide.{dec_lt}
use ztl_os.Base.{sym}
use ztl_os.Base.{
  ap, ◌∙◌, false, subst, ◌&&◌, update_self, update, Bool, update_ne, ==_iff, Bool-cases, ◌⊎◌, ℕ,
  zero, suc, ◌+◌, ◌-◌, ◌≤◌, ◌<◌, ◌≡◌, ◌≢◌, refl, inl, inr, arith, none, some, true, ltb, ◌==◌,
  if◌then◌else◌,
}
use ztl_os.Log.{Machine, find_block, log_write, log_size}
use ztl_os.Log.Copies.{Spares-cons, Spares}

-- Where the search stops: at the end, with `b` nowhere, or at the first place of `b`.
pub find_block_lem :
    (k i e : ℕ) (block : ℕ → ℕ) (b : ℕ)
    → i + k ≡ e
    → let j = find_block k i block b in
      ((j ≡ e) × Spares block i e b) ⊎ ((i ≤ j) × (j < e) × (block j ≡ b))
unfolding find_block
find_block_lem zero i e block b q = inl (omega arith, λ x a c. absurd (omega arith))
find_block_lem (suc k) i e block b q = elim (Bool-cases (block i == b)) [
  | inl here ↦ rw here (inr (omega arith, omega arith, (==_iff (block i) b).0 here))
  | inr other ↦
      rw other (further (λ z. ground arith) (find_block_lem k (i + 1) e block b (omega arith)))
]
  where
    further :
        block i ≢ b
        → ((find_block k (i + 1) block b ≡ e) × Spares block (i + 1) e b)
          ⊎ ((i + 1 ≤ find_block k (i + 1) block b)
              × (find_block k (i + 1) block b < e)
              × (block (find_block k (i + 1) block b) ≡ b))
        → ((find_block k (i + 1) block b ≡ e) × Spares block i e b)
          ⊎ ((i ≤ find_block k (i + 1) block b)
              × (find_block k (i + 1) block b < e)
              × (block (find_block k (i + 1) block b) ≡ b))
    further ne (inl (at_end, spared)) = inl (at_end, Spares-cons block i e b ne spared)
    further ne (inr (lo, hi, hit)) = inr (omega arith, hi, hit)

-- What a successful `log_write` of block `b` does: the block was in the log, which stays, or it is
-- appended. Either way it is pinned, and the disk and the cache are left alone.
pub record Logged (b : ℕ) (m m' : Machine) : Type 0 where
  pub entry :
      ((m'.log.lh.n ≡ m.log.lh.n) × ((j : ℕ) × (j < m.log.lh.n) × (m.log.lh.block j ≡ b)))
      ⊎ ((m'.log.lh.n ≡ m.log.lh.n + 1)
          × (m'.log.lh.block m.log.lh.n ≡ b)
          × Spares m.log.lh.block 0 m.log.lh.n b)
  pub kept : (i : ℕ) → i < m.log.lh.n → m'.log.lh.block i ≡ m.log.lh.block i
  pub pinned : m'.dirty b ≡ true
  pub disk : m'.disk ≡ m.disk
  pub cache : m'.cache ≡ m.cache
  pub start : m'.log.start ≡ m.log.start
  pub size : m'.log.size ≡ m.log.size
  pub outstanding : m'.log.outstanding ≡ m.log.outstanding
  pub committing : m'.log.committing ≡ m.log.committing

-- `log_write` succeeds exactly when the log has room for one more block and an operation is
-- outstanding.
abbrev pub has_room : Machine → Bool
has_room m = ltb m.log.lh.n log_size && ltb m.log.lh.n (m.log.size - 1) && ltb 0 m.log.outstanding

-- the machine after a `log_write` that does not panic
unfoldable pub after_write : ℕ → Machine → Machine
after_write b m =
    let n = m.log.lh.n in
    let i = find_block n 0 m.log.lh.block b in
    record m {
      log = record (m.log) {
        lh = record { n = if i == n then n + 1 else n; block = update m.log.lh.block i b };
      };
      dirty = update m.dirty b true;
    }

pub log_write-eq :
    (b : ℕ) (m : Machine) → log_write b m ≡ (if has_room m then some (after_write b m) else none)
unfolding log_write after_write
log_write-eq b m = ground arith

after_write-Logged : (b : ℕ) (m : Machine) → Logged b m (after_write b m)
unfolding after_write
after_write-Logged b m =
    elim (find_block_lem m.log.lh.n 0 m.log.lh.n m.log.lh.block b (omega arith)) [
      | inl (at_end, spared) ↦ record {
        entry = inr (ground arith, ground arith, spared);
        kept = λ i a. update_ne m.log.lh.block _ b i (omega arith);
        pinned = update_self m.dirty b true;
        disk = refl;
        cache = refl;
        start = refl;
        size = refl;
        outstanding = refl;
        committing = refl;
      }
      | inr (lo, hi, hit) ↦ record {
        entry = inl (ground arith, (find_block m.log.lh.n 0 m.log.lh.block b, hi, hit));
        kept = λ i a. ground arith;
        pinned = update_self m.dirty b true;
        disk = refl;
        cache = refl;
        start = refl;
        size = refl;
        outstanding = refl;
        committing = refl;
      }
    ]

written : (b : ℕ) (m : Machine) → has_room m ≡ true → log_write b m ≡ some (after_write b m)
written b m room = log_write-eq b m ∙ ap (λ x. if x then some (after_write b m) else none) room

refused : (b : ℕ) (m : Machine) → has_room m ≡ false → log_write b m ≡ none
refused b m full = log_write-eq b m ∙ ap (λ x. if x then some (after_write b m) else none) full

pub log_write_cases :
    (b : ℕ) (m : Machine)
    → ((has_room m ≡ false) × (log_write b m ≡ none))
      ⊎ ((has_room m ≡ true)
          × (log_write b m ≡ some (after_write b m))
          × Logged b m (after_write b m))
log_write_cases b m = elim (Bool-cases (has_room m)) [
  | inl room ↦ inr (room, written b m room, after_write-Logged b m)
  | inr full ↦ inl (full, refused b m full)
]

pub Logged-of_some : (b : ℕ) (m : Machine) {m' : Machine} → log_write b m ≡ some m' → Logged b m m'
Logged-of_some b m {m'} e = elim (Bool-cases (has_room m)) [
  | inl room ↦
      let same : after_write b m ≡ m' = cc (written b m room) in
      subst (Logged b m) same (after_write-Logged b m)
  | inr full ↦ cc (refused b m full)
]

-- no block is in the log twice
abbrev pub IsOnce : Machine → Type 0
IsOnce m = (i j : ℕ) → i < m.log.lh.n → j < m.log.lh.n → m.log.lh.block i ≡ m.log.lh.block j → i ≡ j

-- The block is in the log at one place only, as are the blocks that were logged before, which keep
-- their places, and no others are; the block is pinned, and the rest is as before.
pub record LoggedOnce (b : ℕ) (m m' : Machine) : Type 0 where
  pub place : (j : ℕ) × (j < m'.log.lh.n) × (m'.log.lh.block j ≡ b)
  pub once : IsOnce m'
  pub only : (i : ℕ) → i < m'.log.lh.n → (i < m.log.lh.n) ⊎ (m'.log.lh.block i ≡ b)
  pub grows : m.log.lh.n ≤ m'.log.lh.n
  pub rest : Logged b m m'

IsOnce-Logged : (b : ℕ) (m m' : Machine) → IsOnce m → Logged b m m' → IsOnce m'
IsOnce-Logged b m m' o g i j l k e = elim g.entry [
  | inl (same, at) ↦
      o i j (omega arith) (omega arith) (sym (g.kept i (omega arith)) ∙ e ∙ g.kept j (omega arith))
  | inr (more, last, new) ↦ elim (dec_lt i m.log.lh.n) [
    | yes old_i ↦ elim (dec_lt j m.log.lh.n) [
      | yes old_j ↦ o i j old_i old_j (sym (g.kept i old_i) ∙ e ∙ g.kept j old_j)
      | no new_j ↦
          let at : j ≡ m.log.lh.n = omega arith in
          absurd
            (new i (omega arith) old_i (sym (g.kept i old_i) ∙ e ∙ ap m'.log.lh.block at ∙ last))
    ]
    | no new_i ↦
        let at : i ≡ m.log.lh.n = omega arith in
        elim (dec_lt j m.log.lh.n) [
          | yes old_j ↦ absurd (
              new j (omega arith) old_j
                (sym (g.kept j old_j) ∙ sym e ∙ ap m'.log.lh.block at ∙ last))
          | no new_j ↦ omega arith
        ]
  ]
]

Logged-LoggedOnce : (b : ℕ) (m m' : Machine) → IsOnce m → Logged b m m' → LoggedOnce b m m'
Logged-LoggedOnce b m m' o g = record {
  place = elim g.entry [
    | inl (same, (j, l, e)) ↦ (j, omega arith, g.kept j l ∙ e)
    | inr (more, last, new) ↦ (m.log.lh.n, omega arith, last)
  ];
  once = IsOnce-Logged b m m' o g;
  only = λ i l. elim g.entry [
    | inl (same, at) ↦ inl (omega arith)
    | inr (more, last, new) ↦ elim (dec_lt i m.log.lh.n) [
      | yes old ↦ inl old
      | no late ↦ let at : i ≡ m.log.lh.n = omega arith in inr (ap m'.log.lh.block at ∙ last)
    ]
  ];
  grows = elim g.entry [ inl (same, at) ↦ omega arith | inr (more, last, new) ↦ omega arith ];
  rest = g;
}

-- On a log in which no block is twice, `log_write` panics exactly when the log is full or no
-- operation is outstanding, also for a block that is logged already. Otherwise the block is then in
-- the log exactly once, those that were logged before keep their places, no others are added, and
-- the block is pinned in the cache.
pub log_write_lem :
    (b : ℕ) (m : Machine)
    → IsOnce m
    → ((ltb m.log.lh.n log_size && ltb m.log.lh.n (m.log.size - 1) && ltb 0 m.log.outstanding
          ≡ false)
        × (log_write b m ≡ none))
      ⊎ ((ltb m.log.lh.n log_size && ltb m.log.lh.n (m.log.size - 1) && ltb 0 m.log.outstanding
            ≡ true)
          × ((m' : Machine) × (log_write b m ≡ some m') × LoggedOnce b m m'))
log_write_lem b m o = elim (log_write_cases b m) [
  | inl (full, e) ↦ inl (full, e)
  | inr (room, e, g) ↦ inr (room, (after_write b m, e, Logged-LoggedOnce b m (after_write b m) o g))
]
