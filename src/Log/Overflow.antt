-- ===== src/Log/Overflow.antt =====
-- The log that mkfs makes has `LOGSIZE` blocks, its header among them, and `begin_op` reckons with
-- `LOGSIZE` data blocks: three operations within their limits can overflow it.
use ztl_os.Base.{
  ◌*◌, ℕ, ◌+◌, ◌-◌, ◌≤◌, ◌<◌, ◌≡◌, ◌≢◌, ◌∙◌, sym, ap, arith, true, false, Option, none, some, List,
  [], ◌∷◌, length, All, inl, inr,
}
use native.Mathlib.Decide.{dec_lt}
use ztl_os.Log.{max_op_blocks, Machine, Log, begin_op, log_write, log_size}
use ztl_os.Log.Copies.{Spares}
use ztl_os.Log.Absorb.{Logged, has_room, after_write, log_write_cases}

infixl 5 ◌>>=◌
abbrev pub ◌>>=◌ : Option Log → (Log → Option Log) → Option Log
none >>= f = none
some l >>= f = f l

-- `log_write` of each block in turn; `none` if one of them panics.
pub write_all : List ℕ → Machine → Option Machine
write_all [] m = some m
write_all (b ∷ bs) m = elim (log_write b m) [ none ↦ none | some m' ↦ write_all bs m' ]

-- no block twice
abbrev pub AllDistinct : List ℕ → Type 0
AllDistinct [] = Unit
AllDistinct (b ∷ bs) = All (λ c. c ≢ b) bs × AllDistinct bs

-- blocks that the log does not have
abbrev pub Fresh : Machine → List ℕ → Type 0
Fresh m bs = All (Spares m.log.lh.block 0 m.log.lh.n) bs

Fresh-after_write :
    (b : ℕ) (m m' : Machine) (bs : List ℕ)
    → Logged b m m'
    → Spares m.log.lh.block 0 m.log.lh.n b
    → All (λ c. c ≢ b) bs
    → Fresh m bs
    → Fresh m' bs
Fresh-after_write b m m' [] g new apart h = tt
Fresh-after_write b m m' (c ∷ bs) g new apart h =
    (spared, Fresh-after_write b m m' bs g new apart.1 h.1)
  where
    spared : Spares m'.log.lh.block 0 m'.log.lh.n c
    spared i lo hi z = elim g.entry [
      | inl (same, (j, a, hit)) ↦ new j (omega arith) a hit
      | inr (more, last, fresh) ↦ elim (dec_lt i m.log.lh.n) [
        | yes old ↦ h.0 i lo old (sym (g.kept i old) ∙ z)
        | no at_end ↦
            let here : i ≡ m.log.lh.n = omega arith in
            apart.0 (sym z ∙ ap m'.log.lh.block here ∙ last)
      ]
    ]

grown :
    (b : ℕ) (m m' : Machine)
    → Logged b m m'
    → Spares m.log.lh.block 0 m.log.lh.n b
    → m'.log.lh.n ≡ m.log.lh.n + 1
grown b m m' g new = elim g.entry [
  | inl (same, (j, a, hit)) ↦ absurd (new j (omega arith) a hit)
  | inr (more, last, fresh) ↦ more
]

room_left : (m : Machine) → has_room m ≡ true → m.log.lh.n < m.log.size - 1
room_left m room = ground arith

-- Distinct fresh blocks fill the log up to `size - 1` and no further.
write_all-overflow :
    (bs : List ℕ) (m : Machine)
    → Fresh m bs
    → AllDistinct bs
    → m.log.lh.n ≤ m.log.size - 1
    → m.log.size - 1 < m.log.lh.n + length bs
    → write_all bs m ≡ none
unfolding write_all
write_all-overflow [] m fresh distinct within over = absurd (omega arith)
write_all-overflow (b ∷ bs) m fresh distinct within over = elim (log_write_cases b m) [
  | inl (full, e) ↦ rw (e, write_all)
  | inr (room, e, g) ↦
      let m' = after_write b m in
      let more = grown b m m' g fresh.0 in
      rw (e, write_all)
        (write_all-overflow bs m' (Fresh-after_write b m m' bs g fresh.0 distinct.0 fresh.1)
          distinct.1 (omega (arith, more, g.size, room_left m room)) (omega (arith, more, g.size)))
]

Fresh-of_empty : (m : Machine) (bs : List ℕ) → m.log.lh.n ≡ 0 → Fresh m bs
Fresh-of_empty m [] e = tt
Fresh-of_empty m (b ∷ bs) e = (λ i lo hi z. omega arith, Fresh-of_empty m bs e)

-- On an empty, idle log of `LOGSIZE` blocks, the size that mkfs gives it, `begin_op` lets three
-- operations in; if they log 30 distinct blocks between them, 10 each, `log_write` panics.
pub three_operations_overflow :
    (m : Machine) (bs : List ℕ)
    → m.log.lh.n ≡ 0
    → m.log.outstanding ≡ 0
    → m.log.committing ≡ false
    → m.log.size ≡ log_size
    → AllDistinct bs
    → length bs ≡ max_op_blocks * 3
    → let admitted : Log = record (m.log) { outstanding = m.log.outstanding + 1 + 1 + 1 } in
      ((begin_op m.log >>= begin_op >>= begin_op) ≡ some admitted)
      × (write_all bs (record m { log = admitted }) ≡ none)
unfolding begin_op
three_operations_overflow m bs number idle quiet size distinct len = (
  ground arith,
  write_all-overflow bs
      (record m { log = record (m.log) { outstanding = m.log.outstanding + 1 + 1 + 1 } })
      (Fresh-of_empty m bs number) distinct (omega arith) (omega arith),
)
