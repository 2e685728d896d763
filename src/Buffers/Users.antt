-- ===== src/Buffers/Users.antt =====
-- Processes that use the buffer cache, and how many there are at a buffer.
use ztl_os.Base.{Bool-cases}
use ztl_os.Base.{
  List, ℕ, zero, suc, true, false, Bool, ◌≡◌, ◌==◌, ◌<◌, ◌≤◌, ◌+◌, arith, refl, inl, inr, update,
}
use ztl_os.Buffers.{nbuf}
use ztl_os.Base.{◌*◌}
use ztl_os.Buffers.{
  Bcache, done, put_buf, bget, lose_ref, bread_block, bwrite, brelse, acquiresleep, binit,
}
use ztl_os.Buffers.Contents.{Blocks, put_block}

-- NPROC
abbrev pub nproc : ℕ
nproc = 64

-- A process can hold several buffers at once and ask for a further one. Each use of a buffer, from
-- `bget` to the end of `brelse`, is by one of the process's hands, of which it has one for each buffer
-- and one more; hand `p` is of process `p / (nbuf + 1)`. The hands of a process take their steps in
-- any order.
abbrev pub nhands : ℕ
nhands = nproc * (nbuf + 1)

-- Where a hand stands: at no buffer, behind `bget` and before the sleep lock of the buffer, with the
-- lock, and in `brelse` between the two locks.
pub data Place : Type 0 where
  idle : Place
  wants : ℕ → Place
  holds : ℕ → Place
  quits : ℕ → Place

pub record System : Type 0 where
  pub cache : Bcache
  pub place : ℕ → Place

-- A step of one hand: `bget`, `acquiresleep` with the rest of `bread`, writing to a buffer and marking
-- it dirty, `bwrite`, and the two parts of `brelse`. Who writes to a buffer marks it by `log_write` or
-- `bwrite` before it lets go of the lock, without which no other looks at the bytes: so the writing
-- and the mark are one step.
pub data Step (disk1 : Bool) : System → System → Type 0 where
  get :
      {s : System} (p dev blockno b : ℕ) {c : Bcache}
      → p < nhands
      → s.place p ≡ idle
      → bget dev blockno s.cache ≡ done (b, c)
      → Step disk1 s (record { cache = c; place = update s.place p (wants b) })
  lock :
      {s : System} (p b : ℕ) {c : Bcache}
      → p < nhands
      → s.place p ≡ wants b
      → (s.cache.buf b).locked ≡ false
      → bread_block disk1 b (put_buf b (acquiresleep (s.cache.buf b)) s.cache) ≡ done c
      → Step disk1 s (record { cache = c; place = update s.place p (holds b) })
  store :
      {s : System} (p b : ℕ) (d : List ℕ)
      → p < nhands
      → s.place p ≡ holds b
      → Step disk1 s (record s {
        cache = put_buf b (record (s.cache.buf b) { bytes = d; dirty = true }) s.cache;
      })
  write :
      {s : System} (p b : ℕ) {c : Bcache}
      → p < nhands
      → s.place p ≡ holds b
      → bwrite disk1 b s.cache ≡ done c
      → Step disk1 s (record s { cache = c })
  release :
      {s : System} (p b : ℕ) {c : Bcache}
      → p < nhands
      → s.place p ≡ holds b
      → brelse b s.cache ≡ done c
      → Step disk1 s (record { cache = c; place = update s.place p (quits b) })
  drop :
      {s : System} (p b : ℕ)
      → p < nhands
      → s.place p ≡ quits b
      → Step disk1 s (record { cache = lose_ref b s.cache; place = update s.place p idle })

-- The contents of the blocks behind a step: the process that writes to a buffer changes them.
abbrev pub effect : {disk1 : Bool} {s t : System} → Step disk1 s t → Blocks → Blocks
effect (store {s} p b d n at) v = put_block v (s.cache.buf b).dev (s.cache.buf b).blockno d
effect _ v = v

-- The systems that are reached from `binit`, with the contents of the blocks.
pub data Reached (disk1 : Bool) (disk : Blocks) : System → Blocks → Type 0 where
  starts : Reached disk1 disk (record { cache = binit disk; place = λ p. idle }) disk
  steps :
      {s t : System} {v : Blocks}
      → Reached disk1 disk s v
      → (m : Step disk1 s t) → Reached disk1 disk t (effect m v)

abbrev pub uses : ℕ → Place → Bool
uses b idle = false
uses b (wants j) = j == b
uses b (holds j) = j == b
uses b (quits j) = j == b

abbrev pub locks : ℕ → Place → Bool
locks b (holds j) = j == b
locks b _ = false

abbrev pub bit : Bool → ℕ
bit true = 1
bit false = 0

-- How many of the first `n` pass the test.
pub count : (ℕ → Bool) → ℕ → ℕ
count f zero = 0
count f (suc n) = bit (f n) + count f n

module _ (test : Place → Bool) (place : ℕ → Place) (p : ℕ) (x : Place) where
  abbrev before : ℕ → Bool
  before q = test (place q)

  abbrev after : ℕ → Bool
  after q = test (update place p x q)

  count_off : (n : ℕ) → n ≤ p → count after n ≡ count before n
  unfolding count
  count_off zero h = refl
  count_off (suc n) h =
      let other : (n == p) ≡ false = ground (arith, h) in
      rw (other, count_off n (omega (arith, h))) refl

  pub count_put :
      (n : ℕ) → p < n → count after n + bit (test (place p)) ≡ count before n + bit (test x)
  unfolding count
  count_put zero h = absurd (omega arith)
  count_put (suc n) h = elim (Bool-cases (n == p)) [
    | inl same ↦
        let e : n ≡ p = ground (arith, same) in
        rw (same, count_off n (omega (arith, e))) (rw (← e) (omega arith))
    | inr other ↦ rw other (omega (arith, count_put n (ground (arith, h, other))))
  ]

pub count_pos : (f : ℕ → Bool) (p n : ℕ) → p < n → f p ≡ true → 0 < count f n
unfolding count
count_pos f p zero h e = absurd (omega arith)
count_pos f p (suc n) h e = elim (Bool-cases (n == p)) [
  | inl same ↦ let q : n ≡ p = ground (arith, same) in rw (q, e) (omega arith)
  | inr other ↦ omega (arith, count_pos f p n (ground (arith, h, other)) e)
]

pub count_le : (f : ℕ → Bool) (n : ℕ) → count f n ≤ n
unfolding count
count_le f zero = omega arith
count_le f (suc n) = elim (Bool-cases (f n)) [
  | inl yes_n ↦ rw yes_n (omega (arith, count_le f n))
  | inr no_n ↦ rw no_n (omega (arith, count_le f n))
]

-- At most one is one.
pub count_one :
    (f : ℕ → Bool) (p q n : ℕ) → p < n → q < n → f p ≡ true → f q ≡ true → count f n ≤ 1 → p ≡ q
unfolding count
count_one f p q zero h k e g l = absurd (omega arith)
count_one f p q (suc n) h k e g l = elim (Bool-cases (n == p)) [
  | inl at_p ↦ elim (Bool-cases (n == q)) [
    | inl at_q ↦ ground (arith, at_p, at_q)
    | inr off_q ↦
        let r : n ≡ p = ground (arith, at_p) in
        let here : f n ≡ true = rw r e in
        let m : 1 + count f n ≤ 1 = rw here at l in
        absurd (omega (arith, count_pos f q n (ground (arith, k, off_q)) g, m))
  ]
  | inr off_p ↦ elim (Bool-cases (n == q)) [
    | inl at_q ↦
        let r : n ≡ q = ground (arith, at_q) in
        let here : f n ≡ true = rw r g in
        let m : 1 + count f n ≤ 1 = rw here at l in
        absurd (omega (arith, count_pos f p n (ground (arith, h, off_p)) e, m))
    | inr off_q ↦
        count_one f p q n (ground (arith, h, off_p)) (ground (arith, k, off_q)) e g
          (omega (arith, l))
  ]
]

-- What is in none is counted to zero; what passes one test, by another.
pub count_none : (n : ℕ) → count (λ q. false) n ≡ 0
unfolding count
count_none zero = refl
count_none (suc n) = omega (arith, count_none n)

pub count_mono :
    (f g : ℕ → Bool) (n : ℕ) → ((q : ℕ) → f q ≡ true → g q ≡ true) → count f n ≤ count g n
unfolding count
count_mono f g zero h = omega arith
count_mono f g (suc n) h = elim (Bool-cases (f n)) [
  | inl yes_n ↦ rw (yes_n, h n yes_n) (omega (arith, count_mono f g n h))
  | inr no_n ↦ rw no_n (omega (arith, count_mono f g n h))
]
