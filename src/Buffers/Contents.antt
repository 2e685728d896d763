-- ===== src/Buffers/Contents.antt =====
-- The buffers and the disk together hold the contents of the blocks.
use ztl_os.Base.{update_self}
use ztl_os.Base.{sym}
use ztl_os.Buffers.Once.{Once-live}
use ztl_os.Base.{◌≢◌}
use ztl_os.Base.{◌∙◌}
use ztl_os.Base.{ap}
use ztl_os.Buffers.Once.{Once-unique}
use ztl_os.Base.{update}
use ztl_os.Base.{Bool-cases}
use ztl_os.Base.{List, ℕ, true, false, ◌≡◌, ◌==◌, ◌&&◌, ◌<◌, arith, refl, inl, inr}
use ztl_os.Buffers.{Bcache, Buf, put_buf, is_block, serve, nbuf}
use ztl_os.Buffers.Order.{IsRing}
use ztl_os.Buffers.Once.{Once, live}

abbrev pub Blocks : Type 0
Blocks = ℕ → ℕ → List ℕ

abbrev pub put_block : Blocks → ℕ → ℕ → List ℕ → Blocks
put_block v dev blockno d = update v dev (update (v dev) blockno d)

-- No buffer of the block is dirty.
abbrev pub Clean : (ℕ → Buf) → ℕ → ℕ → Type 0
Clean f dev blockno = (b : ℕ) → b < nbuf → is_block dev blockno (f b) ≡ true → (f b).dirty ≡ false

-- `v` has the contents of the blocks: a valid buffer holds its block's, and the disk those of a block
-- with no dirty buffer.
pub record Coherent (c : Bcache) (order : List ℕ) (v : Blocks) : Type 0 where
  pub ring : IsRing c.links order
  pub once : Once c.buf order
  pub marked : (b : ℕ) → b < nbuf → (c.buf b).dirty ≡ true → (c.buf b).valid ≡ true
  pub agrees :
      (b : ℕ)
      → b < nbuf
      → (c.buf b).valid ≡ true
      → (c.buf b).bytes ≡ v (c.buf b).dev (c.buf b).blockno
  pub stored : (dev blockno : ℕ) → Clean c.buf dev blockno → c.disk dev blockno ≡ v dev blockno

pub put_block_other :
    (v : Blocks) (dev blockno : ℕ) (d : List ℕ) (dev' blockno' : ℕ)
    → (dev == dev' && blockno == blockno') ≡ false
    → put_block v dev blockno d dev' blockno' ≡ v dev' blockno'
put_block_other v dev blockno d dev' blockno' h = elim (Bool-cases (dev' == dev)) [
  | inl same ↦
      let e : dev' ≡ dev = ground (arith, same) in
      let other : (blockno' == blockno) ≡ false = ground (arith, h, same) in
      rw (same, other, e) refl
  | inr other ↦ rw other refl
]

pub put_block_self :
    (v : Blocks) (dev blockno : ℕ) (d : List ℕ) → put_block v dev blockno d dev blockno ≡ d
put_block_self v dev blockno d =
    ap (λ g. g blockno) (update_self v dev (update (v dev) blockno d))
    ∙ update_self (v dev) blockno d

module _ (c : Bcache) (order : List ℕ) (v : Blocks) (h : Coherent c order v) (b : ℕ) where
  -- One buffer, the disk and the contents change.
  pub put_Coherent :
      (x : Buf) (disk v' : Blocks)
      → Once (update c.buf b x) order
      → (x.dirty ≡ true → x.valid ≡ true)
      → (x.valid ≡ true → x.bytes ≡ v' x.dev x.blockno)
      → ((j : ℕ)
          → j < nbuf
          → j ≢ b
          → (c.buf j).valid ≡ true
          → v' (c.buf j).dev (c.buf j).blockno ≡ v (c.buf j).dev (c.buf j).blockno)
      → ((dev blockno : ℕ)
          → Clean (update c.buf b x) dev blockno
          → disk dev blockno ≡ v' dev blockno)
      → Coherent (record (put_buf b x c) { disk = disk }) order v'
  put_Coherent x disk v' o m a others s = record {
    ring = h.ring;
    once = o;
    marked = λ j k e. elim (Bool-cases (j == b)) [
      | inl same ↦ rw same (m (rw same at e))
      | inr other ↦ rw other (h.marked j k (rw other at e))
    ];
    agrees = λ j k e. elim (Bool-cases (j == b)) [
      | inl same ↦ rw same (a (rw same at e))
      | inr other ↦
          let valid : (c.buf j).valid ≡ true = rw other at e in
          rw other (h.agrees j k valid ∙ sym (others j k (ground (arith, other)) valid))
    ];
    stored = s;
  }

  -- A block with no dirty buffer still has none without `b`'s change, if `b` was clean or has
  -- another block.
  pub unmarked_before :
      (x : Buf) (dev blockno : ℕ)
      → (is_block dev blockno (c.buf b) ≡ true → (c.buf b).dirty ≡ false)
      → Clean (update c.buf b x) dev blockno
      → Clean c.buf dev blockno
  unmarked_before x dev blockno q k j m e = elim (Bool-cases (j == b)) [
    | inl same ↦ let r : j ≡ b = ground (arith, same) in rw r (q (rw r at e))
    | inr other ↦ rw other at (k j m (rw other e))
  ]

module _ (c : Bcache) (order : List ℕ) (v : Blocks) (h : Coherent c order v) (b : ℕ) (n : b < nbuf)
    (l : live (c.buf b) ≡ true) where
  -- A live buffer that is clean is the only one that could be dirty.
  unmarked_block : (c.buf b).dirty ≡ false → Clean c.buf (c.buf b).dev (c.buf b).blockno
  unmarked_block d j m e = elim (Bool-cases (c.buf j).dirty) [
    | inl marked ↦
        let same : b ≡ j =
          Once-unique c.buf order b j h.once (h.ring.every b n) (h.ring.every j m) e l
            (ground (arith, marked)) in
        absurd (ground (arith, (rw same at d), marked))
    | inr clean ↦ clean
  ]

  pub same_block :
      (x : Buf)
      → x.dev ≡ (c.buf b).dev
      → x.blockno ≡ (c.buf b).blockno
      → Once (update c.buf b x) order
  same_block x d k = Once-live c.buf order b x h.once l d k

  write_Coherent : (c.buf b).dirty ≡ true → Coherent (serve b c) order v
  unfolding serve
  write_Coherent w =
      let x = c.buf b in
      let at_b = h.agrees b n (h.marked b n w) in
      rw w (
        put_Coherent c order v h b _ (put_block c.disk x.dev x.blockno x.bytes) v
          (same_block _ refl refl) (λ e. refl) (λ e. at_b) (λ j k o e. refl)
          (λ dev blockno k. elim (Bool-cases (x.dev == dev && x.blockno == blockno)) [
            | inl same ↦
                let d : x.dev ≡ dev = ground (arith, same) in
                let e : x.blockno ≡ blockno = ground (arith, same) in
                rw (← d, ← e) (put_block_self c.disk x.dev x.blockno x.bytes ∙ at_b)
            | inr other ↦
                put_block_other c.disk x.dev x.blockno x.bytes dev blockno other
                ∙ h.stored dev blockno (
                    unmarked_before c order v h b _ dev blockno
                      (λ e. absurd (ground (arith, e, other))) k)
          ]))

  read_Coherent : (c.buf b).dirty ≡ false → Coherent (serve b c) order v
  unfolding serve
  read_Coherent r =
      let x = c.buf b in
      rw r (
        put_Coherent c order v h b _ c.disk v (same_block _ refl refl) (λ e. refl)
          (λ e. h.stored x.dev x.blockno (unmarked_block r)) (λ j k o e. refl)
          (λ dev blockno k.
            h.stored dev blockno (unmarked_before c order v h b _ dev blockno (λ e. r) k)))

  pub serve-Coherent : Coherent (serve b c) order v
  serve-Coherent = elim (Bool-cases (c.buf b).dirty) [
    | inl write ↦ write_Coherent write
    | inr read ↦ read_Coherent read
  ]
