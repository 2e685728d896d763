-- ===== src/Buffers/Calls.antt =====
-- What each call does to the one buffer that it is about, and that the cache stays coherent.
use ztl_os.Buffers.{fssize, holdingsleep}
use ztl_os.Buffers.Coherence.{returned, panicked}
use ztl_os.Buffers.{unlink}
use ztl_os.Buffers.{link_first}
use ztl_os.Base.{leb, if◌then◌else◌}
use ztl_os.Buffers.Contents.{put_block_other}
use ztl_os.Buffers.Contents.{put_block_self}
use ztl_os.Buffers.Contents.{same_block}
use ztl_os.Buffers.{acquiresleep}
use ztl_os.Base.{sym}
use ztl_os.Base.{Bool-cases}
use ztl_os.Base.{◌∙◌}
use ztl_os.Buffers.{recycle}
use ztl_os.Base.{ap}
use ztl_os.Base.{update_self}
use ztl_os.Buffers.Get.{bget-Got}
use ztl_os.Buffers.{take_ref}
use ztl_os.Base.{◌⊎◌}
use ztl_os.Base.{update_ne}
use ztl_os.Base.{
  List, ◌∷◌, ℕ, true, false, Bool, not, ◌≡◌, ◌≢◌, ◌==◌, ◌&&◌, ◌<◌, ◌+◌, ◌-◌, ◌%◌, arith, refl, inl,
  inr, u32_mod,
}
use ztl_os.Buffers.{
  Bcache, Buf, Outcome, panics, put_buf, serve, nbuf, bget, lose_ref, bread_block, iderw, bwrite,
  brelse,
}
use ztl_os.Buffers.Order.{remove}
use ztl_os.Buffers.Once.{live}
use ztl_os.Buffers.Get.{Got, hit, recycled, no_buffer}
use ztl_os.Buffers.Contents.{Blocks, put_block, Coherent, serve-Coherent}
use ztl_os.Buffers.Coherence.{keep_Coherent, dirty_Coherent, move_Coherent, Ensures}

-- Only `b` changes.
abbrev pub Only : ℕ → Bcache → Bcache → Type 0
Only b c c' = (j : ℕ) → j ≢ b → c'.buf j ≡ c.buf j

put_Only : (b : ℕ) (x : Buf) (c : Bcache) → Only b c (put_buf b x c)
put_Only b x c j n = update_ne c.buf b x j n

-- `bget` takes a reference. A buffer whose contents it drops had none.
pub record Takes (b : ℕ) (c c' : Bcache) : Type 0 where
  pub only : Only b c c'
  pub refcnt : (c'.buf b).refcnt ≡ ((c.buf b).refcnt + 1) % u32_mod
  pub locked : (c'.buf b).locked ≡ (c.buf b).locked
  pub valid : ((c'.buf b).valid ≡ (c.buf b).valid) ⊎ ((c.buf b).refcnt ≡ 0)

takes :
    (dev blockno : ℕ) (c : Bcache) (order : List ℕ) (r : Outcome (ℕ × Bcache))
    → Got dev blockno c order r
    → Ensures (λ r. Takes r.0 c r.1) r
takes dev blockno c order r (hit {b} ys zs e t a) =
    let x : Buf = take_ref (c.buf b) in
    let at_b = update_self c.buf b x in
    returned (record {
      only = put_Only b x c;
      refcnt = ap (λ y. y.refcnt) at_b;
      locked = ap (λ y. y.locked) at_b;
      valid = inl (ap (λ y. y.valid) at_b);
    })
takes dev blockno c order r (recycled {b} ys zs m e u a) =
    let x = recycle dev blockno (c.buf b) in
    let at_b = update_self c.buf b x in
    let none_left : (c.buf b).refcnt ≡ 0 = ground (arith, u) in
    returned (record {
      only = put_Only b x c;
      refcnt = ap (λ y. y.refcnt) at_b ∙ omega (arith, none_left);
      locked = ap (λ y. y.locked) at_b;
      valid = inr none_left;
    })
takes dev blockno c order r (no_buffer m u) = panicked

pub bget-Takes :
    (dev blockno : ℕ) (c : Bcache) (order : List ℕ) (v : Blocks)
    → Coherent c order v
    → Ensures (λ r. Takes r.0 c r.1) (bget dev blockno c)
bget-Takes dev blockno c order v h =
    takes dev blockno c order (bget dev blockno c) (bget-Got dev blockno c order h.ring)

-- A call on a buffer that is locked or about to be: what it leaves of the buffer, and the contents
-- of the blocks behind it.
pub record Leaves (c : Bcache) (order : List ℕ) (b refcnt : ℕ) (locked valid : Bool) (v : Blocks)
    (c' : Bcache) : Type 0 where
  pub coherent : Coherent c' order v
  pub only : Only b c c'
  pub refs : (c'.buf b).refcnt ≡ refcnt
  pub lock : (c'.buf b).locked ≡ locked
  pub has : (c'.buf b).valid ≡ valid
  pub dev : (c'.buf b).dev ≡ (c.buf b).dev
  pub blockno : (c'.buf b).blockno ≡ (c.buf b).blockno

put_Leaves :
    (c : Bcache) (order : List ℕ) (v : Blocks) (b : ℕ) (x : Buf)
    → Coherent (put_buf b x c) order v
    → x.dev ≡ (c.buf b).dev
    → x.blockno ≡ (c.buf b).blockno
    → Leaves c order b x.refcnt x.locked x.valid v (put_buf b x c)
put_Leaves c order v b x h d k =
    let at_b = update_self c.buf b x in
    record {
      coherent = h;
      only = put_Only b x c;
      refs = ap (λ y. y.refcnt) at_b;
      lock = ap (λ y. y.locked) at_b;
      has = ap (λ y. y.valid) at_b;
      dev = ap (λ y. y.dev) at_b ∙ d;
      blockno = ap (λ y. y.blockno) at_b ∙ k;
    }

Leaves-trans :
    {c c' c'' : Bcache} {order : List ℕ} {b r r' : ℕ} {m m' w w' : Bool} {v v' : Blocks}
    → Leaves c order b r m w v c'
    → Leaves c' order b r' m' w' v' c''
    → Leaves c order b r' m' w' v' c''
Leaves-trans p q = record {
  coherent = q.coherent;
  only = λ j n. q.only j n ∙ p.only j n;
  refs = q.refs;
  lock = q.lock;
  has = q.has;
  dev = q.dev ∙ p.dev;
  blockno = q.blockno ∙ p.blockno;
}

Ensures-if :
    {A : Type 0} {P : A → Type 0} (t : Bool) {y : Outcome A}
    → Ensures P y
    → Ensures P (if t then panics else y)
Ensures-if true k = panicked
Ensures-if false k = k

Ensures-weaken :
    {A : Type 0} {P Q : A → Type 0} {r : Outcome A}
    → ((a : A) → P a → Q a)
    → Ensures P r
    → Ensures Q r
Ensures-weaken f (returned {a} h) = returned (f a h)
Ensures-weaken f panicked = panicked

module _ (c : Bcache) (order : List ℕ) (v : Blocks) (h : Coherent c order v) (b : ℕ) (n : b < nbuf)
    (l : live (c.buf b) ≡ true) where
  abbrev x : Buf
  x = c.buf b

  serve-Leaves : Leaves c order b x.refcnt x.locked true v (serve b c)
  unfolding serve
  serve-Leaves =
      let at_b = update_self c.buf b _ in
      record {
        coherent = serve-Coherent c order v h b n l;
        only = λ j m. update_ne c.buf b _ j m;
        refs = ap (λ y. y.refcnt) at_b;
        lock = ap (λ y. y.locked) at_b;
        has = ap (λ y. y.valid) at_b;
        dev = ap (λ y. y.dev) at_b;
        blockno = ap (λ y. y.blockno) at_b;
      }

  iderw-Leaves :
      (disk1 : Bool) → Ensures (Leaves c order b x.refcnt x.locked true v) (iderw disk1 b c)
  unfolding iderw
  iderw-Leaves disk1 = Ensures-if (not (holdingsleep x)) (
      Ensures-if (x.valid && not x.dirty) (
        Ensures-if (not (x.dev == 0) && not disk1)
          (Ensures-if (leb fssize x.blockno) (returned serve-Leaves))))

  -- `bread` behind `acquiresleep`.
  read_block :
      (disk1 : Bool) → Ensures (Leaves c order b x.refcnt x.locked true v) (bread_block disk1 b c)
  unfolding bread_block
  read_block disk1 = elim (Bool-cases x.valid) [
    | inl valid ↦ rw valid (
        returned (record {
          coherent = h;
          only = λ j m. refl;
          refs = refl;
          lock = refl;
          has = valid;
          dev = refl;
          blockno = refl;
        }))
    | inr other ↦ rw other (iderw-Leaves disk1)
  ]

  lock_Leaves :
      (m : Bool) → Leaves c order b x.refcnt m x.valid v (put_buf b (record x { locked = m }) c)
  lock_Leaves m =
      put_Leaves c order v b (record x { locked = m })
        (keep_Coherent c order v h b n (record x { locked = m })
          (same_block c order v h b n l _ refl refl) refl refl refl refl refl)
        refl refl

  -- The holder writes to the buffer and marks it.
  pub store_Leaves :
      (d : List ℕ)
      → x.valid ≡ true
      → Leaves c order b x.refcnt x.locked x.valid
          (put_block v x.dev x.blockno d)
          (put_buf b (record x { bytes = d; dirty = true }) c)
  store_Leaves d w =
      let y = record x { bytes = d; dirty = true } in
      put_Leaves c order _ b y
        (dirty_Coherent c order v h b n l y _ refl refl w refl
          (sym (put_block_self v x.dev x.blockno d))
          (λ dev blockno e. put_block_other v x.dev x.blockno d dev blockno e))
        refl refl

-- A locked buffer is read.
pub lock-Leaves :
    (c : Bcache) (order : List ℕ) (v : Blocks) (b : ℕ) (disk1 : Bool)
    → Coherent c order v
    → b < nbuf
    → live (c.buf b) ≡ true
    → Ensures
        (Leaves c order b (c.buf b).refcnt true true v)
        (bread_block disk1 b (put_buf b (acquiresleep (c.buf b)) c))
lock-Leaves c order v b disk1 h n l =
    let c' = put_buf b (acquiresleep (c.buf b)) c in
    let p = lock_Leaves c order v h b n l true in
    Ensures-weaken (λ a q. Leaves-trans p (rw (update_self c.buf b (acquiresleep (c.buf b))) at q))
      (read_block c' order v p.coherent b n (rw (update_self c.buf b (acquiresleep (c.buf b))) l)
        disk1)

pub bwrite-Leaves :
    (c : Bcache) (order : List ℕ) (v : Blocks) (b : ℕ) (disk1 : Bool)
    → Coherent c order v
    → b < nbuf
    → live (c.buf b) ≡ true
    → (c.buf b).valid ≡ true
    → Ensures (Leaves c order b (c.buf b).refcnt (c.buf b).locked true v) (bwrite disk1 b c)
unfolding bwrite
bwrite-Leaves c order v b disk1 h n l w =
    let x = record (c.buf b) { dirty = true } in
    let p =
      put_Leaves c order v b x
        (dirty_Coherent c order v h b n l x v refl refl w refl (h.agrees b n w)
          (λ dev blockno e. refl))
        refl refl in
    Ensures-if (not (holdingsleep (c.buf b))) (
      Ensures-weaken (λ a q. Leaves-trans p (rw (update_self c.buf b x) at q))
        (iderw-Leaves (put_buf b x c) order v p.coherent b n
          (rw (update_self c.buf b x) (ground (arith, l))) disk1))

pub brelse-Leaves :
    (c : Bcache) (order : List ℕ) (v : Blocks) (b : ℕ)
    → Coherent c order v
    → b < nbuf
    → live (c.buf b) ≡ true
    → Ensures (Leaves c order b (c.buf b).refcnt false (c.buf b).valid v) (brelse b c)
unfolding brelse
brelse-Leaves c order v b h n l =
    Ensures-if (not (holdingsleep (c.buf b))) (returned (lock_Leaves c order v h b n l false))

-- A buffer that lost its last reference is moved to the front.
pub lose_ref-Leaves :
    (c : Bcache) (order : List ℕ) (v : Blocks) (b : ℕ)
    → Coherent c order v
    → b < nbuf
    → live (c.buf b) ≡ true
    → (order' : List ℕ) × Leaves c order' b
        (((c.buf b).refcnt + (u32_mod - 1)) % u32_mod)
        (c.buf b).locked
        (c.buf b).valid
        v
        (lose_ref b c)
unfolding lose_ref
lose_ref-Leaves c order v b h n l =
    let r = ((c.buf b).refcnt + (u32_mod - 1)) % u32_mod in
    let x = record (c.buf b) { refcnt = r } in
    elim (Bool-cases (r == 0)) [
      | inl none_left ↦
          let c' = record c { links = link_first b (unlink b c.links) } in
          let order' = b ∷ remove b order in
          let h' = move_Coherent c order v h b n l in
          let p =
            put_Leaves c' order' v b x
              (keep_Coherent c' order' v h' b n x (same_block c' order' v h' b n l x refl refl) refl
                refl refl refl refl)
              refl refl in
          (
            order',
            rw none_left (record {
              coherent = p.coherent;
              only = p.only;
              refs = p.refs;
              lock = p.lock;
              has = p.has;
              dev = p.dev;
              blockno = p.blockno;
            }),
          )
      | inr some_left ↦ (
        order,
        rw some_left (
            put_Leaves c order v b x
              (keep_Coherent c order v h b n x (same_block c order v h b n l x refl refl) refl refl
                refl refl refl)
              refl refl),
      )
    ]
