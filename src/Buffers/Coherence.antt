-- ===== src/Buffers/Coherence.antt =====
-- The calls of the buffer cache keep it coherent.
use ztl_os.Buffers.Get.{no_buffer}
use ztl_os.Buffers.Once.{Once-new}
use ztl_os.Buffers.Once.{Once-moved}
use ztl_os.Buffers.Order.{moved-IsRing}
use ztl_os.Buffers.{recycle}
use ztl_os.Buffers.Once.{Once-first}
use ztl_os.Buffers.{unlink}
use ztl_os.Buffers.{take_ref}
use ztl_os.Buffers.{link_first}
use ztl_os.Buffers.Ring.{Apart}
use ztl_os.Buffers.Once.{Once-unique}
use ztl_os.Base.{subst}
use ztl_os.Base.{Bool-cases}
use ztl_os.Buffers.Get.{bget-Got}
use ztl_os.Buffers.Contents.{same_block}
use ztl_os.Base.{All-append_right}
use ztl_os.Base.{update_self}
use ztl_os.Buffers.Contents.{unmarked_before}
use ztl_os.Base.{ap₂}
use ztl_os.Base.{sym}
use ztl_os.Base.{◌∙◌}
use ztl_os.Base.{update}
use ztl_os.Base.{List, ◌∷◌, ◌++◌, ℕ, true, false, ◌≡◌, ◌==◌, ◌&&◌, ◌<◌, All, arith, refl, inl, inr}
use ztl_os.Buffers.{Bcache, Buf, Outcome, done, panics, put_buf, nbuf, bget}
use ztl_os.Buffers.Order.{remove}
use ztl_os.Buffers.Once.{Once, live}
use ztl_os.Buffers.Get.{Got, hit, recycled}
use ztl_os.Buffers.Contents.{Blocks, Coherent, put_Coherent}

module _ (c : Bcache) (order : List ℕ) (v : Blocks) (h : Coherent c order v) (b : ℕ)
    (n : b < nbuf) where
  -- What a buffer holds stays.
  pub keep_Coherent :
      (x : Buf)
      → Once (update c.buf b x) order
      → x.dev ≡ (c.buf b).dev
      → x.blockno ≡ (c.buf b).blockno
      → x.valid ≡ (c.buf b).valid
      → x.dirty ≡ (c.buf b).dirty
      → x.bytes ≡ (c.buf b).bytes
      → Coherent (put_buf b x c) order v
  keep_Coherent x o d k va di by =
      put_Coherent c order v h b x c.disk v o (λ e. va ∙ h.marked b n (sym di ∙ e))
        (λ e. by ∙ h.agrees b n (sym va ∙ e) ∙ ap₂ v (sym d) (sym k)) (λ j m q e. refl)
        (λ dev blockno q. h.stored dev blockno (
          unmarked_before c order v h b x dev blockno
            (λ e.
              sym di ∙ rw (update_self c.buf b x) at (q b n (rw (update_self c.buf b x, d, k) e)))
            q))

-- A buffer becomes dirty, with contents that are its block's from then on.
module _ (c : Bcache) (order : List ℕ) (v : Blocks) (h : Coherent c order v) (b : ℕ) (n : b < nbuf)
    (l : live (c.buf b) ≡ true) where
  pub dirty_Coherent :
      (x : Buf) (v' : Blocks)
      → x.dev ≡ (c.buf b).dev
      → x.blockno ≡ (c.buf b).blockno
      → x.valid ≡ true
      → x.dirty ≡ true
      → x.bytes ≡ v' x.dev x.blockno
      → ((dev blockno : ℕ)
          → ((c.buf b).dev == dev && (c.buf b).blockno == blockno) ≡ false
          → v' dev blockno ≡ v dev blockno)
      → Coherent (put_buf b x c) order v'
  dirty_Coherent x v' d k va di by others =
      put_Coherent c order v h b x c.disk v' (same_block c order v h b n l x d k) (λ e. va)
        (λ e. by)
        (λ j m q e.
          others (c.buf j).dev (c.buf j).blockno
            (elim (Bool-cases
              ((c.buf b).dev == (c.buf j).dev && (c.buf b).blockno == (c.buf j).blockno)) [
                | inl same ↦
                    let one : b ≡ j =
                      Once-unique c.buf order b j h.once (h.ring.every b n) (h.ring.every j m)
                        (ground (arith, same)) l (ground (arith, e)) in
                    absurd (q (sym one))
                | inr other ↦ other
              ]))
        (λ dev blockno q. elim (Bool-cases ((c.buf b).dev == dev && (c.buf b).blockno == blockno)) [
          | inl same ↦
              let marked = q b n (rw (update_self c.buf b x, d, k) same) in
              absurd (ground (arith, (rw (update_self c.buf b x) at marked), di))
          | inr other ↦
              let before =
                unmarked_before c order v h b x dev blockno (λ e. absurd (ground (arith, e, other)))
                  q in
              sym (others dev blockno other ∙ sym (h.stored dev blockno before))
        ])

  -- A buffer that nobody waits for is moved to the front.
  pub move_Coherent :
      Coherent (record c { links = link_first b (unlink b c.links) }) (b ∷ remove b order) v
  unfolding Apart
  move_Coherent = record {
    ring = moved-IsRing b c.links order n h.ring;
    once = Once-moved c.buf order b h.once h.ring.apart.1 (h.ring.every b n) l;
    marked = h.marked;
    agrees = h.agrees;
    stored = h.stored;
  }

-- A panic, or something with the property; the fuel does not run out.
pub data Ensures {ℓ κ} {A : Type ℓ} (P : A → Type κ) : Outcome A → Type (ℓ ⊔ κ) where
  returned : {a : A} → P a → Ensures P (done a)
  panicked : Ensures P panics

member_bounded :
    (order before behind : List ℕ) (b : ℕ)
    → All (λ j. j < nbuf) order
    → order ≡ before ++ b ∷ behind
    → b < nbuf
member_bounded order ys zs b a e =
    (All-append_right (λ j. j < nbuf) ys (b ∷ zs) (subst (λ r. All (λ j. j < nbuf) r) e a)).0

Got-Coherent :
    (dev blockno : ℕ) (c : Bcache) (order : List ℕ) (v : Blocks) (r : Outcome (ℕ × Bcache))
    → Coherent c order v
    → Got dev blockno c order r
    → Ensures (λ r. Coherent r.1 order v × (r.0 < nbuf)) r
unfolding Apart
Got-Coherent dev blockno c order v r h (hit {b} ys zs e t a) =
    let n = member_bounded order ys zs b h.ring.bounded e in
    returned (
      keep_Coherent c order v h b n (take_ref (c.buf b))
          (Once-first c.buf order ys zs b dev blockno _ h.ring.apart.1 h.once e a t refl refl) refl
          refl refl refl refl,
      n,
    )
Got-Coherent dev blockno c order v r h (recycled {b} ys zs m e u a) =
    let n = member_bounded order ys zs b h.ring.bounded e in
    let x = recycle dev blockno (c.buf b) in
    returned (
      put_Coherent c order v h b x c.disk v
          (Once-new c.buf order b dev blockno x h.ring.apart.1 h.once m refl refl)
          (λ q. absurd (ground (arith, q))) (λ q. absurd (ground (arith, q))) (λ j k q w. refl)
          (λ d k q. h.stored d k (unmarked_before c order v h b x d k (λ w. ground (arith, u)) q)),
      n,
    )
Got-Coherent dev blockno c order v r h (no_buffer m u) = panicked

pub bget-Coherent :
    (dev blockno : ℕ) (c : Bcache) (order : List ℕ) (v : Blocks)
    → Coherent c order v
    → Ensures (λ r. Coherent r.1 order v × (r.0 < nbuf)) (bget dev blockno c)
bget-Coherent dev blockno c order v h =
    Got-Coherent dev blockno c order v (bget dev blockno c) h (bget-Got dev blockno c order h.ring)
