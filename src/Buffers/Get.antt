-- ===== src/Buffers/Get.antt =====
-- What `bget` returns.
use ztl_os.Base.{◌==◌, ◌&&◌, not, ◌+◌, ◌%◌, update, u32_mod}
use ztl_os.Base.{List, ◌∷◌, ◌++◌, ℕ, true, false, ◌≡◌, All}
use ztl_os.Buffers.{
  Bcache, Outcome, done, panics, bget, bget_cached, bget_recycle, Search, is_block, is_unused,
}
use ztl_os.Buffers.Walks.{follow-First, follow-Last, First, first_at, Last, last_at}
use ztl_os.Buffers.Order.{IsRing}

-- The block's buffer with one more reference; or, when no buffer has the block, the unused and clean
-- buffer that was used least recently, made the block's; or a panic, when no buffer has the block
-- and each is used or dirty.
pub data Got (dev blockno : ℕ) (c : Bcache) (order : List ℕ) : Outcome (ℕ × Bcache) → Type 0 where
  hit :
      {b : ℕ} (before behind : List ℕ)
      → order ≡ before ++ b ∷ behind
      → ((c.buf b).dev == dev && (c.buf b).blockno == blockno) ≡ true
      → All (λ j. ((c.buf j).dev == dev && (c.buf j).blockno == blockno) ≡ false) before
      → Got dev blockno c order (
          done (
            b,
            record c {
              buf = update c.buf b (record (c.buf b) { refcnt = ((c.buf b).refcnt + 1) % u32_mod });
            },
          ))
  recycled :
      {b : ℕ} (before behind : List ℕ)
      → All (λ j. ((c.buf j).dev == dev && (c.buf j).blockno == blockno) ≡ false) order
      → order ≡ before ++ b ∷ behind
      → ((c.buf b).refcnt == 0 && not (c.buf b).dirty) ≡ true
      → All (λ j. ((c.buf j).refcnt == 0 && not (c.buf j).dirty) ≡ false) behind
      → Got dev blockno c order (
          done (
            b,
            record c {
              buf = update c.buf b (record {
                valid = false;
                dirty = false;
                dev = dev;
                blockno = blockno;
                locked = (c.buf b).locked;
                refcnt = 1;
                bytes = (c.buf b).bytes;
              });
            },
          ))
  no_buffer :
      All (λ j. ((c.buf j).dev == dev && (c.buf j).blockno == blockno) ≡ false) order
      → All (λ j. ((c.buf j).refcnt == 0 && not (c.buf j).dirty) ≡ false) order
      → Got dev blockno c order panics

module _ (dev blockno : ℕ) (c : Bcache) (order : List ℕ) where
  recycled-Got :
      {s : Search}
      → All (λ j. is_block dev blockno (c.buf j) ≡ false) order
      → Last (λ j. is_unused (c.buf j)) order s
      → Got dev blockno c order (bget_recycle dev blockno c s)
  unfolding bget_recycle
  recycled-Got m (last_at ys zs e t a) = recycled ys zs m e t a
  recycled-Got m (Last.none_at_all a) = no_buffer m a

  cached-Got :
      {s : Search}
      → First (λ j. is_block dev blockno (c.buf j)) order s
      → IsRing c.links order
      → Got dev blockno c order (bget_cached dev blockno c s)
  unfolding bget_cached
  cached-Got (first_at ys zs e t a) r = hit ys zs e t a
  cached-Got (First.none_at_all m) r =
      recycled-Got m (follow-Last c.links (λ j. is_unused (c.buf j)) r)

-- On a ring of buffers in the order of their last use, `bget` returns the block's buffer, the first
-- of that order that is the block's, with one more reference. If no buffer is the block's, it makes
-- the unused and clean buffer that is last in the order the block's, not valid and with one
-- reference, and it panics exactly if there is no such buffer. Its loops always end.
pub bget-Got :
    (dev blockno : ℕ) (c : Bcache) (order : List ℕ)
    → IsRing c.links order
    → Got dev blockno c order (bget dev blockno c)
unfolding bget
bget-Got dev blockno c order r =
    cached-Got dev blockno c order (follow-First c.links (λ j. is_block dev blockno (c.buf j)) r) r
