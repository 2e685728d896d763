-- ===== src/Buffers/Exclusive.antt =====
-- In every system that is reached, a block has one holder, which reads what was written last.
use ztl_os.Buffers.Preserved.{drop_IsShared}
use ztl_os.Buffers.Preserved.{release_IsShared}
use ztl_os.Buffers.Users.{count_one}
use ztl_os.Buffers.Preserved.{write_IsShared}
use ztl_os.Buffers.Users.{locks}
use ztl_os.Buffers.Preserved.{store_IsShared}
use ztl_os.Buffers.Users.{count}
use ztl_os.Buffers.Preserved.{lock_IsShared}
use ztl_os.Buffers.Users.{count_none}
use ztl_os.Buffers.Once.{Once-unique}
use ztl_os.Buffers.Preserved.{get_IsShared}
use ztl_os.Base.{◌==◌, ◌≤◌, sym}
use ztl_os.Buffers.Start.{binit-Coherent}
use ztl_os.Buffers.{binit}
use ztl_os.Base.{◌≡◌, ◌<◌, ℕ, List, Bool, true, arith}
use ztl_os.Buffers.{is_block}
use ztl_os.Buffers.Contents.{Blocks}
use ztl_os.Buffers.Users.{
  System, idle, holds, Step, get, lock, store, write, release, drop, effect, Reached, starts, steps,
  nhands,
}
use ztl_os.Buffers.Shared.{IsShared}
use ztl_os.Buffers.Preserved.{held_valid}
use ztl_os.Buffers.Start.{start_order}

Step-IsShared :
    {disk1 : Bool} {s t : System} {order : List ℕ} {v : Blocks}
    → (m : Step disk1 s t) → IsShared s order v
    → (order' : List ℕ) × IsShared t order' (effect m v)
Step-IsShared {disk1} {s} {order} {v} (get p dev blockno b {c} n at e) h =
    (order, get_IsShared disk1 s order v h p b n dev blockno c at e)
Step-IsShared {disk1} {s} {order} {v} (lock p b {c} n at f e) h =
    (order, lock_IsShared disk1 s order v h p b n c at f e)
Step-IsShared {disk1} {s} {order} {v} (store p b d n at) h =
    (order, store_IsShared disk1 s order v h p b n d at)
Step-IsShared {disk1} {s} {order} {v} (write p b {c} n at e) h =
    (order, write_IsShared disk1 s order v h p b n c at e)
Step-IsShared {disk1} {s} {order} {v} (release p b {c} n at e) h =
    (order, release_IsShared disk1 s order v h p b n c at e)
Step-IsShared {disk1} {s} {order} {v} (drop p b n at) h = drop_IsShared disk1 s order v h p b n at

start-IsShared :
    (disk : Blocks) → IsShared (record { cache = binit disk; place = λ p. idle }) start_order disk
unfolding binit
start-IsShared disk = record {
  coherent = binit-Coherent disk;
  refs = λ b l. sym (count_none nhands);
  locked = λ b l. sym (count_none nhands);
  placed = λ p l. tt;
  holding = λ b l e. absurd (ground (arith, e));
}

pub Reached-IsShared :
    {disk1 : Bool} {disk : Blocks} {s : System} {v : Blocks}
    → Reached disk1 disk s v
    → (order : List ℕ) × IsShared s order v
Reached-IsShared {disk} starts = (start_order, start-IsShared disk)
Reached-IsShared (steps r m) = let h = Reached-IsShared r in Step-IsShared m h.1

same_number : (b : ℕ) → (b == b) ≡ true
same_number b = ground arith

module _ {disk1 : Bool} {disk : Blocks} {s : System} {v : Blocks} (r : Reached disk1 disk s v) where
  -- In every interleaving of the calls by processes that may hold several buffers each, where who
  -- writes to a buffer marks it as one step, the hand that holds a buffer finds it locked and valid,
  -- and its bytes are those that were last written to a buffer of that block, or the disk's at the
  -- start if there are none.
  pub holder_reads :
      (p b : ℕ)
      → p < nhands
      → s.place p ≡ holds b
      → ((s.cache.buf b).locked ≡ true)
        × ((s.cache.buf b).valid ≡ true)
        × ((s.cache.buf b).bytes ≡ v (s.cache.buf b).dev (s.cache.buf b).blockno)
  holder_reads p b n at =
      let h = Reached-IsShared r in
      let k = held_valid disk1 s h.0 v h.1 p b n at in (k.2, k.3, h.1.coherent.agrees b k.0 k.3)

  -- In every interleaving of those calls, two hands that hold buffers of the same block are one: so no
  -- two processes hold a block, and none holds it twice.
  pub one_holder :
      (p q b d : ℕ)
      → p < nhands
      → q < nhands
      → s.place p ≡ holds b
      → s.place q ≡ holds d
      → is_block (s.cache.buf b).dev (s.cache.buf b).blockno (s.cache.buf d) ≡ true
      → p ≡ q
  one_holder p q b d n m at to same =
      let h = Reached-IsShared r in
      let k = held_valid disk1 s h.0 v h.1 p b n at in
      let i = held_valid disk1 s h.0 v h.1 q d m to in
      let e : b ≡ d =
        Once-unique s.cache.buf h.0 b d h.1.coherent.once (h.1.coherent.ring.every b k.0)
          (h.1.coherent.ring.every d i.0) same k.1 i.1 in
      let single : count (λ j. locks b (s.place j)) nhands ≤ 1 =
        ground (arith, h.1.locked b k.0, k.2) in
      count_one (λ j. locks b (s.place j)) p q nhands n m (rw at (same_number b))
        (rw (to, e) (same_number d)) single
