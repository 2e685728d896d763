-- ===== src/Buffers/Tests.antt =====
-- Process 3 reads block 5 of disk 1 and writes to it.
use ztl_os.Base.{ℕ, [], ◌∷◌, ◌≡◌, true, refl, arith, update}
use ztl_os.Buffers.{
  Bcache, bget, bget_cached, bget_recycle, binit, binit_loop, link_first, follow, put_buf, recycle,
  acquiresleep, serve, bread_block, iderw, zero_buf, done,
}
use ztl_os.Buffers.Contents.{Blocks, put_block}
use ztl_os.Buffers.Users.{System, idle, wants, holds, get, lock, store, Reached, starts, steps}
use ztl_os.Buffers.Get.{Got, bget-Got}
use ztl_os.Buffers.Start.{start_order, binit-Coherent}
use ztl_os.Buffers.Exclusive.{holder_reads, one_holder}

abbrev blank : Blocks
blank dev blockno = 0 ∷ []

abbrev got_block : Bcache
got_block = put_buf 0 (recycle 1 5 zero_buf) (binit blank)

abbrev read_in : Bcache
read_in = serve 0 (put_buf 0 (acquiresleep (got_block.buf 0)) got_block)

abbrev reading : System
reading = record { cache = got_block; place = update (λ p. idle) 3 (wants 0) }

abbrev holding : System
holding = record { cache = read_in; place = update reading.place 3 (holds 0) }

abbrev written : System
written = record holding {
  cache = put_buf 0 (record (read_in.buf 0) { bytes = 7 ∷ []; dirty = true }) read_in;
}

gets_block : bget 1 5 (binit blank) ≡ done (0, got_block)
unfolding bget bget_cached bget_recycle follow binit binit_loop link_first
gets_block = refl

reads_in : bread_block true 0 (put_buf 0 (acquiresleep (got_block.buf 0)) got_block) ≡ done read_in
unfolding bread_block iderw binit
reads_in = refl

written-Reached :
    Reached true blank written
      (put_block blank (read_in.buf 0).dev (read_in.buf 0).blockno (7 ∷ []))
unfolding binit
written-Reached =
    steps
      (steps (steps starts (get 3 1 5 0 (omega arith) refl gets_block))
        (lock 3 0 (omega arith) refl refl reads_in))
      (store 3 0 (7 ∷ []) (omega arith) refl)

holder_reads_example :
    ((written.cache.buf 0).locked ≡ true)
    × ((written.cache.buf 0).valid ≡ true)
    × ((written.cache.buf 0).bytes
        ≡ put_block blank
            (read_in.buf 0).dev
            (read_in.buf 0).blockno
            (7 ∷ [])
            (written.cache.buf 0).dev
            (written.cache.buf 0).blockno)
holder_reads_example = holder_reads written-Reached 3 0 (omega arith) refl

one_holder_example : ◌≡◌ {A = ℕ} 3 3
unfolding serve
one_holder_example = one_holder written-Reached 3 3 0 0 (omega arith) (omega arith) refl refl refl

bget-Got_example : Got 1 5 (binit blank) start_order (bget 1 5 (binit blank))
bget-Got_example = bget-Got 1 5 (binit blank) start_order (binit-Coherent blank).ring
