-- ===== src/Pipe.antt =====
-- src/pipe.c: pipes. `pipealloc` stands with the file table.
--
-- A call runs under `p->lock` until it returns or sleeps, so that each function below is one
-- atomic stretch of the code: from the acquisition of the lock (a first call, or the return of
-- `sleep`) to its release (a return, or the next `sleep`). A sleeper that is woken runs the same
-- function again with the bytes that it has left. What `wakeup` is called on is part of the result.
pub mod Window
pub mod Refine
pub mod Fifo
mod Tests
use ztl_os.Base.{
  ℕ, zero, suc, ◌+◌, ◌-◌, ◌%◌, ◌^◌, Bool, true, false, not, ◌&&◌, ◌||◌, List, [], ◌∷◌, ◌==◌,
  if◌then◌else◌, update, u32_mod, Ret, fail, ok,
}

abbrev pub pipe_size : ℕ
pipe_size = 512

-- `struct pipe`; the array is a function of the index.
pub record Pipe : Type 0 where
  pub buf : ℕ → ℕ
  pub nread : ℕ
  pub nwrite : ℕ
  pub readopen : Bool
  pub writeopen : Bool

-- The addresses that processes sleep on.
pub data Chan : Type 0 where
  on_nread on_nwrite : Chan

pub data Outcome : Type 0 where
  returned : Ret → Outcome
  -- asleep, with the bytes still to be written
  asleep : List ℕ → Outcome

pub record Stretch : Type 0 where
  pub outcome : Outcome
  pub woken : List Chan
  pub pipe : Pipe

-- What `pipealloc` sets up in the page that it got.
pub new_pipe : (ℕ → ℕ) → Pipe
new_pipe page = record { buf = page; nread = 0; nwrite = 0; readopen = true; writeopen = true }

abbrev pub is_full : Pipe → Bool
is_full p = p.nwrite == (p.nread + pipe_size) % u32_mod

abbrev pub is_empty : Pipe → Bool
is_empty p = p.nread == p.nwrite

-- `p->data[p->nwrite++ % PIPESIZE] = b`
unfoldable pub put : Pipe → ℕ → Pipe
put p b = record p {
  buf = update p.buf (p.nwrite % pipe_size) b;
  nwrite = (p.nwrite + 1) % u32_mod;
}

-- `p->nread++`, after the byte at `p->data[p->nread % PIPESIZE]` was read
unfoldable pub advance : Pipe → Pipe
advance p = record p { nread = (p.nread + 1) % u32_mod }

-- `pipewrite(p, addr, n)`, with the bytes of `addr` that are not yet written.
unfoldable pub pipewrite : Bool → ℕ → List ℕ → Pipe → Stretch
pipewrite killed n [] p = record { outcome = returned (ok n); woken = on_nread ∷ []; pipe = p }
pipewrite killed n (b ∷ bs) p =
    if is_full p
    then if not p.readopen || killed
      then record { outcome = returned fail; woken = []; pipe = p }
      else record { outcome = asleep (b ∷ bs); woken = on_nread ∷ []; pipe = p }
    else pipewrite killed n bs (put p b)

-- The copying loop of `piperead`: the bytes that it stores at `addr`, and the pipe after it.
unfoldable pub copy_out : ℕ → Pipe → List ℕ × Pipe
copy_out zero p = ([], p)
copy_out (suc n) p =
    let (bs, p') = copy_out n (advance p) in
    if is_empty p then ([], p) else (p.buf (p.nread % pipe_size) ∷ bs, p')

pub data Reading : Type 0 where
  refused waiting : Reading
  copied : List ℕ → Reading

pub record ReadStretch : Type 0 where
  pub reading : Reading
  pub woken : List Chan
  pub pipe : Pipe

-- `piperead(p, addr, n)`; the number returned is the length of what was copied.
unfoldable pub piperead : Bool → ℕ → Pipe → ReadStretch
piperead killed n p =
    if is_empty p && p.writeopen
    then if killed
      then record { reading = refused; woken = []; pipe = p }
      else record { reading = waiting; woken = []; pipe = p }
    else let (bs, p') = copy_out n p in
      record { reading = copied bs; woken = on_nwrite ∷ []; pipe = p' }

pub record Closing : Type 0 where
  pub woken : List Chan
  pub freed : Bool
  pub pipe : Pipe

-- `pipeclose(p, writable)`
unfoldable pub pipeclose : Pipe → Bool → Closing
pipeclose p writable =
    let p' : Pipe =
      if writable then record p { writeopen = false } else record p { readopen = false } in
    record {
      woken = (if writable then on_nread else on_nwrite) ∷ [];
      freed = not p'.readopen && not p'.writeopen;
      pipe = p';
    }
