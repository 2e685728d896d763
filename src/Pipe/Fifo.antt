-- ===== src/Pipe/Fifo.antt =====
-- Every interleaving of calls on one pipe: bytes come out in the order in which they went in, and
-- no process that sleeps on the pipe misses the change that it waits for.
use ztl_os.Base.{
  length-take, inr, inl, length-append, fail, length, ◌<◌, Bool-cases, sym, ℕ, ◌≡◌, refl, ap, ◌++◌,
  Bool, true, false, List, [], ◌∷◌, arith, take, append_assoc, append-nil, take-append-drop,
  if◌then◌else◌, ◌||◌, ◌&&◌,
}
use ztl_os.Pipe.{
  returned, ReadStretch, Pipe, pipewrite, piperead, pipeclose, Reading, refused, waiting, copied,
  Chan, on_nread, on_nwrite, is_full, is_empty, pipe_size,
}
use ztl_os.Pipe.Window.{is_empty_iff, length-window, IsValid, contents, count}
use ztl_os.Pipe.Refine.{copy_out_lem, pipewrite-woken, space, pipewrite_lem}

-- One stretch of a call, up to its return or its next `sleep`: a first call, or the continuation
-- of a call that was woken. `killed` is the flag of the process that runs it.
pub data Op : Type 0 where
  writing : (killed : Bool) → (n : ℕ) → List ℕ → Op
  reading : (killed : Bool) → (n : ℕ) → Op
  closing : (writable : Bool) → Op

abbrev pub bytes_of : Reading → List ℕ
bytes_of refused = []
bytes_of waiting = []
bytes_of (copied bs) = bs

pub record Effect : Type 0 where
  pub pipe : Pipe
  pub woken : List Chan
  pub delivered : List ℕ

unfoldable pub perform : Op → Pipe → Effect
perform (writing killed n bs) p =
    let s = pipewrite killed n bs p in record { pipe = s.pipe; woken = s.woken; delivered = [] }
perform (reading killed n) p =
    let s = piperead killed n p in
    record { pipe = s.pipe; woken = s.woken; delivered = bytes_of s.reading }
perform (closing writable) p =
    let s = pipeclose p writable in record { pipe = s.pipe; woken = s.woken; delivered = [] }

-- the bytes of a call that fit when it runs
abbrev pub accepted : Op → Pipe → List ℕ
accepted (writing killed n bs) p = take (space p) bs
accepted (reading killed n) p = []
accepted (closing writable) p = []

pub record History : Type 0 where
  pub pipe : Pipe
  pub stored : List ℕ
  pub delivered : List ℕ

unfoldable pub run : List Op → Pipe → History
run [] p = record { pipe = p; stored = []; delivered = [] }
run (op ∷ ops) p =
    let e = perform op p in
    let h = run ops e.pipe in
    record {
      pipe = h.pipe;
      stored = accepted op p ++ h.stored;
      delivered = e.delivered ++ h.delivered;
    }

-- What one stretch does to the queue of bytes.
abbrev Balanced : Op → Pipe → Effect → Type 0
Balanced op p e = IsValid e.pipe × (e.delivered ++ contents e.pipe ≡ contents p ++ accepted op p)

blocked_keeps :
    (killed : Bool) {p : Pipe}
    → IsValid p
    → let s : ReadStretch =
        if killed
        then record { reading = refused; woken = []; pipe = p }
        else record { reading = waiting; woken = []; pipe = p } in
      IsValid s.pipe × (bytes_of s.reading ++ contents s.pipe ≡ contents p ++ [])
blocked_keeps true {p} v = (v, sym (append-nil (contents p)))
blocked_keeps false {p} v = (v, sym (append-nil (contents p)))

read-Balanced :
    (killed : Bool) (n : ℕ) {p : Pipe}
    → IsValid p
    → Balanced (reading killed n) p (perform (reading killed n) p)
unfolding perform piperead
read-Balanced killed n {p} v = elim (Bool-cases (is_empty p && p.writeopen)) [
  | inl wait ↦ rw wait (blocked_keeps killed v)
  | inr go ↦
      let (valid, front, rest, r, w) = copy_out_lem n v in
      rw go (valid, cc (front, rest, take-append-drop n (contents p), append-nil (contents p)))
]

-- Each stretch delivers from the front of the queue and stores at its end.
perform-Balanced : (op : Op) {p : Pipe} → IsValid p → Balanced op p (perform op p)
unfolding perform pipeclose
perform-Balanced (writing killed n bs) v =
    let (valid, held, out, r, w, x) = pipewrite_lem killed n bs v in (valid, held)
perform-Balanced (reading killed n) v = read-Balanced killed n v
perform-Balanced (closing true) {p} v = (omega arith, sym (append-nil (contents p)))
perform-Balanced (closing false) {p} v = (omega arith, sym (append-nil (contents p)))

-- Over any sequence of writes, reads and closes by any processes, what was delivered, followed by
-- what the pipe still holds, is what it held at first, followed by what it accepted; and the pipe
-- stays valid.
pub run_fifo :
    (ops : List Op) {p : Pipe}
    → IsValid p
    → let h = run ops p in
      IsValid h.pipe × (h.delivered ++ contents h.pipe ≡ contents p ++ h.stored)
unfolding run
run_fifo [] {p} v = (v, sym (append-nil (contents p)))
run_fifo (op ∷ ops) {p} v =
    let e = perform op p in
    let (valid, moved) = perform-Balanced op v in
    let h = run ops e.pipe in
    let (valid', moved') = run_fifo ops valid in
    (
      valid',
      cc (
        moved,
        moved',
        append_assoc e.delivered h.delivered (contents h.pipe),
        append_assoc e.delivered (contents e.pipe) h.stored,
        append_assoc (contents p) (accepted op p) h.stored,
      ),
    )

abbrev same_chan : Chan → Chan → Bool
same_chan on_nread on_nread = true
same_chan on_nwrite on_nwrite = true
same_chan _ _ = false

abbrev pub wakes : Chan → List Chan → Bool
wakes c [] = false
wakes c (d ∷ ds) = same_chan c d || wakes c ds

abbrev pub killed_writing : Op → Bool
killed_writing (writing killed n bs) = killed
killed_writing (reading killed n) = false
killed_writing (closing writable) = false

-- what a sleeper on each channel waits for the end of
abbrev pub is_waited : Chan → Pipe → Bool
is_waited on_nread p = is_empty p && p.writeopen
is_waited on_nwrite p = is_full p && p.readopen

write_changes :
    (killed : Bool) (n : ℕ) (bs : List ℕ) {p : Pipe}
    → IsValid p
    → is_full p ≡ true
    → (pipewrite killed n bs p).pipe ≡ p
unfolding pipewrite
write_changes killed n [] v h = refl
write_changes killed n (b ∷ bs) {p} v h = rw h (ground arith)

read_wakes :
    (killed : Bool) (n : ℕ) {p : Pipe}
    → IsValid p
    → is_full p ≡ true
    → wakes on_nwrite (piperead killed n p).woken ≡ true
unfolding piperead
read_wakes killed n {p} v h = let some_left : is_empty p ≡ false = ground arith in rw some_left refl

read_stays :
    (killed : Bool) (n : ℕ) (p : Pipe)
    → is_waited on_nread p ≡ true
    → is_waited on_nread (piperead killed n p).pipe ≡ true
unfolding piperead
read_stays killed n p h = rw h (either killed)
  where
    either :
        (k : Bool)
        → let s : ReadStretch =
            if k
            then record { reading = refused; woken = []; pipe = p }
            else record { reading = waiting; woken = []; pipe = p } in
          is_waited on_nread s.pipe ≡ true
    either true = h
    either false = h

write_stays :
    (killed : Bool) (n : ℕ) (bs : List ℕ) {p : Pipe}
    → IsValid p
    → is_waited on_nwrite p ≡ true
    → is_waited on_nwrite (pipewrite killed n bs p).pipe ≡ true
write_stays killed n bs v h = let same = write_changes killed n bs v (ground arith) in rw same h

-- No wakeup is lost while the read end is open, but for the writes of killed processes: any other
-- stretch that ends the condition under which readers sleep (no byte and an open write end), or that
-- under which writers sleep (no room and an open read end), wakes them.
pub perform-wakes :
    (c : Chan) (op : Op) {p : Pipe}
    → IsValid p
    → killed_writing op ≡ false
    → p.readopen ≡ true
    → is_waited c p ≡ true
    → is_waited c (perform op p).pipe ≡ false
    → wakes c (perform op p).woken ≡ true
unfolding perform pipeclose
perform-wakes on_nread (closing true) v k o h g = refl
perform-wakes on_nread (closing false) v k o h g = cc
perform-wakes on_nread (writing killed n bs) {p} v k o h g =
    ground (arith, pipewrite-woken killed n bs v)
perform-wakes on_nread (reading killed n) {p} v k o h g = cc (read_stays killed n p h)
perform-wakes on_nwrite (closing true) v k o h g = cc
perform-wakes on_nwrite (closing false) v k o h g = refl
perform-wakes on_nwrite (writing killed n bs) v k o h g = cc (write_stays killed n bs v h)
perform-wakes on_nwrite (reading killed n) v k o h g = read_wakes killed n v (ground arith)

-- A killed process that writes more than fits into an empty pipe leaves bytes in it, returns -1
-- and wakes no reader, although the readers' condition for sleeping has ended.
pub killed_write_wakes_none :
    (n : ℕ) (bs : List ℕ) {p : Pipe}
    → IsValid p
    → is_waited on_nread p ≡ true
    → pipe_size < length bs
    → let s = pipewrite true n bs p in
      (s.outcome ≡ returned fail) × (is_waited on_nread s.pipe ≡ false) × (s.woken ≡ [])
killed_write_wakes_none n bs {p} v h l =
    let (valid, held, out, nr, ro, wo) = pipewrite_lem true n bs v in
    let s = pipewrite true n bs p in
    let full : count s.pipe ≡ pipe_size = omega (
      arith,
      ap length held,
      length-append (contents p) (take (space p) bs),
      length-window p.buf p.nread (count p),
      length-window s.pipe.buf s.pipe.nread (count s.pipe),
      length-take (space p) bs,
    ) in
    (ground arith, ground (arith, is_empty_iff valid), ground (arith, pipewrite-woken true n bs v))
