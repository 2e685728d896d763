-- ===== src/Pipe/Tests.antt =====
-- Runs of the pipe, and its theorems at concrete pipes.
use ztl_os.Pipe.{Pipe, pipewrite, piperead, on_nread, returned, copied, put, advance, copy_out}
use ztl_os.Pipe.Window.{IsValid, contents}
use ztl_os.Pipe.Fifo.{
  Op, writing, reading, closing, run, perform, run_fifo, perform-wakes, wakes,
  killed_write_wakes_none, is_waited,
}
use ztl_os.Base.{
  refl, ◌-◌, fail, ◌^◌, [], replicate, ◌==◌, ◌∷◌, true, List, ◌++◌, false, arith, if◌then◌else◌,
  ◌≡◌,
}

-- Two bytes, 8 and then 9, round the end of the array and of the counters.
abbrev wrapped : Pipe
wrapped = record {
  buf = λ i. if i == 511 then 8 else if i == 0 then 9 else 0;
  nread = 2 ^ 32 - 1;
  nwrite = 1;
  readopen = true;
  writeopen = true;
}

abbrev empty : Pipe
empty = record { buf = λ _. 0; nread = 5; nwrite = 5; readopen = true; writeopen = true }

wrapped-IsValid : IsValid wrapped
wrapped-IsValid = omega arith

contents-wrapped : contents wrapped ≡ 8 ∷ 9 ∷ []
contents-wrapped = refl

write_then_read :
    (piperead false 3 (pipewrite false 1 (7 ∷ []) wrapped).pipe).reading ≡ copied (8 ∷ 9 ∷ 7 ∷ [])
unfolding piperead pipewrite copy_out put advance
write_then_read = refl

abbrev script : List Op
script = writing false 2 (1 ∷ 2 ∷ []) ∷ reading false 3 ∷ closing true ∷ reading true 9 ∷ []

run_fifo_example :
    let h = run script wrapped in
    IsValid h.pipe × (h.delivered ++ contents h.pipe ≡ contents wrapped ++ h.stored)
run_fifo_example = run_fifo script wrapped-IsValid

perform-wakes_example : wakes on_nread (perform (writing false 1 (6 ∷ [])) empty).woken ≡ true
unfolding perform pipewrite put
perform-wakes_example =
    perform-wakes on_nread (writing false 1 (6 ∷ [])) {p = empty} (omega arith) refl refl refl refl

killed_write_wakes_none_example :
    let s = pipewrite true 600 (replicate 600 7) empty in
    (s.outcome ≡ returned fail) × (is_waited on_nread s.pipe ≡ false) × (s.woken ≡ [])
killed_write_wakes_none_example =
    killed_write_wakes_none 600 (replicate 600 7) {p = empty} (omega arith) refl (omega arith)
