-- ===== src/Disk/Tests.antt =====
-- Two requests, an interrupt, a request and an interrupt.
use ztl_os.Base.{List, [], ◌∷◌, ◌≡◌, refl, arith}
use ztl_os.Disk.{Event, asks, interrupts, idle_disk, run, request, put_behind, ideintr, idestart}
use ztl_os.Disk.Runs.{Allowed, Serves, fifo, no_requests, run-fifo}

abbrev script : List Event
script = asks 4 ∷ asks 2 ∷ interrupts ∷ asks 4 ∷ interrupts ∷ []

script-Allowed : Allowed script no_requests
unfolding Allowed
script-Allowed = (
  omega arith,
  tt,
  (
    omega arith,
    ((λ e. absurd (omega (arith, e))), tt),
    (omega arith, ((λ e. absurd (omega (arith, e))), tt), tt),
  ),
)

run-fifo_example : Serves (run script idle_disk) (fifo script no_requests)
run-fifo_example = run-fifo script script-Allowed

served_in_order : (run script idle_disk).served ≡ 2 ∷ 4 ∷ []
unfolding run request put_behind ideintr idestart
served_in_order = refl
