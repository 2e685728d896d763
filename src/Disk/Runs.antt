-- ===== src/Disk/Runs.antt =====
-- Requests are served in the order in which they come in.
use ztl_os.Base.{ap}
use ztl_os.Base.{◌∙◌}
use ztl_os.Disk.{Event, asks, interrupts, idle_disk, run}
use ztl_os.Base.{update_ne}
use ztl_os.Base.{sym}
use ztl_os.Base.{subst}
use ztl_os.Base.{update_self}
use ztl_os.Base.{All-append}
use ztl_os.Base.{
  ℕ, ◌≡◌, ◌≢◌, ◌<◌, List, [], ◌∷◌, ◌++◌, Option, none, some, All, arith, refl, update, false, ◌==◌,
}
use ztl_os.Buffers.{nbuf}
use ztl_os.Buffers.Ring.{Apart}
use ztl_os.Disk.{Ide, idestart, request, ideintr}
use ztl_os.Disk.Queue.{Queued, Queued-update, put_behind-Queued, length-Apart}

abbrev pub first : List ℕ → Option ℕ
first [] = none
first (x ∷ xs) = some x

-- The queue holds the pending requests, and the disk works on the first of them.
pub record IsIde (s : Ide) (pending : List ℕ) : Type 0 where
  pub queued : Queued s.qnext s.idequeue pending
  pub apart : Apart pending
  pub bounded : All (λ b. b < nbuf) pending
  pub works : s.working ≡ first pending
  pub calm : s.clash ≡ false

Apart-last : (xs : List ℕ) (b : ℕ) → Apart xs → All (λ x. x ≢ b) xs → Apart (xs ++ b ∷ [])
unfolding Apart
Apart-last [] b d a = (tt, tt)
Apart-last (x ∷ xs) b d a =
    (All-append (λ y. y ≢ x) xs (b ∷ []) d.0 ((λ e. a.0 (sym e)), tt), Apart-last xs b d.1 a.1)

request-IsIde :
    (b : ℕ) (s : Ide) (pending : List ℕ)
    → b < nbuf
    → All (λ x. x ≢ b) pending
    → IsIde s pending
    → IsIde (request b s) (pending ++ b ∷ []) × ((request b s).served ≡ s.served)
unfolding request idestart Queued
request-IsIde b s [] l a h =
    rw (h.queued, h.works)
      (
        record {
          queued = (refl, update_self s.qnext b none);
          apart = Apart-last [] b h.apart tt;
          bounded = (l, tt);
          works = refl;
          calm = h.calm;
        },
        refl,
      )
request-IsIde b s (x ∷ xs) l a h =
    let other : (x == b) ≡ false = ground (arith, a.0) in
    let fits = length-Apart nbuf (x ∷ xs) h.apart h.bounded in
    let rest = Queued-update s.qnext (s.qnext x) xs b none a.1 h.queued.1 in
    rw (h.queued.0, other)
      (
        record {
          queued = (
            refl,
            put_behind-Queued nbuf x b (update s.qnext b none) xs (omega (arith, fits)) h.apart a
                (update_self s.qnext b none)
                (subst (λ q. Queued (update s.qnext b none) q xs)
                  (sym (update_ne s.qnext b none x a.0)) rest),
          );
          apart = Apart-last (x ∷ xs) b h.apart a;
          bounded = All-append (λ y. y < nbuf) (x ∷ xs) (b ∷ []) h.bounded (l, tt);
          works = h.works;
          calm = h.calm;
        },
        refl,
      )

interrupt-IsIde :
    (s : Ide) (x : ℕ) (xs : List ℕ)
    → IsIde s (x ∷ xs)
    → IsIde (ideintr s) xs × ((ideintr s).served ≡ x ∷ s.served)
unfolding ideintr idestart Queued Apart
interrupt-IsIde s x [] h =
    rw (h.queued.0, h.queued.1, ideintr)
      (record { queued = h.queued.1; apart = tt; bounded = tt; works = refl; calm = h.calm }, refl)
interrupt-IsIde s x (y ∷ ys) h =
    rw (h.queued.0, h.queued.1.0, ideintr)
      (
        record {
          queued = h.queued.1;
          apart = h.apart.1;
          bounded = h.bounded.1;
          works = refl;
          calm = h.calm;
        },
        refl,
      )

spurious-IsIde : (s : Ide) → IsIde s [] → IsIde (ideintr s) [] × ((ideintr s).served ≡ s.served)
unfolding ideintr Queued
spurious-IsIde s h =
    rw (h.queued, ideintr)
      (
        record { queued = h.queued; apart = h.apart; bounded = tt; works = refl; calm = h.calm },
        refl,
      )

-- What is asked of the disk: the pending requests, and those that are finished, the last one first.
pub record Fifo : Type 0 where
  pub pending : List ℕ
  pub finished : List ℕ

abbrev pub finish : List ℕ → List ℕ → Fifo
finish [] done = record { pending = []; finished = done }
finish (x ∷ xs) done = record { pending = xs; finished = x ∷ done }

abbrev pub expect : Event → Fifo → Fifo
expect (asks b) f = record { pending = f.pending ++ b ∷ []; finished = f.finished }
expect interrupts f = finish f.pending f.finished

pub fifo : List Event → Fifo → Fifo
fifo [] f = f
fifo (e ∷ es) f = fifo es (expect e f)

-- A buffer that is asked for is not pending: its process holds its lock and sleeps.
unfoldable pub Allowed : List Event → Fifo → Type 0
Allowed [] f = Unit {0}
Allowed (asks b ∷ es) f = (b < nbuf) × All (λ x. x ≢ b) f.pending × Allowed es (expect (asks b) f)
Allowed (interrupts ∷ es) f = Allowed es (expect interrupts f)

-- The disk does as is asked.
pub record Serves (s : Ide) (f : Fifo) : Type 0 where
  pub order : IsIde s f.pending
  pub served : s.served ≡ f.finished

interrupt-Serves :
    (s : Ide) (pending finished : List ℕ)
    → IsIde s pending
    → s.served ≡ finished
    → Serves (ideintr s) (finish pending finished)
interrupt-Serves s [] done h e =
    let r = spurious-IsIde s h in record { order = r.0; served = r.1 ∙ e }
interrupt-Serves s (x ∷ xs) done h e =
    let r = interrupt-IsIde s x xs h in record { order = r.0; served = r.1 ∙ ap (λ t. x ∷ t) e }

run-Serves :
    (es : List Event) (s : Ide) (f : Fifo)
    → Allowed es f
    → Serves s f
    → Serves (run es s) (fifo es f)
unfolding run fifo Allowed
run-Serves [] s f a h = h
run-Serves (asks b ∷ es) s f a h =
    let r = request-IsIde b s f.pending a.0 a.1 h.order in
    run-Serves es (request b s) (expect (asks b) f) a.2
      (record { order = r.0; served = r.1 ∙ h.served })
run-Serves (interrupts ∷ es) s f a h =
    run-Serves es (ideintr s) (expect interrupts f) a
      (interrupt-Serves s f.pending f.finished h.order h.served)

abbrev pub no_requests : Fifo
no_requests = record { pending = []; finished = [] }

-- In every sequence of requests for buffers that are not pending and of interrupts, the queue in
-- memory is the list of the pending requests in the order in which they came in, the disk works on
-- the first of them and on nothing if there is none, `idestart` is never called while the disk
-- works, and the requests are finished in that order.
pub run-fifo :
    (es : List Event) → Allowed es no_requests → Serves (run es idle_disk) (fifo es no_requests)
unfolding Queued Apart
run-fifo es a = run-Serves es idle_disk no_requests a (record {
  order = record { queued = refl; apart = tt; bounded = tt; works = refl; calm = refl };
  served = refl;
})
