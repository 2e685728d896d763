-- ===== src/Buffers/Start.antt =====
-- The cache that `binit` sets up.
use ztl_os.Base.{◌==◌, Bool-cases}
use ztl_os.Buffers.Once.{Once}
use ztl_os.Base.{ap}
use ztl_os.Base.{Bool-cases}
use ztl_os.Base.{
  List, [], ◌∷◌, ℕ, zero, suc, ◌≡◌, ◌≢◌, ◌<◌, ◌≤◌, arith, refl, inl, inr, All, length,
}
use ztl_os.Buffers.{head, nbuf, binit, binit_loop}
use ztl_os.Buffers.Ring.{Linked, Apart, link_first-Linked}
use ztl_os.Buffers.Order.{Among, here, there}
use ztl_os.Buffers.Contents.{Blocks, Coherent}

-- The buffers before the `k`-th, the last one first.
down : ℕ → List ℕ
down zero = []
down (suc k) = k ∷ down k

down_every : (P : ℕ → Type 0) (k : ℕ) → ((j : ℕ) → j < k → P j) → All P (down k)
unfolding down
down_every P zero h = tt
down_every P (suc k) h = (h k (omega arith), down_every P k (λ j l. h j (omega (arith, l))))

Apart-down : (k : ℕ) → Apart (down k)
unfolding down Apart
Apart-down zero = tt
Apart-down (suc k) = (down_every (λ j. j ≢ k) k (λ j l. omega (arith, l)), Apart-down k)

length-down : (k : ℕ) → length (down k) ≡ k
unfolding down
length-down zero = refl
length-down (suc k) = ap suc (length-down k)

Among-down : (k j : ℕ) → j < k → Among j (down k)
unfolding down
Among-down zero j l = absurd (omega arith)
Among-down (suc k) j l = elim (Bool-cases (k == j)) [
  | inl same ↦ here (ground (arith, same))
  | inr other ↦ there (Among-down k j (ground (arith, other, l)))
]

loop-Linked :
    (k : ℕ)
    → k ≤ nbuf
    → Linked (binit_loop k (record { next = λ i. head; prev = λ i. head })) head (down k) head
unfolding down Linked Apart binit_loop
loop-Linked zero l = (refl, refl)
loop-Linked (suc k) l =
    link_first-Linked k (binit_loop k (record { next = λ i. head; prev = λ i. head })) (down k)
      (
        (omega (arith, l), down_every (λ j. j ≢ head) k (λ j m. omega (arith, m, l))),
        (down_every (λ j. j ≢ k) k (λ j m. omega (arith, m)), Apart-down k),
      )
      (loop-Linked k (omega (arith, l)))

pub start_order : List ℕ
start_order = down nbuf

pub binit-Coherent : (disk : Blocks) → Coherent (binit disk) start_order disk
unfolding binit start_order Once Apart
binit-Coherent disk = record {
  ring = record {
    linked = loop-Linked nbuf (omega arith);
    apart = (down_every (λ j. j ≢ head) nbuf (λ j l. omega (arith, l)), Apart-down nbuf);
    size = length-down nbuf;
    bounded = down_every (λ j. j < nbuf) nbuf (λ j l. l);
    every = λ b l. Among-down nbuf b l;
  };
  once = λ x y h e. refl;
  marked = λ b l e. absurd (ground (arith, e));
  agrees = λ b l e. absurd (ground (arith, e));
  stored = λ dev blockno h. refl;
}
