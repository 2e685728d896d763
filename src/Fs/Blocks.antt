-- ===== src/Fs/Blocks.antt =====
-- Which block `balloc` takes, and what it does to the others.
use native.Mathlib.Decide.{dec_lt}
use ztl_os.Base.{
  inl, inr, ℕ, zero, suc, ◌+◌, ◌/◌, ◌%◌, ◌<◌, ◌≤◌, ◌≡◌, refl, sym, ap₂, ◌∙◌, arith, Bool, true,
  false, Option, none, some, ◌==◌, ltb, if◌then◌else◌, Bool-cases,
}
use ztl_os.Fs.{Fs, bpb, bblock, find_bit, find_free, set_bit, bzero, balloc}

unfoldable pub in_use : Fs → ℕ → Bool
in_use fs b = fs.bits (bblock b fs) (b % bpb)

bit_at :
    (fs : Fs) (b bi : ℕ) → b % bpb ≡ 0 → bi < bpb → fs.bits (bblock b fs) bi ≡ in_use fs (b + bi)
unfolding in_use
bit_at fs b bi h l =
    let quotient : b / bpb ≡ (b + bi) / bpb = omega arith in
    let remainder : bi ≡ (b + bi) % bpb = omega arith in
    ap₂ (λ q r. fs.bits (q + fs.bmapstart) r) quotient remainder

-- All blocks from `from` up to `to` are in use, as far as there are any.
unfoldable pub AllUsed : Fs → (from to : ℕ) → Type 0
AllUsed fs from to = (i : ℕ) → from ≤ i → i < to → i < fs.size → in_use fs i ≡ true

-- The first free block from `from` on, if there is one below `to`.
data First (fs : Fs) (from to : ℕ) : Option ℕ → Type 0 where
  found :
      {j : ℕ}
      → from ≤ j
      → j < fs.size
      → in_use fs j ≡ false
      → AllUsed fs from j
      → First fs from to (some j)
  full : AllUsed fs from to → First fs from to none

-- a bit's number in its block as a block's number
abbrev shifted : ℕ → Option ℕ → Option ℕ
shifted b none = none
shifted b (some bi) = some (b + bi)

longer :
    {fs : Fs} {from from' to : ℕ} {r : Option ℕ}
    → from ≤ from'
    → AllUsed fs from from'
    → First fs from' to r
    → First fs from to r
unfolding AllUsed
longer a used (found b c d e) =
    found (omega arith) c d
      (λ i x y z. elim (dec_lt i _) [ yes low ↦ used i x low z | no high ↦ e i (omega arith) y z ])
longer a used (full e) =
    full
      (λ i x y z. elim (dec_lt i _) [ yes low ↦ used i x low z | no high ↦ e i (omega arith) y z ])

find_bit-First :
    (k b bi : ℕ) (fs : Fs)
    → b % bpb ≡ 0
    → bi + k ≡ bpb
    → First fs (b + bi) (b + bpb) (shifted b (find_bit k b bi fs))
unfolding find_bit AllUsed
find_bit-First zero b bi fs h e = full (λ i x y z. absurd (omega arith))
find_bit-First (suc k) b bi fs h e =
    let rest = find_bit-First k b (bi + 1) fs h (omega arith) in
    let same = bit_at fs b bi h (omega arith) in
    elim (Bool-cases (ltb (b + bi) fs.size)) [
      | inr past ↦ rw (past, find_bit) (full (λ i x y z. absurd (ground (arith, past))))
      | inl below ↦ elim (Bool-cases (fs.bits (bblock b fs) bi)) [
        | inr free ↦
            rw (find_bit, below, free)
              (found (omega arith) (ground (arith, below)) (sym same ∙ free)
                (λ i x y z. absurd (omega arith)))
        | inl used ↦
            rw (find_bit, below, used)
              (longer (omega arith)
                (λ i x y z. let here : i ≡ b + bi = omega arith in rw here (sym same ∙ used)) rest)
      ]
    ]

in_or_after :
    {fs : Fs} (b : ℕ) (r after : Option ℕ)
    → First fs (b + 0) (b + bpb) (shifted b r)
    → First fs (b + bpb) fs.size after
    → First fs b fs.size (elim r [ some bi ↦ some (b + bi) | none ↦ after ])
unfolding AllUsed
in_or_after b none after (full e) rest =
    longer (omega arith) (λ i x y z. e i (omega arith) y z) rest
in_or_after b (some bi) after (found x y z e) rest =
    found (omega arith) y z (λ i p q s. e i (omega arith) q s)

module _ (fs : Fs) where
  past_end : (b to : ℕ) → fs.size ≤ b → First fs b to none
  unfolding AllUsed
  past_end b to h = full (λ i x y z. absurd (omega (arith, h)))

  find_free-First :
      (fuel b : ℕ) → b % bpb ≡ 0 → fs.size ≤ b + fuel → First fs b fs.size (find_free fuel b fs)
  unfolding find_free
  find_free-First zero b h e = past_end b fs.size (omega (arith, e))
  find_free-First (suc fuel) b h e = elim (Bool-cases (ltb b fs.size)) [
    | inr past ↦ rw (find_free, past) (past_end b fs.size (ground (arith, past)))
    | inl below ↦
        let here = find_bit-First bpb b 0 fs h refl in
        let rest = find_free-First fuel (b + bpb) (omega (arith, h)) (omega (arith, e)) in
        rw (find_free, below)
          (in_or_after b (find_bit bpb b 0 fs) (find_free fuel (b + bpb) fs) here rest)
  ]

-- What `balloc` does: it takes the first free block, or panics where there is none.
pub data Allocates (fs : Fs) : Option (ℕ × Fs) → Type 0 where
  allocates :
      {a : ℕ}
      → a < fs.size
      → in_use fs a ≡ false
      → AllUsed fs 0 a
      → Allocates fs (some (a, bzero a (set_bit true a fs)))
  no_space : AllUsed fs 0 fs.size → Allocates fs none

taken :
    {fs : Fs} {r : Option ℕ}
    → First fs 0 fs.size r
    → Allocates fs (elim r [ none ↦ none | some b ↦ some (b, bzero b (set_bit true b fs)) ])
taken (found x y z e) = allocates y z e
taken (full e) = no_space e

-- `balloc` finds the lowest free block, marks it and clears it, and panics only on a full disk.
pub balloc-Allocates : (fs : Fs) → Allocates fs (balloc fs)
unfolding balloc
balloc-Allocates fs = taken (find_free-First fs fs.size 0 (omega arith) (omega arith))

-- `set_bit` changes the bit of one block.
pub in_use-set_bit :
    (fs : Fs) (v : Bool) (a b : ℕ) → in_use (set_bit v a fs) b ≡ (if b == a then v else in_use fs b)
unfolding in_use
in_use-set_bit fs v a b = ground arith
