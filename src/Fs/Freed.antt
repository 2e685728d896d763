-- ===== src/Fs/Freed.antt =====
-- Which blocks `bfree` and the loops of `itrunc` give back.
use ztl_os.Base.{
  ℕ, zero, suc, ◌+◌, ◌<◌, ◌≤◌, ◌≡◌, ◌≢◌, refl, ap, ◌∙◌, arith, Bool, true, false, not, ◌&&◌, ◌||◌,
  Option, none, some, inl, inr, ◌==◌, if◌then◌else◌, Bool-cases,
}
use ztl_os.Strings.Move.{in_range}
use ztl_os.Fs.{Fs, Inode, entry, with_addr, bfree, set_bit}
use ztl_os.Fs.Release.{free_listed}
use ztl_os.Fs.Blocks.{in_use, in_use-set_bit}

-- Block `b` is one of the addresses `f i`, `f (i + 1)`, … of `k` in all, where 0 is none.
unfoldable pub listed : (f : ℕ → ℕ) → (k i : ℕ) → ℕ → Bool
listed f zero i b = false
listed f (suc k) i b = (not (f i == 0) && (f i == b)) || listed f k (i + 1) b

-- The addresses are blocks in use, each once.
pub record Freeable (fs : Fs) (f : ℕ → ℕ) (k i : ℕ) : Type 0 where
  pub used : (j : ℕ) → i ≤ j → j < i + k → f j ≢ 0 → in_use fs (f j) ≡ true
  pub once : (j l : ℕ) → i ≤ j → j < i + k → i ≤ l → l < i + k → f j ≢ 0 → f j ≡ f l → j ≡ l

-- The same blocks but for the bits, which are those left in use.
pub data Frees (fs : Fs) (lost : ℕ → Bool) : Option Fs → Type 0 where
  frees :
      (bits : ℕ → ℕ → Bool)
      → ((b : ℕ) → in_use (record fs { bits = bits }) b ≡ (in_use fs b && not (lost b)))
      → Frees fs lost (some (record fs { bits = bits }))

pub bfree-Frees : (b : ℕ) (fs : Fs) → in_use fs b ≡ true → Frees fs (λ c. b == c) (bfree b fs)
unfolding bfree in_use
bfree-Frees b fs h =
    rw h (frees (set_bit false b fs).bits (λ c. in_use-set_bit fs false b c ∙ ground arith))

pub not_listed :
    (f : ℕ → ℕ) (k i b : ℕ)
    → ((j : ℕ) → i ≤ j → j < i + k → f j ≢ 0 → f j ≢ b)
    → listed f k i b ≡ false
unfolding listed
not_listed f zero i b h = refl
not_listed f (suc k) i b h =
    let here = h i (omega arith) (omega arith) in
    let rest = not_listed f k (i + 1) b (λ j x y. h j (omega arith) (omega arith)) in
    ground (arith, here, rest)

pub is_listed : (f : ℕ → ℕ) (k i j : ℕ) → i ≤ j → j < i + k → f j ≢ 0 → listed f k i (f j) ≡ true
unfolding listed
is_listed f zero i j a b n = absurd (omega arith)
is_listed f (suc k) i j a b n = elim (Bool-cases (i == j)) [
  | inl here ↦ let same : f i ≡ f j = ap f (ground (arith, here)) in ground (arith, same, n)
  | inr there ↦
      let rest = is_listed f k (i + 1) j (ground (arith, there, a)) (omega (arith, b)) n in
      ground (arith, rest)
]

pub listed-same :
    (f g : ℕ → ℕ) (k i b : ℕ) → ((j : ℕ) → i ≤ j → f j ≡ g j) → listed f k i b ≡ listed g k i b
unfolding listed
listed-same f g zero i b h = refl
listed-same f g (suc k) i b h =
    let here = h i (omega arith) in
    let rest = listed-same f g k (i + 1) b (λ j l. h j (omega arith)) in ground (arith, here, rest)

Frees-same :
    {fs : Fs} {lost lost' : ℕ → Bool} {r : Option Fs}
    → ((b : ℕ) → lost b ≡ lost' b)
    → Frees fs lost r
    → Frees fs lost' r
Frees-same h (frees bits e) = frees bits (λ b. ground (arith, e b, h b))

-- the rest of the blocks, when one was freed
pub later :
    (f : ℕ → ℕ) (k i : ℕ) (fs fs' : Fs)
    → ((b : ℕ) → in_use fs' b ≡ (in_use fs b && not (f i == b)))
    → f i ≢ 0
    → Freeable fs f (suc k) i
    → Freeable fs' f k (i + 1)
later f k i fs fs' e n v = record {
  used = λ j a b m.
      let used_now = v.used j (omega (arith, a)) (omega (arith, b)) m in
      let other : f i ≢ f j = λ same. omega (
        arith,
        a,
        v.once i j (omega arith) (omega arith) (omega (arith, a)) (omega (arith, b)) n same,
      ) in
      ground (arith, e (f j), used_now, other);
  once = λ j l a b c d.
      v.once j l (omega (arith, a)) (omega (arith, b)) (omega (arith, c)) (omega (arith, d));
}

pub skipped : (f : ℕ → ℕ) (k i : ℕ) (fs : Fs) → Freeable fs f (suc k) i → Freeable fs f k (i + 1)
skipped f k i fs v = record {
  used = λ j a b. v.used j (omega (arith, a)) (omega (arith, b));
  once = λ j l a b c d.
      v.once j l (omega (arith, a)) (omega (arith, b)) (omega (arith, c)) (omega (arith, d));
}

both :
    (fs : Fs) (bits : ℕ → ℕ → Bool) (lost lost' lost'' : ℕ → Bool)
    → ((b : ℕ) → (lost b || lost' b) ≡ lost'' b)
    → ((b : ℕ) → in_use (record fs { bits = bits }) b ≡ (in_use fs b && not (lost b)))
    → {r : Option Fs} → Frees (record fs { bits = bits }) lost' r
    → Frees fs lost'' r
both fs bits lost lost' lost'' h e (frees bits' e') =
    frees bits' (λ b. ground (arith, e' b, e b, h b))

Frees-then :
    {fs : Fs} {lost lost' lost'' : ℕ → Bool} {r : Option Fs} (next : Fs → Option Fs)
    → ((b : ℕ) → (lost b || lost' b) ≡ lost'' b)
    → Frees fs lost r
    → ((bits : ℕ → ℕ → Bool)
        → ((b : ℕ) → in_use (record fs { bits = bits }) b ≡ (in_use fs b && not (lost b)))
        → Frees (record fs { bits = bits }) lost' (next (record fs { bits = bits })))
    → Frees fs lost'' (elim r [ none ↦ none | some fs' ↦ next fs' ])
Frees-then {fs} {lost} {lost'} {lost''} next h (frees bits e) rest =
    both fs bits lost lost' lost'' h e (rest bits e)

pub free_listed-Frees :
    (k j : ℕ) (a : ℕ → ℕ) (fs : Fs)
    → Freeable fs (entry a) k j
    → Frees fs (listed (entry a) k j) (free_listed k j a fs)
unfolding free_listed listed
free_listed-Frees zero j a fs v = frees fs.bits (λ b. ground arith)
free_listed-Frees (suc k) j a fs v = elim (Bool-cases (entry a j == 0)) [
  | inl none_there ↦
      rw (free_listed, none_there)
        (Frees-same (λ b. ground (arith, none_there))
          (free_listed-Frees k (j + 1) a fs (skipped (entry a) k j fs v)))
  | inr there ↦
      let n : entry a j ≢ 0 = ground (arith, there) in
      rw (free_listed, there)
        (Frees-then (free_listed k (j + 1) a) (λ b. ground (arith, there))
          (bfree-Frees (entry a j) fs (v.used j (omega arith) (omega arith) n))
          (λ bits e. free_listed-Frees k (j + 1) a _ (later (entry a) k j fs _ e n v)))
]

-- What the loop over the file's own addresses leaves.
pub data FreesOwn (fs : Fs) (ip : Inode) (k i : ℕ) : Option (Fs × Inode) → Type 0 where
  frees_own :
      (bits : ℕ → ℕ → Bool) (addrs : ℕ → ℕ)
      → ((b : ℕ)
          → in_use (record fs { bits = bits }) b ≡ (in_use fs b && not (listed ip.addrs k i b)))
      → ((j : ℕ) → addrs j ≡ (if in_range i k j then 0 else ip.addrs j))
      → FreesOwn fs ip k i (some (record fs { bits = bits }, record ip { addrs = addrs }))

pub own_skipped :
    (fs : Fs) (ip : Inode) (k i : ℕ)
    → ip.addrs i ≡ 0
    → {r : Option (Fs × Inode)} → FreesOwn fs ip k (i + 1) r
    → FreesOwn fs ip (suc k) i r
unfolding listed
own_skipped fs ip k i z (frees_own bits addrs e c) =
    frees_own bits addrs (λ b. ground (arith, e b, z))
      (λ j. elim (Bool-cases (j == i)) [
        | inl here ↦
            let at_i : ip.addrs j ≡ 0 = ap ip.addrs (ground (arith, here)) ∙ z in
            ground (arith, c j, at_i)
        | inr there ↦ ground (arith, c j, there)
      ])

pub own_freed :
    (fs : Fs) (ip : Inode) (k i : ℕ) (bits : ℕ → ℕ → Bool)
    → ip.addrs i ≢ 0
    → ((b : ℕ) → in_use (record fs { bits = bits }) b ≡ (in_use fs b && not (ip.addrs i == b)))
    → {r : Option (Fs × Inode)}
    → FreesOwn (record fs { bits = bits }) (with_addr i 0 ip) k (i + 1) r
    → FreesOwn fs ip (suc k) i r
unfolding listed
own_freed fs ip k i bits n e (frees_own bits' addrs e' c) =
    frees_own bits' addrs
      (λ b.
        let same =
          listed-same (with_addr i 0 ip).addrs ip.addrs k (i + 1) b (λ j l. ground (arith, l)) in
        ground (arith, e' b, e b, same, n))
      (λ j. ground (arith, c j))
