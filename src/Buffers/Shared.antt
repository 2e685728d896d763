-- ===== src/Buffers/Shared.antt =====
-- The processes that share the buffer cache.
use ztl_os.Base.{sym}
use ztl_os.Base.{◌∙◌}
use ztl_os.Base.{ap}
use ztl_os.Buffers.Users.{count_put}
use ztl_os.Buffers.Users.{count_pos}
use ztl_os.Base.{Bool-cases}
use ztl_os.Buffers.Once.{live}
use ztl_os.Buffers.Users.{Place}
use ztl_os.Buffers.Users.{count_le}
use ztl_os.Base.{List, ℕ, true, Bool, ◌≡◌, ◌≢◌, ◌==◌, ◌<◌, ◌≤◌, ◌+◌, arith, inl, inr, update}
use ztl_os.Buffers.{Bcache, nbuf}
use ztl_os.Buffers.Contents.{Blocks, Coherent}
use ztl_os.Buffers.Calls.{Only}
use ztl_os.Buffers.Users.{System, Place, idle, wants, holds, quits, uses, locks, bit, count, nhands}

abbrev pub Placed : Place → Type 0
Placed idle = Unit {0}
Placed (wants b) = b < nbuf
Placed (holds b) = b < nbuf
Placed (quits b) = b < nbuf

-- The references and the locks of the buffers are those of the processes, and locked buffers hold
-- their blocks.
pub record IsShared (s : System) (order : List ℕ) (v : Blocks) : Type 0 where
  pub coherent : Coherent s.cache order v
  pub refs : (b : ℕ) → b < nbuf → (s.cache.buf b).refcnt ≡ count (λ p. uses b (s.place p)) nhands
  pub locked :
      (b : ℕ) → b < nbuf → bit (s.cache.buf b).locked ≡ count (λ p. locks b (s.place p)) nhands
  pub placed : (p : ℕ) → p < nhands → Placed (s.place p)
  pub holding : (b : ℕ) → b < nbuf → (s.cache.buf b).locked ≡ true → (s.cache.buf b).valid ≡ true

unmoved :
    (test : Place → Bool) (place : ℕ → Place) (p : ℕ) (x : Place)
    → p < nhands
    → test x ≡ test (place p)
    → count (λ q. test (place q)) nhands ≡ count (λ q. test (update place p x q)) nhands
unmoved test place p x n e = omega (arith, count_put test place p x nhands n, ap bit e)

module _ (s : System) (order : List ℕ) (v : Blocks) (h : IsShared s order v) (p b : ℕ)
    (n : p < nhands) (m : b < nbuf) where
  -- A buffer that a process is at is live, and few are at it.
  pub used_live : uses b (s.place p) ≡ true → live (s.cache.buf b) ≡ true
  used_live u = ground (arith, count_pos (λ q. uses b (s.place q)) p nhands n u, h.refs b m)

  pub few : (s.cache.buf b).refcnt ≤ nhands
  few = omega (arith, h.refs b m, count_le (λ q. uses b (s.place q)) nhands)

  -- The process goes to another place, and only this buffer changes.
  pub moved :
      (c : Bcache) (order' : List ℕ) (v' : Blocks) (x : Place)
      → Coherent c order' v'
      → Only b s.cache c
      → Placed x
      → ((j : ℕ) → j ≢ b → (uses j x ≡ uses j (s.place p)) × (locks j x ≡ locks j (s.place p)))
      → (c.buf b).refcnt + bit (uses b (s.place p)) ≡ (s.cache.buf b).refcnt + bit (uses b x)
      → bit (c.buf b).locked + bit (locks b (s.place p))
        ≡ bit (s.cache.buf b).locked + bit (locks b x)
      → ((c.buf b).locked ≡ true → (c.buf b).valid ≡ true)
      → IsShared (record { cache = c; place = update s.place p x }) order' v'
  moved c order' v' x co only pl others rs ls hs = record {
    coherent = co;
    refs = λ j k. elim (Bool-cases (j == b)) [
      | inl same ↦
          let e : j ≡ b = ground (arith, same) in
          rw e (omega (arith, count_put (uses b) s.place p x nhands n, h.refs b m, rs))
      | inr other ↦
          let e : j ≢ b = ground (arith, other) in
          ap (λ y. y.refcnt) (only j e)
          ∙ h.refs j k
          ∙ unmoved (uses j) s.place p x n ((others j e).0)
    ];
    locked = λ j k. elim (Bool-cases (j == b)) [
      | inl same ↦
          let e : j ≡ b = ground (arith, same) in
          rw e (omega (arith, count_put (locks b) s.place p x nhands n, h.locked b m, ls))
      | inr other ↦
          let e : j ≢ b = ground (arith, other) in
          ap (λ y. bit y.locked) (only j e)
          ∙ h.locked j k
          ∙ unmoved (locks j) s.place p x n ((others j e).1)
    ];
    placed = λ q k. elim (Bool-cases (q == p)) [
      | inl same ↦ rw same pl
      | inr other ↦ rw other (h.placed q k)
    ];
    holding = λ j k e. elim (Bool-cases (j == b)) [
      | inl same ↦ let q : j ≡ b = ground (arith, same) in rw q (hs (rw q at e))
      | inr other ↦
          let o = only j (ground (arith, other)) in
          ap (λ y. y.valid) o ∙ h.holding j k (sym (ap (λ y. y.locked) o) ∙ e)
    ];
  }
