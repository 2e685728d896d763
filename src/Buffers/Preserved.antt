-- ===== src/Buffers/Preserved.antt =====
-- Each step keeps the shared cache well formed.
use ztl_os.Buffers.Once.{live}
use ztl_os.Buffers.Users.{count_pos}
use ztl_os.Buffers.Users.{count_mono}
use ztl_os.Buffers.Calls.{store_Leaves}
use ztl_os.Buffers.Calls.{lose_ref-Leaves}
use ztl_os.Buffers.Calls.{bwrite-Leaves}
use ztl_os.Buffers.Calls.{brelse-Leaves}
use ztl_os.Base.{sym}
use ztl_os.Base.{◌∙◌}
use ztl_os.Buffers.Calls.{bget-Takes}
use ztl_os.Base.{ap}
use ztl_os.Buffers.Coherence.{bget-Coherent}
use ztl_os.Buffers.Calls.{lock-Leaves}
use ztl_os.Base.{subst}
use ztl_os.Base.{fun_ext}
use ztl_os.Base.{
  List, ℕ, true, false, Bool, ◌≡◌, ◌≢◌, ◌==◌, ◌<◌, ◌+◌, arith, refl, inl, inr, update, Bool-cases,
}
use ztl_os.Buffers.{
  Bcache, Outcome, done, panics, out_of_fuel, put_buf, nbuf, bget, lose_ref, bread_block, bwrite,
  brelse, acquiresleep,
}
use ztl_os.Buffers.Contents.{Blocks, put_block}
use ztl_os.Buffers.Coherence.{returned, panicked, Ensures}
use ztl_os.Buffers.Calls.{Leaves}
use ztl_os.Buffers.Users.{System, Place, idle, wants, holds, quits, uses, locks, bit, nhands}
use ztl_os.Buffers.Shared.{IsShared, moved, used_live, few}

value {ℓ} : {A : Type ℓ} → Outcome A → A → A
value (done a) d = a
value panics d = d
value out_of_fuel d = d

ensured {ℓ κ} :
    {A : Type ℓ} {P : A → Type κ} {r : Outcome A} {a : A} → Ensures P r → r ≡ done a → P a
unfolding value
ensured {P} {a} (returned h) e = subst P (ap (λ r. value r a) e) h
ensured panicked e = cc

update_same : (place : ℕ → Place) (p : ℕ) → update place p (place p) ≡ place
update_same place p = fun_ext (λ q. elim (Bool-cases (q == p)) [
  | inl same ↦ let e : q ≡ p = ground (arith, same) in rw (same, e) refl
  | inr other ↦ rw other refl
])

self : (b : ℕ) → (b == b) ≡ true
self b = ground arith

apart : (b j : ℕ) → j ≢ b → (b == j) ≡ false
apart b j n = ground (arith, n)

locks_use : (b : ℕ) (x : Place) → locks b x ≡ true → uses b x ≡ true
locks_use b idle e = e
locks_use b (wants j) e = absurd (ground (arith, e))
locks_use b (holds j) e = e
locks_use b (quits j) e = absurd (ground (arith, e))

module _ (disk1 : Bool) (s : System) (order : List ℕ) (v : Blocks) (h : IsShared s order v)
    (p b : ℕ) (n : p < nhands) where
  -- `bget` on behalf of an idle process.
  pub get_IsShared :
      (dev blockno : ℕ) (c : Bcache)
      → s.place p ≡ idle
      → bget dev blockno s.cache ≡ done (b, c)
      → IsShared (record { cache = c; place = update s.place p (wants b) }) order v
  get_IsShared dev blockno c at e =
      let co = ensured (bget-Coherent dev blockno s.cache order v h.coherent) e in
      let t = ensured (bget-Takes dev blockno s.cache order v h.coherent) e in
      let m : b < nbuf = co.1 in
      let little = few s order v h p b n m in
      let grown : (c.buf b).refcnt ≡ (s.cache.buf b).refcnt + 1 = omega (arith, t.refcnt, little) in
      moved s order v h p b n m c order v (wants b) co.0 t.only m
        (λ j k. rw (at, apart b j k) (refl, refl)) (rw (at, self b) (omega (arith, grown)))
        (rw at (ap (λ y. bit y + 0) t.locked))
        (λ l. elim t.valid [
          | inl same ↦ same ∙ h.holding b m (sym t.locked ∙ l)
          | inr unused ↦
              let taken : bit (s.cache.buf b).locked ≡ 1 = ap bit (sym t.locked ∙ l) in
              let fewer =
                count_mono (λ q. locks b (s.place q)) (λ q. uses b (s.place q)) nhands
                  (λ q. locks_use b (s.place q)) in
              absurd (omega (arith, taken, fewer, h.locked b m, h.refs b m, unused))
        ])

  pub lock_IsShared :
      (c : Bcache)
      → s.place p ≡ wants b
      → (s.cache.buf b).locked ≡ false
      → bread_block disk1 b (put_buf b (acquiresleep (s.cache.buf b)) s.cache) ≡ done c
      → IsShared (record { cache = c; place = update s.place p (holds b) }) order v
  lock_IsShared c at free e =
      let m : b < nbuf = rw at at (h.placed p n) in
      let l = used_live s order v h p b n m (rw at (self b)) in
      let q = ensured (lock-Leaves s.cache order v b disk1 h.coherent m l) e in
      moved s order v h p b n m c order v (holds b) q.coherent q.only m
        (λ j k. rw (at, apart b j k) (refl, refl)) (rw (at, self b, q.refs) refl)
        (rw (at, self b, q.lock, free) refl) (λ k. q.has)

  -- A call on a buffer that the process holds on to.
  stay :
      (c : Bcache) (v' : Blocks) {w : Bool}
      → s.place p ≡ holds b
      → w ≡ true
      → Leaves s.cache order b (s.cache.buf b).refcnt (s.cache.buf b).locked w v' c
      → IsShared (record s { cache = c }) order v'
  stay c v' at w q =
      let m : b < nbuf = rw at at (h.placed p n) in
      subst (λ f. IsShared (record { cache = c; place = f }) order v') (update_same s.place p)
        (moved s order v h p b n m c order v' (s.place p) q.coherent q.only (h.placed p n)
          (λ j k. (refl, refl)) (rw (q.refs) refl) (rw (q.lock) refl) (λ l. q.has ∙ w))

  -- What a holder has.
  pub held_valid :
      s.place p ≡ holds b
      → (b < nbuf)
        × (live (s.cache.buf b) ≡ true)
        × ((s.cache.buf b).locked ≡ true)
        × ((s.cache.buf b).valid ≡ true)
  held_valid at =
      let m : b < nbuf = rw at at (h.placed p n) in
      let taken = count_pos (λ q. locks b (s.place q)) p nhands n (rw (at, self b) refl) in
      let locked : (s.cache.buf b).locked ≡ true = ground (arith, taken, h.locked b m) in
      (m, used_live s order v h p b n m (rw (at, self b) refl), locked, h.holding b m locked)

  pub store_IsShared :
      (d : List ℕ)
      → s.place p ≡ holds b
      → IsShared
          (record s {
            cache = put_buf b (record (s.cache.buf b) { bytes = d; dirty = true }) s.cache;
          })
          order
          (put_block v (s.cache.buf b).dev (s.cache.buf b).blockno d)
  store_IsShared d at =
      let k = held_valid at in
      stay _ _ at k.3 (store_Leaves s.cache order v h.coherent b k.0 k.1 d k.3)

  pub write_IsShared :
      (c : Bcache)
      → s.place p ≡ holds b
      → bwrite disk1 b s.cache ≡ done c
      → IsShared (record s { cache = c }) order v
  write_IsShared c at e =
      let k = held_valid at in
      stay c v at refl (ensured (bwrite-Leaves s.cache order v b disk1 h.coherent k.0 k.1 k.3) e)

  pub release_IsShared :
      (c : Bcache)
      → s.place p ≡ holds b
      → brelse b s.cache ≡ done c
      → IsShared (record { cache = c; place = update s.place p (quits b) }) order v
  release_IsShared c at e =
      let k = held_valid at in
      let q = ensured (brelse-Leaves s.cache order v b h.coherent k.0 k.1) e in
      moved s order v h p b n k.0 c order v (quits b) q.coherent q.only k.0
        (λ j f. rw (at, apart b j f) (refl, refl)) (rw (at, self b, q.refs) refl)
        (rw (at, self b, q.lock, k.2) refl) (λ l. absurd (ground (arith, l, q.lock)))

  pub drop_IsShared :
      s.place p ≡ quits b
      → (order' : List ℕ) × IsShared
          (record { cache = lose_ref b s.cache; place = update s.place p idle })
          order'
          v
  drop_IsShared at =
      let m : b < nbuf = rw at at (h.placed p n) in
      let l = used_live s order v h p b n m (rw (at, self b) refl) in
      let r = lose_ref-Leaves s.cache order v b h.coherent m l in
      let q = r.1 in
      let little = few s order v h p b n m in
      let some_left = count_pos (λ j. uses b (s.place j)) p nhands n (rw (at, self b) refl) in
      let fewer : ((lose_ref b s.cache).buf b).refcnt + 1 ≡ (s.cache.buf b).refcnt =
        omega (arith, q.refs, little, some_left, h.refs b m) in
      (
        r.0,
        moved s order v h p b n m (lose_ref b s.cache) r.0 v idle q.coherent q.only tt
            (λ j f. rw (at, apart b j f) (refl, refl)) (rw (at, self b) (omega (arith, fewer)))
            (rw at (ap (λ y. bit y + 0) q.lock)) (λ k. q.has ∙ h.holding b m (sym q.lock ∙ k)),
      )
