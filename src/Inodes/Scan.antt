-- ===== src/Inodes/Scan.antt =====
-- What the loop of `iget` finds.
use ztl_os.Base.{
  subst, ℕ, zero, suc, ◌+◌, ◌<◌, ◌≡◌, ◌≢◌, sym, ap, ◌∙◌, arith, false, ◌&&◌, Option, none, some,
  inl, inr, ◌==◌, ltb, Bool-cases,
}
use native.Mathlib.Decide.{dec_lt}
use ztl_os.Inodes.{ninode, Slot, Found, cached, empty_slot, no_slot, remember, find_slot}

-- No slot below `to` holds the inode.
unfoldable pub Missing : (to inum : ℕ) → (ℕ → Slot) → Type 0
Missing to inum slots = (j : ℕ) → j < to → 0 < (slots j).ref → (slots j).ip.inum ≢ inum

pub data Finds (slots : ℕ → Slot) (inum : ℕ) : Found → Type 0 where
  finds_cached :
      {j : ℕ}
      → j < ninode
      → 0 < (slots j).ref
      → (slots j).ip.inum ≡ inum
      → Finds slots inum (cached j)
  finds_empty :
      {j : ℕ}
      → j < ninode
      → (slots j).ref ≡ 0
      → Missing ninode inum slots
      → Finds slots inum (empty_slot j)
  finds_none :
      ((j : ℕ) → j < ninode → 0 < (slots j).ref)
      → Missing ninode inum slots
      → Finds slots inum no_slot

-- the empty slot seen so far
data Seen (slots : ℕ → Slot) (to : ℕ) : Option ℕ → Type 0 where
  seen : {e : ℕ} → e < ninode → (slots e).ref ≡ 0 → Seen slots to (some e)
  unseen : ((j : ℕ) → j < to → 0 < (slots j).ref) → Seen slots to none

remember-Seen :
    (slots : ℕ → Slot) (i : ℕ) {e : Option ℕ}
    → i < ninode
    → Seen slots i e
    → Seen slots (i + 1) (remember i (slots i) e)
unfolding remember
remember-Seen slots i l (seen a b) = seen a b
remember-Seen slots i l (unseen h) = elim (Bool-cases ((slots i).ref == 0)) [
  | inl empty ↦ rw empty (seen l (ground (arith, empty)))
  | inr used ↦ rw used (
      unseen (λ j k. elim (dec_lt j i) [
        | yes low ↦ h j low
        | no high ↦
            let same : i ≡ j = omega (arith, k) in
            subst (λ x. 0 < (slots x).ref) same (ground (arith, used))
      ]))
]

one_further :
    (slots : ℕ → Slot) (i inum : ℕ)
    → (ltb 0 (slots i).ref && ((slots i).ip.inum == inum)) ≡ false
    → Missing i inum slots
    → Missing (i + 1) inum slots
unfolding Missing
one_further slots i inum other h j l used = elim (dec_lt j i) [
  | yes low ↦ h j low used
  | no high ↦
      let same : j ≡ i = omega (arith, l) in
      let used_there = subst (λ x. 0 < (slots x).ref) same used in
      λ e. ground (arith, other, used_there, sym (ap (λ x. (slots x).ip.inum) same) ∙ e)
]

find_slot-Finds :
    (k i inum : ℕ) (slots : ℕ → Slot) {e : Option ℕ}
    → i + k ≡ ninode
    → Seen slots i e
    → Missing i inum slots
    → Finds slots inum (find_slot k i e inum slots)
unfolding find_slot
find_slot-Finds zero i inum slots h (seen a b) m =
    finds_empty a b (subst (λ n. Missing n inum slots) (omega (arith, h)) m)
find_slot-Finds zero i inum slots h (unseen u) m =
    let end : i ≡ ninode = omega (arith, h) in
    finds_none (λ j l. u j (omega (arith, l, end))) (subst (λ n. Missing n inum slots) end m)
find_slot-Finds (suc k) i inum slots h s m =
    elim (Bool-cases (ltb 0 (slots i).ref && ((slots i).ip.inum == inum))) [
      | inl here ↦
          rw (find_slot, here)
            (finds_cached (omega (arith, h)) (ground (arith, here)) (ground (arith, here)))
      | inr other ↦
          rw (find_slot, other)
            (find_slot-Finds k (i + 1) inum slots (omega (arith, h))
              (remember-Seen slots i (omega (arith, h)) s) (one_further slots i inum other m))
    ]

-- The loop over all the slots.
pub scan-Finds :
    (inum : ℕ) (slots : ℕ → Slot) → Finds slots inum (find_slot ninode 0 none inum slots)
unfolding Missing
scan-Finds inum slots =
    find_slot-Finds ninode 0 inum slots (omega arith) (unseen (λ j l. absurd (omega arith)))
      (λ j l. absurd (omega arith))
