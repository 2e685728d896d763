-- ===== src/Inodes/Counted.antt =====
-- The references that the slots of the cache count.
use ztl_os.Base.{
  true, false, Bool, ℕ, ◌+◌, ◌-◌, ◌<◌, ◌≡◌, ◌≢◌, refl, sym, ap, ◌∙◌, arith, inl, inr, ◌==◌, ltb,
  if◌then◌else◌, Bool-cases, update,
}
use native.Mathlib.Decide.{dec_lt}
use ztl_os.Inodes.{ninode, Slot, Cache, put_slot}

-- With `r` references and the inode number `n` in each slot: `f` tells the references to each
-- inode, which has a slot of its own while there are any.
pub record Counted (r n f : ℕ → ℕ) : Type 0 where
  pub counts : (i : ℕ) → i < ninode → 0 < r i → f (n i) ≡ r i
  pub alone : (i j : ℕ) → i < ninode → j < ninode → 0 < r i → 0 < r j → n i ≡ n j → i ≡ j
  pub absent : (m : ℕ) → ((j : ℕ) → j < ninode → 0 < r j → n j ≢ m) → f m ≡ 0

abbrev pub refs : Cache → ℕ → ℕ
refs c j = (c.slot j).ref

abbrev pub inums : Cache → ℕ → ℕ
inums c j = (c.slot j).ip.inum

module _ {r n f r' n' : ℕ → ℕ} (v : Counted r n f) (i : ℕ) (l : i < ninode) where
  pub up_by_one :
      0 < r i
      → ((j : ℕ) → r' j ≡ (if j == i then r i + 1 else r j))
      → ((j : ℕ) → n' j ≡ n j)
      → Counted r' n' (update f (n i) (f (n i) + 1))
  up_by_one used r_at n_at = record {
    counts = λ j k u. elim (Bool-cases (j == i)) [
      | inl here ↦
          let same : n j ≡ n i = ap n (ground (arith, here)) in
          ground (arith, here, same, r_at j, n_at j, v.counts i l used)
      | inr there ↦ ground (arith, there, r_at j, n_at j, u, v.counts j k, v.alone j i k l, used)
    ];
    alone = λ j k a b c d e.
        v.alone j k a b (ground (arith, c, r_at j, used)) (ground (arith, d, r_at k, used))
          (sym (n_at j) ∙ e ∙ n_at k);
    absent = λ m h.
        let here : n i ≢ m = λ e. h i l (ground (arith, r_at i)) (n_at i ∙ e) in
        let others = v.absent m (λ j k u e. h j k (ground (arith, r_at j, u)) (n_at j ∙ e)) in
        ground (arith, here, others);
  }

  pub down_by_one :
      0 < r i
      → ((j : ℕ) → r' j ≡ (if j == i then r i - 1 else r j))
      → ((j : ℕ) → n' j ≡ n j)
      → Counted r' n' (update f (n i) (f (n i) - 1))
  down_by_one used r_at n_at = record {
    counts = λ j k u. elim (Bool-cases (j == i)) [
      | inl here ↦
          let same : n j ≡ n i = ap n (ground (arith, here)) in
          ground (arith, here, same, r_at j, n_at j, v.counts i l used)
      | inr there ↦ ground (arith, there, r_at j, n_at j, u, v.counts j k, v.alone j i k l, used)
    ];
    alone = λ j k a b c d e.
        v.alone j k a b (ground (arith, c, r_at j, used)) (ground (arith, d, r_at k, used))
          (sym (n_at j) ∙ e ∙ n_at k);
    absent = λ m h. elim (Bool-cases (m == n i)) [
      | inl here ↦
          let last : ltb 0 (r' i) ≡ false = elim (dec_lt 0 (r' i)) [
            | yes more ↦
                let same : n i ≡ m = ground (arith, here) in absurd (h i l more (n_at i ∙ same))
            | no none_left ↦ ground (arith, none_left)
          ] in
          ground (arith, here, r_at i, last, v.counts i l used)
      | inr there ↦
          let others = v.absent m (λ j k u e. elim (Bool-cases (j == i)) [
            | inl at_i ↦
                let same : n j ≡ n i = ap n (ground (arith, at_i)) in ground (arith, there, same, e)
            | inr else_where ↦ h j k (ground (arith, r_at j, u, else_where)) (n_at j ∙ e)
          ]) in
          ground (arith, there, others)
    ];
  }

  pub from_empty :
      (inum : ℕ)
      → r i ≡ 0
      → ((j : ℕ) → j < ninode → 0 < r j → n j ≢ inum)
      → ((j : ℕ) → r' j ≡ (if j == i then 1 else r j))
      → ((j : ℕ) → n' j ≡ (if j == i then inum else n j))
      → Counted r' n' (update f inum (f inum + 1))
  from_empty inum empty missing r_at n_at =
      let none_yet = v.absent inum missing in
      record {
        counts = λ j k u. elim (Bool-cases (j == i)) [
          | inl here ↦ ground (arith, here, r_at j, n_at j, none_yet)
          | inr there ↦ ground (arith, there, r_at j, n_at j, u, v.counts j k, missing j k)
        ];
        alone = λ j k a b c d e. ground (
          arith,
          r_at j,
          r_at k,
          n_at j,
          n_at k,
          c,
          d,
          e,
          v.alone j k a b,
          missing j a,
          missing k b,
        );
        absent = λ m h.
            let here : inum ≢ m = λ e. h i l (ground (arith, r_at i)) (ground (arith, n_at i, e)) in
            let others = v.absent m (λ j k u e. elim (Bool-cases (j == i)) [
              | inl at_i ↦
                  let same : r j ≡ r i = ap r (ground (arith, at_i)) in
                  omega (arith, same, empty, u)
              | inr else_where ↦
                  h j k (ground (arith, r_at j, u, else_where))
                    (ground (arith, n_at j, e, else_where))
            ]) in
            ground (arith, here, others);
      }

chosen_field :
    (g : Slot → ℕ) (b : Bool) (s t : Slot) → g (if b then s else t) ≡ (if b then g s else g t)
chosen_field g true s t = refl
chosen_field g false s t = refl

-- a slot that is replaced
pub ref_put :
    (i : ℕ) (s : Slot) (c : Cache) (j : ℕ)
    → refs (put_slot i s c) j ≡ (if j == i then s.ref else refs c j)
ref_put i s c j = chosen_field (λ x. x.ref) (j == i) s (c.slot j)

pub inum_put :
    (i : ℕ) (s : Slot) (c : Cache) (j : ℕ)
    → inums (put_slot i s c) j ≡ (if j == i then s.ip.inum else inums c j)
inum_put i s c j = chosen_field (λ x. x.ip.inum) (j == i) s (c.slot j)

pub inum_kept :
    (i : ℕ) (s : Slot) (c : Cache) (j : ℕ)
    → s.ip.inum ≡ inums c i
    → inums (put_slot i s c) j ≡ inums c j
inum_kept i s c j e = elim (Bool-cases (j == i)) [
  | inl here ↦
      let same : inums c i ≡ inums c j = ap (inums c) (ground (arith, here)) in
      inum_put i s c j ∙ rw here (e ∙ same)
  | inr there ↦ inum_put i s c j ∙ rw there refl
]
