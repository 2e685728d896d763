-- ===== src/Grep/Star.antt =====
-- The steps of the matcher against the items of an expression.
use mathlib.Core.Bool.{false≢true}
use ztl_os.Base.{
  ℕ, ◌≡◌, refl, sym, ap, ◌∙◌, arith, Bool, true, inl, inr, List, [], ◌∷◌, ◌++◌, append_assoc, All,
  Bool-cases,
}
use ztl_os.Grep.{matchstar, match_one, fits}
use ztl_os.Grep.Language.{Item, one, many, Regex, Starts, Denotes}

pub matchstar_sound :
    (c : ℕ) (here : List ℕ → Bool) (text : List ℕ)
    → matchstar c here text ≡ true
    → (u v : List ℕ) × (text ≡ u ++ v) × All (λ t. fits c t ≡ true) u × (here v ≡ true)
unfolding matchstar
matchstar_sound c here [] h = ([], [], refl, tt, h)
matchstar_sound c here (t ∷ ts) h = elim (Bool-cases (here (t ∷ ts))) [
  | inl now ↦ ([], t ∷ ts, refl, tt, now)
  | inr later ↦
      let (u, v, e, fit, rest) = matchstar_sound c here ts (ground (arith, h, later)) in
      (t ∷ u, v, ap (λ x. t ∷ x) e, (ground (arith, h, later), fit), rest)
]

pub matchstar_complete :
    (c : ℕ) (here : List ℕ → Bool) (u v : List ℕ)
    → All (λ t. fits c t ≡ true) u
    → here v ≡ true
    → matchstar c here (u ++ v) ≡ true
unfolding matchstar
matchstar_complete c here [] [] fit h = h
matchstar_complete c here [] (t ∷ ts) fit h = rw h refl
matchstar_complete c here (x ∷ u) v fit h =
    let rest = matchstar_complete c here u v fit.1 h in ground (arith, rest, fit.0)

pub match_one_sound :
    (c : ℕ) (here : List ℕ → Bool) (text : List ℕ)
    → match_one c here text ≡ true
    → (t : ℕ) × (ts : List ℕ) × (text ≡ t ∷ ts) × (fits c t ≡ true) × (here ts ≡ true)
unfolding match_one
match_one_sound c here [] h = absurd (false≢true h)
match_one_sound c here (t ∷ ts) h = (t, ts, refl, ground (arith, h), ground (arith, h))

pub match_one_complete :
    (c : ℕ) (here : List ℕ → Bool) (t : ℕ) (ts : List ℕ)
    → fits c t ≡ true
    → here ts ≡ true
    → match_one c here (t ∷ ts) ≡ true
unfolding match_one
match_one_complete c here t ts fit h = ground (arith, fit, h)

abbrev pub with_item : Item → Regex → Regex
with_item i r = record r { items = i ∷ r.items }

pub one-Starts :
    (c t : ℕ) (ts : List ℕ) (r : Regex)
    → fits c t ≡ true
    → Starts r ts
    → Starts (with_item (one c) r) (t ∷ ts)
unfolding Denotes
one-Starts c t ts r fit s = record {
  found = t ∷ s.found;
  after = s.after;
  split = ap (λ x. t ∷ x) s.split;
  denoted = (t, s.found, refl, fit, s.denoted);
  at_end = s.at_end;
}

pub many-Starts :
    (c : ℕ) (u v : List ℕ) (r : Regex)
    → All (λ t. fits c t ≡ true) u
    → Starts r v
    → Starts (with_item (many c) r) (u ++ v)
unfolding Denotes
many-Starts c u v r fit s = record {
  found = u ++ s.found;
  after = s.after;
  split = ap (λ x. u ++ x) s.split ∙ sym (append_assoc u s.found s.after);
  denoted = (u, s.found, refl, fit, s.denoted);
  at_end = s.at_end;
}

pub Starts-one :
    (c : ℕ) (text : List ℕ) (r : Regex)
    → Starts (with_item (one c) r) text
    → (t : ℕ) × (ts : List ℕ) × (text ≡ t ∷ ts) × (fits c t ≡ true) × Starts r ts
unfolding Denotes
Starts-one c text r s =
    let (t, found, e, fit, d) = s.denoted in
    (
      t,
      found ++ s.after,
      s.split ∙ ap (λ x. x ++ s.after) e,
      fit,
      record { found = found; after = s.after; split = refl; denoted = d; at_end = s.at_end },
    )

pub Starts-many :
    (c : ℕ) (text : List ℕ) (r : Regex)
    → Starts (with_item (many c) r) text
    → (u v : List ℕ) × (text ≡ u ++ v) × All (λ t. fits c t ≡ true) u × Starts r v
unfolding Denotes
Starts-many c text r s =
    let (u, v, e, fit, d) = s.denoted in
    (
      u,
      v ++ s.after,
      s.split ∙ ap (λ x. x ++ s.after) e ∙ append_assoc u v s.after,
      fit,
      record { found = v; after = s.after; split = refl; denoted = d; at_end = s.at_end },
    )
