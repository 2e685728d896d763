-- ===== src/Grep/Correct.antt =====
-- The matcher decides what the expression means.
use mathlib.Core.Bool.{false≢true}
use ztl_os.Base.{
  ℕ, ◌≡◌, refl, sym, ap, ◌∙◌, subst, arith, Bool, true, false, inl, inr, List, [], ◌∷◌, ◌++◌, ◌↔◌,
  ◌==◌, Bool-cases,
}
use ztl_os.Grep.{
  matchhere, match_from, match_text, matchstar, match_one, dollar, star, caret, is_nil,
}
use ztl_os.Grep.Language.{Occurs, one, many, Regex, parse, Starts, Denotes, IsMatch}
use ztl_os.Grep.Star.{
  matchstar_sound, matchstar_complete, match_one_sound, match_one_complete, one-Starts, many-Starts,
  Starts-one, Starts-many, with_item,
}

empty-Starts : (text : List ℕ) → Starts (parse []) text
unfolding parse Denotes
empty-Starts text = record {
  found = [];
  after = text;
  split = refl;
  denoted = refl;
  at_end = λ e. absurd (false≢true e);
}

nothing_after : Regex
nothing_after = record { items = []; to_end = true }

end-Starts : (text : List ℕ) → is_nil text ≡ true → Starts nothing_after text
unfolding nothing_after Denotes
end-Starts [] h = record {
  found = [];
  after = [];
  split = refl;
  denoted = refl;
  at_end = λ e. refl;
}
end-Starts (t ∷ ts) h = absurd (false≢true h)

Starts-end : (text : List ℕ) → Starts nothing_after text → is_nil text ≡ true
unfolding nothing_after Denotes
Starts-end text s =
    let e : text ≡ [] = s.split ∙ ap (λ x. x ++ s.after) s.denoted ∙ s.at_end refl in
    subst (λ x. is_nil x ≡ true) (sym e) refl

parse-dollar : (c : ℕ) → (c == dollar) ≡ true → parse (c ∷ []) ≡ nothing_after
unfolding parse nothing_after
parse-dollar c e = rw (e, parse) refl

parse-last : (c : ℕ) → (c == dollar) ≡ false → parse (c ∷ []) ≡ with_item (one c) (parse [])
unfolding parse
parse-last c e = rw (e, parse) refl

module _ (c d : ℕ) (re : List ℕ) where
  parse-star : (d == star) ≡ true → parse (c ∷ d ∷ re) ≡ with_item (many c) (parse re)
  unfolding parse
  parse-star e = rw (e, parse) refl

  parse-plain : (d == star) ≡ false → parse (c ∷ d ∷ re) ≡ with_item (one c) (parse (d ∷ re))
  unfolding parse
  parse-plain e = rw (e, parse) refl

  matchhere-star :
      (text : List ℕ)
      → (d == star) ≡ true
      → matchhere (c ∷ d ∷ re) text ≡ matchstar c (matchhere re) text
  unfolding matchhere
  matchhere-star text e = rw (e, matchhere) refl

  matchhere-plain :
      (text : List ℕ)
      → (d == star) ≡ false
      → matchhere (c ∷ d ∷ re) text ≡ match_one c (matchhere (d ∷ re)) text
  unfolding matchhere
  matchhere-plain text e = rw (e, matchhere) refl

matchhere-dollar :
    (c : ℕ) (text : List ℕ) → (c == dollar) ≡ true → matchhere (c ∷ []) text ≡ is_nil text
unfolding matchhere
matchhere-dollar c text e = rw (e, matchhere) refl

matchhere-last :
    (c : ℕ) (text : List ℕ)
    → (c == dollar) ≡ false
    → matchhere (c ∷ []) text ≡ match_one c (matchhere []) text
unfolding matchhere
matchhere-last c text e = rw (e, matchhere) refl

-- A matcher and an expression that agree.
abbrev Decides : (List ℕ → Bool) → Regex → Type 0
Decides here r = (text : List ℕ) → (here text ≡ true) ↔ Starts r text

one-Decides :
    (c : ℕ) (here : List ℕ → Bool) (r : Regex)
    → Decides here r
    → Decides (match_one c here) (with_item (one c) r)
one-Decides c here r d text = (
  (λ h.
      let (t, ts, e, fit, rest) = match_one_sound c here text h in
      subst (Starts (with_item (one c) r)) (sym e) (one-Starts c t ts r fit ((d ts).0 rest))),
  (λ s.
      let (t, ts, e, fit, rest) = Starts-one c text r s in
      subst (λ x. match_one c here x ≡ true) (sym e)
        (match_one_complete c here t ts fit ((d ts).1 rest))),
)

many-Decides :
    (c : ℕ) (here : List ℕ → Bool) (r : Regex)
    → Decides here r
    → Decides (matchstar c here) (with_item (many c) r)
many-Decides c here r d text = (
  (λ h.
      let (u, v, e, fit, rest) = matchstar_sound c here text h in
      subst (Starts (with_item (many c) r)) (sym e) (many-Starts c u v r fit ((d v).0 rest))),
  (λ s.
      let (u, v, e, fit, rest) = Starts-many c text r s in
      subst (λ x. matchstar c here x ≡ true) (sym e)
        (matchstar_complete c here u v fit ((d v).1 rest))),
)

Decides-by :
    {here here' : List ℕ → Bool} {r r' : Regex}
    → ((text : List ℕ) → here text ≡ here' text)
    → r ≡ r'
    → Decides here' r'
    → Decides here r
Decides-by p q d text = (
  (λ h. subst (λ x. Starts x text) (sym q) ((d text).0 (sym (p text) ∙ h))),
  (λ s. p text ∙ (d text).1 (subst (λ x. Starts x text) q s)),
)

empty-Decides : Decides (matchhere []) (parse [])
unfolding matchhere
empty-Decides text = ((λ h. empty-Starts text), (λ s. refl))

pub matchhere-Decides : (re : List ℕ) → Decides (matchhere re) (parse re)
matchhere-Decides [] = empty-Decides
matchhere-Decides (c ∷ []) = elim (Bool-cases (c == dollar)) [
  | inl e ↦
      Decides-by (λ text. matchhere-dollar c text e) (parse-dollar c e)
        (λ text. (end-Starts text, Starts-end text))
  | inr e ↦
      Decides-by (λ text. matchhere-last c text e) (parse-last c e)
        (one-Decides c (matchhere []) (parse []) empty-Decides)
]
matchhere-Decides (c ∷ d ∷ re) =
    let starred = matchhere-Decides re in
    let plain = matchhere-Decides (d ∷ re) in
    elim (Bool-cases (d == star)) [
      | inl e ↦
          Decides-by (λ text. matchhere-star c d re text e) (parse-star c d re e)
            (many-Decides c (matchhere re) (parse re) starred)
      | inr e ↦
          Decides-by (λ text. matchhere-plain c d re text e) (parse-plain c d re e)
            (one-Decides c (matchhere (d ∷ re)) (parse (d ∷ re)) plain)
    ]

match_from_sound : (re text : List ℕ) → match_from re text ≡ true → Occurs (parse re) text
unfolding match_from
match_from_sound re [] h = ([], [], refl, (matchhere-Decides re []).0 h)
match_from_sound re (t ∷ ts) h = elim (Bool-cases (matchhere re (t ∷ ts))) [
  | inl now ↦ ([], t ∷ ts, refl, (matchhere-Decides re (t ∷ ts)).0 now)
  | inr later ↦
      let (before, rest, e, s) = match_from_sound re ts (ground (arith, h, later)) in
      (t ∷ before, rest, ap (λ x. t ∷ x) e, s)
]

match_from_complete :
    (re before rest : List ℕ) → Starts (parse re) rest → match_from re (before ++ rest) ≡ true
unfolding match_from
match_from_complete re [] [] s = (matchhere-Decides re []).1 s
match_from_complete re [] (t ∷ ts) s = let now = (matchhere-Decides re (t ∷ ts)).1 s in rw now refl
match_from_complete re (b ∷ before) rest s =
    let later = match_from_complete re before rest s in ground (arith, later)

match_from_iff : (re text : List ℕ) → (match_from re text ≡ true) ↔ Occurs (parse re) text
match_from_iff re text = (
  match_from_sound re text,
  (λ o.
      let (before, rest, e, s) = o in
      subst (λ x. match_from re x ≡ true) (sym e) (match_from_complete re before rest s)),
)

-- `match` returns 1 exactly if the expression means a string somewhere in the text: at its start
-- where the expression is tied by `^`, at its end where it is tied by `$`.
pub match_text_iff : (re text : List ℕ) → (match_text re text ≡ true) ↔ IsMatch re text
unfolding match_text IsMatch
match_text_iff [] text = match_from_iff [] text
match_text_iff (c ∷ re) text = elim (Bool-cases (c == caret)) [
  | inl e ↦ rw e (matchhere-Decides re text)
  | inr e ↦ rw e (match_from_iff (c ∷ re) text)
]
