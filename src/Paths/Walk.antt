-- ===== src/Paths/Walk.antt =====
-- Calling `skipelem` until it returns 0, as `namex` does.
use ztl_os.Base.{
  ℕ, zero, suc, ◌<◌, ◌≤◌, ◌≡◌, ◌≢◌, refl, sym, ap, ◌∙◌, arith, false, none, some, inl, inr, List,
  [], ◌∷◌, ◌==◌, Bool-cases, length, take, get_or, map, subst,
}
use ztl_os.Strings.Names.{name_at}
use ztl_os.Paths.{dirsiz, slash, skip_slashes, pass_element, copy_name, skipelem}
use ztl_os.Paths.Element.{
  cut, filled, elements, skip-elements, pass-elements, skip-first, copy-name,
}

-- The names that the calls leave in the buffer, one after the other.
pub data Walk : List ℕ → (ℕ → ℕ) → List (List ℕ) → Type 0 where
  ends : {path : List ℕ} {name : ℕ → ℕ} → skipelem path name ≡ none → Walk path name []
  goes_on :
      {path rest : List ℕ} {name name' : ℕ → ℕ} {names : List (List ℕ)}
      → skipelem path name ≡ some (rest, name')
      → Walk rest name' names
      → Walk path name (name_at 0 dirsiz name' ∷ names)

-- A path has no zero byte.
unfoldable pub NoZero : List ℕ → Type 0
NoZero path = (i : ℕ) → i < length path → get_or path i 0 ≢ 0

NoZero-rest : (c : ℕ) (path : List ℕ) → NoZero (c ∷ path) → NoZero path
unfolding NoZero
NoZero-rest c path h i l = h (suc i) (omega (arith, l))

pub NoZero-cons : (c : ℕ) (path : List ℕ) → c ≢ 0 → NoZero path → NoZero (c ∷ path)
unfolding NoZero
NoZero-cons c path n h zero l = n
NoZero-cons c path n h (suc i) l = h i (omega (arith, l))

-- What is left is no longer than the path, and has no zero byte either.
pub record Left (path rest : List ℕ) : Type 0 where
  shorter : length rest ≤ length path
  clean : NoZero path → NoZero rest

whole_rest : (path : List ℕ) → Left path path
whole_rest path = record { shorter = omega arith; clean = λ h. h }

one_less : (c : ℕ) (path rest : List ℕ) → Left path rest → Left (c ∷ path) rest
one_less c path rest e = record {
  shorter = omega (arith, e.shorter);
  clean = λ h. e.clean (NoZero-rest c path h);
}

in_turn : (a b c : List ℕ) → Left a b → Left b c → Left a c
in_turn a b c e f = record {
  shorter = omega (arith, e.shorter, f.shorter);
  clean = λ h. f.clean (e.clean h);
}

skip-Left : (path : List ℕ) → Left path (skip_slashes path)
unfolding skip_slashes
skip-Left [] = whole_rest []
skip-Left (c ∷ path) = elim (Bool-cases (c == slash)) [
  | inl yes_slash ↦ rw yes_slash (one_less c path (skip_slashes path) (skip-Left path))
  | inr no_slash ↦ rw no_slash (whole_rest (c ∷ path))
]

pass-Left : (path : List ℕ) → Left path (pass_element path).1
unfolding pass_element
pass-Left [] = whole_rest []
pass-Left (c ∷ path) = elim (Bool-cases (c == slash)) [
  | inl yes_slash ↦ rw yes_slash (whole_rest (c ∷ path))
  | inr no_slash ↦ rw no_slash (one_less c path (pass_element path).1 (pass-Left path))
]

pub NoZero-nil : NoZero []
unfolding NoZero
NoZero-nil i l = absurd (omega arith)

NoZero-first : (c : ℕ) (path : List ℕ) → NoZero (c ∷ path) → c ≢ 0
unfolding NoZero
NoZero-first c path h = h 0 (omega arith)

pass-NoZero : (path : List ℕ) → NoZero path → NoZero (pass_element path).0
unfolding pass_element
pass-NoZero [] h = h
pass-NoZero (c ∷ path) h = elim (Bool-cases (c == slash)) [
  | inl yes_slash ↦ rw yes_slash NoZero-nil
  | inr no_slash ↦ rw no_slash (
      NoZero-cons c (pass_element path).0 (NoZero-first c path h)
        (pass-NoZero path (NoZero-rest c path h)))
]

pass-shorter :
    (c : ℕ) (path : List ℕ) → c ≢ slash → length (pass_element (c ∷ path)).1 ≤ length path
unfolding pass_element
pass-shorter c path n =
    let no_slash : (c == slash) ≡ false = ground (arith, n) in
    rw no_slash ((pass-Left path).shorter)

-- The first call, and the others.
first_element :
    (path : List ℕ) (name : ℕ → ℕ) (begun : List ℕ)
    → skip_slashes path ≡ begun
    → NoZero path
    → ((rest : List ℕ) (name' : ℕ → ℕ)
        → length rest < length path
        → NoZero rest
        → Walk rest name' (map (take dirsiz) (elements rest)))
    → Walk path name (map (take dirsiz) (elements path))
unfolding skipelem filled cut NoZero
first_element path name [] e h others =
    let none_here : elements path ≡ [] = sym (skip-elements path) ∙ ap elements e in
    subst (λ es. Walk path name (map (take dirsiz) es)) (sym none_here)
      (ends (rw (skipelem, e) refl))
first_element path name (c ∷ begun) e h others =
    let no_slash = skip-first path c begun e in
    let skipped = subst (Left path) e (skip-Left path) in
    let passed = pass_element (c ∷ begun) in
    let rest = skip_slashes passed.1 in
    let found : elements path ≡ passed.0 ∷ elements rest =
      sym (skip-elements path) ∙ ap elements e ∙ pass-elements c begun no_slash in
    let left : Left path rest =
      in_turn path (c ∷ begun) rest skipped
        (in_turn (c ∷ begun) passed.1 rest (pass-Left (c ∷ begun)) (skip-Left passed.1)) in
    let names = copy-name passed.0 name (pass-NoZero (c ∷ begun) (skipped.clean h)) in
    subst (λ es. Walk path name (map (take dirsiz) es)) (sym found)
      (subst (λ n. Walk path name (n ∷ map (take dirsiz) (elements rest))) names
        (goes_on (rw (skipelem, e) refl) (
          others rest (copy_name passed.0 name)
            (omega
              (arith, (skip-Left passed.1).shorter, pass-shorter c begun no_slash, skipped.shorter))
            (left.clean h))))

walk :
    (fuel : ℕ) (path : List ℕ) (name : ℕ → ℕ)
    → length path ≤ fuel
    → NoZero path
    → Walk path name (map (take dirsiz) (elements path))
walk zero path name l h =
    first_element path name (skip_slashes path) refl h
      (λ rest name' s z. absurd (omega (arith, l, s)))
walk (suc fuel) path name l h =
    first_element path name (skip_slashes path) refl h
      (λ rest name' s z. walk fuel rest name' (omega (arith, l, s)) z)

-- Calling `skipelem` until it returns 0 ends, and gives the elements of the path in their order,
-- each cut to the width of a name.
pub skipelem-Walk :
    (path : List ℕ) (name : ℕ → ℕ)
    → NoZero path
    → Walk path name (map (take dirsiz) (elements path))
skipelem-Walk path name h = walk (length path) path name (omega arith) h
