-- ===== src/Grep/Language.antt =====
-- What a regular expression means, apart from any way to match it.
use ztl_os.Base.{ℕ, ◌≡◌, Bool, true, false, List, [], ◌∷◌, ◌++◌, ◌==◌, if◌then◌else◌, All}
use ztl_os.Grep.{star, dollar, caret, fits}

-- An expression is a row of items, and may be tied to either end of the text.
pub data Item : Type 0 where
  one many : ℕ → Item

pub record Regex : Type 0 where
  pub items : List Item
  pub to_end : Bool

-- The items of the bytes of an expression: `c*` is one item, and `$` is none at the end.
unfoldable pub parse : List ℕ → Regex
parse [] = record { items = []; to_end = false }
parse (c ∷ []) =
    if c == dollar
    then record { items = []; to_end = true }
    else record { items = one c ∷ []; to_end = false }
parse (c ∷ d ∷ re) =
    let starred = parse re in
    let plain = parse (d ∷ re) in
    if d == star
    then record starred { items = many c ∷ starred.items }
    else record plain { items = one c ∷ plain.items }

-- The strings of a row of items: `one c` is a byte that fits, `many c` any number of them.
unfoldable pub Denotes : List Item → List ℕ → Type 0
Denotes [] s = s ≡ []
Denotes (one c ∷ is) s = (t : ℕ) × (s' : List ℕ) × (s ≡ t ∷ s') × (fits c t ≡ true) × Denotes is s'
Denotes (many c ∷ is) s =
    (u v : List ℕ) × (s ≡ u ++ v) × All (λ t. fits c t ≡ true) u × Denotes is v

-- The expression has a string that the text starts with.
pub record Starts (r : Regex) (text : List ℕ) : Type 0 where
  pub found : List ℕ
  pub after : List ℕ
  pub split : text ≡ found ++ after
  pub denoted : Denotes r.items found
  pub at_end : r.to_end ≡ true → after ≡ []

-- Some rest of the text starts with a string of the expression.
abbrev pub Occurs : Regex → List ℕ → Type 0
Occurs r text = (before rest : List ℕ) × (text ≡ before ++ rest) × Starts r rest

-- A leading `^` ties the expression to the start of the text.
unfoldable pub IsMatch : List ℕ → List ℕ → Type 0
IsMatch [] text = Occurs (parse []) text
IsMatch (c ∷ re) text = if c == caret then Starts (parse re) text else Occurs (parse (c ∷ re)) text
