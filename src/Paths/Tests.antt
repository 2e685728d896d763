-- ===== src/Paths/Tests.antt =====
-- The examples at `skipelem`, with the bytes of the paths.
use ztl_os.Base.{ℕ, ◌≡◌, refl, arith, none, some, List, [], ◌∷◌}
use ztl_os.Paths.{slash, skipelem, skip_slashes, pass_element}
use ztl_os.Paths.Element.{cut, filled, begins_with}
use ztl_os.Paths.Walk.{NoZero-cons, NoZero-nil, Walk, NoZero, skipelem-Walk}

abbrev a : ℕ
a = 97

abbrev b : ℕ
b = 98

-- the path ///a//bb/
abbrev path : List ℕ
path = slash ∷ slash ∷ slash ∷ a ∷ slash ∷ slash ∷ b ∷ b ∷ slash ∷ []

abbrev buffer : ℕ → ℕ
buffer i = 120

path-NoZero : NoZero path
path-NoZero = NoZero-cons slash _ (omega arith) (
    NoZero-cons slash _ (omega arith) (
      NoZero-cons slash _ (omega arith) (
        NoZero-cons a _ (omega arith) (
          NoZero-cons slash _ (omega arith) (
            NoZero-cons slash _ (omega arith) (
              NoZero-cons b _ (omega arith)
                (NoZero-cons b _ (omega arith) (NoZero-cons slash _ (omega arith) NoZero-nil))))))))

-- Its elements are a and bb.
skipelem-Walk_example : Walk path buffer ((a ∷ []) ∷ (b ∷ b ∷ []) ∷ [])
unfolding cut filled begins_with
skipelem-Walk_example = skipelem-Walk path buffer path-NoZero

-- The rest of ///a//bb/ is bb/.
skips : (elim (skipelem path buffer) [ none ↦ [] | some r ↦ r.0 ]) ≡ b ∷ b ∷ slash ∷ []
unfolding skipelem skip_slashes pass_element
skips = refl

-- Nothing is left of ////.
only_slashes : skipelem (slash ∷ slash ∷ slash ∷ slash ∷ []) buffer ≡ none
unfolding skipelem skip_slashes
only_slashes = refl
