-- ===== src/Buffers/Once.antt =====
-- No block is in two buffers that are in use or hold its contents.
use ztl_os.Base.{◌||◌, ◌==◌, ltb}
use ztl_os.Buffers.Order.{Apart-remove}
use ztl_os.Base.{update}
use ztl_os.Base.{ltb}
use ztl_os.Base.{Bool-cases}
use ztl_os.Base.{◌⊎◌}
use ztl_os.Base.{◌∙◌}
use ztl_os.Base.{◌≢◌}
use ztl_os.Base.{sym}
use ztl_os.Base.{subst}
use ztl_os.Base.{List, [], ◌∷◌, ◌++◌, ℕ, true, false, Bool, ◌≡◌, All, arith, refl, inl, inr}
use ztl_os.Buffers.{Buf, is_block}
use ztl_os.Buffers.Ring.{Apart}
use ztl_os.Buffers.Order.{Among, here, there, remove}

-- One element stands before the other.
pub data Before (a b : ℕ) : List ℕ → Type 0 where
  begins : {x : ℕ} {xs : List ℕ} → a ≡ x → Among b xs → Before a b (x ∷ xs)
  later : {x : ℕ} {xs : List ℕ} → Before a b xs → Before a b (x ∷ xs)

pub All-Among : (P : ℕ → Type 0) (j : ℕ) (xs : List ℕ) → All P xs → Among j xs → P j
All-Among P j [] h a = elim a [ ]
All-Among P j (x ∷ xs) h (here e) = subst P e h.0
All-Among P j (x ∷ xs) h (there a) = All-Among P j xs h.1 a

second : (a b : ℕ) (xs : List ℕ) → Before a b xs → Among b xs
second a b [] h = elim h [ ]
second a b (x ∷ xs) (begins e m) = there m
second a b (x ∷ xs) (later h) = there (second a b xs h)

pub both : (a b : ℕ) (xs : List ℕ) → Before a b xs → Among a xs × Among b xs
both a b [] h = elim h [ ]
both a b (x ∷ xs) (begins e m) = (here (sym e), there m)
both a b (x ∷ xs) (later h) = let r = both a b xs h in (there r.0, there r.1)

pub ordered :
    (a b : ℕ) (xs : List ℕ) → a ≢ b → Among a xs → Among b xs → Before a b xs ⊎ Before b a xs
ordered a b [] n h k = elim h [ ]
ordered a b (x ∷ xs) n (here e) (here f) = absurd (n (sym e ∙ f))
ordered a b (x ∷ xs) n (here e) (there k) = inl (begins (sym e) k)
ordered a b (x ∷ xs) n (there h) (here f) = inr (begins (sym f) h)
ordered a b (x ∷ xs) n (there h) (there k) = elim (ordered a b xs n h k) [
  | inl m ↦ inl (later m)
  | inr m ↦ inr (later m)
]

pub Before-ne : (a b : ℕ) (xs : List ℕ) → Apart xs → Before a b xs → a ≢ b
unfolding Apart
Before-ne a b [] d h = elim h [ ]
Before-ne a b (x ∷ xs) d (begins e m) = λ f. All-Among (λ y. y ≢ x) b xs d.0 m (sym f ∙ e)
Before-ne a b (x ∷ xs) d (later h) = Before-ne a b xs d.1 h

-- What stands before the element between two parts stands in the first part.
pub Before-Among :
    (a b : ℕ) (ys zs : List ℕ) → Apart (ys ++ b ∷ zs) → Before a b (ys ++ b ∷ zs) → Among a ys
unfolding Apart
Before-Among a b [] zs d (begins e m) = absurd (All-Among (λ y. y ≢ b) b zs d.0 m refl)
Before-Among a b [] zs d (later h) = absurd (All-Among (λ y. y ≢ b) b zs d.0 (second a b zs h) refl)
Before-Among a b (y ∷ ys) zs d (begins e m) = here (sym e)
Before-Among a b (y ∷ ys) zs d (later h) = there (Before-Among a b ys zs d.1 h)

Among-remove : (b y : ℕ) (xs : List ℕ) → Among y (remove b xs) → Among y xs
unfolding remove
Among-remove b y [] h = h
Among-remove b y (z ∷ xs) h = elim (Bool-cases (z == b)) [
  | inl same ↦ there (rw same at h)
  | inr other ↦ elim (rw other at h) [ here e ↦ here e | there m ↦ there (Among-remove b y xs m) ]
]

pub Before-remove : (b x y : ℕ) (xs : List ℕ) → Before x y (remove b xs) → Before x y xs
unfolding remove
Before-remove b x y [] h = h
Before-remove b x y (z ∷ xs) h = elim (Bool-cases (z == b)) [
  | inl same ↦ later (rw same at h)
  | inr other ↦ elim (rw other at h) [
    | begins e m ↦ begins e (Among-remove b y xs m)
    | later m ↦ later (Before-remove b x y xs m)
  ]
]

-- In use, or with contents.
abbrev pub live : Buf → Bool
live x = ltb 0 x.refcnt || x.valid || x.dirty

-- A buffer with the block of one that was used later is not live.
unfoldable pub Once : (ℕ → Buf) → List ℕ → Type 0
Once f order =
    (x y : ℕ)
    → Before x y order
    → is_block (f x).dev (f x).blockno (f y) ≡ true
    → live (f y) ≡ false

-- Two live buffers of a block are the same.
pub Once-unique :
    (f : ℕ → Buf) (order : List ℕ) (x y : ℕ)
    → Once f order
    → Among x order
    → Among y order
    → is_block (f x).dev (f x).blockno (f y) ≡ true
    → live (f x) ≡ true
    → live (f y) ≡ true
    → x ≡ y
unfolding Once
Once-unique f order x y o m n e h k = elim (Bool-cases (x == y)) [
  | inl same ↦ ground (arith, same)
  | inr other ↦ elim (ordered x y order (ground (arith, other)) m n) [
    | inl b ↦ absurd (ground (arith, o x y b e, k))
    | inr b ↦ absurd (ground (arith, o y x b (ground (arith, e)), h))
  ]
]

module _ (f : ℕ → Buf) (b : ℕ) (v : Buf) (d : v.dev ≡ (f b).dev)
    (n : v.blockno ≡ (f b).blockno) where
  same_dev : (j : ℕ) → (update f b v j).dev ≡ (f j).dev
  same_dev j = elim (Bool-cases (j == b)) [
    | inl same ↦ let e : j ≡ b = ground (arith, same) in rw (same, e) d
    | inr other ↦ rw other refl
  ]

  same_blockno : (j : ℕ) → (update f b v j).blockno ≡ (f j).blockno
  same_blockno j = elim (Bool-cases (j == b)) [
    | inl same ↦ let e : j ≡ b = ground (arith, same) in rw (same, e) n
    | inr other ↦ rw other refl
  ]

  -- A buffer may change, if its block stays and none that was used later has it.
  changed :
      (order : List ℕ)
      → ((x : ℕ) → Before x b order → is_block (f x).dev (f x).blockno (f b) ≡ false)
      → Once f order
      → Once (update f b v) order
  unfolding Once
  changed order none_of o x y h e =
      let e' : is_block (f x).dev (f x).blockno (f y) ≡ true =
        rw (same_dev x, same_dev y, same_blockno x, same_blockno y) at e in
      elim (Bool-cases (y == b)) [
        | inl same ↦
            let q : y ≡ b = ground (arith, same) in
            absurd (ground (arith, none_of x (subst (λ t. Before x t order) q h), (rw q at e')))
        | inr other ↦ rw other (o x y h e')
      ]

-- So may a live one.
pub Once-live :
    (f : ℕ → Buf) (order : List ℕ) (b : ℕ) (v : Buf)
    → Once f order
    → live (f b) ≡ true
    → v.dev ≡ (f b).dev
    → v.blockno ≡ (f b).blockno
    → Once (update f b v) order
unfolding Once
Once-live f order b v o l d n =
    changed f b v d n order
      (λ x h. elim (Bool-cases (is_block (f x).dev (f x).blockno (f b))) [
        | inl same ↦ absurd (ground (arith, o x b h same, l))
        | inr other ↦ other
      ])
      o

-- And the first buffer with its block.
pub Once-first :
    (f : ℕ → Buf) (order before behind : List ℕ) (b dev blockno : ℕ) (v : Buf)
    → Apart order
    → Once f order
    → order ≡ before ++ b ∷ behind
    → All (λ j. is_block dev blockno (f j) ≡ false) before
    → is_block dev blockno (f b) ≡ true
    → v.dev ≡ (f b).dev
    → v.blockno ≡ (f b).blockno
    → Once (update f b v) order
Once-first f order ys zs b dev blockno v a o p m t d n =
    changed f b v d n order
      (λ x h.
        let among = Before-Among x b ys zs (subst Apart p a) (subst (λ r. Before x b r) p h) in
        let other = All-Among (λ j. is_block dev blockno (f j) ≡ false) x ys m among in
        ground (arith, other, t))
      o

-- A buffer may get a block that no other has.
pub Once-new :
    (f : ℕ → Buf) (order : List ℕ) (b dev blockno : ℕ) (v : Buf)
    → Apart order
    → Once f order
    → All (λ j. is_block dev blockno (f j) ≡ false) order
    → v.dev ≡ dev
    → v.blockno ≡ blockno
    → Once (update f b v) order
unfolding Once
Once-new f order b dev blockno v a o m d n x y h e =
    let ne = Before-ne x y order a h in
    let mx = All-Among (λ j. is_block dev blockno (f j) ≡ false) x order m (both x y order h).0 in
    let my = All-Among (λ j. is_block dev blockno (f j) ≡ false) y order m (both x y order h).1 in
    elim (Bool-cases (y == b)) [
      | inl at_y ↦ absurd (ground (arith, at_y, ne, e, mx, d, n))
      | inr off_y ↦ elim (Bool-cases (x == b)) [
        | inl at_x ↦ absurd (ground (arith, off_y, at_x, e, my, d, n))
        | inr off_x ↦ rw off_y (o x y h (rw (off_y, off_x) at e))
      ]
    ]

-- A live buffer may be moved to the front.
pub Once-moved :
    (f : ℕ → Buf) (order : List ℕ) (b : ℕ)
    → Once f order
    → Apart order
    → Among b order
    → live (f b) ≡ true
    → Once f (b ∷ remove b order)
unfolding Once
Once-moved f order b o a m l x y (later h) e = o x y (Before-remove b x y order h) e
Once-moved f order b o a m l x y (begins q h) e =
    let ne : b ≢ y =
      λ r. All-Among (λ j. j ≢ b) y (remove b order) ((Apart-remove b order a).1 m) h (sym r) in
    let e' : is_block (f b).dev (f b).blockno (f y) ≡ true = rw q at e in
    elim (ordered b y order ne m (Among-remove b y order h)) [
      | inl k ↦ o b y k e'
      | inr k ↦ absurd (ground (arith, o y b k (ground (arith, e')), l))
    ]
