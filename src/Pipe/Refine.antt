-- ===== src/Pipe/Refine.antt =====
-- A valid pipe is a queue of at most 512 bytes: what each call does to its contents.
use ztl_os.Base.{
  ltb, ◌==◌, ◌%◌, ◌&&◌, ℕ, zero, suc, ◌-◌, ◌≡◌, refl, sym, ◌∙◌, ap, Bool, true, false, not, ◌||◌,
  List, [], ◌∷◌, ◌++◌, arith, length, take, drop, leb, if◌then◌else◌, append-nil, append_assoc,
  fail, ok, Bool-cases, inl, inr,
}
use ztl_os.Pipe.{
  on_nread, on_nwrite, copied, waiting, refused, piperead, ReadStretch, advance, Pipe, pipe_size,
  put, is_full, is_empty, pipewrite, copy_out, Stretch, returned, asleep,
}
use ztl_os.Pipe.Window.{
  is_empty_iff, IsValid, count, contents, advance-IsValid, contents_empty, contents_front,
  put-IsValid, contents-put, count-put,
}

-- the room that is left
abbrev pub space : Pipe → ℕ
space p = pipe_size - count p

-- `pipewrite` stores the bytes that fit, in order, behind what the pipe holds; it returns `n`
-- if all fit, and otherwise -1 if no reader is left or the process was killed; else it sleeps
-- with the bytes that did not fit.
abbrev pub WriteSpec : Bool → ℕ → List ℕ → Pipe → Stretch → Type 0
WriteSpec killed n bs p s =
    IsValid s.pipe
    × (contents s.pipe ≡ contents p ++ take (space p) bs)
    × (s.outcome ≡ (
        if leb (length bs) (space p)
        then returned (ok n)
        else if not p.readopen || killed
        then returned fail
        else asleep (drop (space p) bs)))
    × (s.pipe.nread ≡ p.nread)
    × (s.pipe.readopen ≡ p.readopen)
    × (s.pipe.writeopen ≡ p.writeopen)

space-put : {p : Pipe} (b : ℕ) → IsValid p → is_full p ≡ false → space p ≡ suc (space (put p b))
space-put b v h = omega (arith, count-put b v h, (put-IsValid b v h).fits)

count_of_full : {p : Pipe} → IsValid p → is_full p ≡ true → space p ≡ 0
count_of_full v h = ground arith

take-zero {ℓ} : {A : Type ℓ} (n : ℕ) (xs : List A) → n ≡ 0 → take n xs ≡ []
take-zero zero xs h = refl
take-zero (suc n) xs h = absurd (omega arith)

drop-zero {ℓ} : {A : Type ℓ} (n : ℕ) (xs : List A) → n ≡ 0 → drop n xs ≡ xs
drop-zero zero xs h = refl
drop-zero (suc n) xs h = absurd (omega arith)

write_nothing :
    (killed : Bool) (n : ℕ) {p : Pipe}
    → IsValid p
    → WriteSpec killed n [] p (pipewrite killed n [] p)
unfolding pipewrite
write_nothing killed n {p} v =
    (v, rw (take-nil (space p), append-nil), ground arith, refl, refl, refl)
  where
    take-nil : (k : ℕ) → take {A = ℕ} k [] ≡ []
    take-nil zero = refl
    take-nil (suc k) = refl

write_blocked :
    (killed : Bool) (n b : ℕ) (bs : List ℕ) {p : Pipe}
    → IsValid p
    → is_full p ≡ true
    → WriteSpec killed n (b ∷ bs) p (pipewrite killed n (b ∷ bs) p)
unfolding pipewrite
write_blocked killed n b bs {p} v full =
    let none_left = count_of_full v full in
    ground (
      arith,
      take-zero (space p) (b ∷ bs) none_left,
      drop-zero (space p) (b ∷ bs) none_left,
      append-nil (contents p),
    )

pipewrite_room :
    (killed : Bool) (n b : ℕ) (bs : List ℕ) (p : Pipe)
    → is_full p ≡ false
    → pipewrite killed n (b ∷ bs) p ≡ pipewrite killed n bs (put p b)
unfolding pipewrite
pipewrite_room killed n b bs p room = rw room

take-suc {ℓ} :
    {A : Type ℓ} (k : ℕ) (x : A) (xs : List A) {n : ℕ} → n ≡ suc k → take n (x ∷ xs) ≡ x ∷ take k xs
take-suc k x xs {n = zero} e = absurd (omega arith)
take-suc k x xs {n = suc n} e = ap (λ m. x ∷ take m xs) (omega arith)

drop-suc {ℓ} :
    {A : Type ℓ} (k : ℕ) (x : A) (xs : List A) {n : ℕ} → n ≡ suc k → drop n (x ∷ xs) ≡ drop k xs
drop-suc k x xs {n = zero} e = absurd (omega arith)
drop-suc k x xs {n = suc n} e = ap (λ m. drop m xs) (omega arith)

write_step :
    (killed : Bool) (n b : ℕ) (bs : List ℕ) {p : Pipe} (s : Stretch)
    → IsValid p
    → is_full p ≡ false
    → WriteSpec killed n bs (put p b) s
    → WriteSpec killed n (b ∷ bs) p s
unfolding put
write_step killed n b bs {p} s v room (valid, held, out, same, r, w) =
    (valid, store, end, same, r, w)
  where
    more : space p ≡ suc (space (put p b))
    more = space-put b v room

    store : contents s.pipe ≡ contents p ++ take (space p) (b ∷ bs)
    store = cc (
      held,
      contents-put b v room,
      append_assoc (contents p) (b ∷ []) (take (space (put p b)) bs),
      take-suc (space (put p b)) b bs more,
    )

    end : s.outcome ≡ (
        if leb (length (b ∷ bs)) (space p)
        then returned (ok n)
        else if not p.readopen || killed
        then returned fail
        else asleep (drop (space p) (b ∷ bs)))
    end = ground (arith, drop-suc (space (put p b)) b bs more)

pub pipewrite_lem :
    (killed : Bool) (n : ℕ) (bs : List ℕ) {p : Pipe}
    → IsValid p
    → WriteSpec killed n bs p (pipewrite killed n bs p)
pipewrite_lem killed n [] {p} v = write_nothing killed n v
pipewrite_lem killed n (b ∷ bs) {p} v = elim (Bool-cases (is_full p)) [
  | inl full ↦ write_blocked killed n b bs v full
  | inr room ↦ rw (pipewrite_room killed n b bs p room) (
      write_step killed n b bs (pipewrite killed n bs (put p b)) v room
        (pipewrite_lem killed n bs (put-IsValid b v room)))
]

-- Whether `pipewrite` gives up with bytes left.
abbrev pub gives_up : Bool → List ℕ → Pipe → Bool
gives_up killed bs p = ltb (space p) (length bs) && (not p.readopen || killed)

gives_up-put :
    (killed : Bool) (b : ℕ) (bs : List ℕ) {p : Pipe}
    → IsValid p
    → is_full p ≡ false
    → gives_up killed bs (put p b) ≡ gives_up killed (b ∷ bs) p
unfolding put
gives_up-put killed b bs {p} v room = ground (arith, space-put b v room)

-- `pipewrite` wakes the readers unless it gives up.
pub pipewrite-woken :
    (killed : Bool) (n : ℕ) (bs : List ℕ) {p : Pipe}
    → IsValid p
    → (pipewrite killed n bs p).woken ≡ (if gives_up killed bs p then [] else on_nread ∷ [])
unfolding pipewrite
pipewrite-woken killed n [] {p} v = ground arith
pipewrite-woken killed n (b ∷ bs) {p} v = elim (Bool-cases (is_full p)) [
  | inl full ↦ rw full (ground (arith, count_of_full v full))
  | inr room ↦ rw room (
      pipewrite-woken killed n bs (put-IsValid b v room)
      ∙ ap (λ g. if g then [] else on_nread ∷ []) (gives_up-put killed b bs v room))
]

-- `piperead` copies out, in order, the oldest bytes, `n` of them if there are as many.
abbrev pub ReadSpec : ℕ → Pipe → List ℕ × Pipe → Type 0
ReadSpec n p (bs, p') =
    IsValid p'
    × (bs ≡ take n (contents p))
    × (contents p' ≡ drop n (contents p))
    × (p'.readopen ≡ p.readopen)
    × (p'.writeopen ≡ p.writeopen)

pub copy_out_lem : (n : ℕ) {p : Pipe} → IsValid p → ReadSpec n p (copy_out n p)
unfolding copy_out advance
copy_out_lem zero v = (v, refl, refl, refl, refl)
copy_out_lem (suc n) {p} v = elim (Bool-cases (is_empty p)) [
  | inl none_left ↦ rw none_left (
    v,
    ap (take (suc n)) (sym (contents_empty v none_left)),
    contents_empty v none_left ∙ ap (drop (suc n)) (sym (contents_empty v none_left)),
    refl,
    refl,
  )
  | inr more ↦
      let (valid, front, rest, r, w) = copy_out_lem n (advance-IsValid v more) in
      rw more (
        valid,
        ap (λ bs. p.buf (p.nread % pipe_size) ∷ bs) front
            ∙ ap (take (suc n)) (sym (contents_front v more)),
        rest ∙ ap (drop (suc n)) (sym (contents_front v more)),
        r,
        w,
      )
]

-- `piperead` waits, or is refused if the process was killed, exactly when the pipe is empty and a
-- writer is left. Otherwise it copies out the `n` oldest bytes, or all if there are fewer, leaves
-- the rest and wakes the writers.
abbrev pub PipeReadSpec : Bool → ℕ → Pipe → ReadStretch → Type 0
PipeReadSpec killed n p s =
    if (count p == 0) && p.writeopen
    then (s.reading ≡ (if killed then refused else waiting)) × (s.pipe ≡ p) × (s.woken ≡ [])
    else (s.reading ≡ copied (take n (contents p)))
      × (contents s.pipe ≡ drop n (contents p))
      × IsValid s.pipe
      × (s.woken ≡ on_nwrite ∷ [])

refused_or_waiting :
    (killed : Bool) (p : Pipe)
    → let s : ReadStretch =
        if killed
        then record { reading = refused; woken = []; pipe = p }
        else record { reading = waiting; woken = []; pipe = p } in
      (s.reading ≡ (if killed then refused else waiting)) × (s.pipe ≡ p) × (s.woken ≡ [])
refused_or_waiting true p = (refl, refl, refl)
refused_or_waiting false p = (refl, refl, refl)

-- `piperead` meets its specification on every branch.
pub piperead_lem :
    (killed : Bool) (n : ℕ) {p : Pipe} → IsValid p → PipeReadSpec killed n p (piperead killed n p)
unfolding piperead
piperead_lem killed n {p} v =
    let (valid, front, rest, r, w) = copy_out_lem n v in
    elim (Bool-cases (is_empty p && p.writeopen)) [
      | inl wait ↦ rw (wait) (rw (← is_empty_iff v, wait) (refused_or_waiting killed p))
      | inr go ↦ rw (go) (rw (← is_empty_iff v, go) (ap copied front, rest, valid, refl))
    ]
