-- ===== src/Pipe/Window.antt =====
-- What a pipe holds: the bytes between its two counters, which wrap at 2 ^ 32.
use ztl_os.Base.{
  ℕ, zero, suc, ◌+◌, ◌-◌, ◌%◌, ◌≤◌, ◌<◌, ◌≡◌, refl, ap, ap₂, ◌≢◌, true, false, List, [], ◌∷◌, ◌++◌,
  arith, ◌==◌, update, update_ne, u32_mod, length,
}
use ztl_os.Pipe.{Pipe, pipe_size, put, advance, advance, is_full, is_empty}

-- the bytes that are in the pipe
abbrev pub count : Pipe → ℕ
count p = (p.nwrite + u32_mod - p.nread) % u32_mod

pub record IsValid (p : Pipe) : Type 0 where
  pub nread_word : p.nread < u32_mod
  pub nwrite_word : p.nwrite < u32_mod
  pub fits : count p ≤ pipe_size

abbrev pub window : (ℕ → ℕ) → ℕ → ℕ → List ℕ
window buf r zero = []
window buf r (suc n) = buf (r % pipe_size) ∷ window buf ((r + 1) % u32_mod) n

abbrev pub contents : Pipe → List ℕ
contents p = window p.buf p.nread (count p)

pub length-window : (buf : ℕ → ℕ) (r n : ℕ) → length (window buf r n) ≡ n
length-window buf r zero = refl
length-window buf r (suc n) = ap suc (length-window buf ((r + 1) % u32_mod) n)

pub is_full_iff : {p : Pipe} → IsValid p → is_full p ≡ (count p == pipe_size)
is_full_iff v = ground arith

pub is_empty_iff : {p : Pipe} → IsValid p → is_empty p ≡ (count p == 0)
is_empty_iff v = ground arith

-- A write at index `w` extends the window of `n < 512` bytes that ends there.
window-update :
    (buf : ℕ → ℕ) (b r n w : ℕ)
    → r < u32_mod
    → n < pipe_size
    → w ≡ (r + n) % u32_mod
    → window (update buf (w % pipe_size) b) r (suc n) ≡ window buf r n ++ (b ∷ [])
window-update buf b r zero w hr hn e =
    let same : r % pipe_size ≡ w % pipe_size = omega arith in
    ap (λ (x : ℕ). x ∷ []) (ground (arith, same))
window-update buf b r (suc n) w hr hn e =
    let apart : r % pipe_size ≢ w % pipe_size = omega arith in
    ap₂ ◌∷◌ (update_ne buf (w % pipe_size) b (r % pipe_size) apart)
      (window-update buf b ((r + 1) % u32_mod) n w (omega arith) (omega arith) (omega arith))

pub count-put : {p : Pipe} (b : ℕ) → IsValid p → is_full p ≡ false → count (put p b) ≡ suc (count p)
unfolding put
count-put b v h = ground arith

pub put-IsValid : {p : Pipe} (b : ℕ) → IsValid p → is_full p ≡ false → IsValid (put p b)
unfolding put
put-IsValid b v h = ground arith

pub contents-put :
    {p : Pipe} (b : ℕ) → IsValid p → is_full p ≡ false → contents (put p b) ≡ contents p ++ (b ∷ [])
unfolding put
contents-put {p} b v h =
    rw (count-put b v h)
      (window-update p.buf b p.nread (count p) p.nwrite (omega arith) (ground arith) (omega arith))

pub advance-IsValid : {p : Pipe} → IsValid p → is_empty p ≡ false → IsValid (advance p)
unfolding advance
advance-IsValid v h = ground arith

pub contents_empty : {p : Pipe} → IsValid p → is_empty p ≡ true → contents p ≡ []
contents_empty {p} v h =
    let none_left : count p ≡ 0 = ground arith in ap (window p.buf p.nread) none_left

pub contents_front :
    {p : Pipe}
    → IsValid p
    → is_empty p ≡ false
    → contents p ≡ p.buf (p.nread % pipe_size) ∷ contents (advance p)
unfolding advance
contents_front {p} v h =
    let one_less : count p ≡ suc (count (advance p)) = ground arith in
    ap (window p.buf p.nread) one_less
