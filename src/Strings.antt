-- ===== src/Strings.antt =====
-- src/string.c: the kernel's functions on memory and strings.
--
-- Memory is a function of the address to the byte there. The ranges that a call is given do not
-- run over the top of the address space. An `int` result is its bit pattern.
pub mod Move
pub mod Names
mod Tests
use ztl_os.Base.{
  ℕ, zero, suc, ◌+◌, ◌-◌, ◌*◌, ◌/◌, ◌%◌, Bool, not, ◌&&◌, ◌==◌, ltb, if◌then◌else◌, update, u32_mod,
}

-- `stosb` of x86.h: the low byte of `v`, `n` times
unfoldable pub stosb : (a v n : ℕ) → (ℕ → ℕ) → ℕ → ℕ
stosb a v zero m = m
stosb a v (suc n) m = stosb (a + 1) v n (update m a (v % 256))

-- a word stored with its low byte first
abbrev pub store_word : (a w : ℕ) → (ℕ → ℕ) → ℕ → ℕ
store_word a w m =
    update
      (update (update (update m a (w % 256)) (a + 1) (w / 256 % 256)) (a + 2) (w / 65536 % 256))
      (a + 3) (w / 16777216 % 256)

-- `stosl` of x86.h: the word `w`, `n` times
unfoldable pub stosl : (a w n : ℕ) → (ℕ → ℕ) → ℕ → ℕ
stosl a w zero m = m
stosl a w (suc n) m = stosl (a + 4) w n (store_word a w m)

-- `(c<<24)|(c<<16)|(c<<8)|c` for a byte, whose shifts have no bit in common
abbrev pub four_times : ℕ → ℕ
four_times c = c * 16777216 + c * 65536 + c * 256 + c

unfoldable pub memset : (dst c n : ℕ) → (ℕ → ℕ) → ℕ → ℕ
memset dst c n m =
    if (dst % 4 == 0) && (n % 4 == 0)
    then stosl dst (four_times (c % 256)) (n / 4) m
    else stosb dst c n m

-- `a - b` of two bytes, as an `int`
abbrev pub difference : ℕ → ℕ → ℕ
difference a b = (a + (u32_mod - b)) % u32_mod

unfoldable pub memcmp : (v1 v2 n : ℕ) → (ℕ → ℕ) → ℕ
memcmp v1 v2 zero m = 0
memcmp v1 v2 (suc n) m =
    let rest = memcmp (v1 + 1) (v2 + 1) n m in
    if not (m v1 == m v2) then difference (m v1) (m v2) else rest

-- `while (n-- > 0) *d++ = *s++`
unfoldable pub move_up : (d s n : ℕ) → (ℕ → ℕ) → ℕ → ℕ
move_up d s zero m = m
move_up d s (suc n) m = move_up (d + 1) (s + 1) n (update m d (m s))

-- `while (n-- > 0) *--d = *--s`
unfoldable pub move_down : (d s n : ℕ) → (ℕ → ℕ) → ℕ → ℕ
move_down d s zero m = m
move_down d s (suc n) m = move_down (d - 1) (s - 1) n (update m (d - 1) (m (s - 1)))

unfoldable pub memmove : (dst src n : ℕ) → (ℕ → ℕ) → ℕ → ℕ
memmove dst src n m =
    if ltb src dst && ltb dst (src + n)
    then move_down (dst + n) (src + n) n m
    else move_up dst src n m

unfoldable pub strncmp : (p q n : ℕ) → (ℕ → ℕ) → ℕ
strncmp p q zero m = 0
strncmp p q (suc n) m =
    let rest = strncmp (p + 1) (q + 1) n m in
    if not (m p == 0) && (m p == m q) then rest else difference (m p) (m q)

-- The second loop of `strncpy`.
unfoldable pub pad : (s n : ℕ) → (ℕ → ℕ) → ℕ → ℕ
pad s zero m = m
pad s (suc n) m = pad (s + 1) n (update m s 0)

-- Its first loop, which ends after a zero byte, and then the second.
unfoldable pub strncpy : (s t n : ℕ) → (ℕ → ℕ) → ℕ → ℕ
strncpy s t zero m = m
strncpy s t (suc n) m =
    let m' = update m s (m t) in
    let more = strncpy (s + 1) (t + 1) n m' in if not (m t == 0) then more else pad (s + 1) n m'
