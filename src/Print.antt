-- ===== src/Print.antt =====
-- src/printf.c, `printint` and `cprintf` of src/console.c, and `atoi` of src/ulib.c: numbers as text,
-- and formats.
--
-- A string is the list of its bytes before the NUL; what is printed is the list of the bytes that
-- `putc` or `consputc` gets. An `int` is its bit pattern.
pub mod Digits
pub mod RoundTrip
pub mod Formats
mod Tests
use ztl_os.Base.{
  ℕ, zero, suc, ◌+◌, ◌-◌, ◌*◌, ◌/◌, ◌%◌, ◌^◌, Bool, true, false, not, ◌&&◌, ◌||◌, List, [], ◌∷◌,
  ◌++◌, ◌==◌, ltb, leb, if◌then◌else◌, u32_mod,
}

-- `"0123456789ABCDEF"[d]`
abbrev pub upper_digit : ℕ → ℕ
upper_digit d = if ltb d 10 then 48 + d else 55 + d

-- `"0123456789abcdef"[d]`
abbrev pub lower_digit : ℕ → ℕ
lower_digit d = if ltb d 10 then 48 + d else 87 + d

-- The loop `do … while` of both `printint`s, which fills `buf` from the lowest digit on; on fuel.
unfoldable pub fill : ℕ → (ℕ → ℕ) → (base x : ℕ) → List ℕ
fill zero digit base x = []
fill (suc fuel) digit base x =
    let rest = fill fuel digit base (x / base) in
    digit (x % base) ∷ (if not (x / base == 0) then rest else [])

-- No more digits than bits.
abbrev pub enough : ℕ
enough = 32

-- `while(--i >= 0) putc(buf[i])`
unfoldable pub backwards : List ℕ → List ℕ
backwards [] = []
backwards (d ∷ ds) = backwards ds ++ d ∷ []

abbrev pub minus : ℕ
minus = 45

abbrev pub is_negative : ℕ → Bool
is_negative x = leb (2 ^ 31) x

-- `buf`, after the sign is stored
unfoldable pub buffer : (ℕ → ℕ) → (xx base : ℕ) → Bool → List ℕ
buffer digit xx base signed =
    if signed && is_negative xx
    then fill enough digit base ((u32_mod - xx) % u32_mod) ++ minus ∷ []
    else fill enough digit base xx

-- `printint` of printf.c with `upper_digit`, and of console.c with `lower_digit`
unfoldable pub printint : (ℕ → ℕ) → (xx base : ℕ) → Bool → List ℕ
printint digit xx base signed = backwards (buffer digit xx base signed)

unfoldable pub atoi_loop : ℕ → List ℕ → ℕ
atoi_loop n [] = n
atoi_loop n (c ∷ s) =
    let rest = atoi_loop ((n * 10 + c + (u32_mod - 48)) % u32_mod) s in
    if leb 48 c && leb c 57 then rest else n

unfoldable pub atoi : List ℕ → ℕ
atoi s = atoi_loop 0 s

-- `%d`, `%x`, `%p`, `%s`, `%c` and `%%`
abbrev pub percent : ℕ
percent = 37

abbrev pub letter_d : ℕ
letter_d = 100

abbrev pub letter_x : ℕ
letter_x = 120

abbrev pub letter_p : ℕ
letter_p = 112

abbrev pub letter_s : ℕ
letter_s = 115

abbrev pub letter_c : ℕ
letter_c = 99

-- `"(null)"`
abbrev pub null_text : List ℕ
null_text = 40 ∷ 110 ∷ 117 ∷ 108 ∷ 108 ∷ 41 ∷ []

-- the string at a pointer, for the strings of a memory
abbrev pub text_at : (ℕ → List ℕ) → ℕ → List ℕ
text_at strings s = if s == 0 then null_text else strings s

-- `*ap` and `ap++`, on the words that were passed; what stands behind them is taken for 0.
abbrev pub argument : List ℕ → ℕ
argument [] = 0
argument (a ∷ _) = a

abbrev pub others : List ℕ → List ℕ
others [] = []
others (_ ∷ args) = args

-- A round of the loop of `printf` at `c` after a `%`: the bytes, and whether it took an argument.
unfoldable pub convert : (ℕ → List ℕ) → ℕ → ℕ → List ℕ × Bool
convert strings c a =
    if c == letter_d
    then (printint upper_digit a 10 true, true)
    else if c == letter_x || c == letter_p
    then (printint upper_digit a 16 false, true)
    else if c == letter_s
    then (text_at strings a, true)
    else if c == letter_c
    then (a % 256 ∷ [], true)
    else if c == percent
    then (c ∷ [], false)
    else (percent ∷ c ∷ [], false)

-- The loop of `printf`, with `state == '%'` as a flag.
unfoldable pub printf_loop : (ℕ → List ℕ) → Bool → List ℕ → List ℕ → List ℕ
printf_loop strings pending [] args = []
printf_loop strings false (c ∷ fmt) args =
    let wait = printf_loop strings true fmt args in
    let plain = printf_loop strings false fmt args in if c == percent then wait else c ∷ plain
printf_loop strings true (c ∷ fmt) args =
    let step = convert strings c (argument args) in
    let taken = printf_loop strings false fmt (others args) in
    let kept = printf_loop strings false fmt args in step.0 ++ (if step.1 then taken else kept)

unfoldable pub printf : (ℕ → List ℕ) → List ℕ → List ℕ → List ℕ
printf strings fmt args = printf_loop strings false fmt args

-- The `switch` of `cprintf`.
unfoldable pub cconvert : (ℕ → List ℕ) → ℕ → ℕ → List ℕ × Bool
cconvert strings c a =
    if c == letter_d
    then (printint lower_digit a 10 true, true)
    else if c == letter_x || c == letter_p
    then (printint lower_digit a 16 false, true)
    else if c == letter_s
    then (text_at strings a, true)
    else if c == percent
    then (percent ∷ [], false)
    else (percent ∷ c ∷ [], false)

-- `cprintf`, whose `fmt[++i]` takes the byte after a `%` in the same round.
unfoldable pub cprintf : (ℕ → List ℕ) → List ℕ → List ℕ → List ℕ
cprintf strings [] args = []
cprintf strings (c ∷ []) args = if not (c == percent) then c ∷ [] else []
cprintf strings (c ∷ d ∷ fmt) args =
    let step = cconvert strings d (argument args) in
    let plain = cprintf strings (d ∷ fmt) args in
    let taken = cprintf strings fmt (others args) in
    let kept = cprintf strings fmt args in
    if not (c == percent) then c ∷ plain else step.0 ++ (if step.1 then taken else kept)
