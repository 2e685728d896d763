-- ===== src/Strings/Tests.antt =====
-- The functions on memory at concrete memories.
use ztl_os.Base.{ℕ, ◌%◌, ◌≡◌, ◌↔◌, refl, arith}
use ztl_os.Strings.{memset, memcmp, memmove, strncmp, stosl, move_down}
use ztl_os.Strings.Move.{copied, memmove_lem}
use ztl_os.Strings.Names.{name_at, AreBytes, strncmp_iff}

-- the byte `a` at each address `a` below 100
abbrev memory : ℕ → ℕ
memory a = a % 100

memory-AreBytes : AreBytes memory
memory-AreBytes a = omega arith

-- a copy onto a range that overlaps its source
shifted : memmove 12 10 5 memory 16 ≡ 14
unfolding memmove move_down
shifted = refl

words : memset 8 511 8 memory 13 ≡ 255
unfolding memset stosl
words = refl

memmove_lem_example : memmove 12 10 5 memory 16 ≡ copied 12 10 5 memory 16
memmove_lem_example = memmove_lem 12 10 5 memory 16

strncmp_iff_example :
    (strncmp 10 110 14 memory ≡ 0) ↔ (name_at 10 14 memory ≡ name_at 110 14 memory)
strncmp_iff_example = strncmp_iff 10 110 14 memory memory-AreBytes

same_bytes : memcmp 10 110 4 memory ≡ 0
unfolding memcmp
same_bytes = refl
