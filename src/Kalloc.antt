-- ===== src/Kalloc.antt =====
-- src/kalloc.c: the allocator of physical pages.
--
-- The free pages form a list that is threaded through their first words. Memory is a function of
-- the address to the 4-byte word there. `end`, the first address after the kernel, is a parameter.
-- The lock is taken as held round each update of the list.
pub mod Chain
pub mod Heap
pub mod Range
mod Tests
use ztl_os.Base.{
  ℕ, zero, suc, ◌+◌, ◌-◌, ◌*◌, ◌/◌, ◌%◌, ◌^◌, Bool, true, false, not, ◌&&◌, Option, none, some,
  ◌==◌, ltb, leb, if◌then◌else◌, update, u32_mod,
}

abbrev pub page_size : ℕ
page_size = 4096

abbrev pub kernbase : ℕ
kernbase = 2147483648

abbrev pub phystop : ℕ
phystop = 234881024

-- `V2P(a)`, on `uint`
abbrev pub v2p : ℕ → ℕ
v2p a = (a + (u32_mod - kernbase)) % u32_mod

-- `PGROUNDUP(a)`, on `uint`
abbrev pub page_round_up : ℕ → ℕ
page_round_up a = (a + (page_size - 1)) % u32_mod / page_size * page_size

-- `kmem`, and the memory
pub record Kmem : Type 0 where
  pub memory : ℕ → ℕ
  pub freelist : ℕ

-- what `kfree` demands of a page
abbrev pub page_ok : (end : ℕ) → ℕ → Bool
page_ok end v = (v % page_size == 0) && not (ltb v end) && ltb (v2p v) phystop

-- `memset(v, 1, PGSIZE)`, seen in words
unfoldable pub fill_page : ℕ → (ℕ → ℕ) → ℕ → ℕ
fill_page v memory a = if not (ltb a v) && ltb a (v + page_size) then 16843009 else memory a

-- `none` is the panic.
unfoldable pub kfree : (end : ℕ) → ℕ → Kmem → Option Kmem
unfolding fill_page
kfree end v k =
    if not (page_ok end v)
    then none
    else some (record { memory = update (fill_page v k.memory) v k.freelist; freelist = v })

-- The page, 0 if there is none, and the state after it.
unfoldable pub kalloc : Kmem → ℕ × Kmem
kalloc k = (k.freelist, if k.freelist == 0 then k else record k { freelist = k.memory k.freelist })

-- The loop of `freerange` from `p` on, on fuel.
unfoldable pub free_from : ℕ → (end vend : ℕ) → ℕ → Kmem → Option Kmem
free_from zero end vend p k = some k
free_from (suc fuel) end vend p k = elim (leb (p + page_size) vend) [
  | true ↦ elim (kfree end p k) [
    | none ↦ none
    | some k' ↦ free_from fuel end vend (p + page_size) k'
  ]
  | false ↦ some k
]

-- No more rounds are needed than there are addresses.
unfoldable pub freerange : (end vstart vend : ℕ) → Kmem → Option Kmem
freerange end vstart vend k = free_from vend end vend (page_round_up vstart) k
