-- ===== src/Kalloc/Tests.antt =====
-- Runs of the allocator, and its theorems at concrete heaps.
use ztl_os.Base.{ℕ, ◌+◌, ◌≡◌, refl, arith, some, List, [], ◌∷◌}
use ztl_os.Kalloc.{Kmem, freerange}
use ztl_os.Kalloc.Chain.{IsFree, Chain}
use ztl_os.Kalloc.Heap.{Heap, Op, alloc, give_back, store, IsHeap, Safe, run, run-Safe}
use ztl_os.Kalloc.Range.{freerange-IsFree, pages_onto}

abbrev end_of_kernel : ℕ
end_of_kernel = 2148589568

abbrev nothing : Kmem
nothing = record { memory = λ _. 7; freelist = 0 }

nothing-IsFree : IsFree end_of_kernel nothing []
unfolding Chain
nothing-IsFree = record {
  chain = refl;
  once = λ w. omega arith;
  pages = λ w c. absurd (omega (arith, c));
}

-- a range that starts inside a page, with three whole pages
freerange-IsFree_example :
    (k' : Kmem) × (freerange end_of_kernel (end_of_kernel + 10) (end_of_kernel + 16484) nothing
      ≡ some k')
    × IsFree end_of_kernel k' (pages_onto 3 (end_of_kernel + 4096) [])
freerange-IsFree_example =
    freerange-IsFree end_of_kernel (end_of_kernel + 10) (end_of_kernel + 16484) nothing
      (omega arith) (omega arith) (omega arith) (omega arith) (omega arith) nothing-IsFree

-- one page free, and one held
abbrev first : ℕ
first = 2148593664

abbrev two_pages : Heap
two_pages = record {
  kmem = record { memory = λ _. 0; freelist = first };
  held = (first + 4096) ∷ [];
}

two_pages-IsHeap : IsHeap end_of_kernel two_pages (first ∷ [])
unfolding Chain
two_pages-IsHeap = record {
  listed = record {
    chain = (refl, ground arith, refl);
    once = λ w. ground arith;
    pages = λ w c. ground arith;
  };
  once = λ w. ground arith;
  pages = λ w c. ground arith;
}

abbrev script : List Op
script = alloc ∷ store (first + 4100) 5 ∷ give_back (first + 4096) ∷ alloc ∷ alloc ∷ []

run-Safe_example : Safe end_of_kernel two_pages (first ∷ []) (run end_of_kernel script two_pages)
run-Safe_example =
    run-Safe end_of_kernel script two_pages (first ∷ []) (omega arith) two_pages-IsHeap
