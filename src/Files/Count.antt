-- ===== src/Files/Count.antt =====
-- How many descriptors stand for a file.
use mathlib.Core.Option.{none-ne-some}
use ztl_os.Base.{
  refl, inr, inl, Option-cases, ℕ, zero, suc, ◌+◌, ◌≡◌, arith, Option, none, some, List, [], ◌∷◌,
  ◌==◌, if◌then◌else◌, get_elem?, set,
}
use ztl_os.Files.{File, find_unused, argfd, fdalloc}

abbrev pub stands_for : ℕ → Option ℕ → ℕ
stands_for i none = 0
stands_for i (some f) = if f == i then 1 else 0

abbrev pub refs : ℕ → List (Option ℕ) → ℕ
refs i [] = 0
refs i (slot ∷ fds) = stands_for i slot + refs i fds

pub fdalloc-refs :
    (f fd : ℕ) (fds fds' : List (Option ℕ))
    → fdalloc f fds ≡ some (fd, fds')
    → (i : ℕ) → refs i fds' ≡ stands_for i (some f) + refs i fds
unfolding fdalloc
fdalloc-refs f fd [] fds' e i = absurd (none-ne-some _ e)
fdalloc-refs f fd (none ∷ fds) fds' e i = ground (arith, e)
fdalloc-refs f fd (some g ∷ fds) fds' e i = elim (Option-cases (fdalloc f fds)) [
  | inl full ↦ ground (arith, e, full)
  | inr found ↦
      let more = fdalloc-refs f found.0.0 fds found.0.1 found.1 i in
      ground (arith, e, found.1, more)
]

pub argfd-elem :
    (fd f : ℕ) (fds : List (Option ℕ)) → argfd fd fds ≡ some f → get_elem? fds fd ≡ some (some f)
unfolding argfd
argfd-elem fd f fds e = ground (arith, e)

pub set-refs :
    (fd f : ℕ) (fds : List (Option ℕ))
    → get_elem? fds fd ≡ some (some f)
    → (i : ℕ) → refs i (set fds fd none) + stands_for i (some f) ≡ refs i fds
set-refs fd f [] e i = absurd (none-ne-some _ e)
set-refs zero f (slot ∷ fds) e i = ground (arith, e)
set-refs (suc fd) f (slot ∷ fds) e i = omega (arith, set-refs fd f fds e i)

pub find_unused-ref :
    (k i j : ℕ) (files : ℕ → File) → find_unused k i files ≡ some j → (files j).ref ≡ 0
unfolding find_unused
find_unused-ref zero i j files e = absurd (none-ne-some _ e)
find_unused-ref (suc k) i j files e = ground (arith, e, find_unused-ref k (i + 1) j files)

-- The descriptor that `fdalloc` takes was free, and stands for the file.
pub fdalloc-elem :
    (f fd : ℕ) (fds fds' : List (Option ℕ))
    → fdalloc f fds ≡ some (fd, fds')
    → (get_elem? fds fd ≡ some none) × (get_elem? fds' fd ≡ some (some f))
unfolding fdalloc
fdalloc-elem f fd [] fds' e = absurd (none-ne-some _ e)
fdalloc-elem f fd (none ∷ fds) fds' e = (ground (arith, e), ground (arith, e))
fdalloc-elem f fd (some g ∷ fds) fds' e = elim (Option-cases (fdalloc f fds)) [
  | inl full ↦ (ground (arith, e, full), ground (arith, e, full))
  | inr found ↦
      let more = fdalloc-elem f found.0.0 fds found.0.1 found.1 in
      (ground (arith, e, found.1, more.0), ground (arith, e, found.1, more.1))
]

pub set-elem :
    (fd f : ℕ) (fds : List (Option ℕ))
    → get_elem? fds fd ≡ some (some f)
    → get_elem? (set fds fd none) fd ≡ some none
set-elem fd f [] e = absurd (none-ne-some _ e)
set-elem zero f (slot ∷ fds) e = refl
set-elem (suc fd) f (slot ∷ fds) e = set-elem fd f fds e
