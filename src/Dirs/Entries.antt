-- ===== src/Dirs/Entries.antt =====
-- Which entry `dirlookup` finds.
use ztl_os.Base.{
  ℕ, zero, suc, ◌+◌, ◌-◌, ◌*◌, ◌<◌, ◌≤◌, ◌≡◌, ◌≢◌, ◌↔◌, refl, sym, ap, ap₂, ◌∙◌, arith, true, false,
  Option, none, some, inl, inr, List, ◌==◌, ltb, Bool-cases, get_or, u32_mod, ok, subst,
}
use native.Mathlib.Decide.{dec_lt}
use ztl_os.Strings.Names.{name_at, AreBytes, strncmp_iff, name_at-same}
use ztl_os.Paths.{dirsiz}
use ztl_os.Fs.{Fs, Inode}
use ztl_os.Fs.Mapped.{content}
use ztl_os.Fs.Transfers.{readi, slice}
use ztl_os.Fs.Read.{IsFilled, readi_lem, available}
use ztl_os.Dirs.{de_size, de_inum, with_name, namecmp, lookup_loop}

-- The entry at `off` is used and has the name.
pub record Named (fs : Fs) (ip : Inode) (name : ℕ → ℕ) (off : ℕ) : Type 0 where
  pub in_use : content fs ip off + 256 * content fs ip (off + 1) ≢ 0
  pub same : name_at 0 dirsiz name ≡ name_at (off + 2) dirsiz (content fs ip)

-- The first entry with the name, or none if there is none; the directory stays as it is.
pub data Looks (fs : Fs) (ip : Inode) (name : ℕ → ℕ) (from : ℕ)
    : Option (Option (ℕ × ℕ) × Fs × Inode) → Type 0 where
  there :
      (j : ℕ)
      → from ≤ j
      → j * de_size < ip.size
      → Named fs ip name (j * de_size)
      → ((k : ℕ) → from ≤ k → k < j → ¬ (Named fs ip name (k * de_size)))
      → Looks fs ip name from (
          some (
            some (content fs ip (j * de_size) + 256 * content fs ip (j * de_size + 1), j * de_size),
            fs,
            ip,
          ))
  missing :
      ((k : ℕ) → from ≤ k → k * de_size < ip.size → ¬ (Named fs ip name (k * de_size)))
      → Looks fs ip name from (some (none, fs, ip))

get_or-slice : (n o : ℕ) (f : ℕ → ℕ) (i : ℕ) → i < n → get_or (slice o n f) i 0 ≡ f (o + i)
unfolding slice
get_or-slice zero o f i l = absurd (omega arith)
get_or-slice (suc n) o f zero l = ap f (omega arith)
get_or-slice (suc n) o f (suc i) l =
    get_or-slice n (o + 1) f i (omega (arith, l)) ∙ ap f (omega arith)

module _ (fs : Fs) (ip : Inode) (name : ℕ → ℕ) (bytes : AreBytes (content fs ip))
    (letters : AreBytes name) where
  abbrev de : ℕ → List ℕ
  de off = slice off de_size (content fs ip)

  de_inum-slice : (off : ℕ) → de_inum (de off) ≡ content fs ip off + 256 * content fs ip (off + 1)
  de_inum-slice off =
      let first : get_or (de off) 0 0 ≡ content fs ip off =
        get_or-slice de_size off (content fs ip) 0 (omega arith)
        ∙ ap (content fs ip) (omega arith) in
      let second : get_or (de off) 1 0 ≡ content fs ip (off + 1) =
        get_or-slice de_size off (content fs ip) 1 (omega arith) in
      ap₂ (λ x y. x + 256 * y) first second

  mem_bytes : (off : ℕ) → AreBytes (with_name (de off) name)
  unfolding with_name
  mem_bytes off a = elim (dec_lt a de_size) [
    | yes inside ↦
        let test : ltb a de_size ≡ true = ground (arith, inside) in
        rw test (
          subst (λ x. x < 256) (sym (get_or-slice de_size off (content fs ip) a inside))
            (bytes (off + a)))
    | no outside ↦
        let test : ltb a de_size ≡ false = ground (arith, outside) in
        rw test (letters (a - de_size))
  ]

  namecmp_iff :
      (off : ℕ)
      → (namecmp name (de off) ≡ 0)
        ↔ (name_at 0 dirsiz name ≡ name_at (off + 2) dirsiz (content fs ip))
  unfolding namecmp with_name
  namecmp_iff off =
      let mem = with_name (de off) name in
      let at_name : name_at de_size dirsiz mem ≡ name_at 0 dirsiz name =
        name_at-same de_size 0 dirsiz mem name (λ i l.
          let outside : ltb (de_size + i) de_size ≡ false = ground arith in
          let index : de_size + i - de_size ≡ 0 + i = omega arith in rw outside (ap name index)) in
      let at_entry : name_at 2 dirsiz mem ≡ name_at (off + 2) dirsiz (content fs ip) =
        name_at-same 2 (off + 2) dirsiz mem (content fs ip) (λ i l.
          let inside : ltb (2 + i) de_size ≡ true = ground (arith, l) in
          let place : off + (2 + i) ≡ off + 2 + i = omega arith in
          rw inside (
            get_or-slice de_size off (content fs ip) (2 + i) (omega (arith, l))
            ∙ ap (content fs ip) place)) in
      let (sound, complete) = strncmp_iff de_size 2 dirsiz mem (mem_bytes off) in
      ((λ e. sym at_name ∙ sound e ∙ at_entry), (λ e. complete (at_name ∙ e ∙ sym at_entry)))

  further :
      (j : ℕ)
      → ¬ (Named fs ip name (j * de_size))
      → {r : Option (Option (ℕ × ℕ) × Fs × Inode)} → Looks fs ip name (j + 1) r
      → Looks fs ip name j r
  further j other (there k a b same earlier) = there k (omega arith) b same (λ i x y.
      elim (dec_lt j i) [
        | yes above ↦ earlier i (omega arith) y
        | no below ↦
            let at_j : j ≡ i = omega (arith, x) in
            subst (λ x. ¬ (Named fs ip name (x * de_size))) at_j other
      ])
  further j other (missing none_there) = missing (λ i x y. elim (dec_lt j i) [
    | yes above ↦ none_there i (omega arith) y
    | no below ↦
        let at_j : j ≡ i = omega (arith, x) in
        subst (λ x. ¬ (Named fs ip name (x * de_size))) at_j other
  ])

  module _ (filled : IsFilled fs ip) (count : ℕ) (whole : ip.size ≡ count * de_size) where
    reads :
        (j : ℕ)
        → j * de_size < ip.size
        → readi (j * de_size) de_size fs ip
          ≡ some (record { ret = ok de_size; bytes = de (j * de_size); fs = fs; ip = ip })
    reads j l =
        let inside : ltb ip.size (j * de_size) ≡ false = ground (arith, l) in
        let small : ltb (j * de_size + de_size) u32_mod ≡ true = ground (arith, l, filled.short) in
        let fits : j * de_size + de_size ≤ ip.size = omega (arith, l, whole) in
        let all : available (j * de_size) de_size ip.size ≡ de_size = ground (arith, fits) in
        readi_lem (j * de_size) de_size fs ip (omega (arith, l, filled.short)) (omega arith) filled
        ∙ rw (inside, small, all) refl

    pub lookup_loop-Looks :
        (fuel j : ℕ)
        → ip.size ≤ j * de_size + fuel
        → Looks fs ip name j (lookup_loop fuel (j * de_size) name fs ip)
    unfolding lookup_loop
    lookup_loop-Looks zero j l = missing (λ k a b. absurd (omega (arith, b, l, a)))
    lookup_loop-Looks (suc fuel) j l = elim (Bool-cases (ltb (j * de_size) ip.size)) [
      | inr past ↦ rw (lookup_loop, past) (missing (λ k a b. absurd (ground (arith, past, a, b))))
      | inl inside ↦
          let read = reads j (ground (arith, inside)) in
          let next : j * de_size + de_size ≡ (j + 1) * de_size = omega arith in
          let rest =
            subst (λ x. Looks fs ip name (j + 1) (lookup_loop fuel x name fs ip)) (sym next)
              (lookup_loop-Looks fuel (j + 1) (omega (arith, l))) in
          let number = de_inum-slice (j * de_size) in
          elim (Bool-cases (de_inum (de (j * de_size)) == 0)) [
            | inl unused ↦
                rw (lookup_loop, inside, read, unused)
                  (further j (λ s. s.in_use (sym number ∙ ground (arith, unused))) rest)
            | inr used ↦ elim (Bool-cases (namecmp name (de (j * de_size)) == 0)) [
              | inl same ↦
                  rw (lookup_loop, inside, read, used, same)
                    (subst (λ x. Looks fs ip name j (some (some (x, j * de_size), fs, ip)))
                      (sym number)
                      (there j (omega arith) (ground (arith, inside))
                        (record {
                          in_use = λ z. ground (arith, used, number, z);
                          same = (namecmp_iff (j * de_size)).0 (ground (arith, same));
                        })
                        (λ k a b. absurd (omega (arith, a, b)))))
              | inr other ↦
                  rw (lookup_loop, inside, read, used, other)
                    (further j (λ s. ground (arith, other, (namecmp_iff (j * de_size)).1 s.same))
                      rest)
            ]
          ]
    ]
