-- ===== src/Fs/Read.antt =====
-- `readi` returns the bytes of the file.
use ztl_os.Base.{
  ℕ, zero, suc, ◌+◌, ◌-◌, ◌*◌, ◌/◌, ◌%◌, ◌<◌, ◌≤◌, ◌≡◌, ◌≢◌, refl, sym, ap, ap₂, ◌∙◌, subst, arith,
  true, not, ◌||◌, some, inl, inr, [], ◌∷◌, ◌++◌, ltb, if◌then◌else◌, Bool-cases, ok, fail, u32_mod,
}
use ztl_os.Fs.{Fs, Inode, bsize, maxfile}
use ztl_os.Fs.Transfers.{chunk, slice, read_loop, readi}
use ztl_os.Fs.Mapped.{content_there, address, content}
use ztl_os.Fs.Map.{bmap_present}

-- The file has a block wherever it has a byte.
pub record IsFilled (fs : Fs) (ip : Inode) : Type 0 where
  pub short : ip.size ≤ maxfile * bsize
  pub filled : (j : ℕ) → j * bsize < ip.size → address fs ip j ≢ 0

slice-append : (o m k : ℕ) (f : ℕ → ℕ) → slice o (m + k) f ≡ slice o m f ++ slice (o + m) k f
unfolding slice
slice-append o zero k f = ap₂ (λ x y. slice x y f) (omega arith) (omega arith)
slice-append o (suc m) k f =
    let sum : suc m + k ≡ suc (m + k) = omega arith in
    ap (λ x. slice o x f) sum
    ∙ ap (λ xs. f o ∷ xs)
        (slice-append (o + 1) m k f ∙ ap (λ x. slice (o + 1) m f ++ slice x k f) (omega arith))

slice-same :
    (o o' m : ℕ) (f g : ℕ → ℕ)
    → ((i : ℕ) → i < m → f (o + i) ≡ g (o' + i))
    → slice o m f ≡ slice o' m g
unfolding slice
slice-same o o' zero f g h = refl
slice-same o o' (suc m) f g h =
    let first : f (o + 0) ≡ g (o' + 0) = h 0 (omega arith) in
    let rest =
      slice-same (o + 1) (o' + 1) m f g
        (λ i l. let at_next = h (suc i) (omega (arith, l)) in ground (arith, at_next)) in
    ground (arith, first, rest)

content_in :
    (fs : Fs) (ip : Inode) (off i : ℕ)
    → address fs ip (off / bsize) ≢ 0
    → i < bsize - off % bsize
    → fs.block (address fs ip (off / bsize)) (off % bsize + i) ≡ content fs ip (off + i)
content_in fs ip off i n l =
    let quotient : off / bsize ≡ (off + i) / bsize = omega arith in
    let remainder : off % bsize + i ≡ (off + i) % bsize = omega arith in
    ap₂ (λ q r. fs.block (address fs ip q) r) quotient remainder
    ∙ sym (content_there fs ip (off + i) (subst (λ q. address fs ip q ≢ 0) quotient n))

module _ (fs : Fs) (ip : Inode) (f : IsFilled fs ip) where
  read_loop_lem :
      (fuel off left : ℕ)
      → left ≤ fuel
      → off + left ≤ ip.size
      → read_loop fuel off left fs ip ≡ some (slice off left (content fs ip), fs, ip)
  unfolding read_loop slice
  read_loop_lem zero off zero a b = refl
  read_loop_lem (suc fuel) off zero a b = refl
  read_loop_lem zero off (suc left) a b = absurd (omega arith)
  read_loop_lem (suc fuel) off (suc left) a b =
      let m = chunk off (suc left) in
      let there = f.filled (off / bsize) (omega (arith, b)) in
      let found = bmap_present (off / bsize) fs ip (omega (arith, b, f.short)) there in
      let rest =
        read_loop_lem fuel (off + m) (suc left - m) (omega (arith, a)) (omega (arith, b)) in
      let here =
        slice-same (off % bsize) off m (fs.block (address fs ip (off / bsize))) (content fs ip)
          (λ i l. content_in fs ip off i there (omega (arith, l))) in
      let all : m + (suc left - m) ≡ suc left = omega arith in
      let more : ltb 0 (suc left) ≡ true = ground arith in
      rw (read_loop, more, found, rest, here)
        (ap (λ bs. some (bs, fs, ip))
          (sym (slice-append off m (suc left - m) (content fs ip))
            ∙ ap (λ k. slice off k (content fs ip)) all))

-- the number of bytes that a read of `n` bytes from `off` gives
abbrev pub available : (off n size : ℕ) → ℕ
available off n size = if ltb size (off + n) then size - off else n

-- Reading past the end is refused, and so is a range that runs over the address space; every other
-- read gives the bytes of the file there, as many as there are, and changes nothing.
pub readi_lem :
    (off n : ℕ) (fs : Fs) (ip : Inode)
    → off < u32_mod
    → n < u32_mod
    → IsFilled fs ip
    → readi off n fs ip ≡ (
        if ltb ip.size off || not (ltb (off + n) u32_mod)
        then some (record { ret = fail; bytes = []; fs = fs; ip = ip })
        else some (record {
          ret = ok (available off n ip.size);
          bytes = slice off (available off n ip.size) (content fs ip);
          fs = fs;
          ip = ip;
        }))
unfolding readi
readi_lem off n fs ip a b f =
    let refused : (ltb ip.size off || ltb ((off + n) % u32_mod) off)
        ≡ (ltb ip.size off || not (ltb (off + n) u32_mod)) =
      ground arith in
    elim (Bool-cases (ltb ip.size off || not (ltb (off + n) u32_mod))) [
      | inl bad ↦ rw (refused, bad) refl
      | inr good ↦
          let sum : (off + n) % u32_mod ≡ off + n = ground (arith, good) in
          let n' = available off n ip.size in
          let all = read_loop_lem fs ip f n' off n' (omega arith) (ground (arith, good)) in
          let same : (if ltb ip.size ((off + n) % u32_mod) then ip.size - off else n) ≡ n' =
            rw sum refl in
          rw (refused, good, sum, all)
            (ap
              (λ k.
                some
                  (record { ret = ok k; bytes = slice off n' (content fs ip); fs = fs; ip = ip }))
              same)
    ]
