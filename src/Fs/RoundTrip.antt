-- ===== src/Fs/RoundTrip.antt =====
-- Reading back what was written.
use Prim.Native.Nat.{max}
use mathlib.Core.Option.{some-injective, none-ne-some}
use ztl_os.Base.{
  ℕ, suc, ◌+◌, ◌-◌, ◌*◌, ◌<◌, ◌≤◌, ◌≡◌, refl, ◌∙◌, subst, arith, true, false, Option, some, inl,
  inr, List, [], ◌∷◌, ltb, ok, u32_mod, length, get_or,
}
use ztl_os.Fs.{Fs, Inode, bsize, maxfile}
use ztl_os.Fs.Transfers.{Transfer, writei, slice, readi}
use ztl_os.Fs.Mapped.{content, IsMapped}
use ztl_os.Fs.Read.{IsFilled, readi_lem, available}
use ztl_os.Fs.Written.{Written, refused, written, panicked, writei-Written}
use ztl_os.Fs.Laid.{laid}

slice-bytes :
    (o : ℕ) (src : List ℕ) (f : ℕ → ℕ)
    → ((i : ℕ) → i < length src → f (o + i) ≡ get_or src i 0)
    → slice o (length src) f ≡ src
unfolding slice
slice-bytes o [] f h = refl
slice-bytes o (c ∷ src) f h =
    let first : f (o + 0) ≡ c = h 0 (omega arith) in
    let rest =
      slice-bytes (o + 1) src f
        (λ i l. let at_next = h (suc i) (omega (arith, l)) in ground (arith, at_next)) in
    ground (arith, first, rest)

just_written :
    (off : ℕ) (src : List ℕ) (old : ℕ → ℕ) (ip : Inode) (fs' : Fs) (ip' : Inode)
    → off + length src ≤ maxfile * bsize
    → IsFilled fs' ip'
    → ((o : ℕ) → o < maxfile * bsize → content fs' ip' o ≡ laid off src old o)
    → ip'.size ≡ max ip.size (off + length src)
    → readi off (length src) fs' ip'
      ≡ some (record { ret = ok (length src); bytes = src; fs = fs'; ip = ip' })
unfolding laid
just_written off src old ip fs' ip' room f c z =
    let past : ltb ip'.size off ≡ false = ground (arith, z) in
    let short : ltb (off + length src) u32_mod ≡ true = ground (arith, room) in
    let all : available off (length src) ip'.size ≡ length src = ground (arith, z) in
    let bytes = slice-bytes off src (content fs' ip') (λ i l.
      let offset : off + i - off ≡ i = omega arith in
      let at_i = c (off + i) (omega (arith, l, room)) in ground (arith, at_i, l, offset)) in
    readi_lem off (length src) fs' ip' (omega (arith, room)) (omega (arith, room)) f
    ∙ rw (past, short, all, bytes) refl

read_back :
    (off : ℕ) (src : List ℕ) (fs : Fs) (ip : Inode)
    → off ≤ ip.size
    → off + length src ≤ maxfile * bsize
    → {r : Option Transfer} → Written off src fs ip r
    → {t : Transfer} → r ≡ some t
    → readi off (length src) t.fs t.ip
      ≡ some (record { ret = ok (length src); bytes = src; fs = t.fs; ip = t.ip })
read_back off src fs ip low room (refused (inl h)) e = absurd (omega (arith, h, low))
read_back off src fs ip low room (refused (inr h)) e = absurd (omega (arith, h, room))
read_back off src fs ip low room (panicked j low' l later none_there left_none) e =
    absurd (none-ne-some _ e)
read_back off src fs ip low room (written {fs'} {ip'} a b v f c z g) {t} e =
    subst
      (λ t.
        readi off (length src) t.fs t.ip
        ≡ some (record { ret = ok (length src); bytes = src; fs = t.fs; ip = t.ip }))
      (some-injective _ _ e) (just_written off src (content fs ip) ip fs' ip' room f c z)

-- Bytes that `writei` stored are the bytes that `readi` gives.
pub readi-writei :
    (off : ℕ) (src : List ℕ) (fs : Fs) (ip : Inode) (t : Transfer)
    → off ≤ ip.size
    → off + length src ≤ maxfile * bsize
    → IsMapped fs ip
    → IsFilled fs ip
    → writei off src fs ip ≡ some t
    → readi off (length src) t.fs t.ip
      ≡ some (record { ret = ok (length src); bytes = src; fs = t.fs; ip = t.ip })
readi-writei off src fs ip t low room v f e =
    read_back off src fs ip low room
      (writei-Written off src fs ip (omega (arith, low, f.short)) (omega (arith, room)) v f) e
