-- ===== src/Dirs/Lookup.antt =====
-- `dirlookup` over the cache of inodes.
use ztl_os.Base.{
  ℕ, ◌+◌, ◌*◌, ◌<◌, ◌≡◌, ◌≢◌, sym, ap, ◌∙◌, arith, Option, none, some, inl, inr, ◌==◌, Bool-cases,
  subst, fun_ext, update, update_self, update_ne,
}
use ztl_os.Strings.Names.{AreBytes}
use ztl_os.Fs.{Fs, Inode}
use ztl_os.Fs.Mapped.{content}
use ztl_os.Fs.Read.{IsFilled}
use ztl_os.Inodes.{Cache, put_slot, iget}
use ztl_os.Inodes.Counted.{Counted, refs, inums}
use ztl_os.Inodes.Get.{Gets, iget-Gets}
use ztl_os.Dirs.{de_size, t_dir, dirlookup}
use ztl_os.Dirs.Entries.{Named, Looks, there, missing, lookup_loop-Looks}

put_same : (d : ℕ) (c : Cache) → put_slot d (c.slot d) c ≡ c
put_same d c =
    ap (λ slots. record c { slot = slots })
      (fun_ext (λ j. elim (Bool-cases (j == d)) [
        | inl here ↦
            let same : d ≡ j = ground (arith, here) in
            ap (λ x. update c.slot x (c.slot x) j) same ∙ update_self c.slot j (c.slot j)
        | inr other ↦ update_ne c.slot d (c.slot d) j (λ e. ground (arith, other, e))
      ]))

-- the inode number of an entry
abbrev pub number : Fs → Inode → ℕ → ℕ
number fs ip off = content fs ip off + 256 * content fs ip (off + 1)

-- The place of the inode that the first entry with the name has, with one more reference, and the
-- entry's offset; or nothing; or a panic.
pub data LooksUp (d : ℕ) (name : ℕ → ℕ) (c : Cache) (f : ℕ → ℕ)
    : Option (Option (ℕ × ℕ) × Cache) → Type 0 where
  no_directory : (c.slot d).ip.type ≢ t_dir → LooksUp d name c f none
  absent :
      ((k : ℕ) → k * de_size < (c.slot d).ip.size → ¬ (Named c.fs (c.slot d).ip name (k * de_size)))
      → LooksUp d name c f (some (none, c))
  present :
      (j : ℕ) {i : ℕ} {c' : Cache}
      → j * de_size < (c.slot d).ip.size
      → Named c.fs (c.slot d).ip name (j * de_size)
      → ((k : ℕ) → k < j → ¬ (Named c.fs (c.slot d).ip name (k * de_size)))
      → Gets (number c.fs (c.slot d).ip (j * de_size)) c f (some (i, c'))
      → LooksUp d name c f (some (some (i, j * de_size), c'))
  no_place :
      (j : ℕ)
      → Named c.fs (c.slot d).ip name (j * de_size)
      → Gets (number c.fs (c.slot d).ip (j * de_size)) c f none
      → LooksUp d name c f none

module _ (d : ℕ) (name : ℕ → ℕ) (c : Cache) (f : ℕ → ℕ) (v : Counted (refs c) (inums c) f) where
  with_place :
      (j : ℕ)
      → j * de_size < (c.slot d).ip.size
      → Named c.fs (c.slot d).ip name (j * de_size)
      → ((k : ℕ) → k < j → ¬ (Named c.fs (c.slot d).ip name (k * de_size)))
      → (r : Option (ℕ × Cache)) → Gets (number c.fs (c.slot d).ip (j * de_size)) c f r
      → LooksUp d name c f (elim r [ none ↦ none | some q ↦ some (some (q.0, j * de_size), q.1) ])
  with_place j l s e none g = no_place j s g
  with_place j l s e (some q) g = present j l s e g

  after_loop :
      {r : Option (Option (ℕ × ℕ) × Fs × Inode)}
      → Looks c.fs (c.slot d).ip name 0 r
      → LooksUp d name c f (elim r [
        | none ↦ none
        | some r ↦
            let c' = put_slot d (record (c.slot d) { ip = r.2 }) (record c { fs = r.1 }) in
            elim r.0 [
              | none ↦ some (none, c')
              | some e ↦ elim (iget e.0 c') [ none ↦ none | some q ↦ some (some (q.0, e.1), q.1) ]
            ]
      ])
  after_loop (missing none_there) =
      subst (λ c'. LooksUp d name c f (some (none, c'))) (sym (put_same d c))
        (absent (λ k l. none_there k (omega arith) l))
  after_loop (there j a l s e) =
      let n = number c.fs (c.slot d).ip (j * de_size) in
      subst
        (λ c'.
          LooksUp d name c f
            (elim (iget n c') [ none ↦ none | some q ↦ some (some (q.0, j * de_size), q.1) ]))
        (sym (put_same d c))
        (with_place j l s (λ k b. e k (omega arith) b) (iget n c) (iget-Gets n c f v))

-- In a directory of whole entries `dirlookup` finds the first entry in use with the name, compared
-- up to `DIRSIZ` bytes, and takes a reference to its inode; without one it returns 0 and changes
-- nothing. It panics only for a file of another type, or with every place of the cache used.
pub dirlookup-LooksUp :
    (d : ℕ) (name : ℕ → ℕ) (c : Cache) (f : ℕ → ℕ) (count : ℕ)
    → Counted (refs c) (inums c) f
    → IsFilled c.fs (c.slot d).ip
    → (c.slot d).ip.size ≡ count * de_size
    → AreBytes (content c.fs (c.slot d).ip)
    → AreBytes name
    → LooksUp d name c f (dirlookup d name c)
unfolding dirlookup
dirlookup-LooksUp d name c f count v filled whole bytes letters =
    elim (Bool-cases ((c.slot d).ip.type == t_dir)) [
      | inr other ↦ rw other (no_directory (ground (arith, other)))
      | inl directory ↦ rw directory (
          after_loop d name c f v (
            lookup_loop-Looks c.fs (c.slot d).ip name bytes letters filled count whole
              (c.slot d).ip.size 0 (omega arith)))
    ]
