-- ===== src/Inodes/Get.antt =====
-- `iget` and `idup` take references.
use ztl_os.Base.{update_self}
use ztl_os.Base.{sym}
use ztl_os.Base.{
  ℕ, ◌+◌, ◌<◌, ◌≡◌, ◌≢◌, refl, ◌∙◌, arith, false, Option, none, some, update, subst, update_ne,
}
use ztl_os.Inodes.{ninode, Slot, Cache, put_slot, Found, cached, empty_slot, no_slot, iget, idup}
use ztl_os.Inodes.Scan.{Missing, Finds, finds_cached, finds_empty, finds_none, scan-Finds}
use ztl_os.Inodes.Counted.{
  Counted, refs, inums, ref_put, inum_put, inum_kept, up_by_one, from_empty,
}

-- What happens to the place: it held the inode, and has one reference more; or no one used it, and
-- it has one reference and nothing that is valid.
pub data Placed (inum : ℕ) (s s' : Slot) : Type 0 where
  shared :
      0 < s.ref
      → s.ip.inum ≡ inum
      → s'.ip ≡ s.ip
      → s'.ref ≡ s.ref + 1
      → s'.valid ≡ s.valid
      → s'.locked ≡ s.locked
      → Placed inum s s'
  recycled :
      s.ref ≡ 0
      → s'.ip.inum ≡ inum
      → s'.ref ≡ 1
      → s'.valid ≡ false
      → s'.locked ≡ s.locked
      → Placed inum s s'

-- A place with the inode and one more reference to it, the other places and the disk being as
-- before; or the cache is full of others.
pub data Gets (inum : ℕ) (c : Cache) (f : ℕ → ℕ) : Option (ℕ × Cache) → Type 0 where
  gets :
      {i : ℕ} {c' : Cache}
      → i < ninode
      → inums c' i ≡ inum
      → 0 < refs c' i
      → Counted (refs c') (inums c') (update f inum (f inum + 1))
      → c'.fs ≡ c.fs
      → ((j : ℕ) → j ≢ i → c'.slot j ≡ c.slot j)
      → Placed inum (c.slot i) (c'.slot i)
      → Gets inum c f (some (i, c'))
  cache_full : ((j : ℕ) → j < ninode → 0 < refs c j) → f inum ≡ 0 → Gets inum c f none

module _ (inum : ℕ) (c : Cache) (f : ℕ → ℕ) (v : Counted (refs c) (inums c) f) where
  taken :
      {r : Found}
      → Finds c.slot inum r
      → Gets inum c f (elim r [
        | cached i ↦ some (i, put_slot i (record (c.slot i) { ref = (c.slot i).ref + 1 }) c)
        | empty_slot i ↦ some (
          i,
          put_slot i
              (record (c.slot i) {
                ip = record ((c.slot i).ip) { inum = inum };
                ref = 1;
                valid = false;
              })
              c,
        )
        | no_slot ↦ none
      ])
  unfolding Missing
  taken (finds_cached {j = i} l used same) =
      let s : Slot = record (c.slot i) { ref = (c.slot i).ref + 1 } in
      let counted = up_by_one v i l used (ref_put i s c) (λ j. inum_kept i s c j refl) in
      gets l (inum_kept i s c i refl ∙ same) (ground (arith, ref_put i s c i))
        (subst
          (λ n. Counted (refs (put_slot i s c)) (inums (put_slot i s c)) (update f n (f n + 1)))
          same counted)
        refl (λ j n. update_ne c.slot i s j n)
        (subst (Placed inum (c.slot i)) (sym (update_self c.slot i s))
          (shared used same refl refl refl refl))
  taken (finds_empty {j = i} l empty missing) =
      let s : Slot = record (c.slot i) {
        ip = record ((c.slot i).ip) { inum = inum };
        ref = 1;
        valid = false;
      } in
      gets l (ground (arith, inum_put i s c i)) (ground (arith, ref_put i s c i))
        (from_empty v i l inum empty missing (ref_put i s c) (inum_put i s c)) refl
        (λ j n. update_ne c.slot i s j n)
        (subst (Placed inum (c.slot i)) (sym (update_self c.slot i s))
          (recycled empty refl refl refl refl))
  taken (finds_none all missing) = cache_full all (v.absent inum missing)

-- `iget` gives a place with the inode and counts one more reference to it, and none to others; the
-- other places and the disk stay. A place that held the inode keeps what it holds; one that was
-- unused has one reference and is not valid. It panics only if every place is used and the inode is
-- in none.
pub iget-Gets :
    (inum : ℕ) (c : Cache) (f : ℕ → ℕ) → Counted (refs c) (inums c) f → Gets inum c f (iget inum c)
unfolding iget
iget-Gets inum c f v = taken inum c f v (scan-Finds inum c.slot)

-- `idup` counts one more reference.
pub idup-Counted :
    (i : ℕ) (c : Cache) (f : ℕ → ℕ)
    → i < ninode
    → 0 < refs c i
    → Counted (refs c) (inums c) f
    → Counted (refs (idup i c)) (inums (idup i c)) (update f (inums c i) (f (inums c i) + 1))
unfolding idup
idup-Counted i c f l used v =
    let s : Slot = record (c.slot i) { ref = (c.slot i).ref + 1 } in
    up_by_one v i l used (ref_put i s c) (λ j. inum_kept i s c j refl)
