-- ===== src/Inodes/Lock.antt =====
-- `ilock` and `iunlock`.
use ztl_os.Base.{
  update_ne, ℕ, ◌<◌, ◌≡◌, ◌≢◌, refl, sym, ap, ◌∙◌, arith, true, false, some, inl, inr, ◌==◌, ltb,
  Bool-cases, subst, update_self,
}
use ztl_os.Inodes.{Slot, Cache, Locking, asleep, locks, panics, put_slot, loaded, ilock, iunlock}
use ztl_os.Inodes.Counted.{refs, inums}
use ztl_os.Fs.{Dinode}
use ztl_os.Fs.Stores.{Stores}
use mathlib.Core.Bool.{false≢true}

-- The place with its lock taken: it has the inode that it had, or the one that the disk has.
pub record Held (d : Dinode) (s s' : Slot) : Type 0 where
  pub now_locked : s'.locked ≡ true
  pub now_valid : s'.valid ≡ true
  pub same_ref : s'.ref ≡ s.ref
  pub same_inum : s'.ip.inum ≡ s.ip.inum
  pub cached : s.valid ≡ true → s'.ip ≡ s.ip
  pub read : s.valid ≡ false → (d.type ≢ 0) × Stores d s'.ip

-- Without a reference, or with an inode to read that the disk has as free, it panics; while another
-- holds the lock, it sleeps; else the place is locked, and `iunlock` unlocks it.
pub data Locks (i : ℕ) (c : Cache) : Locking → Type 0 where
  unused : refs c i ≡ 0 → Locks i c panics
  untyped :
      0 < refs c i
      → (c.slot i).locked ≡ false
      → (c.slot i).valid ≡ false
      → (c.fs.dinodes (inums c i)).type ≡ 0
      → Locks i c panics
  held : 0 < refs c i → (c.slot i).locked ≡ true → Locks i c asleep
  taken :
      {c' : Cache}
      → 0 < refs c i
      → (c.slot i).locked ≡ false
      → Held (c.fs.dinodes (inums c i)) (c.slot i) (c'.slot i)
      → ((j : ℕ) → j ≢ i → c'.slot j ≡ c.slot j)
      → c'.fs ≡ c.fs
      → iunlock i c' ≡ some (put_slot i (record (c'.slot i) { locked = false }) c')
      → Locks i c (locks c')

unlocks :
    (i : ℕ) (c : Cache)
    → (c.slot i).locked ≡ true
    → 0 < refs c i
    → iunlock i c ≡ some (put_slot i (record (c.slot i) { locked = false }) c)
unfolding iunlock
unlocks i c h used =
    let free : ltb (c.slot i).ref 1 ≡ false = ground (arith, used) in rw (h, free) refl

kept_valid :
    (i : ℕ) (c : Cache)
    → (c.slot i).valid ≡ true
    → Held (c.fs.dinodes (inums c i)) (c.slot i) (record (c.slot i) { valid = true; locked = true })
kept_valid i c valid = record {
  now_locked = refl;
  now_valid = refl;
  same_ref = refl;
  same_inum = refl;
  cached = λ v. refl;
  read = λ v. absurd (false≢true (sym v ∙ valid));
}

read_in :
    (i : ℕ) (c : Cache)
    → (c.slot i).valid ≡ false
    → (c.fs.dinodes (inums c i)).type ≢ 0
    → Held (c.fs.dinodes (inums c i)) (c.slot i) (record (c.slot i) {
      ip = loaded (inums c i) (c.fs.dinodes (inums c i));
      valid = true;
      locked = true;
    })
read_in i c invalid some_type = record {
  now_locked = refl;
  now_valid = refl;
  same_ref = refl;
  same_inum = refl;
  cached = λ v. absurd (false≢true (sym invalid ∙ v));
  read = λ v. (
    some_type,
    record {
      type_same = refl;
      major_same = refl;
      minor_same = refl;
      nlink_same = refl;
      size_same = refl;
      addrs_same = λ j. refl;
    },
  );
}

gives :
    (i : ℕ) (c : Cache) (s : Slot)
    → 0 < refs c i
    → (c.slot i).locked ≡ false
    → Held (c.fs.dinodes (inums c i)) (c.slot i) s
    → Locks i c (locks (put_slot i s c))
gives i c s used free h =
    let here = update_self c.slot i s in
    let c' = put_slot i s c in
    taken used free (subst (Held (c.fs.dinodes (inums c i)) (c.slot i)) (sym here) h)
      (λ j n. update_ne c.slot i s j n) refl
      (unlocks i c' (ap (λ s. s.locked) here ∙ h.now_locked)
        (subst (λ s. 0 < s.ref) (sym here) (ground (arith, used, h.same_ref))))

-- `ilock` panics exactly on a place without a reference, and on one that is unlocked and not valid
-- whose inode has no type on the disk. Otherwise it sleeps exactly while the inode is locked, and
-- else leaves it locked and valid, with the inode that it had or, if that was not valid, with every
-- field that the disk has; no other place changes, nor the disk, and `iunlock` then unlocks it.
pub ilock-Locks : (i : ℕ) (c : Cache) → Locks i c (ilock i c)
unfolding ilock
ilock-Locks i c = elim (Bool-cases (ltb (c.slot i).ref 1)) [
  | inl none_left ↦ rw none_left (unused (ground (arith, none_left)))
  | inr counted ↦
      let used : 0 < refs c i = ground (arith, counted) in
      elim (Bool-cases (c.slot i).locked) [
        | inl lock ↦ rw (counted, lock) (held used lock)
        | inr free ↦ elim (Bool-cases (c.slot i).valid) [
          | inl valid ↦ rw (counted, free, valid) (gives i c _ used free (kept_valid i c valid))
          | inr invalid ↦ elim (Bool-cases ((c.fs.dinodes (inums c i)).type == 0)) [
            | inl no_type ↦
                rw (counted, free, invalid, no_type)
                  (untyped used free invalid (ground (arith, no_type)))
            | inr some_type ↦
                rw (counted, free, invalid, some_type)
                  (gives i c _ used free (read_in i c invalid (ground (arith, some_type))))
          ]
        ]
      ]
]
