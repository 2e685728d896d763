-- ===== src/Fs/Map.antt =====
-- `bmap` finds the block of a file, and gives the file a new one where there is none.
use ztl_os.Fs.Later.{Extends-Later}
use mathlib.Core.Bool.{true, false≢true}
use ztl_os.Base.{
  ◌≤◌, ◌-◌, true, ltb, subst, ℕ, ◌+◌, ◌*◌, ◌<◌, ◌≡◌, ◌≢◌, refl, sym, ap, ◌∙◌, arith, false, Option,
  none, some, inl, inr, ◌==◌, update, Bool-cases,
}
use ztl_os.Fs.{
  bzero, bmap, store_word, Fs, Inode, bsize, ndirect, nindirect, maxfile, entry, with_addr,
  own_addr, listed_addr,
}
use ztl_os.Fs.Blocks.{in_use, AllUsed, Allocates, allocates, no_space, balloc-Allocates}
use ztl_os.Fs.Mapped.{address, content, IsMapped}
use ztl_os.Fs.Later.{Later, Later-refl, Later-trans, list_taken}
use ztl_os.Fs.Extend.{Extends, Extends-IsMapped, Extends-content}
use ztl_os.Fs.Slots.{
  in_use-taken, taken, address_unlisted, address_direct, address_listed, own-Extends,
  listed-Extends,
}
use ztl_os.Strings.{store_word}
use ztl_os.Fs.NewList.{listed-content, same_slots, listed-IsMapped, is_list, list_nonzero}
use native.Mathlib.Decide.{dec_lt}

-- All blocks are in use; or all but one are, and the file needs two: one for the block of addresses
-- that it does not have yet.
pub data NoneLeft (bn : ℕ) (fs : Fs) (ip : Inode) : Type 0 where
  all_used : AllUsed fs 0 fs.size → NoneLeft bn fs ip
  one_left :
      (t : ℕ)
      → ndirect ≤ bn
      → ip.addrs ndirect ≡ 0
      → ((b : ℕ) → b < fs.size → b ≢ t → in_use fs b ≡ true)
      → NoneLeft bn fs ip

-- The file has a block there now, one that was free if it had none, and the same contents and size,
-- and has taken no further block; or it had none, and there were too few free blocks.
pub data Maps (bn : ℕ) (fs : Fs) (ip : Inode) : Option (ℕ × Fs × Inode) → Type 0 where
  maps :
      {a : ℕ} {fs' : Fs} {ip' : Inode}
      → IsMapped fs' ip'
      → address fs' ip' bn ≡ a
      → a ≢ 0
      → ((off : ℕ) → off < maxfile * bsize → content fs' ip' off ≡ content fs ip off)
      → ip'.size ≡ ip.size
      → ((j : ℕ) → j < maxfile → address fs ip j ≢ 0 → address fs' ip' j ≡ address fs ip j)
      → (address fs ip bn ≡ 0 → in_use fs a ≡ false)
      → Later bn (bn + 1) fs ip fs' ip'
      → Maps bn fs ip (some (a, fs', ip'))
  full : address fs ip bn ≡ 0 → NoneLeft bn fs ip → Maps bn fs ip none

-- A block that is there already.
present :
    (bn : ℕ) (fs : Fs) (ip : Inode)
    → IsMapped fs ip
    → address fs ip bn ≢ 0
    → Maps bn fs ip (some (address fs ip bn, fs, ip))
present bn fs ip v n =
    maps v refl n (λ off l. refl) refl (λ j l m. refl) (λ z. absurd (n z))
      (Later-refl bn (bn + 1) fs ip)

extended :
    {bn a : ℕ} {fs fs' : Fs} {ip ip' : Inode}
    → bn < maxfile
    → IsMapped fs ip
    → Extends bn a fs ip fs' ip'
    → ip'.size ≡ ip.size
    → Maps bn fs ip (some (a, fs', ip'))
extended {bn} {a} {fs} {fs'} {ip} {ip'} l v e same =
    maps (Extends-IsMapped v e) (ground (arith, e.slots bn l))
      (λ z. false≢true (sym (subst (λ x. in_use fs x ≡ false) z e.was_free) ∙ v.boot))
      (Extends-content v e) same (λ j l m. ground (arith, e.slots j l, e.hole, m)) (λ z. e.was_free)
      (Extends-Later l e)

own_new :
    (bn : ℕ) (fs : Fs) (ip : Inode)
    → bn < ndirect
    → ip.addrs bn ≡ 0
    → IsMapped fs ip
    → {r : Option (ℕ × Fs)} → Allocates fs r
    → Maps bn fs ip (elim r [ none ↦ none | some q ↦ some (q.0, q.1, with_addr bn q.0 ip) ])
own_new bn fs ip l hole v (no_space u) = full (address_direct fs ip bn l ∙ hole) (all_used u)
own_new bn fs ip l hole v (allocates {a} small free _) =
    extended (omega arith) v (own-Extends bn a fs ip l hole free v) refl

own_addr-Maps :
    (bn : ℕ) (fs : Fs) (ip : Inode)
    → bn < ndirect
    → IsMapped fs ip
    → Maps bn fs ip (own_addr bn fs ip)
unfolding own_addr
own_addr-Maps bn fs ip l v = elim (Bool-cases (ip.addrs bn == 0)) [
  | inl e ↦ rw e (own_new bn fs ip l (ground (arith, e)) v (balloc-Allocates fs))
  | inr e ↦
      let same = address_direct fs ip bn l in
      rw e (
        subst (λ a. Maps bn fs ip (some (a, fs, ip))) same
          (present bn fs ip v (ground (arith, e, same))))
]

-- the same for a block that the block of addresses lists
abbrev beside : Inode → Option (ℕ × Fs) → Option (ℕ × Fs × Inode)
beside ip none = none
beside ip (some q) = some (q.0, q.1, ip)

module _ (k : ℕ) (fs : Fs) (ip : Inode) (l : k < nindirect) (there : ip.addrs ndirect ≢ 0)
    (v : IsMapped fs ip) where
  abbrev at : ℕ
  at = ndirect + k

  at_entry : address fs ip at ≡ entry (fs.block (ip.addrs ndirect)) k
  at_entry =
      address_listed fs ip at (omega arith) there
      ∙ ap (entry (fs.block (ip.addrs ndirect))) (omega arith)

  listed_new :
      entry (fs.block (ip.addrs ndirect)) k ≡ 0
      → {r : Option (ℕ × Fs)} → Allocates fs r
      → Maps at fs ip (
          beside ip (elim r [
            | none ↦ none
            | some q ↦ some (
              q.0,
              record (q.1) {
                block =
                    update
                      (q.1).block
                      (ip.addrs ndirect)
                      (store_word (4 * k) q.0 ((q.1).block (ip.addrs ndirect)));
              },
            )
          ]))
  listed_new hole (no_space u) = full (at_entry ∙ hole) (all_used u)
  listed_new hole (allocates {a} small free _) =
      extended (omega arith) v (listed-Extends k a fs ip there small free v hole l) refl

  listed_addr-Maps : Maps at fs ip (beside ip (listed_addr (ip.addrs ndirect) k fs))
  unfolding listed_addr
  listed_addr-Maps = elim (Bool-cases (entry (fs.block (ip.addrs ndirect)) k == 0)) [
    | inl e ↦ rw e (listed_new (ground (arith, e)) (balloc-Allocates fs))
    | inr e ↦ rw e (
        subst (λ a. Maps at fs ip (some (a, fs, ip))) at_entry
          (present at fs ip v (ground (arith, e, at_entry))))
  ]

Maps-before :
    {bn : ℕ} {fs fs₁ : Fs} {ip ip₁ : Inode} {r : Option (ℕ × Fs × Inode)}
    → bn < maxfile
    → ((j : ℕ) → j < maxfile → address fs₁ ip₁ j ≡ address fs ip j)
    → ((off : ℕ) → off < maxfile * bsize → content fs₁ ip₁ off ≡ content fs ip off)
    → ip₁.size ≡ ip.size
    → ((b : ℕ) → in_use fs₁ b ≡ false → in_use fs b ≡ false)
    → (NoneLeft bn fs₁ ip₁ → NoneLeft bn fs ip)
    → ((fs' : Fs) (ip' : Inode)
        → Later bn (bn + 1) fs₁ ip₁ fs' ip'
        → Later bn (bn + 1) fs ip fs' ip')
    → Maps bn fs₁ ip₁ r
    → Maps bn fs ip r
Maps-before {bn} l slot same size free left then_later
      (maps {a} {fs'} {ip'} v e n c z k fresh later) =
    maps v e n (λ off h. c off h ∙ same off h) (z ∙ size)
      (λ j h m. k j h (λ z'. m (sym (slot j h) ∙ z')) ∙ slot j h)
      (λ h. free a (fresh (slot bn l ∙ h))) (then_later fs' ip' later)
Maps-before {bn} l slot same size free left then_later (full h u) =
    full (sym (slot bn l) ∙ h) (left u)

-- `bmap` behind the file's own addresses
abbrev listed : ℕ → Option (ℕ × Fs × Inode) → Option (ℕ × Fs × Inode)
listed k none = none
listed k (some r) = beside (r.2) (listed_addr r.0 k r.1)

taken_free : (a : ℕ) (fs : Fs) (b : ℕ) → in_use (taken a fs) b ≡ false → in_use fs b ≡ false
taken_free a fs b free = ground (arith, in_use-taken fs a b, free)

-- What is not left after the block of addresses was taken.
one_more :
    (a k : ℕ) (fs : Fs) (ip : Inode)
    → (with_addr ndirect a ip).addrs ndirect ≢ 0
    → ip.addrs ndirect ≡ 0
    → NoneLeft (ndirect + k) (taken a fs) (with_addr ndirect a ip)
    → NoneLeft (ndirect + k) fs ip
unfolding AllUsed bzero
one_more a k fs ip there none_yet (all_used u) =
    one_left a (omega arith) none_yet
      (λ b l n. ground (arith, in_use-taken fs a b, u b (omega arith) l l, n))
one_more a k fs ip there none_yet (one_left t high none_there u) = absurd (there none_there)

listed-first :
    (k : ℕ) (fs : Fs) (ip : Inode)
    → k < nindirect
    → ip.addrs ndirect ≡ 0
    → IsMapped fs ip
    → {r : Option (ℕ × Fs)} → Allocates fs r
    → Maps
        (ndirect + k)
        fs
        ip
        (listed k (elim r [ none ↦ none | some q ↦ some (q.0, q.1, with_addr ndirect q.0 ip) ]))
listed-first k fs ip l none_yet v (no_space u) =
    full (address_unlisted fs ip (ndirect + k) (omega arith) none_yet) (all_used u)
listed-first k fs ip l none_yet v (allocates {a} small free _) =
    let there : (with_addr ndirect a ip).addrs ndirect ≢ 0 =
      λ z. list_nonzero a fs ip none_yet free v (sym (is_list a fs ip none_yet free v) ∙ z) in
    let v' = listed-IsMapped a fs ip none_yet free v in
    Maps-before (omega arith) (same_slots a fs ip none_yet free v)
      (listed-content a fs ip none_yet free v) refl (taken_free a fs)
      (one_more a k fs ip
        (λ z. list_nonzero a fs ip none_yet free v (sym (is_list a fs ip none_yet free v) ∙ z))
        none_yet)
      (λ fs' ip' later.
        Later-trans v.boot (omega arith) (omega arith) (omega arith)
          (list_taken a (ndirect + k) (ndirect + k + 1) fs ip none_yet free v) later)
      (subst
        (λ i.
          Maps (ndirect + k) (taken a fs) (with_addr ndirect a ip)
            (beside (with_addr ndirect a ip) (listed_addr i k (taken a fs))))
        (is_list a fs ip none_yet free v)
        (listed_addr-Maps k (taken a fs) (with_addr ndirect a ip) l there v'))

listed-Maps :
    (k : ℕ) (fs : Fs) (ip : Inode)
    → k < nindirect
    → IsMapped fs ip
    → Maps (ndirect + k) fs ip (listed k (own_addr ndirect fs ip))
unfolding own_addr
listed-Maps k fs ip l v = elim (Bool-cases (ip.addrs ndirect == 0)) [
  | inl e ↦ rw e (listed-first k fs ip l (ground (arith, e)) v (balloc-Allocates fs))
  | inr e ↦ rw e (listed_addr-Maps k fs ip l (ground (arith, e)) v)
]

-- For a block number in range `bmap` gives the file's block there, or if there was none, a block
-- that was free, which is the file's there now; the file's contents, size and other blocks stay the
-- same, and no other block of the disk is taken but for the block of addresses if it was missing. It
-- panics only if the block was missing and all blocks were in use, or all but one where the block of
-- addresses was missing as well.
pub bmap-Maps :
    (bn : ℕ) (fs : Fs) (ip : Inode) → bn < maxfile → IsMapped fs ip → Maps bn fs ip (bmap bn fs ip)
unfolding bmap
bmap-Maps bn fs ip l v = elim (dec_lt bn ndirect) [
  | yes low ↦
      let test : ltb bn ndirect ≡ true = ground arith in
      rw (bmap, test) (own_addr-Maps bn fs ip low v)
  | no high ↦
      let test : ltb bn ndirect ≡ false = ground arith in
      let range : ltb (bn - ndirect) nindirect ≡ true = ground arith in
      let behind : ndirect + (bn - ndirect) ≡ bn = omega arith in
      rw (bmap, test, range)
        (subst (λ b. Maps b fs ip (listed (bn - ndirect) (own_addr ndirect fs ip))) behind
          (listed-Maps (bn - ndirect) fs ip (omega arith) v))
]

-- A block that is there is found, and nothing changes.
pub bmap_present :
    (bn : ℕ) (fs : Fs) (ip : Inode)
    → bn < maxfile
    → address fs ip bn ≢ 0
    → bmap bn fs ip ≡ some (address fs ip bn, fs, ip)
unfolding bmap own_addr listed_addr address
bmap_present bn fs ip l n = ground arith
