-- ===== src/Fs/Write.antt =====
-- `writei` stores bytes in the file, and nothing else.
use native.Mathlib.Decide.{dec_lt}
use ztl_os.Base.{
  length-drop, length-take, ℕ, zero, suc, ◌+◌, ◌-◌, ◌*◌, ◌/◌, ◌%◌, ◌<◌, ◌≤◌, ◌≡◌, ◌≢◌, refl, sym,
  ap, ◌∙◌, subst, arith, true, Option, none, some, inl, inr, List, [], ◌∷◌, ◌==◌, ltb, Bool-cases,
  update, length, take, drop,
}
use ztl_os.Fs.{Fs, Inode, bsize, maxfile}
use ztl_os.Fs.Transfers.{chunk, overlay, write_loop}
use ztl_os.Fs.Mapped.{content_there, address, content, IsMapped}
use mathlib.Core.Bool.{false≢true}
use ztl_os.Fs.Blocks.{in_use}
use ztl_os.Fs.Later.{Later, Later-refl, Later-trans}
use ztl_os.Fs.Map.{Maps, maps, full, NoneLeft, bmap-Maps}
use ztl_os.Fs.Laid.{laid, overlay_lem, laid-split}
use ztl_os.Fs.Stored.{stored, stored-content, stored-IsMapped, address-stored}

-- the place behind the last block that `n` bytes from `off` on reach
abbrev pub last : ℕ → ℕ → ℕ
last off n = (off + n + (bsize - 1)) / bsize

-- What the loop leaves: the file with the bytes in it, and blocks wherever it had some or has bytes
-- now; or a panic, where the disk had too few blocks.
pub data Writes (off : ℕ) (src : List ℕ) (fs : Fs) (ip : Inode) : Option (Fs × Inode) → Type 0 where
  writes :
      {fs' : Fs} {ip' : Inode}
      → IsMapped fs' ip'
      → ((o : ℕ) → o < maxfile * bsize → content fs' ip' o ≡ laid off src (content fs ip) o)
      → ip'.size ≡ ip.size
      → ((j : ℕ) → j < maxfile → address fs ip j ≢ 0 → address fs' ip' j ≢ 0)
      → ((o : ℕ) → off ≤ o → o < off + length src → address fs' ip' (o / bsize) ≢ 0)
      → Writes off src fs ip (some (fs', ip'))
  disk_full :
      {fs' : Fs} {ip' : Inode} (j : ℕ)
      → off / bsize ≤ j
      → j * bsize < off + length src
      → Later (off / bsize) (last off (length src)) fs ip fs' ip'
      → address fs' ip' j ≡ 0
      → NoneLeft j fs' ip'
      → Writes off src fs ip none

nothing_written :
    (off : ℕ) (fs : Fs) (ip : Inode) → IsMapped fs ip → Writes off [] fs ip (some (fs, ip))
unfolding laid
nothing_written off fs ip v =
    writes v (λ o l. ground arith) refl (λ j l n. n) (λ j a b. absurd (omega arith))

laid_cong :
    (off : ℕ) (src : List ℕ) (f g : ℕ → ℕ) (o : ℕ) → f o ≡ g o → laid off src f o ≡ laid off src g o
unfolding laid
laid_cong off src f g o e = ground (arith, e)

-- One round: the part of the bytes that goes into one block.
module _ (off : ℕ) (src : List ℕ) (fs : Fs) (ip : Inode) (more : 0 < length src)
    (room : off + length src ≤ maxfile * bsize) where
  abbrev m : ℕ
  m = chunk off (length src)

  abbrev bn : ℕ
  bn = off / bsize

  abbrev new_block : Fs → Inode → ℕ → ℕ
  new_block fs' ip' = overlay (off % bsize) (take m src) (fs'.block (address fs' ip' bn))

  round_content :
      (fs' : Fs) (ip' : Inode) (n : address fs' ip' bn ≢ 0) (v : IsMapped fs' ip') (o : ℕ)
      → o < maxfile * bsize
      → content (stored bn (new_block fs' ip') fs' ip' (omega arith) n v) ip' o
        ≡ laid off (take m src) (content fs' ip') o
  unfolding laid
  round_content fs' ip' n v o h =
      let at_bn =
        stored-content bn (new_block fs' ip') fs' ip' (omega (arith, more, room)) n v o h in
      let bytes =
        overlay_lem (off % bsize) (take m src) (fs'.block (address fs' ip' bn)) (o % bsize) in
      let size = length-take m src in
      elim (Bool-cases (o / bsize == bn)) [
        | inl here ↦
            let same : o / bsize ≡ bn = ground (arith, here) in
            let there = content_there fs' ip' o (subst (λ q. address fs' ip' q ≢ 0) (sym same) n) in
            let block = ap (λ q. fs'.block (address fs' ip' q) (o % bsize)) same in
            let full_there = there ∙ block in
            let shift : o % bsize - off % bsize ≡ o - off = omega (arith, same) in
            rw (at_bn, here, bytes) (ground (arith, same, full_there, shift, size))
        | inr other ↦ rw (at_bn, other) (ground (arith, other, size))
      ]

  -- Then the bytes that are left.
  module _ (mapped : IsMapped fs ip) (fs' : Fs) (ip' : Inode) (v : IsMapped fs' ip')
      (n : address fs' ip' bn ≢ 0)
      (same : (o : ℕ) → o < maxfile * bsize → content fs' ip' o ≡ content fs ip o)
      (size : ip'.size ≡ ip.size)
      (kept : (j : ℕ) → j < maxfile → address fs ip j ≢ 0 → address fs' ip' j ≡ address fs ip j)
      (later : Later bn (bn + 1) fs ip fs' ip') where
    abbrev next : Fs
    next = stored bn (new_block fs' ip') fs' ip' (omega (arith, more, room)) n v

    kept_there : (j : ℕ) → address next ip' j ≡ address fs' ip' j
    kept_there = address-stored bn (new_block fs' ip') fs' ip' (omega (arith, more, room)) n v

    stored-Later : Later bn (bn + 1) fs' ip' next ip'
    unfolding in_use
    stored-Later = record {
      same_size = refl;
      kept_places = λ j l m. kept_there j;
      kept_list = λ m. refl;
      gained = λ b free used. absurd (false≢true (sym free ∙ used));
    }

    round :
        {r : Option (Fs × Inode)}
        → Writes (off + m) (drop m src) next ip' r
        → Writes off src fs ip r
    round (writes v'' c z k f) =
        let left = length-drop m src in
        writes v''
          (λ o l.
            c o l
            ∙ laid_cong (off + m) (drop m src) (content next ip')
                (laid off (take m src) (content fs' ip')) o (round_content fs' ip' n v o l)
            ∙ laid-split off m src (content fs' ip') o (omega arith)
            ∙ laid_cong off src (content fs' ip') (content fs ip) o (same o l))
          (z ∙ size) (λ j l p. k j l (λ e. p (sym (kept j l p) ∙ sym (kept_there j) ∙ e)))
          (λ o a b. elim (dec_lt o (off + m)) [
            | yes low ↦
                let here : o / bsize ≡ bn = omega (arith, low, a) in
                k (o / bsize) (omega (arith, b, room))
                  (λ e. n (ap (address fs' ip') (sym here) ∙ sym (kept_there (o / bsize)) ∙ e))
            | no high ↦ f o (omega arith) (omega (arith, left, b))
          ])
    round (disk_full j low l rest none_there left_none) =
        let left = length-drop m src in
        let first : Later bn (bn + 1) fs ip next ip' =
          Later-trans mapped.boot (omega arith) (omega arith) (omega arith) later stored-Later in
        disk_full j (omega (arith, low)) (omega (arith, left, l))
          (Later-trans mapped.boot (omega arith) (omega (arith, more, left)) (omega (arith, left))
            first rest)
          none_there left_none

  after_bmap :
      (fuel : ℕ)
      → IsMapped fs ip
      → ((fs : Fs) (ip : Inode)
          → IsMapped fs ip
          → Writes (off + m) (drop m src) fs ip (write_loop fuel (off + m) (drop m src) fs ip))
      → {r : Option (ℕ × Fs × Inode)} → Maps bn fs ip r
      → Writes off src fs ip (elim r [
        | none ↦ none
        | some q ↦
            write_loop fuel
              (off + m)
              (drop m src)
              (record (q.1) {
                block =
                    update (q.1).block q.0 (overlay (off % bsize) (take m src) ((q.1).block q.0));
              })
              q.2
      ])
  after_bmap fuel mapped rest (full h u) =
      disk_full bn (omega arith) (omega (arith, more)) (Later-refl _ _ fs ip) h u
  after_bmap fuel mapped rest (maps {a} {fs'} {ip'} v e n same size kept fresh later) =
      let there : address fs' ip' bn ≢ 0 = λ z. n (sym e ∙ z) in
      let next' = next mapped fs' ip' v there same size kept later in
      let v' = stored-IsMapped bn (new_block fs' ip') fs' ip' (omega (arith, more, room)) there v in
      subst
        (λ a. Writes off src fs ip (
          write_loop fuel (off + m) (drop m src)
            (record fs' {
              block = update fs'.block a (overlay (off % bsize) (take m src) (fs'.block a));
            })
            ip'))
        e (round mapped fs' ip' v there same size kept later (rest next' ip' v'))

-- With a round for every byte, the loop ends.
pub write_loop-Writes :
    (fuel off : ℕ) (src : List ℕ) (fs : Fs) (ip : Inode)
    → length src ≤ fuel
    → off + length src ≤ maxfile * bsize
    → IsMapped fs ip
    → Writes off src fs ip (write_loop fuel off src fs ip)
unfolding write_loop
write_loop-Writes zero off [] fs ip a b v = nothing_written off fs ip v
write_loop-Writes (suc fuel) off [] fs ip a b v = nothing_written off fs ip v
write_loop-Writes zero off (c ∷ src) fs ip a b v = absurd (omega arith)
write_loop-Writes (suc fuel) off (c ∷ src) fs ip a b v =
    let left = length-drop (chunk off (length (c ∷ src))) (c ∷ src) in
    let some_left : ltb 0 (length (c ∷ src)) ≡ true = ground arith in
    rw (write_loop, some_left)
      (after_bmap off (c ∷ src) fs ip (omega arith) b fuel v
        (λ fs ip v.
          write_loop-Writes fuel _ _ fs ip (omega (arith, left, a)) (omega (arith, left, b)) v)
        (bmap-Maps (off / bsize) fs ip (omega (arith, b)) v))
