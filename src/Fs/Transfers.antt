-- ===== src/Fs/Transfers.antt =====
-- `readi` and `writei`.
use ztl_os.Base.{
  ◌&&◌, ℕ, zero, suc, ◌+◌, ◌-◌, ◌*◌, ◌/◌, ◌%◌, true, false, ◌||◌, Option, none, some, List, [], ◌∷◌,
  ◌++◌, ltb, if◌then◌else◌, update, min, length, take, drop, Ret, fail, ok, u32_mod,
}
use ztl_os.Fs.{Fs, Inode, bsize, maxfile, bmap, iupdate}

-- `m = min(n - tot, BSIZE - off%BSIZE)`, with `n - tot` bytes left
abbrev pub chunk : (off left : ℕ) → ℕ
chunk off left = min left (bsize - off % bsize)

-- `n` bytes of a block from `o` on, as `memmove` copies them out
unfoldable pub slice : (o n : ℕ) → (ℕ → ℕ) → List ℕ
slice o zero whole = []
slice o (suc n) whole = whole o ∷ slice (o + 1) n whole

-- bytes stored from `o` on, as `memmove` copies them in
unfoldable pub overlay : ℕ → List ℕ → (ℕ → ℕ) → ℕ → ℕ
overlay o [] whole = whole
overlay o (c ∷ cs) whole = overlay (o + 1) cs (update whole o c)

-- What `readi` and `writei` return: the `int`, the bytes read, and the state.
pub record Transfer : Type 0 where
  pub ret : Ret
  pub bytes : List ℕ
  pub fs : Fs
  pub ip : Inode

-- The loop of `readi`, with `left` bytes to read; on fuel.
unfoldable pub read_loop : ℕ → (off left : ℕ) → Fs → Inode → Option (List ℕ × Fs × Inode)
read_loop zero off left fs ip = some ([], fs, ip)
read_loop (suc fuel) off left fs ip = elim (ltb 0 left) [
  | false ↦ some ([], fs, ip)
  | true ↦ elim (bmap (off / bsize) fs ip) [
    | none ↦ none
    | some r ↦
        let m = chunk off left in
        elim (read_loop fuel (off + m) (left - m) r.1 r.2) [
          | none ↦ none
          | some q ↦ some (slice (off % bsize) m ((r.1).block r.0) ++ q.0, q.1, q.2)
        ]
  ]
]

-- `readi` for a file that is no device; `n` bytes take no more than `n` rounds.
unfoldable pub readi : (off n : ℕ) → Fs → Inode → Option Transfer
readi off n fs ip =
    if ltb ip.size off || ltb ((off + n) % u32_mod) off
    then some (record { ret = fail; bytes = []; fs = fs; ip = ip })
    else let n' = if ltb ip.size ((off + n) % u32_mod) then ip.size - off else n in
      elim (read_loop n' off n' fs ip) [
        | none ↦ none
        | some r ↦ some (record { ret = ok n'; bytes = r.0; fs = r.1; ip = r.2 })
      ]

-- The loop of `writei`, with the bytes that are left; on fuel.
unfoldable pub write_loop : ℕ → ℕ → List ℕ → Fs → Inode → Option (Fs × Inode)
write_loop zero off src fs ip = some (fs, ip)
write_loop (suc fuel) off src fs ip = elim (ltb 0 (length src)) [
  | false ↦ some (fs, ip)
  | true ↦ elim (bmap (off / bsize) fs ip) [
    | none ↦ none
    | some r ↦
        let m = chunk off (length src) in
        let whole = overlay (off % bsize) (take m src) ((r.1).block r.0) in
        write_loop fuel (off + m) (drop m src)
          (record (r.1) { block = update (r.1).block r.0 whole }) r.2
  ]
]

-- `if(n > 0 && off > ip->size)` of `writei`, and its `return`
unfoldable pub grown : (off n : ℕ) → Fs → Inode → Transfer
grown off n fs ip =
    let ip' : Inode = record ip { size = off + n } in
    if ltb 0 n && ltb ip.size (off + n)
    then record { ret = ok n; bytes = []; fs = iupdate fs ip'; ip = ip' }
    else record { ret = ok n; bytes = []; fs = fs; ip = ip }

-- `writei` for a file that is no device, with the `n` bytes of `src`; its calls of `log_write` are
-- taken to succeed.
unfoldable pub writei : ℕ → List ℕ → Fs → Inode → Option Transfer
writei off src fs ip =
    let n = length src in
    if ltb ip.size off
      || ltb ((off + n) % u32_mod) off
      || ltb (maxfile * bsize) ((off + n) % u32_mod)
    then some (record { ret = fail; bytes = []; fs = fs; ip = ip })
    else elim (write_loop n off src fs ip) [ none ↦ none | some r ↦ some (grown off n r.0 r.1) ]
