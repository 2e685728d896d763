-- ===== src/Files/Opened.antt =====
-- The reference counts of open files, under the calls that open, duplicate and close.
use native.Mathlib.Decide.{dec_lt}
use ztl_os.Base.{
  ok, get_elem?, update_self, ℕ, ◌+◌, ◌-◌, ◌<◌, ◌≡◌, refl, ap, ◌∙◌, arith, Bool, inl, inr, Option,
  none, some, Option-cases, List, update, fail,
}
use ztl_os.Files.{
  fd_pipe, drops_pipe, drops_inode, dropped_of, Dropped, File, FileType, fd_none, fd_inode, nothing,
  dropped, State, Result, refuse, find_unused, filealloc, filedup, fileclose, argfd, fdalloc,
  sys_dup, sys_close, open_inode, nfile, with_ref,
}
use ztl_os.Files.Count.{
  refs, fdalloc-refs, argfd-elem, set-refs, find_unused-ref, fdalloc-elem, set-elem,
}

-- A file's count is the number of descriptors that stand for it, here or in other processes, and
-- a slot of the table that is not in use has no type.
pub record Counted (others : ℕ → ℕ) (s : State) : Type 0 where
  pub counted : (i : ℕ) → (s.files i).ref ≡ refs i s.fds + others i
  pub unused : (i : ℕ) → (s.files i).ref ≡ 0 → (s.files i).type ≡ fd_none

pub data Op : Type 0 where
  opens : ℕ → (readable writable : Bool) → Op
  dups closes : ℕ → Op

-- What is given up with a file: its end of its pipe, its inode, or nothing if it has no type.
pub data GivenUp (f : File) : Dropped → Type 0 where
  pipe_end : f.type ≡ fd_pipe → GivenUp f (drops_pipe f.pipe f.writable)
  inode : f.type ≡ fd_inode → GivenUp f (drops_inode f.ip)
  untyped : f.type ≡ fd_none → GivenUp f nothing

-- Nothing is dropped and every file that had a descriptor has one still, or a file's last
-- descriptor has gone and what it stood for is dropped.
pub data Drops (others : ℕ → ℕ) (s : State) (r : Result) : Type 0 where
  keeps :
      r.drop ≡ nothing
      → ((i : ℕ) → 0 < refs i s.fds + others i → 0 < refs i r.state.fds + others i)
      → Drops others s r
  drops :
      (i : ℕ)
      → refs i s.fds + others i ≡ 1
      → refs i r.state.fds + others i ≡ 0
      → GivenUp (s.files i) r.drop
      → Drops others s r

-- The call fails and the descriptors stay; or a free descriptor stands for an unused file, which
-- is now the inode from its start on; or for the file that another stands for; or a descriptor is
-- free now.
pub data Does (s : State) (r : Result) : Op → Type 0 where
  fails : {o : Op} → r.ret ≡ fail → r.state.fds ≡ s.fds → Does s r o
  opened :
      {ip fd : ℕ} {readable writable : Bool} (i : ℕ)
      → r.ret ≡ ok fd
      → get_elem? s.fds fd ≡ some none
      → get_elem? r.state.fds fd ≡ some (some i)
      → (s.files i).ref ≡ 0
      → (r.state.files i).type ≡ fd_inode
      → (r.state.files i).ip ≡ ip
      → (r.state.files i).off ≡ 0
      → (r.state.files i).readable ≡ readable
      → (r.state.files i).writable ≡ writable
      → Does s r (opens ip readable writable)
  duplicated :
      {fd new : ℕ} (i : ℕ)
      → r.ret ≡ ok new
      → get_elem? s.fds fd ≡ some (some i)
      → get_elem? s.fds new ≡ some none
      → get_elem? r.state.fds new ≡ some (some i)
      → Does s r (dups fd)
  closed :
      {fd : ℕ} (i : ℕ)
      → r.ret ≡ ok 0
      → get_elem? s.fds fd ≡ some (some i)
      → get_elem? r.state.fds fd ≡ some none
      → Does s r (closes fd)

-- No panic, the counts are right again, and what is done and dropped is as it should be.
pub data Sound (others : ℕ → ℕ) (s : State) (o : Op) : Option Result → Type 0 where
  sound :
      {r : Result}
      → Counted others r.state
      → Drops others s r
      → Does s r o
      → Sound others s o (some r)

given_up : (f : File) (k : FileType) → f.type ≡ k → GivenUp f (dropped_of k f)
given_up f fd_none e = untyped e
given_up f fd_pipe e = pipe_end e
given_up f fd_inode e = inode e

filedup_used :
    (f : ℕ) (files : ℕ → File)
    → 0 < (files f).ref
    → filedup f files ≡ some (update files f (with_ref ((files f).ref + 1) (files f)))
unfolding filedup
filedup_used f files h = ground arith

fileclose_shared :
    (f : ℕ) (files : ℕ → File)
    → 1 < (files f).ref
    → fileclose f files ≡ some (nothing, update files f (with_ref ((files f).ref - 1) (files f)))
unfolding fileclose
fileclose_shared f files h = ground arith

abbrev cleared : File → File
cleared f = record f { ref = 0; type = fd_none }

fileclose_last :
    (f : ℕ) (files : ℕ → File)
    → (files f).ref ≡ 1
    → fileclose f files ≡ some (dropped (files f), update files f (cleared (files f)))
unfolding fileclose
fileclose_last f files h = ground arith

-- the table in which file `i` was just allocated
fresh : ℕ → (ℕ → File) → ℕ → File
fresh i files = update files i (with_ref 1 (files i))

fresh-ref : (i : ℕ) (files : ℕ → File) → (fresh i files i).ref ≡ 1
unfolding fresh
fresh-ref i files = ground arith

filealloc_full : (files : ℕ → File) → find_unused nfile 0 files ≡ none → filealloc files ≡ none
unfolding filealloc
filealloc_full files e = rw (filealloc, e) refl

filealloc-fresh :
    (files : ℕ → File) (i : ℕ)
    → find_unused nfile 0 files ≡ some i
    → filealloc files ≡ some (i, fresh i files)
unfolding filealloc fresh
filealloc-fresh files i e = rw (filealloc, e) refl

dropped-with_ref : (k : FileType) (n : ℕ) (f : File) → dropped_of k (with_ref n f) ≡ dropped_of k f
dropped-with_ref fd_none n f = refl
dropped-with_ref fd_pipe n f = refl
dropped-with_ref fd_inode n f = refl

dropped-fresh : (i : ℕ) (files : ℕ → File) → dropped (fresh i files i) ≡ dropped (files i)
unfolding fresh
dropped-fresh i files =
    ap dropped (update_self files i (with_ref 1 (files i)))
    ∙ dropped-with_ref (files i).type 1 (files i)

fresh_closed :
    (i : ℕ) (files : ℕ → File)
    → fileclose i (fresh i files)
      ≡ some (dropped (files i), update (fresh i files) i (cleared (fresh i files i)))
fresh_closed i files =
    fileclose_last i (fresh i files) (fresh-ref i files)
    ∙ ap (λ d. some (d, update (fresh i files) i (cleared (fresh i files i))))
        (dropped-fresh i files)

module _ (others : ℕ → ℕ) (s : State) (c : Counted others s) where
  refuse-Sound : {o : Op} → Sound others s o (refuse s)
  refuse-Sound = sound c (keeps refl (λ i p. p)) (fails refl refl)

  sys_dup-Sound : (fd : ℕ) → Sound others s (dups fd) (sys_dup fd s)
  unfolding sys_dup
  sys_dup-Sound fd = elim (Option-cases (argfd fd s.fds)) [
    | inl bad ↦ rw (sys_dup, bad) refuse-Sound
    | inr (f, e) ↦ elim (Option-cases (fdalloc f s.fds)) [
      | inl full ↦ rw (sys_dup, e, full) refuse-Sound
      | inr (taken, e') ↦
          let has = set-refs fd f s.fds (argfd-elem fd f s.fds e) f in
          let dup = filedup_used f s.files (ground (arith, has, c.counted f)) in
          rw (sys_dup, e, e', dup)
            (sound
              (record {
                counted =
                    λ i. ground (arith, c.counted i, fdalloc-refs f taken.0 s.fds taken.1 e' i);
                unused = λ i z. ground (arith, c.unused i);
              })
              (keeps refl (λ i p. omega (arith, fdalloc-refs f taken.0 s.fds taken.1 e' i)))
              (let at = fdalloc-elem f taken.0 s.fds taken.1 e' in
                duplicated f refl (argfd-elem fd f s.fds e) at.0 at.1))
    ]
  ]

  sys_close-Sound : (fd : ℕ) → Sound others s (closes fd) (sys_close fd s)
  unfolding sys_close
  sys_close-Sound fd = elim (Option-cases (argfd fd s.fds)) [
    | inl bad ↦ rw (sys_close, bad) refuse-Sound
    | inr (f, e) ↦
        let open_at = argfd-elem fd f s.fds e in
        let less = set-refs fd f s.fds open_at in
        elim (dec_lt 1 (s.files f).ref) [
          | yes shared ↦
              rw (sys_close, e, fileclose_shared f s.files shared)
                (sound
                  (record {
                    counted = λ i. ground (arith, c.counted i, less i);
                    unused = λ i z. ground (arith, c.unused i);
                  })
                  (keeps refl (λ i p. ground (arith, c.counted i, less i)))
                  (closed f refl open_at (set-elem fd f s.fds open_at)))
          | no alone ↦
              let one : (s.files f).ref ≡ 1 = ground (arith, less f, c.counted f) in
              rw (sys_close, e, fileclose_last f s.files one)
                (sound
                  (record {
                    counted = λ i. ground (arith, c.counted i, less i);
                    unused = λ i z. ground (arith, c.unused i);
                  })
                  (drops f (ground (arith, c.counted f)) (ground (arith, c.counted f, less f))
                    (given_up (s.files f) (s.files f).type refl))
                  (closed f refl open_at (set-elem fd f s.fds open_at)))
        ]
  ]

  -- the table with the new file in it, before and after `sys_open` has filled it in
  module _ (i : ℕ) (free : (s.files i).ref ≡ 0) where
    opened_back :
        {o : Op}
        → Sound others s o (
            some (record {
              ret = fail;
              drop = dropped (s.files i);
              state = record s { files = update (fresh i s.files) i (cleared (fresh i s.files i)) };
            }))
    unfolding fresh
    opened_back =
        let no_type = c.unused i free in
        sound
          (record {
            counted = λ j. ground (arith, c.counted j, free);
            unused = λ j z. ground (arith, c.unused j);
          })
          (keeps (rw no_type refl) (λ j p. p)) (fails refl refl)

    opened_counts :
        (f : File) (fd : ℕ) (fds : List (Option ℕ))
        → f.ref ≡ 1
        → fdalloc i s.fds ≡ some (fd, fds)
        → Counted others (record { files = update (fresh i s.files) i f; fds = fds })
    unfolding fresh
    opened_counts f fd fds one e = record {
      counted = λ j. ground (arith, c.counted j, free, one, fdalloc-refs i fd s.fds fds e j);
      unused = λ j z. ground (arith, c.unused j, one);
    }

  -- the file as `sys_open` leaves it
  abbrev filled : ℕ → (readable writable : Bool) → ℕ → File
  filled ip readable writable i = record (fresh i s.files i) {
    type = fd_inode;
    ip = ip;
    off = 0;
    readable = readable;
    writable = writable;
  }

  open_inode-Sound :
      (ip : ℕ) (readable writable : Bool)
      → Sound others s (opens ip readable writable) (open_inode ip readable writable s)
  unfolding open_inode
  open_inode-Sound ip readable writable = elim (Option-cases (find_unused nfile 0 s.files)) [
    | inl none_left ↦ rw (open_inode, filealloc_full s.files none_left) refuse-Sound
    | inr (i, e) ↦
        let free = find_unused-ref nfile 0 i s.files e in
        elim (Option-cases (fdalloc i s.fds)) [
          | inl full ↦
              rw (open_inode, filealloc-fresh s.files i e, full, fresh_closed i s.files)
                (opened_back i free)
          | inr (taken, e') ↦
              rw (open_inode, filealloc-fresh s.files i e, e')
                (sound (opened_counts i free _ taken.0 taken.1 (fresh-ref i s.files) e')
                  (keeps refl (λ j p. omega (arith, fdalloc-refs i taken.0 s.fds taken.1 e' j)))
                  (let at = fdalloc-elem i taken.0 s.fds taken.1 e' in
                    let here = update_self (fresh i s.files) i (filled ip readable writable i) in
                    opened i refl at.0 at.1 free (ap (λ f. f.type) here) (ap (λ f. f.ip) here)
                      (ap (λ f. f.off) here) (ap (λ f. f.readable) here)
                      (ap (λ f. f.writable) here)))
        ]
  ]

pub perform : Op → State → Option Result
perform (opens ip readable writable) s = open_inode ip readable writable s
perform (dups fd) s = sys_dup fd s
perform (closes fd) s = sys_close fd s

-- Where the counts are right, and no unused file has a type, opening, duplicating and closing do not
-- panic and leave that so. Each fails and leaves the descriptors, or does its work: opening gives a
-- free descriptor, for an unused file that is now the inode from its start on, readable and writable
-- as asked; duplicating one for the same file; and closing frees the descriptor. The pipe's end or
-- the inode of a file is dropped exactly with the file's last descriptor.
pub perform-Sound :
    (others : ℕ → ℕ) (o : Op) (s : State) → Counted others s → Sound others s o (perform o s)
unfolding perform
perform-Sound others (opens ip readable writable) s c =
    open_inode-Sound others s c ip readable writable
perform-Sound others (dups fd) s c = sys_dup-Sound others s c fd
perform-Sound others (closes fd) s c = sys_close-Sound others s c fd
