-- ===== src/Files.antt =====
-- src/file.c and src/sysfile.c: open files, and the descriptors that stand for them.
--
-- A descriptor slot is a file's index in `ftable`, or nothing. A system call is one function; the
-- lock is taken as held round each change of the table.
pub mod Count
pub mod Opened
mod Tests
use ztl_os.Base.{
  ℕ, zero, suc, ◌+◌, ◌-◌, Bool, Option, none, some, List, [], ◌∷◌, ◌==◌, ltb, if◌then◌else◌, update,
  Ret, fail, ok, get_elem?, set,
}

abbrev pub nfile : ℕ
nfile = 100

abbrev pub nofile : ℕ
nofile = 16

pub data FileType : Type 0 where
  fd_none fd_pipe fd_inode : FileType

-- `struct file`
pub record File : Type 0 where
  pub type : FileType
  pub ref : ℕ
  pub readable : Bool
  pub writable : Bool
  pub pipe : ℕ
  pub ip : ℕ
  pub off : ℕ

-- The loop of `filealloc`, with the slots that are left.
unfoldable pub find_unused : ℕ → ℕ → (ℕ → File) → Option ℕ
find_unused zero i files = none
find_unused (suc k) i files =
    let rest = find_unused k (i + 1) files in if (files i).ref == 0 then some i else rest

abbrev pub with_ref : ℕ → File → File
with_ref n f = record f { ref = n }

unfoldable pub filealloc : (ℕ → File) → Option (ℕ × (ℕ → File))
filealloc files = elim (find_unused nfile 0 files) [
  | none ↦ none
  | some i ↦ some (i, update files i (with_ref 1 (files i)))
]

-- `none` is the panic.
unfoldable pub filedup : ℕ → (ℕ → File) → Option (ℕ → File)
filedup i files =
    if ltb (files i).ref 1
    then none
    else some (update files i (with_ref ((files i).ref + 1) (files i)))

-- What `fileclose` calls after it has let go of the lock.
pub data Dropped : Type 0 where
  nothing : Dropped
  drops_pipe : ℕ → Bool → Dropped
  drops_inode : ℕ → Dropped

-- `if(ff.type == FD_PIPE) … else if(ff.type == FD_INODE) …`
abbrev pub dropped_of : FileType → File → Dropped
dropped_of fd_none ff = nothing
dropped_of fd_pipe ff = drops_pipe ff.pipe ff.writable
dropped_of fd_inode ff = drops_inode ff.ip

abbrev pub dropped : File → Dropped
dropped ff = dropped_of ff.type ff

-- `none` is the panic.
unfoldable pub fileclose : ℕ → (ℕ → File) → Option (Dropped × (ℕ → File))
fileclose i files =
    let f = files i in
    if ltb f.ref 1
    then none
    else if ltb 0 (f.ref - 1)
    then some (nothing, update files i (with_ref (f.ref - 1) f))
    else some (dropped f, update files i (record f { ref = 0; type = fd_none }))

-- A word of the user's as a descriptor; a negative `int` is a word of at least 2 ^ 31.
unfoldable pub argfd : ℕ → List (Option ℕ) → Option ℕ
argfd fd fds =
    if ltb fd nofile then elim (get_elem? fds fd) [ none ↦ none | some slot ↦ slot ] else none

-- The descriptor, and the slots after it was taken; `none` where the code returns -1.
unfoldable pub fdalloc : ℕ → List (Option ℕ) → Option (ℕ × List (Option ℕ))
fdalloc f [] = none
fdalloc f (none ∷ fds) = some (0, some f ∷ fds)
fdalloc f (some g ∷ fds) = elim (fdalloc f fds) [
  | none ↦ none
  | some r ↦ some (suc r.0, some g ∷ r.1)
]

pub record State : Type 0 where
  pub files : ℕ → File
  pub fds : List (Option ℕ)

-- What a call returns, what it drops, and the state after it.
pub record Result : Type 0 where
  pub ret : Ret
  pub drop : Dropped
  pub state : State

abbrev pub refuse : State → Option Result
refuse s = some (record { ret = fail; drop = nothing; state = s })

-- `none` is a panic in this and the next two.
unfoldable pub sys_dup : ℕ → State → Option Result
sys_dup fd s = elim (argfd fd s.fds) [
  | none ↦ refuse s
  | some f ↦ elim (fdalloc f s.fds) [
    | none ↦ refuse s
    | some taken ↦ elim (filedup f s.files) [
      | none ↦ none
      | some files ↦ some (record {
        ret = ok taken.0;
        drop = nothing;
        state = record { files = files; fds = taken.1 };
      })
    ]
  ]
]

unfoldable pub sys_close : ℕ → State → Option Result
sys_close fd s = elim (argfd fd s.fds) [
  | none ↦ refuse s
  | some f ↦ elim (fileclose f s.files) [
    | none ↦ none
    | some closed ↦ some (record {
      ret = ok 0;
      drop = closed.0;
      state = record { files = closed.1; fds = set s.fds fd none };
    })
  ]
]

-- The end of `sys_open`, from `filealloc` on, for the inode that it found.
unfoldable pub open_inode : ℕ → (readable writable : Bool) → State → Option Result
open_inode ip readable writable s = elim (filealloc s.files) [
  | none ↦ refuse s
  | some new ↦ elim (fdalloc new.0 s.fds) [
    | none ↦ elim (fileclose new.0 new.1) [
      | none ↦ none
      | some closed ↦
          some (record { ret = fail; drop = closed.0; state = record s { files = closed.1 } })
    ]
    | some taken ↦ some (record {
      ret = ok taken.0;
      drop = nothing;
      state = record {
        files = update new.1 new.0 (record (new.1 new.0) {
          type = fd_inode;
          ip = ip;
          off = 0;
          readable = readable;
          writable = writable;
        });
        fds = taken.1;
      };
    })
  ]
]
