-- ===== src/Files/Tests.antt =====
-- A run of the calls on open files, and the theorem at a concrete table.
use ztl_os.Base.{ℕ, arith, false, none, some, [], ◌∷◌, ◌==◌, if◌then◌else◌}
use ztl_os.Files.{File, fd_none, fd_inode, State}
use ztl_os.Files.Opened.{Counted, Sound, closes, perform, perform-Sound}

abbrev unused : File
unused = record {
  type = fd_none;
  ref = 0;
  readable = false;
  writable = false;
  pipe = 0;
  ip = 0;
  off = 0;
}

-- File 3 is open twice here, and once in another process.
abbrev opened : State
opened = record {
  files = λ i. if i == 3 then record unused { type = fd_inode; ref = 3; ip = 9 } else unused;
  fds = some 3 ∷ none ∷ some 3 ∷ none ∷ [];
}

abbrev others : ℕ → ℕ
others i = if i == 3 then 1 else 0

opened-Counted : Counted others opened
opened-Counted = record { counted = λ i. ground arith; unused = λ i z. ground arith }

perform-Sound_example : Sound others opened (closes 2) (perform (closes 2) opened)
perform-Sound_example = perform-Sound others (closes 2) opened opened-Counted
