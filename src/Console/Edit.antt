-- ===== src/Console/Edit.antt =====
-- What typing means, apart from the buffer: the lines that readers may have, and the line that is
-- being typed.
use ztl_os.Base.{
  ℕ, ◌+◌, ◌≤◌, ◌<◌, ◌≡◌, false, not, ◌&&◌, ◌||◌, List, [], ◌∷◌, ◌++◌, ◌==◌, if◌then◌else◌, ltb,
  u32_mod, length,
}
use ztl_os.Console.{
  Input, input_buf, list_key, kill_key, back_key, delete_key, end_key, newline, return_key,
}
use ztl_os.Console.Window.{Window, ahead}

pub record Typing : Type 0 where
  pub lines : List ℕ
  pub line : List ℕ

-- all but the last
abbrev pub init : List ℕ → List ℕ
init [] = []
init (c ∷ []) = []
init (c ∷ d ∷ ds) = c ∷ init (d ∷ ds)

abbrev pub size : Typing → ℕ
size t = length t.lines + length t.line

-- A byte goes to the end of the line; a newline, `^D` and a full buffer end the line.
abbrev pub type_byte : ℕ → Typing → Typing
type_byte c t =
    let longer = t.line ++ c ∷ [] in
    if c == newline || c == end_key || size t + 1 == input_buf
    then record { lines = t.lines ++ longer; line = [] }
    else record { lines = t.lines; line = longer }

abbrev pub type_key : ℕ → Typing → Typing
type_key c t =
    if c == list_key
    then t
    else if c == kill_key
    then record t { line = [] }
    else if c == back_key || c == delete_key
    then record t { line = init t.line }
    else if not (c == 0) && ltb (size t) input_buf
    then type_byte (if c == return_key then newline else c) t
    else t

unfoldable pub type_keys : List ℕ → Typing → Typing
type_keys [] t = t
type_keys (c ∷ cs) t = type_keys cs (type_key c t)

abbrev pub Spares : ℕ → List ℕ → Type 0
Spares b [] = Unit
Spares b (c ∷ cs) = ((c == b) ≡ false) × Spares b cs

-- The buffer holds the lines and, behind them, the line being typed, which has no newline yet.
pub record Holds (i : Input) (t : Typing) : Type 0 where
  pub read_index : i.r < u32_mod
  pub write_index : i.w ≡ ahead i.r (length t.lines)
  pub edit_index : i.e ≡ ahead i.r (size t)
  pub room : size t ≤ input_buf
  pub bytes : Window i.buf i.r (t.lines ++ t.line)
  pub open_line : Spares newline t.line
