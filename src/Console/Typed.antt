-- ===== src/Console/Typed.antt =====
-- The handler of the keyboard does to the buffer what typing means.
use ztl_os.Base.{
  ◌&&◌, ltb, not, if◌then◌else◌, ℕ, zero, suc, ◌+◌, ◌%◌, ◌≤◌, ◌<◌, ◌≡◌, refl, sym, ap, ◌∙◌, subst,
  arith, false, ◌||◌, inl, inr, List, [], ◌∷◌, ◌++◌, append-nil, append_assoc, ◌==◌, u32_mod,
  length, length-append, Bool-cases, update,
}
use ztl_os.Console.{
  return_key, delete_key, back_key, kill_key, list_key, has_room, consoleintr, key, Input, Console,
  input_buf, end_key, newline, next, previous, rub_out, kill_line, append, commit_line, store_key,
}
use ztl_os.Console.Window.{Window, ahead, Window-snoc, Window-init, Window-last}
use ztl_os.Console.Edit.{size, type_keys, type_key, Typing, init, type_byte, Spares, Holds}

init-last : (c : ℕ) (ds : List ℕ) → (v : ℕ) × (c ∷ ds ≡ init (c ∷ ds) ++ v ∷ [])
init-last c [] = (c, refl)
init-last c (d ∷ ds) = let (v, e) = init-last d ds in (v, ap (λ x. c ∷ x) e)

Spares-append_left : (b : ℕ) (xs ys : List ℕ) → Spares b (xs ++ ys) → Spares b xs
Spares-append_left b [] ys h = tt
Spares-append_left b (x ∷ xs) ys h = (h.0, Spares-append_left b xs ys h.1)

Spares-last : (b v : ℕ) (xs : List ℕ) → Spares b (xs ++ v ∷ []) → (v == b) ≡ false
Spares-last b v [] h = h.0
Spares-last b v (x ∷ xs) h = Spares-last b v xs h.1

Spares-snoc : (b v : ℕ) (xs : List ℕ) → Spares b xs → (v == b) ≡ false → Spares b (xs ++ v ∷ [])
Spares-snoc b v [] h e = (e, tt)
Spares-snoc b v (x ∷ xs) h e = (h.0, Spares-snoc b v xs h.1 e)

rub_out-Holds :
    (s : Console) (cs ds : List ℕ) (v : ℕ)
    → Holds s.input (record { lines = cs; line = ds ++ v ∷ [] })
    → Holds (rub_out s).input (record { lines = cs; line = ds })
unfolding rub_out
rub_out-Holds s cs ds v h =
    let longer = length-append ds (v ∷ []) in
    record {
      read_index = h.read_index;
      write_index = h.write_index;
      edit_index = omega (arith, h.edit_index, h.read_index, longer);
      room = omega (arith, h.room, longer);
      bytes =
          Window-init s.input.buf s.input.r (cs ++ ds) (v ∷ [])
            (subst (Window s.input.buf s.input.r) (sym (append_assoc cs ds (v ∷ []))) h.bytes);
      open_line = Spares-append_left newline ds (v ∷ []) h.open_line;
    }

last_byte :
    (i : Input) (cs ds : List ℕ) (v : ℕ)
    → Holds i (record { lines = cs; line = ds ++ v ∷ [] })
    → i.buf (previous i.e % input_buf) ≡ v
last_byte i cs ds v h =
    let longer = length-append ds (v ∷ []) in
    let both = length-append cs ds in
    let at_last : previous i.e ≡ ahead i.r (length (cs ++ ds)) =
      omega (arith, h.edit_index, h.read_index, longer, both) in
    ap (λ j. i.buf (j % input_buf)) at_last
    ∙ Window-last i.buf i.r v (cs ++ ds) h.read_index
        (subst (Window i.buf i.r) (sym (append_assoc cs ds (v ∷ []))) h.bytes)

edited :
    (i : Input) (cs ds : List ℕ)
    → Holds i (record { lines = cs; line = ds })
    → (i.e == i.w) ≡ (length ds == 0)
edited i cs ds h = ground (arith, h.edit_index, h.write_index, h.room, h.read_index)

unread :
    (i : Input) (cs : List ℕ) (d : ℕ) (ds : List ℕ)
    → Holds i (record { lines = cs; line = d ∷ ds })
    → (i.e == i.w) ≡ false
unread i cs d ds h = ground (arith, h.edit_index, h.write_index, h.room, h.read_index)

back-Holds :
    (s : Console) (cs : List ℕ) (d : ℕ) (ds : List ℕ)
    → Holds s.input (record { lines = cs; line = d ∷ ds })
    → Holds (rub_out s).input (record { lines = cs; line = init (d ∷ ds) })
back-Holds s cs d ds h =
    let (v, e) = init-last d ds in
    rub_out-Holds s cs (init (d ∷ ds)) v
      (subst (λ x. Holds s.input (record { lines = cs; line = x })) e h)

open_byte :
    (i : Input) (cs : List ℕ) (d : ℕ) (ds : List ℕ)
    → Holds i (record { lines = cs; line = d ∷ ds })
    → (i.buf (previous i.e % input_buf) == newline) ≡ false
open_byte i cs d ds h =
    let (v, e) = init-last d ds in
    let h' = subst (λ x. Holds i (record { lines = cs; line = x })) e h in
    rw (last_byte i cs (init (d ∷ ds)) v h') (Spares-last newline v (init (d ∷ ds)) h'.open_line)

length-init : (d : ℕ) (ds : List ℕ) → length (init (d ∷ ds)) ≡ length ds
length-init d [] = refl
length-init d (e ∷ es) = ap suc (length-init e es)

kill_line-Holds :
    (fuel : ℕ) (s : Console) (cs ds : List ℕ)
    → length ds ≤ fuel
    → Holds s.input (record { lines = cs; line = ds })
    → Holds (kill_line fuel s).input (record { lines = cs; line = [] })
unfolding kill_line
kill_line-Holds zero s cs [] a h = h
kill_line-Holds zero s cs (d ∷ ds) a h = absurd (omega (arith, a))
kill_line-Holds (suc fuel) s cs [] a h = rw (edited s.input cs [] h, kill_line) h
kill_line-Holds (suc fuel) s cs (d ∷ ds) a h =
    rw (unread s.input cs d ds h, open_byte s.input cs d ds h, kill_line)
      (kill_line-Holds fuel (rub_out s) cs (init (d ∷ ds)) (omega (arith, a, length-init d ds))
        (back-Holds s cs d ds h))

append-bytes :
    (c : ℕ) (s : Console) (cs ds : List ℕ)
    → Holds s.input (record { lines = cs; line = ds })
    → length cs + length ds < input_buf
    → Window (append c s).input.buf s.input.r (cs ++ (ds ++ c ∷ []))
unfolding append
append-bytes c s cs ds h room =
    let i = s.input in
    let both = length-append cs ds in
    let at_end : i.e ≡ ahead i.r (length (cs ++ ds)) = omega (arith, h.edit_index, both) in
    subst (Window (update i.buf (i.e % input_buf) c) i.r) (append_assoc cs ds (c ∷ []))
      (rw at_end (Window-snoc i.buf i.r c (cs ++ ds) h.read_index (omega (arith, both)) h.bytes))

store_key-Holds :
    (c : ℕ) (s : Console) (cs ds : List ℕ)
    → Holds s.input (record { lines = cs; line = ds })
    → length cs + length ds < input_buf
    → Holds (store_key c s).input (type_byte c (record { lines = cs; line = ds }))
unfolding store_key append commit_line
store_key-Holds c s cs ds h room =
    let longer = length-append ds (c ∷ []) in
    let all = length-append cs (ds ++ c ∷ []) in
    let bytes = append-bytes c s cs ds h room in
    let full : (next s.input.e == (s.input.r + input_buf) % u32_mod)
        ≡ (length cs + length ds + 1 == input_buf) =
      ground (arith, h.edit_index, h.read_index) in
    rw full
      (elim (Bool-cases (c == newline || c == end_key || length cs + length ds + 1 == input_buf)) [
        | inl ends ↦ rw ends (record {
          read_index = h.read_index;
          write_index = omega (arith, h.edit_index, h.read_index, longer, all);
          edit_index = omega (arith, h.edit_index, h.read_index, longer, all);
          room = omega (arith, longer, all);
          bytes =
              subst (Window (append c s).input.buf s.input.r)
                (sym (append-nil (cs ++ (ds ++ c ∷ [])))) bytes;
          open_line = tt;
        })
        | inr goes_on ↦ rw goes_on (record {
          read_index = h.read_index;
          write_index = h.write_index;
          edit_index = omega (arith, h.edit_index, h.read_index, longer);
          room = omega (arith, longer);
          bytes = bytes;
          open_line = Spares-snoc newline c ds h.open_line (ground (arith, goes_on));
        })
      ])

back_key-Holds :
    (s : Console) (cs ds : List ℕ)
    → Holds s.input (record { lines = cs; line = ds })
    → Holds
        (if not (s.input.e == s.input.w) then rub_out s else s).input
        (record { lines = cs; line = init ds })
back_key-Holds s cs [] h = rw (edited s.input cs [] h) h
back_key-Holds s cs (d ∷ ds) h = rw (unread s.input cs d ds h) (back-Holds s cs d ds h)

has_room-size : (i : Input) (t : Typing) → Holds i t → has_room i ≡ ltb (size t) input_buf
has_room-size i t h = ground (arith, h.edit_index, h.read_index, h.room)

key-Holds :
    (c : ℕ) (s : Console) (t : Typing) → Holds s.input t → Holds (key c s).input (type_key c t)
unfolding key
key-Holds c s t h = elim (Bool-cases (c == list_key)) [
  | inl listing ↦ rw listing h
  | inr not_listing ↦ rw not_listing (elim (Bool-cases (c == kill_key)) [
    | inl kills ↦ rw kills (kill_line-Holds input_buf s t.lines t.line (omega (arith, h.room)) h)
    | inr not_killing ↦ rw not_killing (elim (Bool-cases (c == back_key || c == delete_key)) [
      | inl back ↦ rw back (back_key-Holds s t.lines t.line h)
      | inr not_back ↦
          rw (not_back, has_room-size s.input t h)
            (elim (Bool-cases (not (c == 0) && ltb (size t) input_buf)) [
              | inl stored ↦ rw stored (
                  store_key-Holds (if c == return_key then newline else c) s t.lines t.line h
                    (ground (arith, stored)))
              | inr ignored ↦ rw ignored h
            ])
    ])
  ])
]

-- Where the buffer holds what was typed, the handler of the keyboard leaves it holding what is
-- typed with the new keys: bytes go to the end of the line, backspaces take them off again, `^U`
-- takes off the line, and a newline, `^D` or a full buffer gives the line to the readers.
pub consoleintr-Holds :
    (cs : List ℕ) (s : Console) (t : Typing)
    → Holds s.input t
    → Holds (consoleintr cs s).input (type_keys cs t)
unfolding consoleintr type_keys
consoleintr-Holds [] s t h = h
consoleintr-Holds (c ∷ cs) s t h = consoleintr-Holds cs (key c s) (type_key c t) (key-Holds c s t h)
