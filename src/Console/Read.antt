-- ===== src/Console/Read.antt =====
-- Reading from the console takes the lines in order.
use ztl_os.Base.{
  ℕ, zero, suc, ◌-◌, ◌%◌, ◌≡◌, refl, ap, arith, Bool, true, false, inl, inr, List, [], ◌∷◌, ◌==◌,
  if◌then◌else◌, ltb, Bool-cases, fail, ok,
}
use ztl_os.Console.{
  Input, input_buf, end_key, newline, next, Outcome, returned, asleep, Stretch, and_byte,
  consoleread,
}
use ztl_os.Console.Window.{Window}
use ztl_os.Console.Edit.{Holds}

-- What a stretch of reading takes from the lines: the bytes, how it ends, and the lines left.
pub record Taken : Type 0 where
  pub outcome : Outcome
  pub bytes : List ℕ
  pub left : List ℕ

abbrev with_byte : ℕ → Taken → Taken
with_byte c r = record r { bytes = c ∷ r.bytes }

-- Up to `n` bytes, to the end of the line; without any, the reader waits or gives up. A `^D` ends
-- the reading, and is taken only where nothing was read before it.
pub take_line : Bool → (target n : ℕ) → List ℕ → Taken
take_line killed target zero cs = record { outcome = returned (ok target); bytes = []; left = cs }
take_line killed target (suc n) [] = record {
  outcome = if killed then returned fail else asleep (suc n);
  bytes = [];
  left = [];
}
take_line killed target (suc n) (c ∷ cs) =
    let rest = take_line killed target n cs in
    if c == end_key
    then record {
      outcome = returned (ok (target - suc n));
      bytes = [];
      left = if ltb (suc n) target then c ∷ cs else cs;
    }
    else if c == newline
    then record { outcome = returned (ok (target - n)); bytes = c ∷ []; left = cs }
    else with_byte c rest

-- The stretch does what the lines say.
pub record Reads (line : List ℕ) (r : Taken) (s : Stretch) : Type 0 where
  pub outcome : s.outcome ≡ r.outcome
  pub bytes : s.bytes ≡ r.bytes
  pub left : Holds s.input (record { lines = r.left; line = line })

advanced :
    (i : Input) (c : ℕ) (cs ds : List ℕ)
    → Holds i (record { lines = c ∷ cs; line = ds })
    → Holds (record i { r = next i.r }) (record { lines = cs; line = ds })
unfolding Window
advanced i c cs ds h = record {
  read_index = omega arith;
  write_index = omega (arith, h.write_index, h.read_index);
  edit_index = omega (arith, h.edit_index, h.read_index);
  room = omega (arith, h.room);
  bytes = h.bytes.1;
  open_line = h.open_line;
}

first_byte :
    (i : Input) (c : ℕ) (cs ds : List ℕ)
    → Holds i (record { lines = c ∷ cs; line = ds })
    → i.buf (i.r % input_buf) ≡ c
unfolding Window
first_byte i c cs ds h = h.bytes.0

nothing_to_read :
    (i : Input) (ds : List ℕ) → Holds i (record { lines = []; line = ds }) → (i.r == i.w) ≡ true
nothing_to_read i ds h = ground (arith, h.write_index, h.read_index)

something_to_read :
    (i : Input) (c : ℕ) (cs ds : List ℕ)
    → Holds i (record { lines = c ∷ cs; line = ds })
    → (i.r == i.w) ≡ false
something_to_read i c cs ds h = ground (arith, h.write_index, h.read_index, h.room)

and_byte-Reads :
    (c : ℕ) (ds : List ℕ) (r : Taken) (s : Stretch)
    → Reads ds r s
    → Reads ds (with_byte c r) (and_byte c s)
and_byte-Reads c ds r s h = record {
  outcome = h.outcome;
  bytes = ap (λ x. c ∷ x) h.bytes;
  left = h.left;
}

-- Where the buffer holds the lines, reading returns what the lines say, and leaves the rest of them.
pub consoleread-Reads :
    (killed : Bool) (target n : ℕ) (i : Input) (cs ds : List ℕ)
    → Holds i (record { lines = cs; line = ds })
    → Reads ds (take_line killed target n cs) (consoleread killed target n i)
unfolding consoleread take_line
consoleread-Reads killed target zero i cs ds h = record { outcome = refl; bytes = refl; left = h }
consoleread-Reads killed target (suc n) i [] ds h =
    rw (nothing_to_read i ds h, consoleread) (record { outcome = refl; bytes = refl; left = h })
consoleread-Reads killed target (suc n) i (c ∷ cs) ds h =
    let further = advanced i c cs ds h in
    let rest = consoleread-Reads killed target n (record i { r = next i.r }) cs ds further in
    rw (consoleread, something_to_read i c cs ds h, first_byte i c cs ds h)
      (elim (Bool-cases (c == end_key)) [
        | inl ends ↦
            rw (ends, take_line)
              (elim (Bool-cases (ltb (suc n) target)) [
                | inl later ↦ rw later (record { outcome = refl; bytes = refl; left = h })
                | inr first ↦ rw first (record { outcome = refl; bytes = refl; left = further })
              ])
        | inr goes_on ↦
            rw (goes_on, take_line)
              (elim (Bool-cases (c == newline)) [
                | inl line ↦ rw line (record { outcome = refl; bytes = refl; left = further })
                | inr more ↦ rw more (
                    and_byte-Reads c ds (take_line killed target n cs)
                      (consoleread killed target n (record i { r = next i.r })) rest)
              ])
      ])
