-- ===== src/Console/Tests.antt =====
-- Runs of the console's buffer, and its theorems at concrete buffers.
use ztl_os.Base.{ℕ, ◌-◌, ◌^◌, ◌≡◌, refl, arith, true, false, ok, List, [], ◌∷◌, ◌==◌, if◌then◌else◌}
use ztl_os.Console.{
  Console, consoleintr, consoleread, returned, key, kill_line, rub_out, store_key, append,
  commit_line,
}
use ztl_os.Console.Window.{Window}
use ztl_os.Console.Edit.{Typing, Holds, type_keys}
use ztl_os.Console.Typed.{consoleintr-Holds}
use ztl_os.Console.Read.{take_line, Reads, consoleread-Reads}
use ztl_os.Console.Wakes.{consoleintr-wakes}

-- The line `a`, and `b` being typed, round the end of the counters.
abbrev typed : Console
typed = record {
  input = record {
    buf = λ i. if i == 127 then 97 else if i == 0 then 10 else 98;
    r = 2 ^ 32 - 1;
    w = 1;
    e = 2;
  };
  echoed = [];
  woken = false;
  dump = false;
}

abbrev typing : Typing
typing = record { lines = 97 ∷ 10 ∷ []; line = 98 ∷ [] }

typed-Holds : Holds typed.input typing
unfolding Window
typed-Holds = record {
  read_index = omega arith;
  write_index = refl;
  edit_index = refl;
  room = omega arith;
  bytes = (refl, (refl, (refl, tt)));
  open_line = (refl, tt);
}

-- backspace, `c`, carriage return
abbrev keys : List ℕ
keys = 8 ∷ 99 ∷ 13 ∷ []

line_after : type_keys keys typing ≡ record { lines = 97 ∷ 10 ∷ 99 ∷ 10 ∷ []; line = [] }
unfolding type_keys
line_after = refl

read_after : (consoleread false 9 9 (consoleintr keys typed).input).outcome ≡ returned (ok 2)
unfolding consoleread consoleintr key kill_line rub_out store_key append commit_line
read_after = refl

consoleintr-Holds_example : Holds (consoleintr keys typed).input (type_keys keys typing)
consoleintr-Holds_example = consoleintr-Holds keys typed typing typed-Holds

consoleread-Reads_example :
    Reads (98 ∷ []) (take_line false 9 9 (97 ∷ 10 ∷ [])) (consoleread false 9 9 typed.input)
consoleread-Reads_example =
    consoleread-Reads false 9 9 typed.input (97 ∷ 10 ∷ []) (98 ∷ []) typed-Holds

-- Nothing typed yet.
abbrev fresh : Console
fresh = record {
  input = record { buf = λ _. 0; r = 0; w = 0; e = 0 };
  echoed = [];
  woken = false;
  dump = false;
}

fresh_filled : (consoleintr (99 ∷ 10 ∷ []) fresh).input.w ≡ 2
unfolding consoleintr key kill_line rub_out store_key append commit_line
fresh_filled = refl

fresh_kept : (consoleintr (99 ∷ 10 ∷ []) fresh).input.r ≡ 0
unfolding consoleintr key kill_line rub_out store_key append commit_line
fresh_kept = refl

consoleintr-wakes_example : (consoleintr (99 ∷ 10 ∷ []) fresh).woken ≡ true
consoleintr-wakes_example =
    consoleintr-wakes (99 ∷ 10 ∷ []) fresh refl (λ e. omega (arith, e, fresh_filled, fresh_kept))
