-- ===== src/Console/Wakes.antt =====
-- A line that is given to the readers wakes them.
use ztl_os.Base.{
  ◌+◌, ◌%◌, u32_mod, ◌%◌, ℕ, zero, suc, ◌≡◌, ◌≢◌, refl, sym, ◌∙◌, Bool, true, false, not, ◌&&◌,
  ◌||◌, List, [], ◌∷◌, ◌==◌, if◌then◌else◌,
}
use ztl_os.Console.{
  end_key, Console, input_buf, list_key, kill_key, back_key, delete_key, return_key, newline,
  rub_out, kill_line, append, commit_line, store_key, has_room, key, consoleintr, previous,
}

-- Readers are woken, or see no more than before.
pub data Wakes (s : Console) (s' : Console) : Type 0 where
  wakes : s'.woken ≡ true → Wakes s s'
  unchanged : s'.woken ≡ s.woken → s'.input.w ≡ s.input.w → s'.input.r ≡ s.input.r → Wakes s s'

rub_out-Wakes : (s : Console) → Wakes s (rub_out s)
unfolding rub_out
rub_out-Wakes s = unchanged refl refl refl

Wakes-trans : {s s' s'' : Console} → Wakes s s' → Wakes s' s'' → Wakes s s''
Wakes-trans a (wakes b) = wakes b
Wakes-trans (wakes a) (unchanged b c d) = wakes (b ∙ a)
Wakes-trans (unchanged a a' a'') (unchanged b c d) = unchanged (b ∙ a) (c ∙ a') (d ∙ a'')

Wakes-if : (b : Bool) {s x y : Console} → Wakes s x → Wakes s y → Wakes s (if b then x else y)
Wakes-if true h h' = h
Wakes-if false h h' = h'

kill_line-Wakes : (fuel : ℕ) (s : Console) → Wakes s (kill_line fuel s)
unfolding kill_line
kill_line-Wakes zero s = unchanged refl refl refl
kill_line-Wakes (suc fuel) s =
    let i = s.input in
    Wakes-if (not (i.e == i.w) && not (i.buf (previous i.e % input_buf) == newline))
      (Wakes-trans (rub_out-Wakes s) (kill_line-Wakes fuel (rub_out s))) (unchanged refl refl refl)

store_key-Wakes : (c : ℕ) (s : Console) → Wakes s (store_key c s)
unfolding store_key append commit_line
store_key-Wakes c s =
    let s' = append c s in
    Wakes-if (c == newline || c == end_key || s'.input.e == (s'.input.r + input_buf) % u32_mod)
      {x = commit_line s'} {y = s'} (wakes refl) (unchanged refl refl refl)

key-Wakes : (c : ℕ) (s : Console) → Wakes s (key c s)
unfolding key
key-Wakes c s =
    let same = unchanged refl refl refl in
    Wakes-if (c == list_key) same (
      Wakes-if (c == kill_key) (kill_line-Wakes input_buf s) (
        Wakes-if (c == back_key || c == delete_key)
          (Wakes-if (not (s.input.e == s.input.w)) (rub_out-Wakes s) (unchanged refl refl refl))
          (Wakes-if (not (c == 0) && has_room s.input)
            (store_key-Wakes (if c == return_key then newline else c) s)
            (unchanged refl refl refl))))

consoleintr-Wakes : (cs : List ℕ) (s : Console) → Wakes s (consoleintr cs s)
unfolding consoleintr
consoleintr-Wakes [] s = unchanged refl refl refl
consoleintr-Wakes (c ∷ cs) s = Wakes-trans (key-Wakes c s) (consoleintr-Wakes cs (key c s))

Wakes-woken :
    {s s' : Console}
    → Wakes s s'
    → s.input.r ≡ s.input.w
    → s'.input.r ≢ s'.input.w
    → s'.woken ≡ true
Wakes-woken (wakes a) empty filled = a
Wakes-woken (unchanged a b c) empty filled = absurd (filled (c ∙ empty ∙ sym b))

-- If readers had to wait before the keys came and need not wait after them, they are woken.
pub consoleintr-wakes :
    (cs : List ℕ) (s : Console)
    → s.input.r ≡ s.input.w
    → (consoleintr cs s).input.r ≢ (consoleintr cs s).input.w
    → (consoleintr cs s).woken ≡ true
consoleintr-wakes cs s empty filled = Wakes-woken (consoleintr-Wakes cs s) empty filled
