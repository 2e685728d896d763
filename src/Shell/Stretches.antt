-- ===== src/Shell/Stretches.antt =====
-- The loops of the parser on a line that was written out.
use ztl_os.Shell.Heads.{amps_stops}
use ztl_os.Shell.Heads.{pipe_stops}
use ztl_os.Shell.Heads.{at_end, symbol}
use ztl_os.Shell.{back}
use ztl_os.Shell.Printed.{Clean-symbol}
use ztl_os.Shell.Heads.{symbol, print_amps-Clean}
use ztl_os.Shell.Heads.{Follows-misses}
use ztl_os.Shell.Heads.{text_misses}
use ztl_os.Shell.{ampersand}
use ztl_os.Shell.Printer.{runs}
use ztl_os.Base.{ltb}
use ztl_os.Shell.{exec}
use ztl_os.Base.{not}
use ztl_os.Shell.Heads.{items_miss}
use ztl_os.Base.{length-append}
use ztl_os.Shell.Right.{Right-bind}
use ztl_os.Shell.Heads.{print_items-Clean}
use ztl_os.Shell.Heads.{Follows-Clean}
use ztl_os.Base.{append-nil}
use ztl_os.Base.{
  sym, ◌<◌, length, map, ℕ, zero, suc, ◌+◌, ◌≡◌, refl, ap, ◌∙◌, arith, true, false, ◌||◌, List, [],
  ◌∷◌, ◌++◌, ◌==◌,
}
use ztl_os.Shell.{
  maxargs, skip_white, scan_token, peek, Word, Redir, Cmd, strchr, gettoken, greater, less, plus,
  o_rdonly, o_wronly, o_create,
}
use ztl_os.Shell.Arguments.{leading_word}
use ztl_os.Shell.Parser.{parseargs, parsebacks, parsesimple, wrap, add_redir, parseredirs}
use ztl_os.Shell.Printer.{
  plain, IsSimple, AreItems, meant_simple, meant_amps, print_amps, print_simple, meant_items,
  print_items, Item, texts, Sign, reads, writes, appends, Target, space, print_sign, print_targets,
  Form, opens, form, meant_sign, meant_targets, AreTargets,
}
use ztl_os.Shell.Printed.{
  Clean, Clean-text, peek-Clean, leading_word-text, gettoken-text, gettoken-single,
  gettoken-greater,
}
use ztl_os.Shell.Right.{Means, Right, right, too_little, Right-weaken}
use ztl_os.Shell.Heads.{
  ends_amps, Follows, ends_command, hits, redirects, print_sign-Clean, print_targets-Clean,
}

-- The signs of redirections are tokens that `parseredirs` looks for.
record IsSign (g : Sign) (s : List ℕ) : Type 0 where
  found : hits redirects (print_sign g s) ≡ true
  behind : (gettoken (print_sign g s)).rest ≡ s
  adds :
      (w : Word) (rs : List Redir) (c : Cmd)
      → form (wrap (add_redir (gettoken (print_sign g s)).ret w rs) c)
        ≡ meant_sign g (leading_word w.q) (form (wrap rs c))

adds_input :
    (w : Word) (rs : List Redir) (c : Cmd)
    → form (wrap (add_redir less w rs) c) ≡ opens (form (wrap rs c)) (leading_word w.q) o_rdonly 0
unfolding form wrap add_redir
adds_input w rs c = refl

adds_output :
    (t : ℕ) (w : Word) (rs : List Redir) (c : Cmd)
    → ((t == greater) || (t == plus)) ≡ true
    → form (wrap (add_redir t w rs) c)
      ≡ opens (form (wrap rs c)) (leading_word w.q) (o_wronly + o_create) 1
unfolding form wrap add_redir
adds_output t w rs c h = rw (h, input) refl
  where
    input : (t == less) ≡ false
    input = ground (arith, h)

sign_read : (g : Sign) (s : List ℕ) → Clean s → IsSign g s
unfolding print_sign strchr meant_sign
sign_read reads s h =
    let tok = gettoken-single less s refl h in
    record { found = refl; behind = tok.1; adds = λ w rs c. rw (tok.0) (adds_input w rs c) }
sign_read writes s h =
    let tok = gettoken-greater s h in
    record {
      found = refl;
      behind = tok.1;
      adds = λ w rs c. rw (tok.0) (adds_output greater w rs c refl);
    }
sign_read appends s h =
    let tok = gettoken-greater s h in
    record {
      found = refl;
      behind = tok.3;
      adds = λ w rs c. rw (tok.2) (adds_output plus w rs c refl);
    }

-- The redirections that are collected act as they are meant to, and the rest is left.
pub record Redirects (rs : List Redir) (m : Form → Form) (rest : List ℕ) (r : List Redir × List ℕ)
    : Type 0 where
  pub left : r.1 ≡ rest
  pub acts : (c : Cmd) → form (wrap r.0 c) ≡ m (form (wrap rs c))

pub parseredirs-Right :
    (fuel : ℕ) (rs : List Redir) (ts : List Target) (rest : List ℕ)
    → AreTargets ts
    → Clean rest
    → hits redirects rest ≡ false
    → Right (Redirects rs (meant_targets ts) rest) (parseredirs fuel rs (print_targets ts rest))
unfolding parseredirs print_targets meant_targets
parseredirs-Right zero rs ts rest v h e = too_little
parseredirs-Right (suc fuel) rs [] rest v h e =
    rw (peek-Clean redirects rest h, e) (right (record { left = refl; acts = λ c. refl }))
parseredirs-Right (suc fuel) rs (t ∷ ts) rest v h e =
    let more = print_targets ts rest in
    let clean = print_targets-Clean ts rest h in
    let named = t.name ++ space ∷ more in
    let sign = sign_read t.sign named (Clean-text (space ∷ more) v.0) in
    let name = gettoken-text more v.0 clean in
    let word = (gettoken named).word in
    let rs' = add_redir (gettoken (print_sign t.sign named)).ret word rs in
    let text : leading_word word.q ≡ t.name = rw (name.begins) (leading_word-text more v.0) in
    rw
      (
        peek-Clean redirects _ (print_sign-Clean t.sign named),
        sign.found,
        sign.behind,
        name.ret,
        name.rest,
      )
      (Right-weaken
        (λ r q. record {
          left = q.left;
          acts = λ c.
              q.acts c
              ∙ ap (meant_targets ts)
                  (sign.adds word rs c ∙ ap (λ n. meant_sign t.sign n (form (wrap rs c))) text);
        })
        (parseredirs-Right fuel rs' ts rest v.1 h e))

-- The words and the redirections of a simple command are collected.
pub record Collects (args : List Word) (rs : List Redir) (items : List Item) (rest : List ℕ)
    (r : List Word × List Redir × List ℕ) : Type 0 where
  pub left : r.2 ≡ rest
  pub words : texts r.0 ≡ texts args ++ map (λ i. i.text) items
  pub acts : (c : Cmd) → form (wrap r.1 c) ≡ meant_items items (form (wrap rs c))

texts-last :
    (args : List Word) (w : Word) (t : List ℕ) (ts : List (List ℕ))
    → leading_word w.q ≡ t
    → texts (args ++ w ∷ []) ++ ts ≡ texts args ++ (t ∷ ts)
texts-last [] w t ts h = rw h refl
texts-last (a ∷ args) w t ts h = ap (λ r. leading_word a.q ∷ r) (texts-last args w t ts h)

stop_found : (c : ℕ) (s : List ℕ) → strchr ends_command c ≡ true → hits ends_command (c ∷ s) ≡ true
unfolding strchr
stop_found c s h = ground (arith, h)

-- Where a command stops.
parseargs_end :
    (fuel : ℕ) (args : List Word) (rs : List Redir)
    → Right (Collects args rs [] []) (parseargs (suc fuel) args rs [])
unfolding parseargs meant_items peek gettoken scan_token skip_white
parseargs_end fuel args rs =
    right (record { left = refl; words = sym (append-nil _); acts = λ c. refl })

parseargs_stops :
    (fuel : ℕ) (args : List Word) (rs : List Redir) (rest : List ℕ)
    → Follows ends_command rest
    → Right (Collects args rs [] rest) (parseargs (suc fuel) args rs rest)
unfolding parseargs meant_items
parseargs_stops fuel args rs rest at_end = parseargs_end fuel args rs
parseargs_stops fuel args rs rest (symbol c s h) =
    rw (peek-Clean ends_command (c ∷ s) (Follows-Clean (symbol c s h)), stop_found c s h)
      (right (record { left = refl; words = sym (append-nil _); acts = λ d. refl }))

pub parseargs-Right :
    (fuel : ℕ) (args : List Word) (rs : List Redir) (items : List Item) (rest : List ℕ)
    → AreItems items
    → length args + length items < maxargs
    → Follows ends_command rest
    → Right (Collects args rs items rest) (parseargs fuel args rs (print_items items rest))
unfolding parseargs print_items meant_items strchr
parseargs-Right zero args rs items rest v n f = too_little
parseargs-Right (suc fuel) args rs [] rest v n f = parseargs_stops fuel args rs rest f
parseargs-Right (suc fuel) args rs (i ∷ items) rest v n f =
    let more = print_items items rest in
    let tail = print_targets i.targets more in
    let text = v.0.0 in
    let clean = print_items-Clean items rest v.1 (Follows-Clean f) in
    let word = gettoken-text tail text (print_targets-Clean i.targets more clean) in
    let w = (gettoken (i.text ++ space ∷ tail)).word in
    let grown : length (args ++ w ∷ []) ≡ length args + 1 = length-append args (w ∷ []) in
    let fits : not (ltb (length (args ++ w ∷ [])) maxargs) ≡ false = ground (arith, n, grown) in
    let means : leading_word w.q ≡ i.text = rw (word.begins) (leading_word-text tail text) in
    rw
      (
        peek-Clean ends_command _ (Clean-text (space ∷ tail) text),
        text_misses ends_command (λ c h. ground (arith, h)) (space ∷ tail) text,
        word.ret,
        word.rest,
        fits,
      )
      (Right-bind
        (parseredirs-Right fuel rs i.targets more v.0.1 clean (items_miss items rest v.1 f).0)
        (λ r q. rw (q.left) (
          Right-weaken
            (λ x y. record {
              left = y.left;
              words = y.words ∙ texts-last args w i.text _ means;
              acts = λ c. y.acts c ∙ ap (meant_items items) (q.acts c);
            })
            (parseargs-Right fuel (args ++ w ∷ []) r.0 items rest v.1 (omega (arith, n, grown))
              f))))

pub parsebacks-Right :
    (fuel : ℕ) (c : Cmd) (n : ℕ) (rest : List ℕ)
    → Follows ends_amps rest
    → Right (Means (meant_amps n (form c)) rest) (parsebacks fuel c (print_amps n rest))
unfolding parsebacks print_amps meant_amps form strchr
parsebacks-Right zero c n rest f = too_little
parsebacks-Right (suc fuel) c zero rest f =
    let ends = Follows-Clean (pipe_stops (amps_stops f)) in
    rw
      (
        peek-Clean (ampersand ∷ []) rest ends,
        Follows-misses (ampersand ∷ []) (λ d h. ground (arith, h)) f,
      )
      (right (record { left = refl; means = refl }))
parsebacks-Right (suc fuel) c (suc n) rest f =
    let ends = Follows-Clean (pipe_stops (amps_stops f)) in
    let tok = gettoken-single ampersand (print_amps n rest) refl (print_amps-Clean n rest ends) in
    rw
      (
        peek-Clean (ampersand ∷ []) _ (Clean-symbol ampersand (space ∷ print_amps n rest) refl),
        tok.1,
      )
      (parsebacks-Right fuel (back c) n rest f)

pub parsesimple-Right :
    (fuel : ℕ) (ts : List Target) (items : List Item) (rest : List ℕ)
    → IsSimple (plain ts items)
    → Follows ends_command rest
    → Right
        (Means (meant_simple (plain ts items)) rest)
        (parsesimple fuel (print_simple (plain ts items) rest))
unfolding parsesimple print_simple meant_simple IsSimple form wrap
parsesimple-Right fuel ts items rest v f =
    Right-bind
      (parseredirs-Right fuel [] ts (print_items items rest) v.0
        (print_items-Clean items rest v.1 (Follows-Clean f)) (items_miss items rest v.1 f).0)
      (λ r q. rw (q.left) (
        Right-bind (parseargs-Right fuel [] r.0 items rest v.1 (omega (arith, v.2)) f) (λ a y.
          right (record {
            left = y.left;
            means =
                y.acts (exec a.0)
                ∙ ap (meant_items items)
                    (q.acts (exec a.0) ∙ ap (λ w. meant_targets ts (runs w)) y.words);
          }))))
