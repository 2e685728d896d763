-- ===== src/Shell/Words.antt =====
-- The words of a command, and where they stand in the line.
use ztl_os.Base.{◌<◌, length, ◌∙◌, subst, ℕ, ◌≡◌, refl, sym, ◌⊎◌, inl, inr, List, [], ◌∷◌, ◌++◌}
use ztl_os.Shell.{maxargs, Word, Redir, Cmd, exec, redir, pipe, list, back}
use ztl_os.Shell.Suffix.{Suffix, Suffix-trans}
use ztl_os.Shell.Tokens.{IsToken}
use ztl_os.Shell.Parser.{wrap}

-- one of the words that are an argument
pub data IsArg (w : Word) : List Word → Type 0 where
  first : {ws : List Word} → IsArg w (w ∷ ws)
  next : {v : Word} {ws : List Word} → IsArg w ws → IsArg w (v ∷ ws)

-- the name of a file that a redirection opens
pub data IsFile (w : Word) : List Redir → Type 0 where
  newest : {r : Redir} {rs : List Redir} → r.file ≡ w → IsFile w (r ∷ rs)
  older : {r : Redir} {rs : List Redir} → IsFile w rs → IsFile w (r ∷ rs)

-- The words of each `execcmd` fit into its arrays, with the zero behind them.
unfoldable pub Fits : Cmd → Type 0
Fits (exec ws) = length ws < maxargs
Fits (redir c r) = Fits c
Fits (pipe c d) = Fits c × Fits d
Fits (list c d) = Fits c × Fits d
Fits (back c) = Fits c

pub wrap-Fits : (rs : List Redir) (c : Cmd) → Fits c → Fits (wrap rs c)
unfolding wrap Fits
wrap-Fits [] c h = h
wrap-Fits (r ∷ rs) c h = wrap-Fits rs c h

-- A word that the command has.
pub data Has (w : Word) : Cmd → Type 0 where
  has_arg : {ws : List Word} → IsArg w ws → Has w (exec ws)
  has_file : {c : Cmd} {r : Redir} → r.file ≡ w → Has w (redir c r)
  in_redir : {c : Cmd} {r : Redir} → Has w c → Has w (redir c r)
  in_pipe_left : {c d : Cmd} → Has w c → Has w (pipe c d)
  in_pipe_right : {c d : Cmd} → Has w d → Has w (pipe c d)
  in_list_left : {c d : Cmd} → Has w c → Has w (list c d)
  in_list_right : {c d : Cmd} → Has w d → Has w (list c d)
  in_back : {c : Cmd} → Has w c → Has w (back c)

-- A token between two pointers into the line.
pub record Between (lo hi : List ℕ) (w : Word) : Type 0 where
  pub token : IsToken w
  pub begins : Suffix w.q hi
  pub ends : Suffix lo w.eq

-- One word begins where the other has ended.
abbrev pub Apart : Word → Word → Type 0
Apart w v = Suffix v.q w.eq ⊎ Suffix w.q v.eq

-- Words between two pointers, that do not overlap.
pub record Spread (lo hi : List ℕ) (P : Word → Type 0) : Type 0 where
  pub between : (w : Word) → P w → Between lo hi w
  pub apart : (w v : Word) → P w → P v → (w ≡ v) ⊎ Apart w v

module _ {lo mid hi : List ℕ} {P Q R : Word → Type 0} where
  -- words before the middle and words behind it
  pub Spread-both :
      Spread mid hi P
      → Spread lo mid Q
      → Suffix lo mid
      → Suffix mid hi
      → ((w : Word) → R w → P w ⊎ Q w)
      → Spread lo hi R
  Spread-both p q a b split = record {
    between = λ w r. elim (split w r) [
      | inl x ↦
          let s = p.between w x in
          record { token = s.token; begins = s.begins; ends = Suffix-trans a s.ends }
      | inr y ↦
          let s = q.between w y in
          record { token = s.token; begins = Suffix-trans s.begins b; ends = s.ends }
    ];
    apart = λ w v r r'. elim (split w r) [
      | inl x ↦ elim (split v r') [
        | inl x' ↦ p.apart w v x x'
        | inr y' ↦ inr (inl (Suffix-trans (q.between v y').begins (p.between w x).ends))
      ]
      | inr y ↦ elim (split v r') [
        | inl x' ↦ inr (inr (Suffix-trans (q.between w y).begins (p.between v x').ends))
        | inr y' ↦ q.apart w v y y'
      ]
    ];
  }

module _ {lo hi : List ℕ} {P R : Word → Type 0} where
  pub Spread-fewer : Spread lo hi P → ((w : Word) → R w → P w) → Spread lo hi R
  Spread-fewer p f = record {
    between = λ w r. p.between w (f w r);
    apart = λ w v r r'. p.apart w v (f w r) (f v r');
  }

-- the same words, and more of the line
pub Spread-lower :
    {lo lo' hi : List ℕ} {P : Word → Type 0} → Suffix lo' lo → Spread lo hi P → Spread lo' hi P
Spread-lower a p = record {
  between = λ w x.
      let s = p.between w x in
      record { token = s.token; begins = s.begins; ends = Suffix-trans a s.ends };
  apart = p.apart;
}

-- one word
pub Spread-one :
    {lo hi : List ℕ} {u : Word} {R : Word → Type 0}
    → Between lo hi u
    → ((w : Word) → R w → u ≡ w)
    → Spread lo hi R
Spread-one {lo} {hi} b only = record {
  between = λ w r. subst (Between lo hi) (only w r) b;
  apart = λ w v r r'. inl (sym (only w r) ∙ only v r');
}

-- The words in a command behind its redirections.
pub Has-wrap : (rs : List Redir) (c : Cmd) (w : Word) → Has w (wrap rs c) → Has w c ⊎ IsFile w rs
unfolding wrap
Has-wrap [] c w h = inl h
Has-wrap (r ∷ rs) c w (has_file e) = inr (newest e)
Has-wrap (r ∷ rs) c w (in_redir h) = elim (Has-wrap rs c w h) [
  | inl inside ↦ inl inside
  | inr outside ↦ inr (older outside)
]

pub IsArg-last : (ws : List Word) (u w : Word) → IsArg w (ws ++ u ∷ []) → IsArg w ws ⊎ (u ≡ w)
IsArg-last [] u w first = inr refl
IsArg-last [] u w (next m) = elim m [ ]
IsArg-last (v ∷ ws) u w first = inl first
IsArg-last (v ∷ ws) u w (next m) = elim (IsArg-last ws u w m) [
  | inl before ↦ inl (next before)
  | inr last ↦ inr last
]
