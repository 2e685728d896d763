-- ===== src/Shell/Arguments.antt =====
-- The strings that the words of a command are, after the parse.
use ztl_os.Base.{
  ℕ, zero, suc, ◌+◌, ◌<◌, ◌≡◌, ◌≢◌, inl, inr, refl, sym, ap, ◌∙◌, subst, arith, false, List, [],
  ◌∷◌, if◌then◌else◌, length, get_or, take_all, Bool-cases,
}
use ztl_os.Strings.Names.{name_at, name_at-list}
use ztl_os.Shell.{Word, Cmd, skip_word, at}
use ztl_os.Shell.Result.{Ends, returns, Ends-bind}
use ztl_os.Shell.Suffix.{length-Suffix, Suffix-equal, get_or-Suffix}
use ztl_os.Shell.Tokens.{ordinary, IsToken, is_token}
use ztl_os.Shell.Parser.{index, nulterminate, parsecmd}
use ztl_os.Shell.Words.{Has, Fits, Spread}
use ztl_os.Shell.Sound.{parse_whole-Ends}
use ztl_os.Shell.Buffer.{nulterminate_kept, words_ended}

-- The bytes up to white space, a symbol or the end.
unfoldable pub leading_word : List ℕ → List ℕ
leading_word [] = []
leading_word (c ∷ s) = let rest = leading_word s in if ordinary c then c ∷ rest else []

length-leading_word : (s : List ℕ) → length (leading_word s) + length (skip_word s) ≡ length s
unfolding leading_word skip_word
length-leading_word [] = refl
length-leading_word (c ∷ s) = elim (Bool-cases (ordinary c)) [
  | inl inside ↦ rw inside (omega (arith, length-leading_word s))
  | inr outside ↦ rw outside (omega arith)
]

get_or-leading_word :
    (s : List ℕ) (i : ℕ) → i < length (leading_word s) → get_or (leading_word s) i 0 ≡ get_or s i 0
unfolding leading_word
get_or-leading_word [] i l = refl
get_or-leading_word (c ∷ s) zero l = elim (Bool-cases (ordinary c)) [
  | inl inside ↦ rw inside refl
  | inr outside ↦
      let none_there : length (leading_word (c ∷ s)) ≡ 0 = rw outside refl in
      absurd (omega (arith, l, none_there))
]
get_or-leading_word (c ∷ s) (suc i) l = elim (Bool-cases (ordinary c)) [
  | inl inside ↦
      let more : length (leading_word (c ∷ s)) ≡ suc (length (leading_word s)) = rw inside refl in
      rw inside (get_or-leading_word s i (omega (arith, l, more)))
  | inr outside ↦
      let none_there : length (leading_word (c ∷ s)) ≡ 0 = rw outside refl in
      absurd (omega (arith, l, none_there))
]

-- A word does not begin at the end of a word.
skip_word-first : (s : List ℕ) {c : ℕ} {rest : List ℕ} → skip_word s ≡ c ∷ rest → ordinary c ≡ false
unfolding skip_word
skip_word-first [] e = ground (arith, e)
skip_word-first (x ∷ s) e = elim (Bool-cases (ordinary x)) [
  | inl inside ↦ skip_word-first s (rw inside at e)
  | inr outside ↦
      let tail : x ∷ s ≡ _ ∷ _ = rw outside at e in
      subst (λ l. ordinary (at l) ≡ false) tail outside
]

token_end : {w : Word} → IsToken w → w.eq ≡ skip_word w.q
token_end (is_token o) = refl

token_apart : {w v : Word} → IsToken w → IsToken v → w.q ≢ v.eq
token_apart (is_token {c} o) (is_token {c = d} {s = t} o') e =
    let first = skip_word-first (d ∷ t) (sym e) in ground (arith, o, first)

-- No word ends inside another or at its beginning.
module _ (s : List ℕ) (c : Cmd) (spread : Spread [] s (λ w. Has w c)) where
  length_word : (w : Word) → Has w c → length (leading_word w.q) + length w.eq ≡ length w.q
  length_word w h =
      ap (λ e. length (leading_word w.q) + length e) (token_end (spread.between w h).token)
      ∙ length-leading_word w.q

  inside_none :
      (w v : Word) (i : ℕ)
      → Has w c
      → Has v c
      → i < length (leading_word w.q)
      → index (length s) w.q + i ≢ index (length s) v.eq
  inside_none w v i hw hv l e =
      let one = length_word w hw in
      let other = length_word v hv in
      let whole = length-Suffix (spread.between w hw).begins in
      let whole' = length-Suffix (spread.between v hv).begins in
      let same_place : length w.q ≡ length v.eq + i =
        omega (arith, e, one, other, whole, whole', l) in
      elim (spread.apart w v hw hv) [
        | inl same ↦
            let ends_same = ap (λ w. length w.eq) same in
            omega (arith, ends_same, same_place, one, l)
        | inr (inl before) ↦
            let shorter = length-Suffix before in omega (arith, shorter, other, one, same_place, l)
        | inr (inr behind) ↦
            token_apart (spread.between w hw).token (spread.between v hv).token
              (Suffix-equal behind (omega (arith, same_place)))
      ]

  module _ (m : ℕ → ℕ) (clean : (i : ℕ) → i < length s → get_or s i 0 ≢ 0)
      (line : (i : ℕ) → i < length s → m i ≡ get_or s i 0) where
    word_text :
        (w : Word)
        → Has w c
        → name_at (index (length s) w.q) (length s + 1) (nulterminate (length s) c m)
          ≡ leading_word w.q
    word_text w h =
        let one = length_word w h in
        let whole = length-Suffix (spread.between w h).begins in
        let place = index (length s) w.q in
        let bytes = λ (i : ℕ) (l : i < length (leading_word w.q)).
          get_or-leading_word w.q i l ∙ get_or-Suffix i (spread.between w h).begins in
        name_at-list (length s + 1) place (leading_word w.q) (nulterminate (length s) c m)
          (λ i l k.
            nulterminate_kept (length s) (place + i) c m (λ v hv. inside_none w v i h hv l)
            ∙ line (place + i) (omega (arith, l, one, whole))
            ∙ sym (bytes i l))
          (λ i l z. clean (place + i) (omega (arith, l, one, whole)) (sym (bytes i l) ∙ z))
          (λ l.
            words_ended (length s) (place + length (leading_word w.q)) m h
              (omega (arith, one, whole)))
        ∙ take_all (length s + 1) (leading_word w.q) (omega (arith, one, whole))

-- On every line the parser returns a command or ends in a syntax error, and its fuel is enough. A
-- command's words fit into the arrays of `execcmd`, and in the buffer each of them is then the
-- string of the bytes that follow its beginning up to white space, a symbol or the line's end.
pub parsecmd-Ends :
    (s : List ℕ) (m : ℕ → ℕ)
    → ((i : ℕ) → i < length s → get_or s i 0 ≢ 0)
    → ((i : ℕ) → i < length s → m i ≡ get_or s i 0)
    → Ends
        (λ r.
          Fits r.0
          × ((w : Word)
              → Has w r.0
              → name_at (index (length s) w.q) (length s + 1) r.1 ≡ leading_word w.q))
        (parsecmd s m)
unfolding parsecmd
parsecmd-Ends s m clean line =
    Ends-bind (parse_whole-Ends s) (λ c p. returns (p.1, λ w h. word_text s c p.0 m clean line w h))
