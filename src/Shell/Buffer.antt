-- ===== src/Shell/Buffer.antt =====
-- What `nulterminate` leaves in the buffer.
use ztl_os.Base.{ℕ, ◌≡◌, ◌≢◌, refl, sym, ap, ◌∙◌, arith, List, [], ◌∷◌, update}
use ztl_os.Shell.{Word, Cmd, exec, redir, pipe, list, back}
use ztl_os.Shell.Parser.{index, end_args, nulterminate}
use ztl_os.Shell.Words.{
  IsArg, first, next, Has, has_arg, has_file, in_redir, in_pipe_left, in_pipe_right, in_list_left,
  in_list_right, in_back,
}

module _ (n : ℕ) (i : ℕ) where
  end_args_kept :
      (ws : List Word) (m : ℕ → ℕ)
      → ((w : Word) → IsArg w ws → i ≢ index n w.eq)
      → end_args n ws m i ≡ m i
  unfolding end_args
  end_args_kept [] m h = refl
  end_args_kept (w ∷ ws) m h =
      let other = h w first in
      end_args_kept ws (update m (index n w.eq) 0) (λ v a. h v (next a)) ∙ ground (arith, other)

  -- Bytes that end no word are kept.
  pub nulterminate_kept :
      (c : Cmd) (m : ℕ → ℕ) → ((w : Word) → Has w c → i ≢ index n w.eq) → nulterminate n c m i ≡ m i
  unfolding nulterminate
  nulterminate_kept (exec ws) m h = end_args_kept ws m (λ w a. h w (has_arg a))
  nulterminate_kept (redir c r) m h =
      let other = h r.file (has_file refl) in
      let rest = nulterminate_kept c m (λ w a. h w (in_redir a)) in ground (arith, other, rest)
  nulterminate_kept (pipe c d) m h =
      nulterminate_kept d (nulterminate n c m) (λ w a. h w (in_pipe_right a))
      ∙ nulterminate_kept c m (λ w a. h w (in_pipe_left a))
  nulterminate_kept (list c d) m h =
      nulterminate_kept d (nulterminate n c m) (λ w a. h w (in_list_right a))
      ∙ nulterminate_kept c m (λ w a. h w (in_list_left a))
  nulterminate_kept (back c) m h = nulterminate_kept c m (λ w a. h w (in_back a))

  zero_args : (ws : List Word) (m : ℕ → ℕ) → m i ≡ 0 → end_args n ws m i ≡ 0
  unfolding end_args
  zero_args [] m z = z
  zero_args (w ∷ ws) m z = zero_args ws (update m (index n w.eq) 0) (ground (arith, z))

  zero_stays : (c : Cmd) (m : ℕ → ℕ) → m i ≡ 0 → nulterminate n c m i ≡ 0
  unfolding nulterminate
  zero_stays (exec ws) m z = zero_args ws m z
  zero_stays (redir c r) m z = let rest = zero_stays c m z in ground (arith, rest)
  zero_stays (pipe c d) m z = zero_stays d (nulterminate n c m) (zero_stays c m z)
  zero_stays (list c d) m z = zero_stays d (nulterminate n c m) (zero_stays c m z)
  zero_stays (back c) m z = zero_stays c m z

  args_ended :
      {w : Word} {ws : List Word} (m : ℕ → ℕ)
      → IsArg w ws
      → i ≡ index n w.eq
      → end_args n ws m i ≡ 0
  unfolding end_args
  args_ended m (first {ws}) e = zero_args ws _ (ground (arith, e))
  args_ended m (next a) e = args_ended _ a e

  -- The byte behind each word is zero.
  pub words_ended :
      {w : Word} {c : Cmd} (m : ℕ → ℕ) → Has w c → i ≡ index n w.eq → nulterminate n c m i ≡ 0
  unfolding nulterminate
  words_ended m (has_arg a) e = args_ended m a e
  words_ended m (has_file {c} {r} f) e =
      let same : i ≡ index n (r.file).eq = e ∙ ap (λ w. index n w.eq) (sym f) in
      ground (arith, same)
  words_ended m (in_redir a) e = let rest = words_ended m a e in ground (arith, rest)
  words_ended m (in_pipe_left {d} a) e = zero_stays d _ (words_ended m a e)
  words_ended m (in_pipe_right a) e = words_ended _ a e
  words_ended m (in_list_left {d} a) e = zero_stays d _ (words_ended m a e)
  words_ended m (in_list_right a) e = words_ended _ a e
  words_ended m (in_back a) e = words_ended m a e
