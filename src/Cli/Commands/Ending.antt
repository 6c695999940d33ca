-- ===== src/Cli/Commands/Ending.antt =====
-- Every command ends.
use tableaux_eink_go.Base.{
  ℕ, ◌<◌, ◌≡◌, ◌≢◌, refl, ap, Bool, true, false, Option, none, some, List, arith, inl, inr, length,
  Option-cases,
}
use tableaux_eink_go.Base.Int.{ℤ, pos}
use tableaux_eink_go.Base.Text.{Str}
use tableaux_eink_go.Base.Errors.{GoError, Result, ok, err, Result-cases}
use tableaux_eink_go.Einkproto.{WaveformMode, header}
use tableaux_eink_go.Cli.Flags.{CommonFlags, Network, validate, dial}
use tableaux_eink_go.Cli.Remote.{Remote}
use tableaux_eink_go.Cli.Upload.{
  Sending, sent, send_failed, panicked, running, send_chunks, upload_header,
}
use tableaux_eink_go.Cli.Upload.Ending.{send_chunks_ends}
use tableaux_eink_go.Cli.Commands.{
  looping, Shell, Cmd, ◌>>=◌, ◌>>◌, print, pure_call, call, act, return_if, validated, send_file,
  send_result, Command, run, info, health, rotate, metrics, fill, refresh, overlay, reissue,
  discover, connect, cmd_info, cmd_health, cmd_fill, cmd_refresh, cmd_overlay, cmd_rotate,
  cmd_reissue, cmd_metrics, cmd_discover, cmd_connect,
}
use tableaux_eink_go.Cli.Texts.{elapsed_text}

module _ (N : Network) (R : Remote N) where
  -- Comes to an end within its rounds.
  abbrev Ends : {A : Type 0} → Cmd N R A → Type 0
  Ends m = (s : Shell R.State) → (m s).0 ≢ err looping

  Ends-bind :
      {A B : Type 0} (m : Cmd N R A) (f : A → Cmd N R B)
      → Ends m
      → ((a : A) → Ends (f a))
      → Ends (◌>>=◌ N R m f)
  Ends-bind m f p q s e = elim (Result-cases (m s).0) [
    | inr (x, r) ↦ p s (ground (arith, r, e))
    | inl (a, r) ↦ q a (m s).1 (ground (arith, r, e))
  ]

  pure_call-Ends : {A : Type 0} (r : Result GoError A) → Ends (pure_call N R r)
  pure_call-Ends (ok a) s e = absurd (cc)
  pure_call-Ends (err x) s e = absurd (cc)

  call-Ends : {A : Type 0} (f : R.State → Result GoError A × R.State) → Ends (call N R f)
  call-Ends f s e = pure_call-Ends (f s.remote).0 (record s { remote = (f s.remote).1 }) e

  act-Ends : (f : R.State → Option GoError × R.State) → Ends (act N R f)
  act-Ends f s e = elim (Option-cases (f s.remote).0) [
    | inl q ↦ absurd (ground (arith, q, e))
    | inr (x, q) ↦ absurd (ground (arith, q, e))
  ]

  return_if-Ends : (b : Bool) (x : GoError) → Ends (return_if N R b x)
  return_if-Ends true x s e = absurd (cc)
  return_if-Ends false x s e = absurd (cc)

  validated-Ends : (c : CommonFlags) → Ends (validated N R c)
  validated-Ends c s e = elim (Option-cases (validate c)) [
    | inl q ↦ absurd (ground (arith, q, e))
    | inr (x, q) ↦ absurd (ground (arith, q, e))
  ]

  print-Ends : (t : Str) → Ends (print N R t)
  print-Ends t s e = absurd (cc)

  send_result-looping :
      (x : Sending) (s : Shell R.State) → (send_result N R x s).0 ≡ err looping → x ≡ running
  send_result-looping (sent bs) s e = absurd (cc)
  send_result-looping (send_failed x) s e = absurd (cc)
  send_result-looping panicked s e = absurd (cc)
  send_result-looping running s e = refl

  send_file-Ends :
      (fuel : ℕ) (stream : R.Stream) (chunk : ℤ) (px : Str)
      → chunk ≢ pos 0
      → length px < fuel
      → Ends (send_file N R fuel stream chunk px)
  send_file-Ends fuel stream chunk px some_bytes enough s e =
      send_chunks_ends (R.send stream) fuel chunk px s.remote some_bytes enough (
        send_result-looping (send_chunks (R.send stream) fuel chunk px s.remote).0
          (record s { remote = (send_chunks (R.send stream) fuel chunk px s.remote).1 }) e)

  -- An action that goes by an equation of the result that it goes on with.
  pure_call-known :
      {A B : Type 0} (r : Result GoError A) (f : A → Cmd N R B)
      → ((a : A) → r ≡ ok a → Ends (f a))
      → Ends (◌>>=◌ N R (pure_call N R r) f)
  pure_call-known (ok a) f q s e = q a refl s e
  pure_call-known (err x) f q s e = absurd (cc)

  ruleset ends =
      (Ends-bind, pure_call-Ends, call-Ends, act-Ends, return_if-Ends, validated-Ends, print-Ends)

  cmd_info-Ends : (c : CommonFlags) → Ends (cmd_info N R c)
  unfolding cmd_info
  cmd_info-Ends c = search ends

  cmd_health-Ends : (c : CommonFlags) → Ends (cmd_health N R c)
  unfolding cmd_health
  cmd_health-Ends c = search ends

  cmd_rotate-Ends : (c : CommonFlags) → Ends (cmd_rotate N R c)
  unfolding cmd_rotate
  cmd_rotate-Ends c = search ends

  cmd_metrics-Ends : (c : CommonFlags) → Ends (cmd_metrics N R c)
  unfolding cmd_metrics
  cmd_metrics-Ends c = search ends

  cmd_fill-Ends : (c : CommonFlags) (argb mode : Str) → Ends (cmd_fill N R c argb mode)
  unfolding cmd_fill
  cmd_fill-Ends c argb mode = search ends depth 14

  cmd_overlay-Ends : (c : CommonFlags) (enabled : Bool) → Ends (cmd_overlay N R c enabled)
  unfolding cmd_overlay
  cmd_overlay-Ends c enabled = search ends

  cmd_reissue-Ends : (c : CommonFlags) (out : Str) → Ends (cmd_reissue N R c out)
  unfolding cmd_reissue
  cmd_reissue-Ends c out = search ends depth 16

  cmd_discover-Ends : (timeout : ℤ) (first : Bool) → Ends (cmd_discover N R timeout first)
  unfolding cmd_discover
  cmd_discover-Ends timeout first = search ends

  cmd_connect-Ends : (args : List Str) → Ends (cmd_connect N R args)
  unfolding cmd_connect
  cmd_connect-Ends args = search ends

  -- The rules of cmdRefresh, one for each action.
  module _ (fuel : ℕ) (path : Str) (chunk : ℤ) (some_bytes : chunk ≢ pos 0)
      (enough : (px : Str) → N.read_file path ≡ ok px → length px < fuel) where
    read-first :
        {B : Type 0} (g : Str → Cmd N R B)
        → ((px : Str) → length px < fuel → Ends (g px))
        → Ends (◌>>=◌ N R (pure_call N R (N.read_file path)) g)
    read-first g q = pure_call-known (N.read_file path) g (λ px e. q px (enough px e))

    sending-first :
        {B : Type 0} (stream : R.Stream) (px : Str) (g : Unit {0} → Cmd N R B)
        → length px < fuel
        → ((u : Unit {0}) → Ends (g u))
        → Ends (◌>>=◌ N R (send_file N R fuel stream chunk px) g)
    sending-first stream px g short =
        Ends-bind (send_file N R fuel stream chunk px) g
          (send_file-Ends fuel stream chunk px some_bytes short)

    refresh_stream-Ends :
        (c : CommonFlags) (wm : WaveformMode) (px : Str)
        → length px < fuel
        → Ends (
            ◌>>=◌ N R (pure_call N R (dial N c)) (λ (conn, md).
              ◌>>=◌ N R (call N R (R.refresh conn md)) (λ stream.
                ◌>>◌ N R
                  (act N R (
                    R.send stream
                      (record { payload = some (header (some (upload_header wm px))) })))
                  (◌>>◌ N R (send_file N R fuel stream chunk px) (
                    ◌>>=◌ N R
                      (call N R (R.close_and_recv stream))
                      (λ resp. print N R (elapsed_text resp)))))))
    refresh_stream-Ends c wm px short =
        search (sending-first, Ends-bind, pure_call-Ends, call-Ends, act-Ends, print-Ends) depth 24

  cmd_refresh-Ends :
      (fuel : ℕ) (c : CommonFlags) (path mode : Str) (chunk : ℤ)
      → chunk ≢ pos 0
      → ((px : Str) → N.read_file path ≡ ok px → length px < fuel)
      → Ends (cmd_refresh N R fuel c path mode chunk)
  unfolding cmd_refresh
  cmd_refresh-Ends fuel c path mode chunk some_bytes enough =
      search
        (
          read-first fuel path chunk some_bytes enough,
          refresh_stream-Ends fuel path chunk some_bytes enough,
          Ends-bind,
          return_if-Ends,
          validated-Ends,
          pure_call-Ends,
        )
        depth 24

  -- The chunk size of the command that sends a file.
  abbrev pub chunk_of : Command N R → Option ℤ
  chunk_of (refresh c path mode chunk) = some chunk
  chunk_of _ = none

  refresh-Ends :
      (fuel : ℕ) (c : CommonFlags) (path mode : Str) (chunk : ℤ)
      → chunk_of (refresh c path mode chunk) ≢ some (pos 0)
      → ((p px : Str) → N.read_file p ≡ ok px → length px < fuel)
      → Ends (cmd_refresh N R fuel c path mode chunk)
  refresh-Ends fuel c path mode chunk some_bytes enough =
      cmd_refresh-Ends fuel c path mode chunk (λ z. some_bytes (ap some z)) (enough path)

  -- Whatever the calls of the server and of the system return, every command comes to an end, if
  -- the chunk size of refresh is not 0: its sending loop is over within one round more than the
  -- file that it reads has bytes.
  pub run_ends :
      (fuel : ℕ) (k : Command N R) (s : Shell R.State)
      → chunk_of k ≢ some (pos 0)
      → ((p px : Str) → N.read_file p ≡ ok px → length px < fuel)
      → (run N R fuel k s).0 ≢ err looping
  run_ends fuel (info c) s some_bytes enough = cmd_info-Ends c s
  run_ends fuel (health c) s some_bytes enough = cmd_health-Ends c s
  run_ends fuel (rotate c) s some_bytes enough = cmd_rotate-Ends c s
  run_ends fuel (metrics c) s some_bytes enough = cmd_metrics-Ends c s
  run_ends fuel (fill c argb mode) s some_bytes enough = cmd_fill-Ends c argb mode s
  run_ends fuel (refresh c path mode chunk) s some_bytes enough =
      refresh-Ends fuel c path mode chunk some_bytes enough s
  run_ends fuel (overlay c enabled) s some_bytes enough = cmd_overlay-Ends c enabled s
  run_ends fuel (reissue c out) s some_bytes enough = cmd_reissue-Ends c out s
  run_ends fuel (discover timeout first) s some_bytes enough = cmd_discover-Ends timeout first s
  run_ends fuel (connect args) s some_bytes enough = cmd_connect-Ends args s
