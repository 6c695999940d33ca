-- ===== src/Cli/Commands/Quiet.antt =====
-- What a command leaves alone: without its flags everything, and after an error what it printed.
use tableaux_eink_go.Base.{
  ℕ, ◌≡◌, refl, sym, ◌∙◌, Bool, true, false, Option, some, List, [], ◌∷◌, ◌⊎◌, Bool-cases, arith,
  inl, inr,
}
use tableaux_eink_go.Base.Int.{ℤ}
use tableaux_eink_go.Base.Text.{Str, str, is_empty}
use tableaux_eink_go.Base.Errors.{GoError, plain, Result, ok, err, Result-cases}
use tableaux_eink_go.Cli.Flags.{CommonFlags, Network, validate}
use tableaux_eink_go.Cli.Remote.{Remote}
use tableaux_eink_go.Cli.Commands.{
  Halt, returned, Shell, Cmd, ◌>>=◌, ◌>>◌, print, pure_call, call, act, return_if, validated,
  send_file, Command, run, flags_of, info, health, rotate, metrics, fill, refresh, overlay, reissue,
  discover, connect, cmd_info, cmd_health, cmd_fill, cmd_refresh, cmd_overlay, cmd_rotate,
  cmd_reissue, cmd_metrics, cmd_discover, cmd_connect,
}

-- What is printed where a flag is missing.
abbrev pub missing_text : CommonFlags → Str
missing_text c = elim c.host as (λ _. Str) [
  | [] ↦ str "--host (-H) is required"
  | b ∷ host ↦ str "--token (-t) is required"
]

module _ (N : Network) (R : Remote N) where
  unflagged :
      (fuel : ℕ) (k : Command N R) (c : CommonFlags) (e : GoError) (s : Shell R.State)
      → flags_of N R k ≡ some c
      → validate c ≡ some e
      → run N R fuel k s ≡ (err (returned e), s)
  unfolding cmd_info cmd_health cmd_fill cmd_refresh cmd_overlay cmd_rotate cmd_reissue cmd_metrics
      cmd_discover
  unflagged fuel (info c') c e s h bad = ground arith
  unflagged fuel (health c') c e s h bad = ground arith
  unflagged fuel (rotate c') c e s h bad = ground arith
  unflagged fuel (metrics c') c e s h bad = ground arith
  unflagged fuel (fill c' argb mode) c e s h bad = ground arith
  unflagged fuel (refresh c' path mode chunk) c e s h bad = ground arith
  unflagged fuel (overlay c' enabled) c e s h bad = ground arith
  unflagged fuel (reissue c' out) c e s h bad = ground arith
  unflagged fuel (discover timeout first) c e s h bad = absurd (cc)
  unflagged fuel (connect args) c e s h bad = absurd (cc)

  missing_refused :
      (c : CommonFlags)
      → (c.host ≡ []) ⊎ (c.token ≡ [])
      → validate c ≡ some (plain (missing_text c))
  unfolding validate
  missing_refused c (inl q) = ground (arith, q)
  missing_refused c (inr q) = elim (Bool-cases (is_empty c.host)) [
    | inl z ↦ ground (arith, z)
    | inr z ↦ ground (arith, q, z)
  ]

  -- A command of the server that is given no host, or no token, returns at once with the error that
  -- names the flag, the host first: it prints nothing, opens no connection and calls nothing.
  pub run_unflagged :
      (fuel : ℕ) (k : Command N R) (c : CommonFlags) (s : Shell R.State)
      → flags_of N R k ≡ some c
      → (c.host ≡ []) ⊎ (c.token ≡ [])
      → run N R fuel k s ≡ (err (returned (plain (missing_text c))), s)
  run_unflagged fuel k c s h missing =
      unflagged fuel k c (plain (missing_text c)) s h (missing_refused c missing)

  -- Prints nothing.
  abbrev Silent : {A : Type 0} → Cmd N R A → Type 0
  Silent m = (s : Shell R.State) → (m s).1.printed ≡ s.printed

  -- Always goes on.
  abbrev Total : {A : Type 0} → Cmd N R A → Type 0
  Total {A} m = (s : Shell R.State) → (a : A) × ((m s).0 ≡ ok a)

  -- Prints nothing if it fails.
  abbrev Quiet : {A : Type 0} → Cmd N R A → Type 0
  Quiet m = (s : Shell R.State) (e : Halt) → (m s).0 ≡ err e → (m s).1.printed ≡ s.printed

  Silent-bind :
      {A B : Type 0} (m : Cmd N R A) (f : A → Cmd N R B)
      → Silent m
      → ((a : A) → Quiet (f a))
      → Quiet (◌>>=◌ N R m f)
  Silent-bind m f p q s e h = elim (Result-cases (m s).0) [
    | inr (x, r) ↦ ground (arith, h, p s)
    | inl (a, r) ↦ ground (arith, h, p s, q a (m s).1 e)
  ]

  Total-Quiet : {A : Type 0} (m : Cmd N R A) → Total m → Quiet m
  Total-Quiet m t s e h = absurd (cc (sym (t s).1 ∙ h))

  Total-bind :
      {A B : Type 0} (m : Cmd N R A) (f : A → Cmd N R B)
      → Total m
      → ((a : A) → Total (f a))
      → Total (◌>>=◌ N R m f)
  Total-bind m f t u s = let (a, p) = t s in let (b, q) = u a (m s).1 in (b, ground (arith, p, q))

  pure_call-Silent : {A : Type 0} (r : Result GoError A) → Silent (pure_call N R r)
  pure_call-Silent (ok a) s = refl
  pure_call-Silent (err e) s = refl

  call-Silent : {A : Type 0} (f : R.State → Result GoError A × R.State) → Silent (call N R f)
  call-Silent f s =
      ground (arith, pure_call-Silent (f s.remote).0 (record s { remote = (f s.remote).1 }))

  act-Silent : (f : R.State → Option GoError × R.State) → Silent (act N R f)
  act-Silent f s = ground arith

  return_if-Silent : (b : Bool) (e : GoError) → Silent (return_if N R b e)
  return_if-Silent true e s = refl
  return_if-Silent false e s = refl

  validated-Silent : (c : CommonFlags) → Silent (validated N R c)
  validated-Silent c s = ground arith

  send_file-Silent :
      (fuel : ℕ) (stream : R.Stream) (chunk : ℤ) (px : Str)
      → Silent (send_file N R fuel stream chunk px)
  send_file-Silent fuel stream chunk px s = ground arith

  -- One rule for each action that a command begins with.
  validated-first :
      {B : Type 0} (c : CommonFlags) (g : Unit {0} → Cmd N R B)
      → ((a : Unit {0}) → Quiet (g a))
      → Quiet (◌>>=◌ N R (validated N R c) g)
  validated-first c g = Silent-bind (validated N R c) g (validated-Silent c)

  return_if-first :
      {B : Type 0} (b : Bool) (e : GoError) (g : Unit {0} → Cmd N R B)
      → ((a : Unit {0}) → Quiet (g a))
      → Quiet (◌>>=◌ N R (return_if N R b e) g)
  return_if-first b e g = Silent-bind (return_if N R b e) g (return_if-Silent b e)

  act-first :
      {B : Type 0} (f : R.State → Option GoError × R.State) (g : Unit {0} → Cmd N R B)
      → ((a : Unit {0}) → Quiet (g a))
      → Quiet (◌>>=◌ N R (act N R f) g)
  act-first f g = Silent-bind (act N R f) g (act-Silent f)

  send_file-first :
      {B : Type 0} (fuel : ℕ) (stream : R.Stream) (chunk : ℤ) (px : Str) (g : Unit {0} → Cmd N R B)
      → ((a : Unit {0}) → Quiet (g a))
      → Quiet (◌>>=◌ N R (send_file N R fuel stream chunk px) g)
  send_file-first fuel stream chunk px g =
      Silent-bind (send_file N R fuel stream chunk px) g (send_file-Silent fuel stream chunk px)

  pure_call-first :
      {A B : Type 0} (r : Result GoError A) (g : A → Cmd N R B)
      → ((a : A) → Quiet (g a))
      → Quiet (◌>>=◌ N R (pure_call N R r) g)
  pure_call-first r g = Silent-bind (pure_call N R r) g (pure_call-Silent r)

  call-first :
      {A B : Type 0} (f : R.State → Result GoError A × R.State) (g : A → Cmd N R B)
      → ((a : A) → Quiet (g a))
      → Quiet (◌>>=◌ N R (call N R f) g)
  call-first f g = Silent-bind (call N R f) g (call-Silent f)

  print-Total : (t : Str) → Total (print N R t)
  print-Total t s = (tt, refl)

  print-then : (t : Str) (m : Cmd N R (Unit {0})) → Total m → Total (◌>>◌ N R (print N R t) m)
  print-then t m total = Total-bind (print N R t) (λ _. m) (print-Total t) (λ _. total)

  print-last : (t : Str) → Quiet (print N R t)
  print-last t = Total-Quiet (print N R t) (print-Total t)

  print-first : (t : Str) (m : Cmd N R (Unit {0})) → Total m → Quiet (◌>>◌ N R (print N R t) m)
  print-first t m total = Total-Quiet (◌>>◌ N R (print N R t) m) (print-then t m total)

  ruleset quiet = (
    validated-first, return_if-first, act-first, send_file-first, pure_call-first, call-first,
    print-Total, print-then, print-last, print-first,
  )

  cmd_info-Quiet : (c : CommonFlags) → Quiet (cmd_info N R c)
  unfolding cmd_info
  cmd_info-Quiet c = search quiet

  cmd_health-Quiet : (c : CommonFlags) → Quiet (cmd_health N R c)
  unfolding cmd_health
  cmd_health-Quiet c = search quiet

  cmd_rotate-Quiet : (c : CommonFlags) → Quiet (cmd_rotate N R c)
  unfolding cmd_rotate
  cmd_rotate-Quiet c = search quiet

  cmd_metrics-Quiet : (c : CommonFlags) → Quiet (cmd_metrics N R c)
  unfolding cmd_metrics
  cmd_metrics-Quiet c = search quiet

  cmd_fill-Quiet : (c : CommonFlags) (argb mode : Str) → Quiet (cmd_fill N R c argb mode)
  unfolding cmd_fill
  cmd_fill-Quiet c argb mode = search quiet depth 14

  cmd_refresh-Quiet :
      (fuel : ℕ) (c : CommonFlags) (path mode : Str) (chunk : ℤ)
      → Quiet (cmd_refresh N R fuel c path mode chunk)
  unfolding cmd_refresh
  cmd_refresh-Quiet fuel c path mode chunk = search quiet depth 14

  cmd_overlay-Quiet : (c : CommonFlags) (enabled : Bool) → Quiet (cmd_overlay N R c enabled)
  unfolding cmd_overlay
  cmd_overlay-Quiet c enabled = search quiet

  cmd_reissue-Quiet : (c : CommonFlags) (out : Str) → Quiet (cmd_reissue N R c out)
  unfolding cmd_reissue
  cmd_reissue-Quiet c out = search quiet depth 14

  cmd_discover-Quiet : (timeout : ℤ) (first : Bool) → Quiet (cmd_discover N R timeout first)
  unfolding cmd_discover
  cmd_discover-Quiet timeout first = search quiet

  cmd_connect-Quiet : (args : List Str) → Quiet (cmd_connect N R args)
  unfolding cmd_connect
  cmd_connect-Quiet args = search quiet

  -- A command that fails, whatever it fails at, has printed nothing.
  pub run_failed :
      (fuel : ℕ) (k : Command N R) (s : Shell R.State) (e : Halt)
      → (run N R fuel k s).0 ≡ err e
      → (run N R fuel k s).1.printed ≡ s.printed
  run_failed fuel (info c) = cmd_info-Quiet c
  run_failed fuel (health c) = cmd_health-Quiet c
  run_failed fuel (rotate c) = cmd_rotate-Quiet c
  run_failed fuel (metrics c) = cmd_metrics-Quiet c
  run_failed fuel (fill c argb mode) = cmd_fill-Quiet c argb mode
  run_failed fuel (refresh c path mode chunk) = cmd_refresh-Quiet fuel c path mode chunk
  run_failed fuel (overlay c enabled) = cmd_overlay-Quiet c enabled
  run_failed fuel (reissue c out) = cmd_reissue-Quiet c out
  run_failed fuel (discover timeout first) = cmd_discover-Quiet timeout first
  run_failed fuel (connect args) = cmd_connect-Quiet args
