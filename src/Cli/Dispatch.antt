-- ===== src/Cli/Dispatch.antt =====
-- tableaux-cli/main.go, and how the commands of tableaux-cli/commands.go read their flags. What
-- package flag writes to stderr is left out.
pub mod Usage
pub mod Status
pub mod Equivalent
use tableaux_eink_go.Base.{
  ℕ, Bool, true, false, Option, none, some, List, [], ◌∷◌, ◌++◌, ◌||◌, if◌then◌else◌,
}
use tableaux_eink_go.Base.Int.{ℤ, pos}
use tableaux_eink_go.Base.Text.{Str, str, str_eq}
use tableaux_eink_go.Base.Errors.{GoError, error_text, Result, ok, err}
use tableaux_eink_go.Base.Flag.{Flag, text_flag, int_flag, bool_flag, Exit, helped, misused, parse}
use tableaux_eink_go.Cli.Flags.{CommonFlags, Network, default_flags}
use tableaux_eink_go.Cli.Remote.{Remote}
use tableaux_eink_go.Cli.Commands.{
  Halt, returned, crashed, looping, Shell, Command, run, info, health, rotate, metrics, fill,
  refresh, overlay, reissue, discover, connect,
}
use tableaux_eink_go.Cli.Dispatch.Usage.{usage}

-- A flag among the values of a command that has others too.
abbrev pub lift_flag : {V W : Type 0} → ((V → V) → W → W) → Flag V → Flag W
lift_flag put (text_flag f) = text_flag (λ x. put (f x))
lift_flag put (int_flag f) = int_flag (λ x. put (f x))
lift_flag put (bool_flag f) = bool_flag (λ x. put (f x))

abbrev lift_flags : {V W : Type 0} → ((V → V) → W → W) → List (Str × Flag V) → List (Str × Flag W)
lift_flags put [] = []
lift_flags put ((name, f) ∷ fs) = (name, lift_flag put f) ∷ lift_flags put fs

-- registerCommonFlags
abbrev pub common_flags : List (Str × Flag CommonFlags)
common_flags =
    (str "host", text_flag (λ x c. record c { host = x }))
    ∷ (str "H", text_flag (λ x c. record c { host = x }))
    ∷ (str "port", int_flag (λ x c. record c { port = x }))
    ∷ (str "p", int_flag (λ x c. record c { port = x }))
    ∷ (str "token", text_flag (λ x c. record c { token = x }))
    ∷ (str "t", text_flag (λ x c. record c { token = x }))
    ∷ (str "cert", text_flag (λ x c. record c { cert_file = x }))
    ∷ (str "client-cert", text_flag (λ x c. record c { client_cert = x }))
    ∷ (str "client-key", text_flag (λ x c. record c { client_key = x }))
    ∷ (str "insecure", bool_flag (λ x c. record c { insecure = x }))
    ∷ []

-- The values of a command that has flags of its own.
abbrev pub on_common :
    {A : Type 0} → (CommonFlags → CommonFlags) → CommonFlags × A → CommonFlags × A
on_common f (c, a) = (f c, a)

abbrev pub with_common :
    {A : Type 0} → List (Str × Flag (CommonFlags × A)) → List (Str × Flag (CommonFlags × A))
with_common own = lift_flags on_common common_flags ++ own

abbrev pub fill_flags : List (Str × Flag (CommonFlags × (Str × Str)))
fill_flags =
    (str "argb", text_flag (λ x (c, (argb, mode)). (c, (x, mode))))
    ∷ (str "mode", text_flag (λ x (c, (argb, mode)). (c, (argb, x))))
    ∷ []

abbrev pub refresh_flags : List (Str × Flag (CommonFlags × (Str × (Str × ℤ))))
refresh_flags =
    (str "pixels", text_flag (λ x (c, (path, (mode, chunk))). (c, (x, (mode, chunk)))))
    ∷ (str "mode", text_flag (λ x (c, (path, (mode, chunk))). (c, (path, (x, chunk)))))
    ∷ (str "chunk-bytes", int_flag (λ x (c, (path, (mode, chunk))). (c, (path, (mode, x)))))
    ∷ []

abbrev pub overlay_flags : List (Str × Flag (CommonFlags × Bool))
overlay_flags = (str "enabled", bool_flag (λ x (c, enabled). (c, x))) ∷ []

abbrev pub reissue_flags : List (Str × Flag (CommonFlags × Str))
reissue_flags = (str "out", text_flag (λ x (c, out). (c, x))) ∷ []

abbrev pub discover_flags : List (Str × Flag (ℤ × Bool))
discover_flags =
    (str "timeout", int_flag (λ x (timeout, first). (x, first)))
    ∷ (str "first", bool_flag (λ x (timeout, first). (timeout, x)))
    ∷ []

-- The functions that main calls.
pub data Verb : Type 0 where
  verb_info verb_health verb_fill verb_refresh verb_overlay verb_rotate verb_reissue verb_metrics :
      Verb
  verb_discover verb_connect : Verb

-- The switch of main, but for help.
unfoldable pub verb : Str → Option Verb
verb cmd =
    if str_eq cmd (str "info")
    then some verb_info
    else if str_eq cmd (str "health")
    then some verb_health
    else if str_eq cmd (str "fill")
    then some verb_fill
    else if str_eq cmd (str "refresh")
    then some verb_refresh
    else if str_eq cmd (str "overlay")
    then some verb_overlay
    else if str_eq cmd (str "rotate")
    then some verb_rotate
    else if str_eq cmd (str "reissue")
    then some verb_reissue
    else if str_eq cmd (str "metrics")
    then some verb_metrics
    else if str_eq cmd (str "discover")
    then some verb_discover
    else if str_eq cmd (str "connect")
    then some verb_connect
    else none

abbrev pub is_help : Str → Bool
is_help cmd = str_eq cmd (str "-h") || (str_eq cmd (str "--help") || str_eq cmd (str "help"))

-- How the process ends: with a status, in a panic, or not within the rounds that the sending loop
-- was given.
pub data Ending : Type 0 where
  exited : ℕ → Ending
  panicked_with : Ending
  still_running : Ending

module _ (N : Network) (R : Remote N) where
  -- The values that a command's fs.Parse gives.
  abbrev pub parsed :
      {V : Type 0}
      → List (Str × Flag V)
      → (V → Command N R)
      → List Str
      → V
      → Result Exit (Command N R)
  parsed fs k args v = elim (parse fs none args v) [ err e ↦ err e | ok (v', rest) ↦ ok (k v') ]

  -- The flags of each command, with the values that they have if they are not given.
  unfoldable pub command : Verb → List Str → Result Exit (Command N R)
  command verb_info args = parsed common_flags info args default_flags
  command verb_health args = parsed common_flags health args default_flags
  command verb_rotate args = parsed common_flags rotate args default_flags
  command verb_metrics args = parsed common_flags metrics args default_flags
  command verb_fill args =
      parsed (with_common {A = Str × Str} fill_flags) (λ (c, (argb, mode)). fill c argb mode) args
        (default_flags, (str "0xFFFFFF", str "GC16"))
  command verb_refresh args =
      parsed (with_common {A = Str × (Str × ℤ)} refresh_flags)
        (λ (c, (path, (mode, chunk))). refresh c path mode chunk) args
        (default_flags, ([], (str "SpectraFullGC16", pos 65536)))
  command verb_overlay args =
      parsed (with_common {A = Bool} overlay_flags) (λ (c, enabled). overlay c enabled) args
        (default_flags, false)
  command verb_reissue args =
      parsed (with_common {A = Str} reissue_flags) (λ (c, out). reissue c out) args
        (default_flags, str "./tls")
  command verb_discover args =
      parsed discover_flags (λ (timeout, first). discover timeout first) args (pos 5, false)
  command verb_connect args = ok (connect args)

  -- The end of a process, what main wrote to stderr, and the shell that is left.
  abbrev pub Finish : Type 0
  Finish = (Ending × Str) × Shell R.State

  abbrev pub finish : Result Halt (Unit {0}) × Shell R.State → Finish
  finish (ok u, s) = ((exited 0, []), s)
  finish (err (returned e), s) = ((exited 1, str "error: " ++ (error_text e ++ str "\n")), s)
  finish (err crashed, s) = ((panicked_with, []), s)
  finish (err looping, s) = ((still_running, []), s)

  abbrev pub perform : ℕ → Result Exit (Command N R) → Shell R.State → Finish
  perform fuel (ok k) s = finish (run N R fuel k s)
  perform fuel (err helped) s = ((exited 0, []), s)
  perform fuel (err misused) s = ((exited 2, []), s)

  -- main, with os.Args. The sending loop of refresh has fuel.
  unfoldable pub main : ℕ → List Str → Shell R.State → Finish
  main fuel [] s = ((exited 2, usage), s)
  main fuel (program ∷ []) s = ((exited 2, usage), s)
  main fuel (program ∷ cmd ∷ args) s = elim (verb cmd) [
    | some v ↦ perform fuel (command v args) s
    | none ↦
        if is_help cmd
        then ((exited 0, []), record s { printed = s.printed ++ usage })
        else ((exited 2, str "unknown command " ++ (R.quote cmd ++ (str "\n" ++ usage))), s)
  ]
