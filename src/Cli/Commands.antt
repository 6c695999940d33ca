-- ===== src/Cli/Commands.antt =====
-- tableaux-cli/commands.go: the commands behind their flags. conn.Close and the cancelling of the
-- context have no effect here; a call that runs into the deadline returns an error as any other.
pub mod Argb
pub mod Quiet
pub mod Ending
pub mod Connect
use tableaux_eink_go.Base.{
  ℕ, suc, ◌+◌, Bool, true, false, Option, none, some, List, [], ◌∷◌, ◌++◌, if◌then◌else◌, not,
  length, drop,
}
use tableaux_eink_go.Base.Int.{ℤ, pos}
use tableaux_eink_go.Base.Text.{Str, str, str_eq, is_empty, has_prefix, decimal_ℤ}
use tableaux_eink_go.Base.Errors.{GoError, plain, wrapped, Result, ok, err}
use tableaux_eink_go.Base.Strconv.{parse_hex, num_error}
use tableaux_eink_go.Base.Url.{query_get}
use tableaux_eink_go.Einkproto.{
  WaveformMode, DisplayInfo, HealthResponse, RefreshResponse, RefreshChunk, Payload, header,
}
use tableaux_eink_go.Cli.Flags.{CommonFlags, Network, validate, dial}
use tableaux_eink_go.Cli.Remote.{Remote, ServiceEntry}
use tableaux_eink_go.Cli.Upload.{
  Sending, sent, send_failed, panicked, running, send_chunks, upload_header,
}
use tableaux_eink_go.Cli.Texts.{
  line, info_text, health_text, elapsed_text, entries_text, connect_text,
}
use tableaux_eink_go.Cli.Waveform.{to_lower, parse_waveform}

-- Why a command does not go on: with an error that it returns, in a panic, or not within the
-- rounds that its loop was given.
pub data Halt : Type 0 where
  returned : GoError → Halt
  crashed : Halt
  looping : Halt

-- What a command works on: what it printed, and what its calls change.
pub record Shell (S : Type 0) : Type 0 where
  pub printed : Str
  pub remote : S

module _ (N : Network) (R : Remote N) where
  abbrev pub Cmd : Type 0 → Type 0
  Cmd A = Shell R.State → Result Halt A × Shell R.State

  infixl 5 ◌>>=◌ ◌>>◌
  abbrev pub ◌>>=◌ : {A B : Type 0} → Cmd A → (A → Cmd B) → Cmd B
  ◌>>=◌ m f s = let (r, s') = m s in elim r [ err e ↦ (err e, s') | ok a ↦ f a s' ]

  abbrev pub ◌>>◌ : {B : Type 0} → Cmd (Unit {0}) → Cmd B → Cmd B
  m >> k = m >>= λ _. k

  abbrev pub done : Cmd (Unit {0})
  done s = (ok tt, s)

  -- fmt.Print
  abbrev pub print : Str → Cmd (Unit {0})
  print t s = (ok tt, record s { printed = s.printed ++ t })

  -- A value and an error that is returned at once.
  abbrev pub pure_call : {A : Type 0} → Result GoError A → Cmd A
  pure_call (ok a) s = (ok a, s)
  pure_call (err e) s = (err (returned e), s)

  -- A call with effects, whose error is returned at once.
  abbrev pub call : {A : Type 0} → (R.State → Result GoError A × R.State) → Cmd A
  call f s = let (r, s') = f s.remote in pure_call r (record s { remote = s' })

  -- The same of a call that returns an error alone.
  abbrev pub act : (R.State → Option GoError × R.State) → Cmd (Unit {0})
  act f s =
      let (r, s') = f s.remote in
      pure_call (elim r as (λ _. Result GoError (Unit {0})) [ none ↦ ok tt | some e ↦ err e ])
        (record s { remote = s' })

  -- `if bad { return e }`
  abbrev pub return_if : Bool → GoError → Cmd (Unit {0})
  return_if true e s = (err (returned e), s)
  return_if false e s = (ok tt, s)

  -- `c.validate()`
  abbrev pub validated : CommonFlags → Cmd (Unit {0})
  validated c s = elim (validate c) [ some e ↦ (err (returned e), s) | none ↦ (ok tt, s) ]

  unfoldable pub cmd_info : CommonFlags → Cmd (Unit {0})
  cmd_info c = do
    validated c
    (conn, md) ← pure_call (dial N c)
    info ← call (R.get_info conn md)
    print (info_text info)

  unfoldable pub cmd_health : CommonFlags → Cmd (Unit {0})
  cmd_health c = do
    validated c
    (conn, md) ← pure_call (dial N c)
    h ← call (R.health conn md)
    print (health_text h)

  -- The colour of --argb: `0x` in front is not needed, and letters may be of any case.
  abbrev pub argb_digits : Str → Str
  argb_digits argb =
      let low = to_lower R.unicode_lower argb in
      if has_prefix low (str "0x") then drop 2 low else low

  unfoldable pub parse_argb : Str → Result GoError ℕ
  parse_argb argb = elim (parse_hex (argb_digits argb)) [
    | ok n ↦ ok n
    | err f ↦ err (wrapped (str "--argb: ") (num_error R.quote (argb_digits argb) f))
  ]

  -- The mode of --mode.
  unfoldable pub parse_mode : Str → Result GoError WaveformMode
  parse_mode mode =
      let (wm, found) = parse_waveform R.unicode_lower mode in
      if not found then err (plain (str "--mode: unknown waveform " ++ R.quote mode)) else ok wm

  unfoldable pub cmd_fill : CommonFlags → Str → Str → Cmd (Unit {0})
  cmd_fill c argb mode = do
    validated c
    parsed ← pure_call (parse_argb argb)
    wm ← pure_call (parse_mode mode)
    (conn, md) ← pure_call (dial N c)
    resp ← call (R.fill conn md (record { argb = parsed; mode = wm }))
    print (elapsed_text resp)

  abbrev pub send_result : Sending → Cmd (Unit {0})
  send_result (sent bs) s = (ok tt, s)
  send_result (send_failed e) s = (err (returned e), s)
  send_result panicked s = (err crashed, s)
  send_result running s = (err looping, s)

  -- The sending loop, with fuel.
  abbrev pub send_file : ℕ → R.Stream → ℤ → Str → Cmd (Unit {0})
  send_file fuel stream chunk px s =
      let (end, s') = send_chunks (R.send stream) fuel chunk px s.remote in
      send_result end (record s { remote = s' })

  unfoldable pub cmd_refresh : ℕ → CommonFlags → Str → Str → ℤ → Cmd (Unit {0})
  cmd_refresh fuel c path mode chunk = do
    validated c
    return_if (is_empty path) (plain (str "--pixels is required"))
    wm ← pure_call (parse_mode mode)
    px ← pure_call (N.read_file path)
    (conn, md) ← pure_call (dial N c)
    stream ← call (R.refresh conn md)
    act (R.send stream (record { payload = some (header (some (upload_header wm px))) }))
    send_file fuel stream chunk px
    resp ← call (R.close_and_recv stream)
    print (elapsed_text resp)

  unfoldable pub cmd_overlay : CommonFlags → Bool → Cmd (Unit {0})
  cmd_overlay c enabled = do
    validated c
    (conn, md) ← pure_call (dial N c)
    call (R.set_overlay conn md (record { enabled = enabled }))
    print (str "ok\n")

  unfoldable pub cmd_rotate : CommonFlags → Cmd (Unit {0})
  cmd_rotate c = do
    validated c
    (conn, md) ← pure_call (dial N c)
    resp ← call (R.rotate conn md)
    print (line (str "scheduled_at_ms: ") (decimal_ℤ resp.scheduled_at_ms))
    print (str "warning: server is restarting; pull fresh tls/ from device.\n")

  unfoldable pub cmd_reissue : CommonFlags → Str → Cmd (Unit {0})
  cmd_reissue c out_dir =
      let cert = R.join out_dir (str "client-cert.pem") in
      let key = R.join out_dir (str "client-key.pem") in
      do
        validated c
        (conn, md) ← pure_call (dial N c)
        resp ← call (R.reissue_client_cert conn md)
        act (R.mkdir_all out_dir)
        act (R.write_file cert resp.client_cert_pem)
        act (R.write_file key resp.client_key_pem)
        print (line (str "wrote ") cert)
        print (line (str "wrote ") key)
        print (line (str "fingerprint: ") resp.client_cert_fingerprint)
        print (line (str "server restart in: ") (decimal_ℤ resp.server_restart_in_ms ++ str " ms"))

  unfoldable pub cmd_metrics : CommonFlags → Cmd (Unit {0})
  cmd_metrics c = do
    validated c
    (conn, md) ← pure_call (dial N c)
    r ← call (R.get_metrics conn md)
    print r.prom_text

  unfoldable pub cmd_discover : ℤ → Bool → Cmd (Unit {0})
  cmd_discover timeout first = do
    entries ← call (R.browse timeout)
    print (entries_text first entries)

  -- The one argument of connect.
  abbrev pub connect_argument : List Str → Result GoError Str
  connect_argument [] = err (plain (str "usage: tableaux-cli connect <tableaux://...>"))
  connect_argument (a ∷ args) = ok a

  unfoldable pub cmd_connect : List Str → Cmd (Unit {0})
  cmd_connect args = do
    a ← pure_call (connect_argument args)
    u ← pure_call (R.parse_url a)
    return_if (not (str_eq u.scheme (str "tableaux")))
        (plain (str "scheme: " ++ (R.quote u.scheme ++ str " (expected tableaux://)")))
    let port = if is_empty u.port then str "50051" else u.port
    let token = query_get u.raw_query (str "token")
    let fp = query_get u.raw_query (str "fp")
    print (connect_text u.hostname port token fp)

  -- The commands with their flags.
  pub data Command : Type 0 where
    info health rotate metrics : CommonFlags → Command
    fill : CommonFlags → (argb mode : Str) → Command
    refresh : CommonFlags → (path mode : Str) → (chunk : ℤ) → Command
    overlay : CommonFlags → (enabled : Bool) → Command
    reissue : CommonFlags → (out : Str) → Command
    discover : (timeout : ℤ) → (first : Bool) → Command
    connect : (args : List Str) → Command

  -- The switch of main. The sending loop of cmdRefresh has fuel.
  abbrev pub run : ℕ → Command → Cmd (Unit {0})
  run fuel (info c) = cmd_info c
  run fuel (health c) = cmd_health c
  run fuel (rotate c) = cmd_rotate c
  run fuel (metrics c) = cmd_metrics c
  run fuel (fill c argb mode) = cmd_fill c argb mode
  run fuel (refresh c path mode chunk) = cmd_refresh fuel c path mode chunk
  run fuel (overlay c enabled) = cmd_overlay c enabled
  run fuel (reissue c out) = cmd_reissue c out
  run fuel (discover timeout first) = cmd_discover timeout first
  run fuel (connect args) = cmd_connect args

  -- The flags that every command but discover and connect has.
  abbrev pub flags_of : Command → Option CommonFlags
  flags_of (info c) = some c
  flags_of (health c) = some c
  flags_of (rotate c) = some c
  flags_of (metrics c) = some c
  flags_of (fill c argb mode) = some c
  flags_of (refresh c path mode chunk) = some c
  flags_of (overlay c enabled) = some c
  flags_of (reissue c out) = some c
  flags_of (discover timeout first) = none
  flags_of (connect args) = none
