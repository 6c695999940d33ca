-- ===== src/Cli/Dispatch/Equivalent.antt =====
-- The flags that connect prints are read back by every command that calls the server.
use tableaux_eink_go.Base.{
  ℕ, ◌^◌, ◌<◌, ◌≡◌, ◌≢◌, refl, Bool, true, false, none, some, List, [], ◌∷◌, arith, All, inl,
}
use tableaux_eink_go.Base.Int.{pos}
use tableaux_eink_go.Base.Text.{Str, str, str_eq, decimal, IsVisible}
use tableaux_eink_go.Base.Errors.{ok, err}
use tableaux_eink_go.Base.Flag.{misused, parse, word, name_value}
use tableaux_eink_go.Base.Flag.Values.{parse_int}
use tableaux_eink_go.Base.Flag.Values.RoundTrip.{parse_int-decimal}
use tableaux_eink_go.Cli.Flags.{CommonFlags, Network, default_flags, validate, dial}
use tableaux_eink_go.Cli.Flags.Dialled.{dial_passes}
use tableaux_eink_go.Einkgrpc.Net.{Net}
use tableaux_eink_go.Einkgrpc.Server.{Server, connect_host}
use tableaux_eink_go.Einkgrpc.TokenAuth.{Tokens, check}
use tableaux_eink_go.Cli.Commands.Connect.{connect_host_ne}
use tableaux_eink_go.Cli.Remote.{Remote}
use tableaux_eink_go.Cli.Commands.{
  Command, flags_of, info, health, rotate, metrics, fill, refresh, overlay, reissue, discover,
  connect,
}
use tableaux_eink_go.Cli.Dispatch.{
  Verb, verb_info, verb_health, verb_fill, verb_refresh, verb_overlay, verb_rotate, verb_reissue,
  verb_metrics, verb_discover, verb_connect, command,
}

-- The words of the last line that connect prints.
abbrev pub equivalent_words : Str → Str → Str → List Str
equivalent_words host port token = str "-H" ∷ host ∷ str "-p" ∷ port ∷ str "-t" ∷ token ∷ []

abbrev pub meant : Str → ℕ → Str → CommonFlags
meant host p token = record default_flags { host = host; port = pos p; token = token }

-- Whether a command calls the server.
abbrev pub calls_server : Verb → Bool
calls_server verb_discover = false
calls_server verb_connect = false
calls_server _ = true

module _ (N : Network) (R : Remote N) where
  -- The command with these flags and no other.
  abbrev pub only : Verb → CommonFlags → Command N R
  only verb_info c = info c
  only verb_health c = health c
  only verb_rotate c = rotate c
  only verb_metrics c = metrics c
  only verb_fill c = fill c (str "0xFFFFFF") (str "GC16")
  only verb_refresh c = refresh c [] (str "SpectraFullGC16") (pos 65536)
  only verb_overlay c = overlay c false
  only verb_reissue c = reissue c (str "./tls")
  only verb_discover c = discover (pos 5) false
  only verb_connect c = connect []

  reads :
      (v : Verb) (host : Str) (p : ℕ) (token : Str)
      → calls_server v ≡ true
      → parse_int (decimal p) ≡ some (pos p)
      → command N R v (equivalent_words host (decimal p) token) ≡ ok (only v (meant host p token))
  unfolding command parse word name_value str_eq str default_flags
  reads verb_info host p token h q = ground (arith, q)
  reads verb_health host p token h q = ground (arith, q)
  reads verb_fill host p token h q = ground (arith, q)
  reads verb_refresh host p token h q = ground (arith, q)
  reads verb_overlay host p token h q = ground (arith, q)
  reads verb_rotate host p token h q = ground (arith, q)
  reads verb_reissue host p token h q = ground (arith, q)
  reads verb_metrics host p token h q = ground (arith, q)
  reads verb_discover host p token h q = absurd (cc)
  reads verb_connect host p token h q = absurd (cc)

  only-flags :
      (v : Verb) (c : CommonFlags) → calls_server v ≡ true → flags_of N R (only v c) ≡ some c
  only-flags verb_info c h = refl
  only-flags verb_health c h = refl
  only-flags verb_fill c h = refl
  only-flags verb_refresh c h = refl
  only-flags verb_overlay c h = refl
  only-flags verb_rotate c h = refl
  only-flags verb_reissue c h = refl
  only-flags verb_metrics c h = refl
  only-flags verb_discover c h = absurd (cc)
  only-flags verb_connect c h = absurd (cc)

  meant-valid :
      (host : Str) (p : ℕ) (token : Str)
      → host ≢ []
      → token ≢ []
      → validate (meant host p token) ≡ none
  unfolding validate
  meant-valid [] p token h t = absurd (h refl)
  meant-valid (c ∷ host) p [] h t = absurd (t refl)
  meant-valid (c ∷ host) p (d ∷ token) h t = refl

  -- Every command that calls the server, given the words `-H host -p port -t token` for the host and
  -- the token of a server and for a port below 2 ^ 63, reads exactly these flags and leaves all
  -- others as they are without arguments; they are complete, and a connection dialled with them
  -- passes the interceptor of the server, if its token is visible ASCII and not empty.
  pub equivalent_flags_pass :
      (v : Verb) (net : Net) (srv : Server net) (host : Str) (p : ℕ) (conn : N.Conn)
      (auths : List Str)
      → calls_server v ≡ true
      → p < 2 ^ 63
      → All IsVisible srv.cm.token
      → srv.cm.token ≢ []
      → dial N (meant (connect_host net host) p srv.cm.token) ≡ ok (conn, auths)
      → let c = meant (connect_host net host) p srv.cm.token in
        (command N R v (equivalent_words (connect_host net host) (decimal p) srv.cm.token)
          ≡ ok (only v c))
        × (flags_of N R (only v c) ≡ some c)
        × (validate c ≡ none)
        × (check (record { token = srv.cm.token; admin_token = srv.cm.admin_tok }) (some auths)
            ≡ none)
  equivalent_flags_pass v net srv host p conn auths h small visible ne dialled =
      let c = meant (connect_host net host) p srv.cm.token in
      let tokens : Tokens = record { token = srv.cm.token; admin_token = srv.cm.admin_tok } in
      (
        reads v (connect_host net host) p srv.cm.token h (parse_int-decimal p small),
        only-flags v c h,
        meant-valid (connect_host net host) p srv.cm.token (connect_host_ne net host) ne,
        dial_passes N c tokens conn auths visible (ne, inl refl) dialled,
      )

  -- The flag that the usage text names as the way to do without a token is one that no command
  -- has: whatever follows it, parsing the flags ends the process with the status of a misuse.
  pub insecure_anon_misused :
      (v : Verb) (args : List Str)
      → calls_server v ≡ true
      → command N R v (str "--insecure-anon" ∷ args) ≡ err misused
  unfolding command parse word name_value str_eq str
  insecure_anon_misused verb_info args h = refl
  insecure_anon_misused verb_health args h = refl
  insecure_anon_misused verb_fill args h = refl
  insecure_anon_misused verb_refresh args h = refl
  insecure_anon_misused verb_overlay args h = refl
  insecure_anon_misused verb_rotate args h = refl
  insecure_anon_misused verb_reissue args h = refl
  insecure_anon_misused verb_metrics args h = refl
  insecure_anon_misused verb_discover args h = absurd (cc)
  insecure_anon_misused verb_connect args h = absurd (cc)
