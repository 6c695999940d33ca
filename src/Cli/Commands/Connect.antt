-- ===== src/Cli/Commands/Connect.antt =====
-- The URI that a server gives for its QR code, taken apart by the command connect.
use tableaux_eink_go.Base.{
  ℕ, zero, suc, ◌≡◌, ◌≢◌, refl, ap, ◌∙◌, [], ◌∷◌, ◌++◌, arith, All, leb, length, take, Bool-cases,
  inl, inr,
}
use tableaux_eink_go.Base.Int.{pos}
use tableaux_eink_go.Base.Text.{Str, str, str_eq, decimal, decimal_ℤ, str_eq_self}
use tableaux_eink_go.Base.Text.Decimal.{decimal-Digits, is_empty-decimal}
use tableaux_eink_go.Base.Errors.{ok}
use tableaux_eink_go.Base.Url.{encode, query_get, is_unreserved}
use tableaux_eink_go.Base.Url.Query.{IsByte}
use tableaux_eink_go.Base.Url.Settings.{
  value_of, query_get-encode, encode-QueryBytes, IsPairOfBytes,
}
use tableaux_eink_go.Base.Url.Authority.{IsLower, IsUnreserved, IsUrlParser, url_text}
use tableaux_eink_go.Einkgrpc.Net.{Net}
use tableaux_eink_go.Einkgrpc.Mdns.{truncated_fingerprint}
use tableaux_eink_go.Einkgrpc.Server.{Server, connect_host, connect_settings, connect_uri}
use tableaux_eink_go.Cli.Flags.{Network}
use tableaux_eink_go.Cli.Remote.{Remote}
use tableaux_eink_go.Cli.Commands.{Shell, cmd_connect, run, connect}
use tableaux_eink_go.Cli.Texts.{connect_text}

connect_host-IsUnreserved :
    (net : Net) (host : Str) → All IsUnreserved host → All IsUnreserved (connect_host net host)
unfolding str is_unreserved
connect_host-IsUnreserved net [] h =
    (refl, (refl, (refl, (refl, (refl, (refl, (refl, (refl, (refl, tt)))))))))
connect_host-IsUnreserved net (c ∷ host) h = h

pub connect_host_ne : (net : Net) (host : Str) → connect_host net host ≢ []
unfolding str
connect_host_ne net [] e = cc
connect_host_ne net (c ∷ host) e = cc

All-take : (n : ℕ) (s : Str) → All IsByte s → All IsByte (take n s)
All-take zero s h = tt
All-take (suc n) [] h = tt
All-take (suc n) (c ∷ s) h = (h.0, All-take n s h.1)

short-IsByte : (fp : Str) → All IsByte fp → All IsByte (truncated_fingerprint fp)
unfolding truncated_fingerprint
short-IsByte fp h = elim (Bool-cases (leb (length fp) 47)) [
  | inl q ↦ rw q h
  | inr q ↦ rw q (All-take 47 fp h)
]

scheme-IsLower : All IsLower (str "tableaux")
unfolding str
scheme-IsLower = ground arith

scheme_ne : str "tableaux" ≢ []
unfolding str
scheme_ne e = cc

uri-url_text :
    (net : Net) (fingerprint : Str → Str) (srv : Server net) (host : Str) (p : ℕ)
    → srv.port ≡ pos p
    → connect_uri net fingerprint srv host
      ≡ url_text
          (str "tableaux")
          (connect_host net host)
          (decimal p)
          (encode (connect_settings net fingerprint srv))
unfolding connect_uri decimal_ℤ str
uri-url_text net fingerprint srv host p h =
    ap
      (λ port.
        str "tableaux://"
        ++ (connect_host net host
            ++ (str ":"
                ++ (decimal_ℤ port ++ (str "?" ++ encode (connect_settings net fingerprint srv))))))
      h

fp-IsByte : All IsByte (str "fp")
unfolding str
fp-IsByte = ground arith

token-IsByte : All IsByte (str "token")
unfolding str
token-IsByte = ground arith

settings-IsPairOfBytes :
    (net : Net) (fingerprint : Str → Str) (srv : Server net)
    → All IsByte srv.cm.token
    → All IsByte (fingerprint srv.cm.server_cer)
    → All IsPairOfBytes (connect_settings net fingerprint srv)
settings-IsPairOfBytes net fingerprint srv token fp =
    ((fp-IsByte, short-IsByte (fingerprint srv.cm.server_cer) fp), ((token-IsByte, token), tt))

found :
    (net : Net) (fingerprint : Str → Str) (srv : Server net)
    → let settings = connect_settings net fingerprint srv in
      (value_of (str "token") settings ≡ srv.cm.token)
      × (value_of (str "fp") settings ≡ truncated_fingerprint (fingerprint srv.cm.server_cer))
unfolding value_of str str_eq
found net fingerprint srv = (refl, refl)

module _ (N : Network) (R : Remote N) where
  -- What connect prints of a URL that is taken apart.
  shown :
      (a host : Str) (p : ℕ) (query token fp : Str) (s : Shell R.State)
      → R.parse_url a
        ≡ ok (record {
          scheme = str "tableaux";
          hostname = host;
          port = decimal p;
          raw_query = query;
        })
      → query_get query (str "token") ≡ token
      → query_get query (str "fp") ≡ fp
      → cmd_connect N R (a ∷ []) s
        ≡ (ok tt, record s { printed = s.printed ++ connect_text host (decimal p) token fp })
  unfolding cmd_connect
  shown a host p query token fp s q t f =
      rw (q, str_eq_self (str "tableaux"), is_empty-decimal p, t, f) refl

  -- The URI that a server which listens on a port gives for a host of letters, digits, `-`, `_`,
  -- `.` and `~`, or for none, is one that connect takes: it prints this host, or 127.0.0.1 for none,
  -- the port, the token and the short fingerprint, whatever bytes the token and the fingerprint have.
  pub connect_round_trip :
      (parser : IsUrlParser R.parse_url) (net : Net) (fingerprint : Str → Str) (srv : Server net)
      (host : Str) (p fuel : ℕ) (s : Shell R.State)
      → srv.port ≡ pos p
      → All IsUnreserved host
      → All IsByte srv.cm.token
      → All IsByte (fingerprint srv.cm.server_cer)
      → run N R fuel (connect (connect_uri net fingerprint srv host ∷ [])) s ≡ (
        ok tt,
        record s {
          printed =
              s.printed
              ++ connect_text
                  (connect_host net host)
                  (decimal p)
                  srv.cm.token
                  (truncated_fingerprint (fingerprint srv.cm.server_cer));
        },
      )
  connect_round_trip parser net fingerprint srv host p fuel s listens plain token fp =
      let settings = connect_settings net fingerprint srv in
      let short = truncated_fingerprint (fingerprint srv.cm.server_cer) in
      let bytes = settings-IsPairOfBytes net fingerprint srv token fp in
      let parsed =
        ap R.parse_url (uri-url_text net fingerprint srv host p listens)
        ∙ parser.parse-url_text (str "tableaux") (connect_host net host) (decimal p)
            (encode settings) scheme_ne scheme-IsLower (connect_host_ne net host)
            (connect_host-IsUnreserved net host plain) (decimal-Digits p)
            (encode-QueryBytes settings bytes) in
      shown (connect_uri net fingerprint srv host) (connect_host net host) p (encode settings)
        srv.cm.token short s parsed
        (query_get-encode (str "token") settings bytes ∙ (found net fingerprint srv).0)
        (query_get-encode (str "fp") settings bytes ∙ (found net fingerprint srv).1)
