-- ===== src/Cli/Flags.antt =====
-- tableaux-cli/dial.go: the flags of every command, and the connection that they ask for.
pub mod Dialled
use tableaux_eink_go.Base.{
  Bool, false, Option, none, some, [], ◌∷◌, ◌++◌, List, ◌||◌, ◌&&◌, not, if◌then◌else◌,
}
use tableaux_eink_go.Base.Int.{ℤ, pos}
use tableaux_eink_go.Base.Text.{Str, str, is_empty, decimal_ℤ}
use tableaux_eink_go.Base.Errors.{GoError, plain, wrapped, Result, ok, err, ◌>>=◌, ◌>>◌, fail_if}

pub record CommonFlags : Type 0 where
  pub host : Str
  pub port : ℤ
  pub token : Str
  pub cert_file : Str
  pub client_cert : Str
  pub client_key : Str
  pub insecure : Bool

-- registerCommonFlags: the values of the flags that are not given.
unfoldable pub default_flags : CommonFlags
default_flags = record {
  host = [];
  port = pos 50051;
  token = [];
  cert_file = [];
  client_cert = [];
  client_key = [];
  insecure = false;
}

unfoldable pub validate : CommonFlags → Option GoError
validate c =
    if is_empty c.host
    then some (plain (str "--host (-H) is required"))
    else if is_empty c.token
    then some (plain (str "--token (-t) is required"))
    else none

-- What tls.Config is given: the PEM text that the pool is made of, and the key pair.
pub record TlsConfig (KeyPair : Type 0) : Type 0 where
  pub root_cas : Option Str
  pub certificates : Option KeyPair

-- What the connection needs of the system and of the libraries crypto and grpc.
pub record Network : Type 1 where
  pub KeyPair : Type 0
  pub Conn : Type 0
  pub read_file : Str → Result GoError Str
  -- whether CertPool.AppendCertsFromPEM finds a certificate in the text
  pub has_certificate : Str → Bool
  -- tls.LoadX509KeyPair
  pub load_key_pair : Str → Str → Result GoError KeyPair
  -- grpc.NewClient; without a configuration the transport is insecure
  pub new_client : Str → Option (TlsConfig KeyPair) → Result GoError Conn

module _ (N : Network) where
  open N use {KeyPair, Conn, read_file, has_certificate, load_key_pair, new_client}

  abbrev wrap_result : {A : Type 0} → Str → Result GoError A → Result GoError A
  wrap_result text (ok a) = ok a
  wrap_result text (err e) = err (wrapped text e)

  root_pool : CommonFlags → Result GoError (Option Str)
  root_pool c = if is_empty c.cert_file then ok none else do
    pem ← wrap_result (str "read --cert: ") (read_file c.cert_file)
    fail_if (not (has_certificate pem))
        (plain (str "--cert: no CERTIFICATE block in " ++ c.cert_file))
    ok (some pem)

  key_pair : CommonFlags → Result GoError (Option KeyPair)
  key_pair c = if is_empty c.client_cert && is_empty c.client_key then ok none else do
    fail_if (is_empty c.client_cert || is_empty c.client_key)
        (plain (str "--client-cert and --client-key must be set together"))
    pair ← wrap_result (str "load client keypair: ") (load_key_pair c.client_cert c.client_key)
    ok (some pair)

  unfoldable pub tls_config : CommonFlags → Result GoError (TlsConfig KeyPair)
  unfolding root_pool key_pair
  tls_config c = do
    pool ← root_pool c
    pair ← key_pair c
    ok (record { root_cas = pool; certificates = pair })

  pub credentials : CommonFlags → Result GoError (Option (TlsConfig KeyPair))
  credentials c = if c.insecure then ok none else do tc ← tls_config c; ok (some tc)

  -- The connection, and the values of `authorization` in the outgoing metadata.
  unfoldable pub dial : CommonFlags → Result GoError (Conn × List Str)
  unfolding credentials
  dial c =
      let target = c.host ++ (str ":" ++ decimal_ℤ c.port) in
      do
        creds ← credentials c
        conn ← wrap_result (str "dial " ++ (target ++ str ": ")) (new_client target creds)
        ok (conn, (str "Bearer " ++ c.token) ∷ [])
