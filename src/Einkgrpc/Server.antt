-- ===== src/Einkgrpc/Server.antt =====
-- einkgrpc/server.go: the life of the server. Start holds the lock, Stop takes the server and the
-- registrar under it; each is one step here.
pub mod Lifecycle
pub mod Runs
pub mod Started
pub mod Overlap
use tableaux_eink_go.Base.{
  ℕ, Bool, true, false, Option, none, some, List, [], ◌∷◌, ◌++◌, if◌then◌else◌, ◌&&◌, not,
}
use tableaux_eink_go.Base.Int.{ℤ, pos, eqb_ℤ}
use tableaux_eink_go.Base.Text.{Str, str, is_empty, decimal_ℤ}
use tableaux_eink_go.Base.Errors.{GoError, plain, wrapped, Result, ok, err}
use tableaux_eink_go.Einklib.Geometry.{DisplayInfo}
use tableaux_eink_go.Einkgrpc.Host.{FileName, Host}
use tableaux_eink_go.Einkgrpc.CertManager.{CertManager, Failure, returned, new_cert_manager}
use tableaux_eink_go.Einkgrpc.Net.{Net}
use tableaux_eink_go.Base.Url.{encode}
use tableaux_eink_go.Einkgrpc.Mdns.{
  Registrar, new_registrar, register, unregister, truncated_fingerprint,
}

-- Config without the display.
pub record Config : Type 0 where
  pub files_dir : Str
  pub port : ℤ
  pub max_recv_bytes : ℤ
  pub server_version : Str
  pub enable_mtls : Bool
  pub enable_mdns : Bool

abbrev pub default_port : ℤ
default_port = pos 50051

abbrev pub default_max_recv_bytes : ℤ
default_max_recv_bytes = pos 0x1000000

-- The settings that New replaces when they are not given.
unfoldable pub with_defaults : Config → Config
with_defaults c = record c {
  port = if eqb_ℤ c.port (pos 0) then default_port else c.port;
  max_recv_bytes =
      if eqb_ℤ c.max_recv_bytes (pos 0) then default_max_recv_bytes else c.max_recv_bytes;
  server_version = if is_empty c.server_version then str "0.1.0" else c.server_version;
}

-- `srv` and `mdns` are `none` for nil; `srv` serves the listener `lis`. `rotate_req` is the number
-- of signals in the channel, which has room for one.
pub record Server (N : Net) : Type 0 where
  pub cfg : Config
  pub cm : CertManager
  pub mdns : Option (Registrar N)
  pub srv : Option N.Conn
  pub running : Bool
  pub port : ℤ
  pub rotate_req : ℕ

-- New. `tls_dir` is filepath.Join of a directory and `tls`.
unfoldable pub new_server :
    (H : Host) (N : Net)
    → (Str → Str)
    → List FileName
    → List FileName
    → Config
    → H.State
    → Result Failure (Server N) × H.State
new_server H N tls_dir reads writes cfg s =
    if is_empty cfg.files_dir
    then (err (returned (plain (str "einkgrpc: Config.FilesDir is required"))), s)
    else let (made, s') = new_cert_manager H reads writes (tls_dir cfg.files_dir) s in
      elim made [
        | err e ↦ (err e, s')
        | ok cm ↦ (
          ok (record {
            cfg = with_defaults cfg;
            cm = cm;
            mdns = none;
            srv = none;
            running = false;
            port = pos 0;
            rotate_req = 0;
          }),
          s',
        )
      ]

module _ (N : Net) where
  -- What cfg.Display.Info returns; `none` where there is no display.
  abbrev pub PanelInfo : Type 0
  PanelInfo = Option (Result GoError DisplayInfo)

  abbrev pub is_color : PanelInfo → Bool
  is_color (some (ok i)) = i.color
  is_color _ = false

  -- Start behind net.Listen. `fingerprint` is that of the certificate.
  unfoldable pub advertise_server :
      PanelInfo → (Str → Str) → Server N → N.State → Option GoError × Server N × N.State
  advertise_server panel fingerprint s w =
      let (_, z, w') =
        register N s.port (is_color panel) (fingerprint s.cm.server_cer) s.cfg.server_version
          (new_registrar N) w in
      if s.cfg.enable_mdns then (none, record s { mdns = some z }, w') else (none, s, w)

  -- Start from net.Listen on.
  unfoldable pub listen_and_serve :
      PanelInfo → (Str → Str) → Server N → N.State → Option GoError × Server N × N.State
  listen_and_serve panel fingerprint s w =
      let (r, w') = N.listen s.cfg.port w in
      elim r [
        | err e ↦ (
          some (wrapped (str "einkgrpc: listen :" ++ (decimal_ℤ s.cfg.port ++ str ": ")) e),
          s,
          w',
        )
        | ok (conn, tcp) ↦
            let bound_port = elim tcp as (λ _. ℤ) [ none ↦ s.port | some p ↦ p ] in
            advertise_server panel fingerprint
              (record s { port = bound_port; srv = some conn; running = true }) w'
      ]

  unfoldable pub start :
      PanelInfo → (Str → Str) → Server N → N.State → Option GoError × Server N × N.State
  start panel fingerprint s w =
      if s.running
      then (some (plain (str "einkgrpc: server already running")), s, w)
      else elim (N.key_pair_error s.cm.server_cer s.cm.server_key) [
        | some e ↦ (some (wrapped (str "einkgrpc: load server keypair: ") e), s, w)
        | none ↦
            if s.cfg.enable_mtls && not (N.has_certificate s.cm.client_cer)
            then (some (plain (str "einkgrpc: failed to parse client cert PEM")), s, w)
            else listen_and_serve panel fingerprint s w
      ]

  -- Stop, whose error is always nil.
  unfoldable pub stop : Server N → N.State → Server N × N.State
  stop s w =
      let taken = record s { srv = none; mdns = none } in
      let w1 = elim s.mdns as (λ _. N.State) [ none ↦ w | some z ↦ (unregister N z w).1 ] in
      let w2 = elim s.srv as (λ _. N.State) [ none ↦ w1 | some c ↦ N.shutdown c w1 ] in
      if not s.running then (taken, w) else (record taken { running = false }, w2)

  -- The callback that Start hands to the display service: a signal into the channel, unless it is
  -- full, and Stop.
  unfoldable pub rotate_request : Server N → N.State → Server N × N.State
  rotate_request s w = stop (record s { rotate_req = 1 }) w

  -- The query of ConnectURI; Encode puts the keys in order.
  abbrev pub connect_settings : (Str → Str) → Server N → List (Str × Str)
  connect_settings fingerprint s =
      (str "fp", truncated_fingerprint (fingerprint s.cm.server_cer))
      ∷ (str "token", s.cm.token)
      ∷ []

  abbrev pub connect_host : Str → Str
  connect_host host = if is_empty host then str "127.0.0.1" else host

  -- ConnectURI
  unfoldable pub connect_uri : (Str → Str) → Server N → Str → Str
  connect_uri fingerprint s host =
      str "tableaux://"
      ++ (connect_host host
          ++ (str ":"
              ++ (decimal_ℤ s.port ++ (str "?" ++ encode (connect_settings fingerprint s)))))
