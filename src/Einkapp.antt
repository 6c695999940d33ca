-- ===== src/Einkapp.antt =====
-- Package einkapp (einkapp/app.go, einkapp/app_android.go): what the Android application calls. The
-- variables of the package are the record App; the lock makes a function one step.
pub mod Startup
pub mod Rotation
pub mod Recovery
pub mod Connect
pub mod Logs
pub mod Calls
pub mod Overlap
pub mod Stub
use tableaux_eink_go.Base.{ℕ, Bool, true, false, Option, none, some, List, [], if◌then◌else◌, not}
use tableaux_eink_go.Base.Int.{ℤ, pos, wrap32}
use tableaux_eink_go.Base.Text.{Str, str, is_empty}
use tableaux_eink_go.Base.Errors.{GoError, plain, Result, ok, err}
use tableaux_eink_go.Einklib.Device.{Kernel}
use tableaux_eink_go.Einklib.Display.{Display, open_display, close}
use tableaux_eink_go.Einkgrpc.Host.{FileName, Host}
use tableaux_eink_go.Einkgrpc.Net.{Net}
use tableaux_eink_go.Einkgrpc.CertManager.{CertManager, Failure, returned, panicked, rotate}
use tableaux_eink_go.Einkgrpc.Credentials.{fingerprint, fingerprint_pem, client_fingerprint}
use tableaux_eink_go.Einkgrpc.Server.{
  Config, Server, PanelInfo, new_server, start, stop, connect_uri, default_port,
}

-- What the package runs on; `service_start` and `service_stop` are the foreground service of
-- Android, with the port that its notification shows.
pub record Platform : Type 1 where
  pub kernel : Kernel
  pub host : Host
  pub net : Net
  pub Android : Type 0
  pub service_start : ℤ → Android → Option GoError × Android
  pub service_stop : Android → Option GoError × Android
  -- filepath.Join of a directory and `tls`
  pub tls_dir : Str → Str

pub record World (P : Platform) : Type 0 where
  pub devices : P.kernel.State
  pub disk : P.host.State
  pub sockets : P.net.State
  pub android : P.Android

-- The variables. `display` is the descriptor of the open einklib.Display; it and `server` are
-- `none` for nil.
pub record App (P : Platform) : Type 0 where
  pub inited : Bool
  pub files_dir : Str
  pub dev_path : Str
  pub display : Option ℤ
  pub server : Option (Server P.net)

abbrev pub not_init : GoError
not_init = plain (str "einkapp: Init has not been called")

abbrev pub server_config : Str → Config
server_config files_dir = record {
  files_dir = files_dir;
  port = default_port;
  max_recv_bytes = pos 0;
  server_version = str "0.1.0";
  enable_mtls = true;
  enable_mdns = true;
}

module _ (P : Platform) where
  -- A function returns an error or nil, or panics (`Failure`).
  abbrev pub Step : Type 0
  Step = Option Failure × App P × World P

  -- doInit, whose other effects are the notification channel and the log.
  unfoldable pub do_init : Str → App P → World P → Step
  do_init dir app w =
      if app.inited
      then (none, app, w)
      else if is_empty dir
      then (some (returned (plain (str "einkapp: filesDir is required"))), app, w)
      else (none, record app { files_dir = dir; inited = true }, w)

  -- doStart from asvcSvc.Start on.
  unfoldable pub bring_up : Server P.net → App P → World P → Step
  bring_up srv app w =
      let (r, a) = P.service_start srv.port w.android in
      let (stopped, n) = stop P.net srv w.sockets in
      elim r [
        | some e ↦
            (some (returned e), record app { server = none }, record w { android = a; sockets = n })
        | none ↦ (none, record app { server = some srv }, record w { android = a })
      ]

  -- doStart from einkgrpc.New on. `reads` and `writes` are the orders in which the certificate
  -- manager goes through its files; `panel` is what Info returns, which reads and changes nothing.
  unfoldable pub serve : List FileName → List FileName → PanelInfo P.net → App P → World P → Step
  serve reads writes panel app w =
      let (made, h) =
        new_server P.host P.net P.tls_dir reads writes (server_config app.files_dir) w.disk in
      let w1 = record w { disk = h } in
      elim made [
        | err e ↦ (some e, app, w1)
        | ok srv ↦
            let (r, srv1, n) = start P.net panel (fingerprint_pem P.host) srv w.sockets in
            let w2 = record w1 { sockets = n } in
            let up = bring_up srv1 app w2 in
            elim r [ some e ↦ (some (returned e), app, w2) | none ↦ up ]
      ]

  -- einklib.Open of doStart; where it fails, the variable keeps what it was.
  unfoldable pub open_panel : App P → World P → App P × World P
  open_panel app w =
      let (r, k) = open_display P.kernel app.dev_path w.devices in
      elim r [
        | err e ↦ (app, record w { devices = k })
        | ok d ↦ (record app { display = some d.fd }, record w { devices = d.kernel })
      ]

  unfoldable pub do_start : List FileName → List FileName → PanelInfo P.net → App P → World P → Step
  do_start reads writes panel app w =
      let (app1, w1) = open_panel app w in
      let served = serve reads writes panel app1 w1 in
      if not app.inited
      then (some (returned not_init), app, w)
      else elim app.server [ some srv ↦ (none, app, w) | none ↦ served ]

  -- doStop, once Init has made the service; its error is always nil.
  unfoldable pub do_stop : App P → World P → App P × World P
  do_stop app w =
      let n = elim app.server as (λ _. P.net.State) [
        | none ↦ w.sockets
        | some srv ↦ (stop P.net srv w.sockets).1
      ] in
      let (_, a) = P.service_stop w.android in
      let k = elim app.display as (λ _. P.kernel.State) [
        | none ↦ w.devices
        | some fd ↦ (close P.kernel (record { fd = fd; kernel = w.devices })).1.kernel
      ] in
      (
        record app { server = none; display = none },
        record w { sockets = n; android = if app.inited then a else w.android; devices = k },
      )

  unfoldable pub do_is_running : App P → Bool
  do_is_running app = elim app.server [ none ↦ false | some srv ↦ srv.running ]

  unfoldable pub do_token : App P → Str
  do_token app = elim app.server [ none ↦ [] | some srv ↦ srv.cm.token ]

  unfoldable pub do_admin_token : App P → Str
  do_admin_token app = elim app.server [ none ↦ [] | some srv ↦ srv.cm.admin_tok ]

  unfoldable pub do_fingerprint : App P → Str
  do_fingerprint app = elim app.server [ none ↦ [] | some srv ↦ fingerprint P.host srv.cm ]

  unfoldable pub do_client_fingerprint : App P → Str
  do_client_fingerprint app = elim app.server [
    | none ↦ []
    | some srv ↦ client_fingerprint P.host srv.cm
  ]

  unfoldable pub do_port : App P → ℤ
  do_port app = elim app.server as (λ _. ℤ) [ none ↦ pos 0 | some srv ↦ srv.port ]

  -- Port
  unfoldable pub port32 : App P → ℤ
  port32 app = wrap32 (do_port app)

  -- doMdnsName
  abbrev pub do_mdns_name : Str
  do_mdns_name = []

  unfoldable pub do_connect_uri : Str → App P → Str
  do_connect_uri host app = elim app.server [
    | none ↦ []
    | some srv ↦ connect_uri P.net (fingerprint_pem P.host) srv host
  ]

  unfoldable pub do_device_path : App P → Str
  do_device_path app = app.dev_path

  unfoldable pub do_set_device_path : Str → App P → App P
  do_set_device_path p app = record app { dev_path = if is_empty p then str "/dev/ebc" else p }

  -- doRotate; `order` is that in which Rotate writes its files.
  unfoldable pub do_rotate :
      List FileName → List FileName → List FileName → PanelInfo P.net → App P → World P → Step
  do_rotate order reads writes panel app w = elim app.server [
    | none ↦ (some (returned (plain (str "einkapp: server not running"))), app, w)
    | some srv ↦
        let (r, cm, h) = rotate P.host order srv.cm w.disk in
        let w1 = record w { disk = h } in
        let (stopped, n) = stop P.net (record srv { cm = cm }) w.sockets in
        let restarted =
          do_start reads writes panel (record app { server = none }) (record w1 { sockets = n }) in
        elim r [
          | err e ↦ (some e, record app { server = some (record srv { cm = cm }) }, w1)
          | ok _ ↦ restarted
        ]
  ]
