-- ===== src/Einkgrpc/Backend.antt =====
-- The server as einkgrpc/server.go puts it together in Start: the interceptors of TokenAuth in front
-- of the handlers of the display service, over one certificate manager. A handler that fails by a
-- panic ends the process.
use tableaux_eink_go.Base.{◌||◌, true, false, Bool, Option, none, some, List}
use tableaux_eink_go.Base.Int.{ℤ}
use tableaux_eink_go.Base.Text.{Str}
use tableaux_eink_go.Base.Errors.{GoError, Result, ok, err, RpcError}
use tableaux_eink_go.Einkproto
use tableaux_eink_go.Einkproto.{
  HealthResponse, FillRequest, RefreshResponse, SetOverlayRequest, RotateResponse,
  GetMetricsResponse, ReissueClientCertResponse,
}
use tableaux_eink_go.Einklib.Interface.{DisplayApi}
use tableaux_eink_go.Einkgrpc.Host.{FileName, Host}
use tableaux_eink_go.Einkgrpc.Net.{Net}
use tableaux_eink_go.Einkgrpc.Server.{Server}
use tableaux_eink_go.Einkgrpc.CertManager.{CertManager}
use tableaux_eink_go.Einkgrpc.Credentials.{
  Ending, answered, failing, crashed, rotate_credentials, reissue, get_metrics,
}
use tableaux_eink_go.Einkgrpc.TokenAuth.{Tokens, Metadata, check}
use tableaux_eink_go.Einkgrpc.DisplayService.{
  Service, Recv, new_display_service, get_info, health, device_open, fill, refresh, set_overlay,
}

-- `restarts`: whether a handler has asked for the callback rotateRequest.
pub record Backend (D : DisplayApi) (H : Host) : Type 0 where
  pub service : Service D
  pub cm : CertManager
  pub disk : H.State
  pub restarts : Bool

-- The tokens that the interceptor reads in every call.
abbrev pub tokens_of : CertManager → Tokens
tokens_of cm = record { token = cm.token; admin_token = cm.admin_tok }

-- What comes of a call: an answer or a status, or the end of the process.
pub data Outcome (A : Type 0) : Type 0 where
  replied : Result RpcError A → Outcome A
  died : Str → Outcome A

-- The service that Start makes for a server, with the display of the configuration.
abbrev pub assemble :
    (D : DisplayApi) (H : Host) (N : Net) → Server N → Option D.State → H.State → Backend D H
assemble D H N srv display disk = record {
  service = new_display_service D display srv.cfg.server_version;
  cm = srv.cm;
  disk = disk;
  restarts = false;
}

module _ (D : DisplayApi) (H : Host) where
  -- A handler behind the interceptor.
  abbrev pub Served : Type 0 → Type 0
  Served A = Metadata → Backend D H → Outcome A × Backend D H

  abbrev pub guarded : {A : Type 0} → (Backend D H → Outcome A × Backend D H) → Served A
  guarded {A} handler md b = elim (check (tokens_of b.cm) md) as (λ _. Outcome A × Backend D H) [
    | some e ↦ (replied (err e), b)
    | none ↦ handler b
  ]

  abbrev pub on_service : {A : Type 0} → (Service D → Result RpcError A × Service D) → Served A
  on_service handler =
      guarded (λ b. let (r, s) = handler b.service in (replied r, record b { service = s }))

  -- The end of a handler of the credentials.
  abbrev pub ended :
      {A : Type 0} → Ending A × CertManager × H.State → Backend D H → Outcome A × Backend D H
  ended (answered a asks, cm, s) b =
      (replied (ok a), record b { cm = cm; disk = s; restarts = b.restarts || asks })
  ended (failing e, cm, s) b = (replied (err e), record b { cm = cm; disk = s })
  ended (crashed t, cm, s) b = (died t, record b { cm = cm; disk = s })

  abbrev pub serve_get_info : Served Einkproto.DisplayInfo
  serve_get_info = on_service (get_info D)

  -- At an uptime in seconds.
  abbrev pub serve_health : ℤ → Served HealthResponse
  serve_health uptime = on_service (λ s. (ok (health D uptime s), s))

  abbrev pub serve_fill : FillRequest → ℤ → Served RefreshResponse
  serve_fill req elapsed = on_service (fill D req elapsed)

  abbrev pub serve_refresh : List Recv → ℤ → Option GoError → Served RefreshResponse
  serve_refresh msgs elapsed send = on_service (refresh D msgs elapsed send)

  abbrev pub serve_set_overlay : SetOverlayRequest → Served (Unit {0})
  serve_set_overlay req = on_service (set_overlay D req)

  -- With the order of the files and the time of the answer.
  abbrev pub serve_rotate : List FileName → ℤ → Served RotateResponse
  serve_rotate order at = guarded (λ b. ended (rotate_credentials H order true at b.cm b.disk) b)

  abbrev pub serve_reissue : Served ReissueClientCertResponse
  serve_reissue = guarded (λ b. ended (reissue H true b.cm b.disk) b)

  abbrev pub serve_get_metrics : ℤ → Served GetMetricsResponse
  serve_get_metrics uptime = on_service (λ s. (ok (get_metrics uptime (device_open D s)), s))
