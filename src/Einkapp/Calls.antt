-- ===== src/Einkapp/Calls.antt =====
-- The application as its host and the clients of its server call it (einkapp/app.go): a sequence of
-- calls, one after the other.
pub mod Holds
pub mod Steps
pub mod Sound
pub mod Rotated
use tableaux_eink_go.Base.{Bool, true, Option, none, some, List, [], ◌∷◌, if◌then◌else◌}
use tableaux_eink_go.Base.Int.{ℤ}
use tableaux_eink_go.Base.Text.{Str}
use tableaux_eink_go.Einkgrpc.Host.{FileName}
use tableaux_eink_go.Einkgrpc.Credentials.{rotate_credentials, reissue}
use tableaux_eink_go.Einkgrpc.Server.{PanelInfo, rotate_request}
use tableaux_eink_go.Einkapp.{
  Platform, World, App, do_init, do_start, do_stop, do_rotate, do_set_device_path, Step,
}

module _ (P : Platform) where
  -- The functions of app.go that change a variable, with the orders that a map gives and what Info of
  -- the panel returns; the handlers Rotate, at a time, and ReissueClientCert of the server; and the
  -- callback that these arrange for, which comes later, on the server that is there then: on one that
  -- has been replaced, and so stopped, it does nothing.
  pub data Call : Type 0 where
    init : Str → Call
    start : List FileName → List FileName → PanelInfo P.net → Call
    stop : Call
    set_device_path : Str → Call
    rotate_now : List FileName → List FileName → List FileName → PanelInfo P.net → Call
    client_rotates : List FileName → ℤ → Call
    client_reissues : Call
    called_back : Call

  -- A server that does not run serves no call.
  unfoldable pub serve_rotation : List FileName → ℤ → App P → World P → App P × World P
  serve_rotation order at app w = elim app.server [
    | none ↦ (app, w)
    | some srv ↦
        let (_, cm, h) = rotate_credentials P.host order true at srv.cm w.disk in
        if srv.running
        then (record app { server = some (record srv { cm = cm }) }, record w { disk = h })
        else (app, w)
  ]

  unfoldable pub serve_client_cert : App P → World P → App P × World P
  serve_client_cert app w = elim app.server [
    | none ↦ (app, w)
    | some srv ↦
        let (_, cm, h) = reissue P.host true srv.cm w.disk in
        if srv.running
        then (record app { server = some (record srv { cm = cm }) }, record w { disk = h })
        else (app, w)
  ]

  unfoldable pub call_back : App P → World P → App P × World P
  call_back app w = elim app.server [
    | none ↦ (app, w)
    | some srv ↦
        let (srv', n) = rotate_request P.net srv w.sockets in
        (record app { server = some srv' }, record w { sockets = n })
  ]

  -- What a step leaves.
  abbrev left : Step P → App P × World P
  left (r, app, w) = (app, w)

  unfoldable pub perform : Call → App P → World P → App P × World P
  perform (init dir) app w = left (do_init P dir app w)
  perform (start reads writes panel) app w = left (do_start P reads writes panel app w)
  perform stop app w = do_stop P app w
  perform (set_device_path p) app w = (do_set_device_path P p app, w)
  perform (rotate_now order reads writes panel) app w =
      left (do_rotate P order reads writes panel app w)
  perform (client_rotates order at) app w = serve_rotation order at app w
  perform client_reissues app w = serve_client_cert app w
  perform called_back app w = call_back app w

  unfoldable pub run_calls : List Call → App P → World P → App P × World P
  run_calls [] app w = (app, w)
  run_calls (c ∷ calls) app w = let (app', w') = perform c app w in run_calls calls app' w'
