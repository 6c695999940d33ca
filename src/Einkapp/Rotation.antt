-- ===== src/Einkapp/Rotation.antt =====
-- What RotateNow does to the credentials, the server and the display.
use tableaux_eink_go.Base.{
  ◌≡◌, refl, ◌⊎◌, subst, ap, ◌∙◌, sym, inl, inr, true, false, none, some, List, arith, Bool-cases,
  Option-cases,
}
use tableaux_eink_go.Base.Errors.{GoError, ok, err, Result-cases}
use tableaux_eink_go.Einklib.Display.{Display, open_display}
use tableaux_eink_go.Einkgrpc.Host.{FileName, IsHost}
use tableaux_eink_go.Einkgrpc.CertManager.{rotate}
use tableaux_eink_go.Einkgrpc.CertManager.Storage.{VisitsAll, regenerate-Stored}
use tableaux_eink_go.Einkgrpc.CertManager.Reload.{VisitsPem}
use tableaux_eink_go.Einkgrpc.Credentials.{fingerprint_pem}
use tableaux_eink_go.Einkgrpc.Server.{Server, PanelInfo, new_server, start, stop, rotate_request}
use tableaux_eink_go.Einkapp.{
  Platform, World, App, server_config, bring_up, serve, open_panel, do_start, do_rotate,
  do_is_running, Step,
}
use tableaux_eink_go.Einkgrpc.CertManager.Directory.{regenerate_dir}
use tableaux_eink_go.Einkapp.Startup.{start_serves, ServesAfter, start_takes, Serves}

module _ (P : Platform) (L : IsHost P.host) where
  -- The rotation up to the start.
  abbrev rotated : List FileName → Server P.net → World P → World P
  rotated order srv w =
      let (_, cm, h) = rotate P.host order srv.cm w.disk in
      record w { disk = h; sockets = (stop P.net (record srv { cm = cm }) w.sockets).1 }

  abbrev without_server : App P → App P
  without_server app = record app { server = none }

  rotate_starts :
      (order reads writes : List FileName) (panel : PanelInfo P.net) (app : App P) (w : World P)
      (srv : Server P.net)
      → app.server ≡ some srv
      → (do_rotate P order reads writes panel app w).0 ≡ none
      → ((rotate P.host order srv.cm w.disk).0 ≡ ok tt)
        × (do_rotate P order reads writes panel app w
            ≡ do_start P reads writes panel (without_server app) (rotated order srv w))
  unfolding do_rotate
  rotate_starts order reads writes panel app w srv has h =
      elim (Result-cases (rotate P.host order srv.cm w.disk).0) [
        | inr (e, q) ↦ absurd (ground arith)
        | inl (_, q) ↦ (q, ground arith)
      ]

  -- A RotateNow that reports success, of a server whose files are in the directory of the
  -- application: a server runs, with the credentials that Rotate made, and these are what is on
  -- disk, in whatever orders the files are gone through.
  pub rotate_takes_effect :
      (order reads writes : List FileName) (panel : PanelInfo P.net) (app : App P) (w : World P)
      (srv : Server P.net)
      → app.server ≡ some srv
      → P.tls_dir app.files_dir ≡ srv.cm.tls_dir
      → VisitsAll order
      → VisitsPem reads
      → (do_rotate P order reads writes panel app w).0 ≡ none
      → Serves P L (rotate P.host order srv.cm w.disk).1 (
        (do_rotate P order reads writes panel app w).1,
        (do_rotate P order reads writes panel app w).2,
      )
  rotate_takes_effect order reads writes panel app w srv has dir all pem h =
      let cm = (rotate P.host order srv.cm w.disk).1 in
      let (made, same) = rotate_starts order reads writes panel app w srv has h in
      subst (ServesAfter P L cm) (sym same) (
        start_takes P L reads writes panel (without_server app) (rotated order srv w) cm refl
          (regenerate-Stored P.host L order srv.cm w.disk all made) pem
          (dir ∙ sym (regenerate_dir P.host order srv.cm w.disk))
          (ap (λ (r : Step P). r.0) (sym same) ∙ h))

  serve_keeps :
      (reads writes : List FileName) (panel : PanelInfo P.net) (app : App P) (w : World P)
      → ((serve P reads writes panel app w).1.display ≡ app.display)
        × ((serve P reads writes panel app w).2.devices ≡ w.devices)
  unfolding serve bring_up
  serve_keeps reads writes panel app w =
      let cfg = server_config app.files_dir in
      elim (Result-cases (new_server P.host P.net P.tls_dir reads writes cfg w.disk).0) [
        | inr (e, q) ↦ (ground arith, ground arith)
        | inl (srv, q) ↦
            let (r, srv1, n) = start P.net panel (fingerprint_pem P.host) srv w.sockets in
            elim (Option-cases r) [
              | inr (e, q1) ↦ (ground arith, ground arith)
              | inl q1 ↦ elim (Option-cases (P.service_start srv1.port w.android).0) [
                | inr (e, q2) ↦ (ground arith, ground arith)
                | inl q2 ↦ (ground arith, ground arith)
              ]
            ]
      ]

  -- All that a RotateNow that reports success does to the devices is to open the panel once more:
  -- what the display was before is not closed, and is what the application holds only if this
  -- open fails.
  pub rotate_reopens :
      (order reads writes : List FileName) (panel : PanelInfo P.net) (app : App P) (w : World P)
      (srv : Server P.net)
      → app.server ≡ some srv
      → (do_rotate P order reads writes panel app w).0 ≡ none
      → let opened = open_display P.kernel app.dev_path w.devices in
        let after = do_rotate P order reads writes panel app w in
        ((e : GoError) × (opened.0 ≡ err e)
          × (after.2.devices ≡ opened.1)
          × (after.1.display ≡ app.display))
        ⊎ ((d : Display P.kernel) × (opened.0 ≡ ok d)
            × (after.2.devices ≡ d.kernel)
            × (after.1.display ≡ some d.fd))
  unfolding open_panel
  rotate_reopens order reads writes panel app w srv has h =
      let (made, same) = rotate_starts order reads writes panel app w srv has h in
      let app' = without_server app in
      let w' = rotated order srv w in
      let served =
        start_serves P L reads writes panel app' w' refl
          (ap (λ (r : Step P). r.0) (sym same) ∙ h) in
      let (shows, devices) =
        serve_keeps reads writes panel (open_panel P app' w').0 (open_panel P app' w').1 in
      let display = ap (λ (r : Step P). r.1.display) (same ∙ served) ∙ shows in
      let kernel = ap (λ (r : Step P). r.2.devices) (same ∙ served) ∙ devices in
      elim (Result-cases (open_display P.kernel app.dev_path w.devices).0) [
        | inr (e, q) ↦ inl (e, q, kernel ∙ ground (arith, q), display ∙ ground (arith, q))
        | inl (d, q) ↦ inr (d, q, kernel ∙ ground (arith, q), display ∙ ground (arith, q))
      ]

module _ (P : Platform) where
  stop_off : (s : Server P.net) (n : P.net.State) → (stop P.net s n).0.running ≡ false
  unfolding stop
  stop_off s n = elim (Bool-cases s.running) [ inl q ↦ ground arith | inr q ↦ ground arith ]

  -- After the callback of a Rotate over gRPC the server is down, and Start does not bring it up:
  -- it reports success and changes nothing, since the variable `server` still has the server.
  pub callback_stays_down :
      (reads writes : List FileName) (panel : PanelInfo P.net) (app : App P) (w : World P)
      (srv : Server P.net)
      → app.inited ≡ true
      → let (down, n) = rotate_request P.net srv w.sockets in
        let app' = record app { server = some down } in
        let w' = record w { sockets = n } in
        (do_is_running P app' ≡ false) × (do_start P reads writes panel app' w' ≡ (none, app', w'))
  unfolding do_is_running do_start rotate_request
  callback_stays_down reads writes panel app w srv on =
      (stop_off (record srv { rotate_req = 1 }) w.sockets, ground (arith, on))
