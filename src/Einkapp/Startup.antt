-- ===== src/Einkapp/Startup.antt =====
-- What a start of the application that succeeds brings up.
use tableaux_eink_go.Base.{
  ◌≡◌, subst, ap, ◌∙◌, sym, inl, inr, true, none, some, List, arith, Bool-cases, Option-cases,
}
use tableaux_eink_go.Base.Text.{Str}
use tableaux_eink_go.Base.Errors.{ok, Result-cases}
use tableaux_eink_go.Einklib.Display.{open_display}
use tableaux_eink_go.Einkgrpc.Host.{FileName, Host, IsHost}
use tableaux_eink_go.Einkgrpc.Net.{Net}
use tableaux_eink_go.Einkgrpc.CertManager.{CertManager, new_cert_manager}
use tableaux_eink_go.Einkgrpc.CertManager.Storage.{Stored}
use tableaux_eink_go.Einkgrpc.CertManager.Reload.{VisitsPem, new_cert_manager_reload}
use tableaux_eink_go.Einkgrpc.Credentials.{fingerprint_pem}
use tableaux_eink_go.Einkgrpc.Server.Started.{start_runs}
use tableaux_eink_go.Einkgrpc.Server.{Config, Server, PanelInfo, new_server, start}
use tableaux_eink_go.Einkapp.{
  Platform, World, App, server_config, bring_up, serve, open_panel, do_start, Step,
}

module _ (H : Host) (L : IsHost H) where
  -- A server that is made on the files of a manager has this manager.
  new_server_takes :
      (N : Net) (tls_dir : Str → Str) (reads writes : List FileName) (cfg : Config)
      (cm : CertManager) (s : H.State) (srv : Server N)
      → Stored H L cm s
      → VisitsPem reads
      → tls_dir cfg.files_dir ≡ cm.tls_dir
      → (new_server H N tls_dir reads writes cfg s).0 ≡ ok srv
      → (srv.cm ≡ cm)
        × ((new_server H N tls_dir reads writes cfg s).1 ≡ (H.mkdir_all cm.tls_dir s).1)
  unfolding new_server new_cert_manager
  new_server_takes N tls_dir reads writes cfg cm s srv stored all dir h =
      elim (Option-cases (H.mkdir_all cm.tls_dir s).0) [
        | inr (e, q) ↦ absurd (ground (arith, ap (λ d. (H.mkdir_all d s).0) dir ∙ q))
        | inl q ↦
            let found = new_cert_manager_reload H L reads writes cm s stored all q in
            let same = ap (λ d. new_cert_manager H reads writes d s) dir ∙ found in
            (ground (arith, same), ground (arith, same))
      ]

module _ (P : Platform) (L : IsHost P.host) where
  -- What runs and is on disk when a server with this manager was brought up.
  abbrev pub Serves : CertManager → App P × World P → Type 0
  Serves cm (app, w) =
      (srv : Server P.net) × (app.server ≡ some srv)
      × (srv.running ≡ true)
      × (srv.cm ≡ cm)
      × Stored P.host L cm w.disk

  serve_takes :
      (reads writes : List FileName) (panel : PanelInfo P.net) (app : App P) (w : World P)
      (cm : CertManager)
      → Stored P.host L cm w.disk
      → VisitsPem reads
      → P.tls_dir app.files_dir ≡ cm.tls_dir
      → (serve P reads writes panel app w).0 ≡ none
      → Serves cm ((serve P reads writes panel app w).1, (serve P reads writes panel app w).2)
  unfolding serve bring_up
  serve_takes reads writes panel app w cm stored all dir h =
      let cfg = server_config app.files_dir in
      let made = new_server P.host P.net P.tls_dir reads writes cfg w.disk in
      elim (Result-cases made.0) [
        | inr (e, q) ↦ absurd (ground arith)
        | inl (srv, q) ↦
            let (same, disk) =
              new_server_takes P.host L P.net P.tls_dir reads writes cfg cm w.disk srv stored all
                dir q in
            let fp = fingerprint_pem P.host in
            let (r, srv1, n) = start P.net panel fp srv w.sockets in
            elim (Option-cases r) [
              | inr (e, q1) ↦ absurd (ground arith)
              | inl q1 ↦
                  let (kept, runs) = start_runs P.net panel fp srv w.sockets q1 in
                  elim (Option-cases (P.service_start srv1.port w.android).0) [
                    | inr (e, q2) ↦ absurd (ground arith)
                    | inl q2 ↦
                        let files : (serve P reads writes panel app w).2.disk ≡ made.1 =
                          ground arith in
                        (
                          srv1,
                          ground arith,
                          runs,
                          kept ∙ same,
                          subst (Stored P.host L cm) (sym (files ∙ disk)) (λ g.
                              let (b, found, c) = stored g in
                              (b, L.read-mkdir_all cm.tls_dir cm.tls_dir g w.disk ∙ found, c)),
                        )
                  ]
            ]
      ]

  pub open_panel_keeps :
      (app : App P) (w : World P)
      → ((open_panel P app w).0.files_dir ≡ app.files_dir) × ((open_panel P app w).1.disk ≡ w.disk)
  unfolding open_panel
  open_panel_keeps app w = elim (Result-cases (open_display P.kernel app.dev_path w.devices).0) [
    | inr (e, q) ↦ (ground arith, ground arith)
    | inl (d, q) ↦ (ground arith, ground arith)
  ]

  -- A start that reports success, of an application without a server, serves.
  pub start_serves :
      (reads writes : List FileName) (panel : PanelInfo P.net) (app : App P) (w : World P)
      → app.server ≡ none
      → (do_start P reads writes panel app w).0 ≡ none
      → do_start P reads writes panel app w
        ≡ serve P reads writes panel (open_panel P app w).0 (open_panel P app w).1
  unfolding do_start
  start_serves reads writes panel app w stopped h = elim (Bool-cases app.inited) [
    | inl q ↦ ground arith
    | inr q ↦ absurd (ground arith)
  ]

  abbrev pub ServesAfter : CertManager → Step P → Type 0
  ServesAfter cm r = Serves cm (r.1, r.2)

  pub start_takes :
      (reads writes : List FileName) (panel : PanelInfo P.net) (app : App P) (w : World P)
      (cm : CertManager)
      → app.server ≡ none
      → Stored P.host L cm w.disk
      → VisitsPem reads
      → P.tls_dir app.files_dir ≡ cm.tls_dir
      → (do_start P reads writes panel app w).0 ≡ none
      → Serves cm ((do_start P reads writes panel app w).1, (do_start P reads writes panel app w).2)
  start_takes reads writes panel app w cm stopped stored all dir h =
      let same = start_serves reads writes panel app w stopped h in
      let (files, disk) = open_panel_keeps app w in
      subst (ServesAfter cm) (sym same) (
        serve_takes reads writes panel (open_panel P app w).0 (open_panel P app w).1 cm
          (subst (Stored P.host L cm) (sym disk) stored) all (ap P.tls_dir files ∙ dir)
          (ap (λ (r : Step P). r.0) (sym same) ∙ h))
