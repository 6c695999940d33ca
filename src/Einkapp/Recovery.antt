-- ===== src/Einkapp/Recovery.antt =====
-- What Stop releases, and what a Start brings up behind it.
use tableaux_eink_go.Base.{
  ◌≡◌, refl, subst, ap, ◌∙◌, sym, inl, inr, true, none, List, arith, Option-cases,
}
use tableaux_eink_go.Base.Errors.{Result-cases}
use tableaux_eink_go.Einkgrpc.Host.{FileName, IsHost}
use tableaux_eink_go.Einkgrpc.CertManager.{CertManager}
use tableaux_eink_go.Einkgrpc.CertManager.Storage.{Stored}
use tableaux_eink_go.Einkgrpc.CertManager.Reload.{VisitsPem}
use tableaux_eink_go.Einkgrpc.Credentials.{fingerprint_pem}
use tableaux_eink_go.Einkgrpc.Server.{Server, PanelInfo, new_server, start}
use tableaux_eink_go.Einkgrpc.Server.Started.{start_runs}
use tableaux_eink_go.Einkapp.{
  Platform, World, App, server_config, bring_up, serve, open_panel, do_start, do_stop,
  do_is_running, Step,
}
use tableaux_eink_go.Einkapp.Startup.{start_serves, start_takes, Serves}

module _ (P : Platform) where
  abbrev RunsAfter : Step P → Type 0
  RunsAfter r = do_is_running P r.1 ≡ true

  serve_runs :
      (reads writes : List FileName) (panel : PanelInfo P.net) (app : App P) (w : World P)
      → (serve P reads writes panel app w).0 ≡ none
      → RunsAfter (serve P reads writes panel app w)
  unfolding serve bring_up do_is_running
  serve_runs reads writes panel app w h =
      let cfg = server_config app.files_dir in
      let made = new_server P.host P.net P.tls_dir reads writes cfg w.disk in
      elim (Result-cases made.0) [
        | inr (e, q) ↦ absurd (ground arith)
        | inl (srv, q) ↦
            let fp = fingerprint_pem P.host in
            let (r, srv1, n) = start P.net panel fp srv w.sockets in
            elim (Option-cases r) [
              | inr (e, q1) ↦ absurd (ground arith)
              | inl q1 ↦
                  let runs = (start_runs P.net panel fp srv w.sockets q1).1 in
                  elim (Option-cases (P.service_start srv1.port w.android).0) [
                    | inr (e, q2) ↦ absurd (ground arith)
                    | inl q2 ↦ ground (arith, runs)
                  ]
            ]
      ]

  -- A start that reports success, of an application without a server, has a server that runs.
  pub start_running :
      (L : IsHost P.host) (reads writes : List FileName) (panel : PanelInfo P.net) (app : App P)
      (w : World P)
      → app.server ≡ none
      → (do_start P reads writes panel app w).0 ≡ none
      → RunsAfter (do_start P reads writes panel app w)
  start_running L reads writes panel app w unserved h =
      let same = start_serves P L reads writes panel app w unserved h in
      let (app2, w2) = open_panel P app w in
      subst RunsAfter (sym same)
        (serve_runs reads writes panel app2 w2 (ap (λ (r : Step P). r.0) (sym same) ∙ h))

  -- Whatever state the application is in, also with a server that a Rotate over gRPC has stopped:
  -- if a Start behind a Stop reports success, the server runs.
  pub stop_start_runs :
      (L : IsHost P.host) (reads writes : List FileName) (panel : PanelInfo P.net) (app : App P)
      (w : World P)
      → (do_start P reads writes panel (do_stop P app w).0 (do_stop P app w).1).0 ≡ none
      → do_is_running P (do_start P reads writes panel (do_stop P app w).0 (do_stop P app w).1).1
        ≡ true
  unfolding do_stop
  stop_start_runs L reads writes panel app w h =
      let (app1, w1) = do_stop P app w in start_running L reads writes panel app1 w1 refl h

module _ (P : Platform) (L : IsHost P.host) where
  -- A Stop and a Start keep the credentials: where the files in the directory of the application are
  -- those of a certificate manager, and the Start reports success, the server that runs has the
  -- certificates and tokens of this manager, and its files are still on disk, in whatever order they
  -- are read.
  pub restart_keeps_credentials :
      (reads writes : List FileName) (panel : PanelInfo P.net) (app : App P) (w : World P)
      (cm : CertManager)
      → Stored P.host L cm w.disk
      → VisitsPem reads
      → P.tls_dir app.files_dir ≡ cm.tls_dir
      → let (app1, w1) = do_stop P app w in
        (do_start P reads writes panel app1 w1).0 ≡ none
        → Serves P L cm
            ((do_start P reads writes panel app1 w1).1, (do_start P reads writes panel app1 w1).2)
  unfolding do_stop
  restart_keeps_credentials reads writes panel app w cm stored all dir h =
      let (app1, w1) = do_stop P app w in
      start_takes P L reads writes panel app1 w1 cm refl stored all dir h
