-- ===== src/Einkapp/Calls/Rotated.antt =====
-- RotateNow after any calls.
use tableaux_eink_go.Base.{ℕ, Bool, ◌≡◌, inl, inr, none, some, List, arith}
use tableaux_eink_go.Einkgrpc.Host.{FileName, IsHost}
use tableaux_eink_go.Einkgrpc.Net.{IsNet}
use tableaux_eink_go.Einkgrpc.CertManager.{rotate}
use tableaux_eink_go.Einkgrpc.CertManager.Storage.{VisitsAll}
use tableaux_eink_go.Einkgrpc.CertManager.Reload.{VisitsPem}
use tableaux_eink_go.Einkgrpc.Server.{Server, PanelInfo}
use tableaux_eink_go.Einkapp.{Platform, World, App, do_rotate}
use tableaux_eink_go.Einkapp.Startup.{Serves}
use tableaux_eink_go.Einkapp.Rotation.{rotate_takes_effect}
use tableaux_eink_go.Einkapp.Calls.{Call, run_calls}
use tableaux_eink_go.Einkapp.Calls.Holds.{Holds}
use tableaux_eink_go.Einkapp.Calls.Sound.{calls_lem}

module _ (P : Platform) (HL : IsHost P.host) (L : IsNet P.net) where
  kept_in :
      (first : ℕ → Bool) (app : App P) (w : World P) (srv : Server P.net)
      → Holds P L first (app, w)
      → app.server ≡ some srv
      → P.tls_dir app.files_dir ≡ srv.cm.tls_dir
  kept_in first app w srv (inl (unserved, _)) has = absurd (cc)
  kept_in first app w srv (inr (srv', (_, has', dir, _))) has = ground (arith, has, has', dir)

  -- However an application without a server has been called: if it then has a server, and a RotateNow
  -- reports success, a server runs with the credentials that Rotate made of those of the server
  -- before, and these are what is on disk, in whatever orders the files are gone through.
  pub rotate_now-Serves :
      (calls : List (Call P)) (order reads writes : List FileName) (panel : PanelInfo P.net)
      (app : App P) (w : World P) (srv : Server P.net)
      → app.server ≡ none
      → (run_calls P calls app w).0.server ≡ some srv
      → VisitsAll order
      → VisitsPem reads
      → let (app1, w1) = run_calls P calls app w in
        (do_rotate P order reads writes panel app1 w1).0 ≡ none
        → Serves P HL (rotate P.host order srv.cm w1.disk).1 (
          (do_rotate P order reads writes panel app1 w1).1,
          (do_rotate P order reads writes panel app1 w1).2,
        )
  rotate_now-Serves calls order reads writes panel app w srv unserved has all pem h =
      let (app1, w1) = run_calls P calls app w in
      let dir =
        kept_in (λ b. L.bound b w.sockets) app1 w1 srv (calls_lem P L app w calls unserved) has in
      rotate_takes_effect P HL order reads writes panel app1 w1 srv has dir all pem h
