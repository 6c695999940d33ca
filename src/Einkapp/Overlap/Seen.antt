-- ===== src/Einkapp/Overlap/Seen.antt =====
-- What the variables are behind a Start of the sections, and a Start of one step.
use tableaux_eink_go.Base.{◌≡◌, ap, inl, inr, none, List, arith, Bool-cases, Option-cases}
use tableaux_eink_go.Base.Errors.{Result-cases}
use tableaux_eink_go.Einklib.Display.{open_display}
use tableaux_eink_go.Einkgrpc.Host.{FileName}
use tableaux_eink_go.Einkgrpc.Credentials.{fingerprint_pem}
use tableaux_eink_go.Einkgrpc.Server
use tableaux_eink_go.Einkgrpc.Server.{Server, PanelInfo, new_server}
use tableaux_eink_go.Einkapp.{
  Platform, World, App, server_config, bring_up, serve, open_panel, do_start, Step,
}
use tableaux_eink_go.Einkapp.Overlap.{Scene, view, at, play_start}

module _ (P : Platform) where
  -- The settings, which a Start leaves alone.
  abbrev SameSettings : App P → App P → Type 0
  SameSettings app app' =
      (app'.inited ≡ app.inited) × (app'.files_dir ≡ app.files_dir) × (app'.dev_path ≡ app.dev_path)

  serve_settings :
      (reads writes : List FileName) (panel : PanelInfo P.net) (app : App P) (w : World P)
      → SameSettings app (serve P reads writes panel app w).1
  unfolding serve bring_up
  serve_settings reads writes panel app w =
      let cfg = server_config app.files_dir in
      elim (Result-cases (new_server P.host P.net P.tls_dir reads writes cfg w.disk).0) [
        | inr (e, q) ↦ (ground (arith, q), ground (arith, q), ground (arith, q))
        | inl (srv, q) ↦
            let (r, srv1, n) = Server.start P.net panel (fingerprint_pem P.host) srv w.sockets in
            elim (Option-cases r) [
              | inr (e, z) ↦ (ground (arith, q, z), ground (arith, q, z), ground (arith, q, z))
              | inl z ↦ elim (Option-cases (P.service_start srv1.port w.android).0) [
                | inr (e, y) ↦
                    (ground (arith, q, z, y), ground (arith, q, z, y), ground (arith, q, z, y))
                | inl y ↦
                    (ground (arith, q, z, y), ground (arith, q, z, y), ground (arith, q, z, y))
              ]
            ]
      ]

  open_settings : (app : App P) (w : World P) → SameSettings app (open_panel P app w).0
  unfolding open_panel
  open_settings app w = elim (Result-cases (open_display P.kernel app.dev_path w.devices).0) [
    | inl (d, q) ↦ (ground (arith, q), ground (arith, q), ground (arith, q))
    | inr (e, q) ↦ (ground (arith, q), ground (arith, q), ground (arith, q))
  ]

  start_settings :
      (reads writes : List FileName) (panel : PanelInfo P.net) (app : App P) (w : World P)
      → app.server ≡ none
      → SameSettings app (do_start P reads writes panel app w).1
  unfolding do_start
  start_settings reads writes panel app w unserved =
      let (app1, w1) = open_panel P app w in
      let (a, b, c) = open_settings app w in
      let (a', b', c') = serve_settings reads writes panel app1 w1 in
      elim (Bool-cases app.inited) [
        | inr q ↦ (ground (arith, q), ground (arith, q), ground (arith, q))
        | inl q ↦ (
          ground (arith, q, unserved, a, a'),
          ground (arith, q, unserved, b, b'),
          ground (arith, q, unserved, c, c'),
        )
      ]

  -- What the variables, and all that is outside, are.
  abbrev pub seen : Scene P → App P × World P
  seen x = (view P x, x.world)

  -- What a step leaves.
  abbrev pub left : Step P → App P × World P
  left (r, app, w) = (app, w)

  pub seen-play_start :
      (reads writes : List FileName) (panel : PanelInfo P.net) (x : Scene P)
      → x.server ≡ none
      → seen (play_start P reads writes panel x)
        ≡ left (do_start P reads writes panel (view P x) x.world)
  unfolding play_start
  seen-play_start reads writes panel x unserved =
      let app = view P x in
      let started = do_start P reads writes panel app x.world in
      let (a, b, c) =
        start_settings reads writes panel app x.world (ap (at P x.servers) unserved) in
      elim (Option-cases started.1.server) [
        | inl q ↦ ground (arith, unserved, q, a, b, c)
        | inr (srv, q) ↦ ground (arith, unserved, q, a, b, c)
      ]
