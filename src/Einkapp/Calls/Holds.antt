-- ===== src/Einkapp/Calls/Holds.antt =====
-- What holds of the application between its calls, and that Start keeps it.
use tableaux_eink_go.Base.{
  ℕ, ◌≡◌, refl, subst, sym, ap, ◌∙◌, ◌⊎◌, inl, inr, Bool, true, false, none, some, List, arith,
  Bool-cases, Option-cases,
}
use tableaux_eink_go.Base.Text.{Str, is_empty}
use tableaux_eink_go.Base.Errors.{ok, Result-cases}
use tableaux_eink_go.Einklib.Display.{open_display}
use tableaux_eink_go.Einkgrpc.Host.{FileName, Host}
use tableaux_eink_go.Einkgrpc.Net.{Net, IsNet}
use tableaux_eink_go.Einkgrpc.CertManager.{CertManager, returned, new_cert_manager}
use tableaux_eink_go.Einkgrpc.CertManager.Directory.{new_cert_manager_dir}
use tableaux_eink_go.Einkgrpc.Credentials.{fingerprint_pem}
use tableaux_eink_go.Einkgrpc.Server.{Config, Server, PanelInfo, new_server, rotate_request}
use tableaux_eink_go.Einkgrpc.Server
use tableaux_eink_go.Einkgrpc.Server.Started.{start_runs, start_failed}
use tableaux_eink_go.Einkgrpc.Server.Lifecycle.{Owns, start-Owns, stop_ends}
use tableaux_eink_go.Einkapp.{
  Platform, World, App, server_config, bring_up, serve, open_panel, do_start, Step, not_init,
}

-- A server that New makes.
made_server :
    (H : Host) (N : Net) (tls_dir : Str → Str) (reads writes : List FileName) (cfg : Config)
    (s : H.State) (srv : Server N)
    → (new_server H N tls_dir reads writes cfg s).0 ≡ ok srv
    → (srv.running ≡ false) × (srv.srv ≡ none) × (srv.cm.tls_dir ≡ tls_dir cfg.files_dir)
unfolding new_server
made_server H N tls_dir reads writes cfg s srv h = elim (Bool-cases (is_empty cfg.files_dir)) [
  | inl q ↦ absurd (ground (arith, q, h))
  | inr q ↦ elim (Result-cases (new_cert_manager H reads writes (tls_dir cfg.files_dir) s).0) [
    | inr (e, z) ↦ absurd (ground (arith, q, z, h))
    | inl (cm, z) ↦
        let dir = new_cert_manager_dir H reads writes (tls_dir cfg.files_dir) s cm z in
        (ground (arith, q, z, h), ground (arith, q, z, h), ground (arith, q, z, h, dir))
  ]
]

module _ (P : Platform) (L : IsNet P.net) (first : ℕ → Bool) where
  -- The sockets of the host are those at first.
  abbrev pub Free : World P → Type 0
  Free w = (b : ℕ) → L.bound b w.sockets ≡ first b

  -- The application has a server, which owns the sockets beyond those at first, and whose
  -- credentials are kept in its directory.
  abbrev pub Hosts : Server P.net → App P × World P → Type 0
  Hosts srv (app, w) =
      (app.inited ≡ true)
      × (app.server ≡ some srv)
      × (srv.cm.tls_dir ≡ P.tls_dir app.files_dir)
      × Owns P.net L first srv w.sockets

  abbrev pub Holds : App P × World P → Type 0
  Holds (app, w) = ((app.server ≡ none) × Free w) ⊎ ((srv : Server P.net) × Hosts srv (app, w))

  abbrev pub HoldsAfter : Step P → Type 0
  HoldsAfter r = Holds (r.1, r.2)

  bring_up-Holds :
      (srv : Server P.net) (app : App P) (w : World P)
      → app.inited ≡ true
      → srv.cm.tls_dir ≡ P.tls_dir app.files_dir
      → Owns P.net L first srv w.sockets
      → HoldsAfter (bring_up P srv app w)
  unfolding bring_up
  bring_up-Holds srv app w on dir o =
      let a = (P.service_start srv.port w.android).1 in
      let n = (Server.stop P.net srv w.sockets).1 in
      let app' : App P = record app { server = some srv } in
      let w' : World P = record w { android = a } in
      let app0 : App P = record app { server = none } in
      let w0 : World P = record w { android = a; sockets = n } in
      elim (Option-cases (P.service_start srv.port w.android).0) [
        | inl q ↦
            let up : bring_up P srv app w ≡ (none, app', w') = ground (arith, q) in
            subst HoldsAfter (sym up) (inr (srv, (on, refl, dir, o)))
        | inr (e, q) ↦
            let down : bring_up P srv app w ≡ (some (returned e), app0, w0) = ground (arith, q) in
            subst HoldsAfter (sym down)
              (inl (refl, λ b. (stop_ends P.net L first srv w.sockets b o).2))
      ]

  free_of :
      (srv : Server P.net) (n : P.net.State)
      → Owns P.net L first srv n
      → srv.running ≡ false
      → (b : ℕ) → L.bound b n ≡ first b
  free_of srv n (inl (_, _, free)) off = free
  free_of srv n (inr (on, _, _, _, _)) off = absurd (cc)

  serve-Holds :
      (reads writes : List FileName) (panel : PanelInfo P.net) (app : App P) (w : World P)
      → app.inited ≡ true
      → app.server ≡ none
      → Free w
      → HoldsAfter (serve P reads writes panel app w)
  unfolding serve
  serve-Holds reads writes panel app w on unserved free =
      let cfg = server_config app.files_dir in
      let (made, h) = new_server P.host P.net P.tls_dir reads writes cfg w.disk in
      let w1 : World P = record w { disk = h } in
      elim (Result-cases made) [
        | inr (e, q) ↦
            let same : serve P reads writes panel app w ≡ (some e, app, w1) = ground (arith, q) in
            subst HoldsAfter (sym same) (inl (unserved, free))
        | inl (srv, q) ↦
            let fp = fingerprint_pem P.host in
            let (r, srv1, n) = Server.start P.net panel fp srv w.sockets in
            let w2 : World P = record w1 { sockets = n } in
            let (off, unbound, dir) =
              made_server P.host P.net P.tls_dir reads writes cfg w.disk srv q in
            let o = start-Owns P.net L panel fp first srv w.sockets (inl (off, unbound, free)) in
            elim (Option-cases r) [
              | inl z ↦
                  let same : serve P reads writes panel app w ≡ bring_up P srv1 app w2 =
                    ground (arith, q, z) in
                  let kept = (start_runs P.net panel fp srv w.sockets z).0 in
                  subst HoldsAfter (sym same) (
                    bring_up-Holds srv1 app w2 on (ap (λ (m : CertManager). m.tls_dir) kept ∙ dir)
                      o)
              | inr (e, z) ↦
                  let same : serve P reads writes panel app w ≡ (some (returned e), app, w2) =
                    ground (arith, q, z) in
                  subst HoldsAfter (sym same) (
                    inl (
                      unserved,
                      free_of srv1 n o (
                          ap (λ (x : Server P.net). x.running)
                            (start_failed P.net panel fp srv w.sockets e z)
                          ∙ off),
                    ))
            ]
      ]

  -- What opening the panel does not touch.
  opened :
      (app : App P) (w : World P)
      → let (app', w') = open_panel P app w in
        (app'.inited ≡ app.inited)
        × (app'.server ≡ app.server)
        × (app'.files_dir ≡ app.files_dir)
        × (app'.dev_path ≡ app.dev_path)
        × (w'.sockets ≡ w.sockets)
  unfolding open_panel
  opened app w = elim (Result-cases (open_display P.kernel app.dev_path w.devices).0) [
    | inl (d, q) ↦ (
      ground (arith, q),
      ground (arith, q),
      ground (arith, q),
      ground (arith, q),
      ground (arith, q),
    )
    | inr (e, q) ↦ (
      ground (arith, q),
      ground (arith, q),
      ground (arith, q),
      ground (arith, q),
      ground (arith, q),
    )
  ]

  pub start-Holds :
      (reads writes : List FileName) (panel : PanelInfo P.net) (app : App P) (w : World P)
      → Holds (app, w)
      → HoldsAfter (do_start P reads writes panel app w)
  unfolding do_start
  start-Holds reads writes panel app w h = elim (Bool-cases app.inited) [
    | inr q ↦
        let same : do_start P reads writes panel app w ≡ (some (returned not_init), app, w) =
          ground (arith, q) in
        subst HoldsAfter (sym same) h
    | inl q ↦ elim h [
      | inr (srv, (on, has, dir, o)) ↦
          let same : do_start P reads writes panel app w ≡ (none, app, w) =
            ground (arith, q, has) in
          subst HoldsAfter (sym same) (inr (srv, (on, has, dir, o)))
      | inl (unserved, free) ↦
          let (app1, w1) = open_panel P app w in
          let (on, server, _, _, sockets) = opened app w in
          let same : do_start P reads writes panel app w ≡ serve P reads writes panel app1 w1 =
            ground (arith, q, unserved) in
          subst HoldsAfter (sym same) (
            serve-Holds reads writes panel app1 w1 (on ∙ q) (server ∙ unserved)
              (λ b. ap (L.bound b) sockets ∙ free b))
    ]
  ]
