-- ===== src/Einkapp/Calls/Steps.antt =====
-- That the calls of the host of the application keep what holds of it.
use tableaux_eink_go.Base.{
  ℕ, ◌≡◌, refl, subst, sym, ◌∙◌, inl, inr, Bool, true, none, some, List, arith, Bool-cases,
}
use tableaux_eink_go.Base.Text.{Str, str, is_empty}
use tableaux_eink_go.Base.Errors.{plain, Result-cases}
use tableaux_eink_go.Einkgrpc.Host.{FileName}
use tableaux_eink_go.Einkgrpc.Net.{IsNet}
use tableaux_eink_go.Einkgrpc.CertManager.{Failure, returned, rotate}
use tableaux_eink_go.Einkgrpc.CertManager.Directory.{regenerate_dir}
use tableaux_eink_go.Einkgrpc.Server.{Config, Server, PanelInfo, new_server, rotate_request}
use tableaux_eink_go.Einkgrpc.Server
use tableaux_eink_go.Einkgrpc.Server.Lifecycle.{Owns, moved, stop_ends}
use tableaux_eink_go.Einkapp.{
  Platform, World, App, do_init, do_start, do_stop, do_rotate, do_set_device_path,
}
use tableaux_eink_go.Einkapp.Calls.Holds.{Free, Hosts, Holds, HoldsAfter, start-Holds}

module _ (P : Platform) (L : IsNet P.net) (first : ℕ → Bool) where
  pub stop-Holds :
      (app : App P) (w : World P)
      → Holds P L first (app, w)
      → ((do_stop P app w).0.server ≡ none) × Free P L first (do_stop P app w).1
  unfolding do_stop
  stop-Holds app w (inl (unserved, free)) = (refl, λ b. ground (arith, unserved, free b))
  stop-Holds app w (inr (srv, (on, has, dir, o))) =
      (refl, λ b. ground (arith, has, (stop_ends P.net L first srv w.sockets b o).2))

  -- Another server with the same state and directory.
  pub changed-Holds :
      (app : App P) (w : World P) (srv srv' : Server P.net) (n : P.net.State) (h : P.host.State)
      → Hosts P L first srv (app, w)
      → srv'.cm.tls_dir ≡ srv.cm.tls_dir
      → Owns P.net L first srv' n
      → Holds P L first (record app { server = some srv' }, record w { disk = h; sockets = n })
  changed-Holds app w srv srv' n h (on, has, dir, o) same o' =
      inr (srv', (on, refl, same ∙ dir, o'))

  pub rotate-Holds :
      (order reads writes : List FileName) (panel : PanelInfo P.net) (app : App P) (w : World P)
      → Holds P L first (app, w)
      → HoldsAfter P L first (do_rotate P order reads writes panel app w)
  unfolding do_rotate
  rotate-Holds order reads writes panel app w (inl (unserved, free)) =
      let none_runs : Failure = returned (plain (str "einkapp: server not running")) in
      let same : do_rotate P order reads writes panel app w ≡ (some none_runs, app, w) =
        ground (arith, unserved) in
      subst (HoldsAfter P L first) (sym same) (inl (unserved, free))
  rotate-Holds order reads writes panel app w (inr (srv, (on, has, dir, o))) =
      let (r, cm, h) = rotate P.host order srv.cm w.disk in
      let srv' : Server P.net = record srv { cm = cm } in
      let app1 : App P = record app { server = none } in
      let w1 : World P = record w { disk = h; sockets = (Server.stop P.net srv' w.sockets).1 } in
      let o' = moved P.net L first srv srv' w.sockets w.sockets refl refl (λ b. refl) o in
      elim (Result-cases r) [
        | inr (e, q) ↦
            let same : do_rotate P order reads writes panel app w
                ≡ (some e, record app { server = some srv' }, record w { disk = h }) =
              ground (arith, has, q) in
            subst (HoldsAfter P L first) (sym same) (
              changed-Holds app w srv srv' w.sockets h (on, has, dir, o)
                (regenerate_dir P.host order srv.cm w.disk) o')
        | inl (u, q) ↦
            let same : do_rotate P order reads writes panel app w
                ≡ do_start P reads writes panel app1 w1 =
              ground (arith, has, q) in
            subst (HoldsAfter P L first) (sym same) (
              start-Holds P L first reads writes panel app1 w1
                (inl (refl, λ b. (stop_ends P.net L first srv' w.sockets b o').2)))
      ]

  pub init-Holds :
      (dir : Str) (app : App P) (w : World P)
      → Holds P L first (app, w)
      → HoldsAfter P L first (do_init P dir app w)
  unfolding do_init
  init-Holds dir app w h = elim (Bool-cases app.inited) [
    | inl q ↦
        let same : do_init P dir app w ≡ (none, app, w) = ground (arith, q) in
        subst (HoldsAfter P L first) (sym same) h
    | inr q ↦ elim (Bool-cases (is_empty dir)) [
      | inl z ↦
          let no_dir : Failure = returned (plain (str "einkapp: filesDir is required")) in
          let same : do_init P dir app w ≡ (some no_dir, app, w) = ground (arith, q, z) in
          subst (HoldsAfter P L first) (sym same) h
      | inr z ↦
          let app' : App P = record app { files_dir = dir; inited = true } in
          let same : do_init P dir app w ≡ (none, app', w) = ground (arith, q, z) in
          elim h [
            | inl free ↦ subst (HoldsAfter P L first) (sym same) (inl free)
            | inr (srv, (on, _, _, _)) ↦ absurd (cc)
          ]
    ]
  ]

  pub path-Holds :
      (p : Str) (app : App P) (w : World P)
      → Holds P L first (app, w)
      → Holds P L first (do_set_device_path P p app, w)
  unfolding do_set_device_path
  path-Holds p app w (inl h) = inl h
  path-Holds p app w (inr (srv, h)) = inr (srv, h)
