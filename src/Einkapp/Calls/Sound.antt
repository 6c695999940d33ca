-- ===== src/Einkapp/Calls/Sound.antt =====
-- What holds of the application after any calls.
use tableaux_eink_go.Base.{
  ℕ, ◌≡◌, refl, subst, sym, ap, inl, inr, Bool, true, none, some, List, [], ◌∷◌, arith, Bool-cases,
}
use tableaux_eink_go.Base.Int.{ℤ}
use tableaux_eink_go.Base.Errors.{Result-cases}
use tableaux_eink_go.Einkgrpc.Host.{FileName, Host}
use tableaux_eink_go.Einkgrpc.Net.{Net, IsNet}
use tableaux_eink_go.Einkgrpc.CertManager.{CertManager, rotate, reissue_client_cert}
use tableaux_eink_go.Einkgrpc.CertManager.Directory.{regenerate_dir, reissue_dir}
use tableaux_eink_go.Einkgrpc.Credentials.{rotate_credentials, reissue}
use tableaux_eink_go.Einkgrpc.Server.{Config, Server, PanelInfo, new_server, rotate_request}
use tableaux_eink_go.Einkgrpc.Server
use tableaux_eink_go.Einkgrpc.Server.Lifecycle.{moved, stop_ends}
use tableaux_eink_go.Einkapp.{Platform, World, App, do_stop}
use tableaux_eink_go.Einkapp.Calls.Holds.{Holds, start-Holds}
use tableaux_eink_go.Einkapp.Calls.{
  Call, init, start, stop, set_device_path, rotate_now, client_rotates, client_reissues,
  called_back, serve_rotation, serve_client_cert, call_back, perform, run_calls,
}
use tableaux_eink_go.Einkapp.Calls.Steps.{
  stop-Holds, changed-Holds, rotate-Holds, init-Holds, path-Holds,
}

module _ (H : Host) where
  -- What the handlers leave is what the methods of the manager leave.
  rotation_leaves :
      (order : List FileName) (at : ℤ) (cm : CertManager) (s : H.State)
      → (rotate_credentials H order true at cm s).1 ≡ (rotate H order cm s).1
  unfolding rotate_credentials
  rotation_leaves order at cm s = elim (Result-cases (rotate H order cm s).0) [
    | inl (u, q) ↦ ground (arith, q)
    | inr (e, q) ↦ ground (arith, q)
  ]

  reissue_leaves :
      (cm : CertManager) (s : H.State) → (reissue H true cm s).1 ≡ (reissue_client_cert H cm s).1
  unfolding reissue
  reissue_leaves cm s = elim (Result-cases (reissue_client_cert H cm s).0) [
    | inl (u, q) ↦ ground (arith, q)
    | inr (e, q) ↦ ground (arith, q)
  ]

stop_keeps : (N : Net) (s : Server N) (w : N.State) → (Server.stop N s w).0.cm ≡ s.cm
unfolding Server.stop
stop_keeps N s w = elim (Bool-cases s.running) [
  | inl q ↦ ground (arith, q)
  | inr q ↦ ground (arith, q)
]

module _ (P : Platform) (L : IsNet P.net) (first : ℕ → Bool) where
  serve_rotation-Holds :
      (order : List FileName) (at : ℤ) (app : App P) (w : World P)
      → Holds P L first (app, w)
      → Holds P L first (serve_rotation P order at app w)
  unfolding serve_rotation rotate_credentials
  serve_rotation-Holds order at app w (inl (unserved, free)) =
      let same : serve_rotation P order at app w ≡ (app, w) = ground (arith, unserved) in
      subst (Holds P L first) (sym same) (inl (unserved, free))
  serve_rotation-Holds order at app w (inr (srv, (on, has, dir, o))) =
      let (_, cm, h) = rotate P.host order srv.cm w.disk in
      let srv' : Server P.net = record srv { cm = cm } in
      let o' = moved P.net L first srv srv' w.sockets w.sockets refl refl (λ b. refl) o in
      elim (Bool-cases srv.running) [
        | inr q ↦
            let same : serve_rotation P order at app w ≡ (app, w) = ground (arith, has, q) in
            subst (Holds P L first) (sym same) (inr (srv, (on, has, dir, o)))
        | inl q ↦
            let same : serve_rotation P order at app w
                ≡ (record app { server = some srv' }, record w { disk = h }) =
              ground (arith, has, q, rotation_leaves P.host order at srv.cm w.disk) in
            subst (Holds P L first) (sym same) (
              changed-Holds P L first app w srv srv' w.sockets h (on, has, dir, o)
                (regenerate_dir P.host order srv.cm w.disk) o')
      ]

  serve_client_cert-Holds :
      (app : App P) (w : World P)
      → Holds P L first (app, w)
      → Holds P L first (serve_client_cert P app w)
  unfolding serve_client_cert reissue
  serve_client_cert-Holds app w (inl (unserved, free)) =
      let same : serve_client_cert P app w ≡ (app, w) = ground (arith, unserved) in
      subst (Holds P L first) (sym same) (inl (unserved, free))
  serve_client_cert-Holds app w (inr (srv, (on, has, dir, o))) =
      let (_, cm, h) = reissue_client_cert P.host srv.cm w.disk in
      let srv' : Server P.net = record srv { cm = cm } in
      let o' = moved P.net L first srv srv' w.sockets w.sockets refl refl (λ b. refl) o in
      elim (Bool-cases srv.running) [
        | inr q ↦
            let same : serve_client_cert P app w ≡ (app, w) = ground (arith, has, q) in
            subst (Holds P L first) (sym same) (inr (srv, (on, has, dir, o)))
        | inl q ↦
            let same : serve_client_cert P app w
                ≡ (record app { server = some srv' }, record w { disk = h }) =
              ground (arith, has, q, reissue_leaves P.host srv.cm w.disk) in
            subst (Holds P L first) (sym same) (
              changed-Holds P L first app w srv srv' w.sockets h (on, has, dir, o)
                (reissue_dir P.host srv.cm w.disk) o')
      ]

  call_back-Holds :
      (app : App P) (w : World P) → Holds P L first (app, w) → Holds P L first (call_back P app w)
  unfolding call_back rotate_request
  call_back-Holds app w (inl (unserved, free)) =
      let same : call_back P app w ≡ (app, w) = ground (arith, unserved) in
      subst (Holds P L first) (sym same) (inl (unserved, free))
  call_back-Holds app w (inr (srv, (on, has, dir, o))) =
      let told : Server P.net = record srv { rotate_req = 1 } in
      let (srv', n) = rotate_request P.net srv w.sockets in
      let o' = moved P.net L first srv told w.sockets w.sockets refl refl (λ b. refl) o in
      let same : call_back P app w ≡ (record app { server = some srv' }, record w { sockets = n }) =
        ground (arith, has) in
      let ended = λ (b : ℕ). stop_ends P.net L first told w.sockets b o' in
      subst (Holds P L first) (sym same) (
        changed-Holds P L first app w srv srv' n w.disk (on, has, dir, o)
          (ap (λ (m : CertManager). m.tls_dir) (stop_keeps P.net told w.sockets))
          (inl ((ended 0).0, (ended 0).1, λ b. (ended b).2)))

  perform-Holds :
      (c : Call P) (app : App P) (w : World P)
      → Holds P L first (app, w)
      → Holds P L first (perform P c app w)
  unfolding perform
  perform-Holds (init dir) app w h = init-Holds P L first dir app w h
  perform-Holds (start reads writes panel) app w h =
      start-Holds P L first reads writes panel app w h
  perform-Holds stop app w h = inl (stop-Holds P L first app w h)
  perform-Holds (set_device_path p) app w h = path-Holds P L first p app w h
  perform-Holds (rotate_now order reads writes panel) app w h =
      rotate-Holds P L first order reads writes panel app w h
  perform-Holds (client_rotates order at) app w h = serve_rotation-Holds order at app w h
  perform-Holds client_reissues app w h = serve_client_cert-Holds app w h
  perform-Holds called_back app w h = call_back-Holds app w h

  pub run-Holds :
      (calls : List (Call P)) (app : App P) (w : World P)
      → Holds P L first (app, w)
      → Holds P L first (run_calls P calls app w)
  unfolding run_calls
  run-Holds [] app w h = h
  run-Holds (c ∷ calls) app w h =
      let (app', w') = perform P c app w in run-Holds calls app' w' (perform-Holds c app w h)

module _ (P : Platform) (L : IsNet P.net) (app : App P) (w : World P) where
  -- However an application without a server is called, and whichever of these calls fail: either it
  -- has no server, and the sockets of the host are those from before; or it has been initialised, has
  -- a server whose credentials are kept in the application's directory, and this runs exactly when it
  -- serves a listener, and the sockets are those from before and this one, which was free before.
  pub calls_lem :
      (calls : List (Call P))
      → app.server ≡ none
      → Holds P L (λ b. L.bound b w.sockets) (run_calls P calls app w)
  calls_lem calls unserved =
      run-Holds P L (λ b. L.bound b w.sockets) calls app w (inl (unserved, λ b. refl))

  -- A Stop, after whatever calls of an application that had no server, leaves it without a server
  -- and a display, and the sockets as they were before these calls.
  pub calls_stop :
      (calls : List (Call P)) (b : ℕ)
      → app.server ≡ none
      → let (app1, w1) = run_calls P calls app w in
        let (app2, w2) = do_stop P app1 w1 in
        (app2.server ≡ none) × (app2.display ≡ none) × (L.bound b w2.sockets ≡ L.bound b w.sockets)
  unfolding do_stop
  calls_stop calls b unserved =
      let (app1, w1) = run_calls P calls app w in
      let (_, free) =
        stop-Holds P L (λ a. L.bound a w.sockets) app1 w1 (calls_lem calls unserved) in
      (refl, refl, free b)
