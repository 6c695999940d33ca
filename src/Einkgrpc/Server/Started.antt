-- ===== src/Einkgrpc/Server/Started.antt =====
-- What a Start that succeeds leaves.
use tableaux_eink_go.Base.{◌≡◌, inl, inr, true, none, some, arith, Bool-cases}
use tableaux_eink_go.Base.Int.{ℤ}
use tableaux_eink_go.Base.Text.{Str}
use tableaux_eink_go.Base.Errors.{GoError, Result-cases}
use tableaux_eink_go.Einkgrpc.Net.{Net}
use tableaux_eink_go.Einkgrpc.Server.{Server, PanelInfo, start, listen_and_serve, advertise_server}

module _ (N : Net) (panel : PanelInfo N) (fp : Str → Str) where
  advertise_keeps :
      (s : Server N) (w : N.State)
      → ((advertise_server N panel fp s w).1.cm ≡ s.cm)
        × ((advertise_server N panel fp s w).1.running ≡ s.running)
  unfolding advertise_server
  advertise_keeps s w = elim (Bool-cases s.cfg.enable_mdns) [
    | inl q ↦ (ground arith, ground arith)
    | inr q ↦ (ground arith, ground arith)
  ]

  -- A Start that succeeds leaves the server running, with the certificates that it had.
  pub start_runs :
      (s : Server N) (w : N.State)
      → (start N panel fp s w).0 ≡ none
      → ((start N panel fp s w).1.cm ≡ s.cm) × ((start N panel fp s w).1.running ≡ true)
  unfolding start listen_and_serve
  start_runs s w h = elim (Result-cases (N.listen s.cfg.port w).0) [
    | inr (e, q) ↦ absurd (ground arith)
    | inl ((c, t), q) ↦
        let s' = record s {
          port = (elim t as (λ _. ℤ) [ none ↦ s.port | some p ↦ p ]);
          srv = some c;
          running = true;
        } in
        let kept = advertise_keeps s' (N.listen s.cfg.port w).1 in
        (ground (arith, kept.0), ground (arith, kept.1))
  ]

  advertise_succeeds : (s : Server N) (w : N.State) → (advertise_server N panel fp s w).0 ≡ none
  unfolding advertise_server
  advertise_succeeds s w = elim (Bool-cases s.cfg.enable_mdns) [
    | inl q ↦ ground arith
    | inr q ↦ ground arith
  ]

  -- A Start that fails leaves the server as it was.
  pub start_failed :
      (s : Server N) (w : N.State) (e : GoError)
      → (start N panel fp s w).0 ≡ some e
      → (start N panel fp s w).1 ≡ s
  unfolding start listen_and_serve
  start_failed s w e h = elim (Result-cases (N.listen s.cfg.port w).0) [
    | inr (e', q) ↦ ground (arith, q, h)
    | inl ((c, t), q) ↦
        let s' = record s {
          port = (elim t as (λ _. ℤ) [ none ↦ s.port | some p ↦ p ]);
          srv = some c;
          running = true;
        } in
        ground (arith, q, h, advertise_succeeds s' (N.listen s.cfg.port w).1)
  ]
