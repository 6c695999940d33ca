-- ===== src/Einkgrpc/Server/Runs.antt =====
-- The server under any sequence of calls.
use tableaux_eink_go.Base.{
  ℕ, ◌≡◌, ◌↔◌, refl, inl, inr, Bool, false, Option, none, some, List, [], ◌∷◌, arith, Bool-cases,
  ◌&&◌, not,
}
use tableaux_eink_go.Base.Int.{ℤ}
use tableaux_eink_go.Base.Text.{Str}
use tableaux_eink_go.Base.Errors.{ok, Result-cases}
use tableaux_eink_go.Einkgrpc.Net.{Net, IsNet}
use tableaux_eink_go.Einkgrpc.Server.{
  Server, PanelInfo, advertise_server, listen_and_serve, start, stop, rotate_request,
}
use tableaux_eink_go.Einkgrpc.Server.Lifecycle.{moved, start-Owns, stop_ends, Owns}

module _ (N : Net) (L : IsNet N) where
  -- What the host of a server calls, and what a Rotate calls back.
  pub data Call : Type 0 where
    starting : PanelInfo N → Call
    stopping : Call
    rotating : Call

  abbrev pub run : (Str → Str) → List Call → Server N → N.State → Server N × N.State
  run fingerprint [] s w = (s, w)
  run fingerprint (starting panel ∷ calls) s w =
      let (_, s', w') = start N panel fingerprint s w in run fingerprint calls s' w'
  run fingerprint (stopping ∷ calls) s w = let (s', w') = stop N s w in run fingerprint calls s' w'
  run fingerprint (rotating ∷ calls) s w =
      let (s', w') = rotate_request N s w in run fingerprint calls s' w'

  stop-Owns :
      (first : ℕ → Bool) (s : Server N) (w : N.State)
      → Owns N L first s w
      → Owns N L first (stop N s w).0 (stop N s w).1
  stop-Owns first s w o =
      let at = λ (b : ℕ). stop_ends N L first s w b o in inl ((at 0).0, (at 0).1, λ b. (at b).2)

  run-Owns :
      (fingerprint : Str → Str) (calls : List Call) (first : ℕ → Bool) (s : Server N) (w : N.State)
      → Owns N L first s w
      → Owns N L first (run fingerprint calls s w).0 (run fingerprint calls s w).1
  unfolding rotate_request
  run-Owns fingerprint [] first s w o = o
  run-Owns fingerprint (starting panel ∷ calls) first s w o =
      run-Owns fingerprint calls first _ _ (start-Owns N L panel fingerprint first s w o)
  run-Owns fingerprint (stopping ∷ calls) first s w o =
      run-Owns fingerprint calls first _ _ (stop-Owns first s w o)
  run-Owns fingerprint (rotating ∷ calls) first s w o =
      let s' = record s { rotate_req = 1 } in
      run-Owns fingerprint calls first _ _
        (stop-Owns first s' w (moved N L first s s' w w refl refl (λ b. refl) o))

  -- However a server that does not run and serves nothing is started, stopped and told to rotate, and
  -- whichever of these fail: it runs exactly when it serves a listener, the sockets of the host are
  -- those from before and this one, which was free before, and if it does not run they are those from
  -- before.
  pub run_lem :
      (fingerprint : Str → Str) (calls : List Call) (s : Server N) (w : N.State)
      → s.running ≡ false
      → s.srv ≡ none
      → Owns N L (λ b. L.bound b w) (run fingerprint calls s w).0 (run fingerprint calls s w).1
  run_lem fingerprint calls s w off unserved =
      run-Owns fingerprint calls (λ b. L.bound b w) s w (inl (off, unserved, λ b. refl))

  -- After a Rotate has called back, whatever was called before, the server does not run, and the
  -- sockets are those from before its first start: the callback stops the server, and nothing
  -- starts it again.
  pub rotate_stops :
      (fingerprint : Str → Str) (calls : List Call) (s : Server N) (w : N.State) (b : ℕ)
      → s.running ≡ false
      → s.srv ≡ none
      → let (s1, w1) = run fingerprint calls s w in
        let (s2, w2) = rotate_request N s1 w1 in (s2.running ≡ false) × (L.bound b w2 ≡ L.bound b w)
  unfolding rotate_request
  rotate_stops fingerprint calls s w b off unserved =
      let first = λ (a : ℕ). L.bound a w in
      let (s1, w1) = run fingerprint calls s w in
      let s' = record s1 { rotate_req = 1 } in
      let o =
        moved N L first s1 s' w1 w1 refl refl (λ _. refl)
          (run_lem fingerprint calls s w off unserved) in
      let ended = stop_ends N L first s' w1 b o in (ended.0, ended.2)

  listen_succeeds :
      (panel : PanelInfo N) (fingerprint : Str → Str) (s : Server N) (w : N.State) (c : N.Conn)
      (t : Option ℤ)
      → (N.listen s.cfg.port w).0 ≡ ok (c, t)
      → ((listen_and_serve N panel fingerprint s w).0 ≡ none)
        × ((listen_and_serve N panel fingerprint s w).1.port
            ≡ (elim t as (λ _. ℤ) [ none ↦ s.port | some p ↦ p ]))
  unfolding listen_and_serve advertise_server
  listen_succeeds panel fingerprint s w c t q = elim (Bool-cases s.cfg.enable_mdns) [
    | inl z ↦ (ground arith, ground arith)
    | inr z ↦ (ground arith, ground arith)
  ]

  -- Start succeeds exactly when the server does not run, its key pair loads, there is a client
  -- certificate where clients must show one, and the port can be bound; whether the panel answers
  -- and whether the advertisement succeeds does not matter.
  pub start_iff :
      (panel : PanelInfo N) (fingerprint : Str → Str) (s : Server N) (w : N.State)
      → ((start N panel fingerprint s w).0 ≡ none) ↔ (
          (s.running ≡ false)
          × (N.key_pair_error s.cm.server_cer s.cm.server_key ≡ none)
          × ((s.cfg.enable_mtls && not (N.has_certificate s.cm.client_cer)) ≡ false)
          × (c : N.Conn) × (t : Option ℤ) × ((N.listen s.cfg.port w).0 ≡ ok (c, t)))
  unfolding start listen_and_serve
  start_iff panel fingerprint s w = (
    λ h. elim (Result-cases (N.listen s.cfg.port w).0) [
      | inr (e, q) ↦ absurd (ground arith)
      | inl ((c, t), q) ↦ (ground arith, ground arith, ground arith, c, t, q)
    ],
    λ (off, loads, shown, c, t, q). ground (arith, (listen_succeeds panel fingerprint s w c t q).0),
  )
