-- ===== src/Einkgrpc/Server/Overlap/Sockets.antt =====
-- The sockets under any interleaving of Start and the parts of Stop.
use tableaux_eink_go.Base.{
  ℕ, zero, suc, ◌+◌, ◌≤◌, ◌≡◌, refl, subst, sym, ap, ◌∙◌, inl, inr, true, false, Option, none, some,
  List, [], ◌∷◌, arith, if◌then◌else◌, ◌==◌, Bool-cases, Option-cases,
}
use tableaux_eink_go.Base.Int.{ℤ}
use tableaux_eink_go.Base.Text.{Str}
use tableaux_eink_go.Base.Errors.{GoError, Result-cases}
use tableaux_eink_go.Einkgrpc.Net.{Net, IsNet}
use tableaux_eink_go.Einkgrpc.Mdns.{new_registrar, unregister}
use tableaux_eink_go.Einkgrpc.Server.{
  Server, PanelInfo, is_color, advertise_server, listen_and_serve, start, stop,
}
use tableaux_eink_go.Einkgrpc.Server.Lifecycle.{bound-unregister, bound-register, start_either}
use tableaux_eink_go.Einkgrpc.Server.Overlap.{
  Phase, loading, storing, releasing, Stopping, Scene, release, advance_by, advance, replace,
  advance_at, Move, starting, taking, going_on, play_move, play, whole_stop,
}

module _ (N : Net) (L : IsNet N) where
  -- How many of the calls under way, and of the server itself, hold the server of a socket.
  abbrev pub held : Option N.Conn → ℕ → ℕ
  held none b = 0
  held (some c) b = if b == L.socket c then 1 else 0

  abbrev pub held_by : List (Stopping N) → ℕ → ℕ
  held_by [] b = 0
  held_by (p ∷ ps) b = held p.srv b + held_by ps b

  abbrev pub is_bound : N.State → ℕ → ℕ
  is_bound w b = if L.bound b w then 1 else 0

  abbrev pub Once : Server N → N.State → List (Stopping N) → Type 0
  Once s w ps = (b : ℕ) → held s.srv b + held_by ps b ≤ is_bound w b

  bound-release_mdns :
      (p : Stopping N) (w : N.State) (b : ℕ)
      → L.bound b (elim p.mdns as (λ _. N.State) [ none ↦ w | some z ↦ (unregister N z w).1 ])
        ≡ L.bound b w
  bound-release_mdns p w b = elim (Option-cases p.mdns) [
    | inl q ↦ rw q refl
    | inr (z, q) ↦ rw q (bound-unregister N L z w b)
  ]

  release-Once :
      (p : Stopping N) (w : N.State) (n b : ℕ)
      → n + held p.srv b ≤ is_bound w b
      → n ≤ is_bound (release N p w) b
  release-Once p w n b h =
      let w1 = elim p.mdns as (λ _. N.State) [ none ↦ w | some z ↦ (unregister N z w).1 ] in
      let same = bound-release_mdns p w b in
      elim (Option-cases p.srv) [
        | inl q ↦ ground (arith, same, h)
        | inr (c, q) ↦ let down = L.bound-shutdown c w1 b in ground (arith, same, down, h)
      ]

  advance-Once :
      (x : Phase) (p : Stopping N) (s : Server N) (w : N.State) (n b : ℕ)
      → let (rest, s', w') = advance_by N x p s w in
        held s.srv b + (held p.srv b + n) ≤ is_bound w b
        → held s'.srv b + held_by (replace N rest []) b + n ≤ is_bound w' b
  advance-Once loading p s w n b h = elim (Bool-cases s.running) [
    | inl q ↦ ground (arith, q, h)
    | inr q ↦ ground (arith, q, h)
  ]
  advance-Once storing p s w n b h = ground (arith, h)
  advance-Once releasing p s w n b h =
      ground (arith, release-Once p w (held s.srv b + n) b (omega (arith, h)))

  held_by-replace :
      (o : Option (Stopping N)) (ps : List (Stopping N)) (b : ℕ)
      → held_by (replace N o ps) b ≡ held_by (replace N o []) b + held_by ps b
  held_by-replace none ps b = omega arith
  held_by-replace (some p) ps b = omega arith

  advance_at-Once :
      (k : ℕ) (ps : List (Stopping N)) (s : Server N) (w : N.State) (n b : ℕ)
      → held s.srv b + (held_by ps b + n) ≤ is_bound w b
      → let (ps', s', w') = advance_at N k ps s w in
        held s'.srv b + held_by ps' b + n ≤ is_bound w' b
  advance_at-Once k [] s w n b h = omega (arith, h)
  advance_at-Once zero (p ∷ ps) s w n b h =
      let (rest, s', w') = advance N p s w in
      omega (
        arith,
        held_by-replace rest ps b,
        advance-Once p.phase p s w (held_by ps b + n) b (omega (arith, h)),
      )
  advance_at-Once (suc k) (p ∷ ps) s w n b h =
      let more = advance_at-Once k ps s w (held p.srv b + n) b (omega (arith, h)) in
      omega (arith, more)

  binds :
      (c : N.Conn) (w : N.State) (m n b : ℕ)
      → L.bound (L.socket c) w ≡ false
      → m + n ≤ is_bound w b
      → held (some c) b + n ≤ (if (if b == L.socket c then true else L.bound b w) then 1 else 0)
  binds c w m n b free h = elim (Bool-cases (b == L.socket c)) [
    | inl z ↦
        let at : b ≡ L.socket c = ground (arith, z) in
        let unbound = ap (λ a. L.bound a w) at ∙ free in ground (arith, z, unbound, h)
    | inr z ↦ ground (arith, z, h)
  ]

  module _ (panel : PanelInfo N) (fp : Str → Str) where
    advertise_sockets :
        (s : Server N) (w : N.State) (b : ℕ)
        → ((advertise_server N panel fp s w).1.srv ≡ s.srv)
          × (L.bound b (advertise_server N panel fp s w).2 ≡ L.bound b w)
    unfolding advertise_server
    advertise_sockets s w b =
        let same =
          bound-register N L s.port (is_color N panel) (fp s.cm.server_cer) s.cfg.server_version
            (new_registrar N) w b in
        elim (Bool-cases s.cfg.enable_mdns) [
          | inl q ↦ (ground (arith, q), ground (arith, q, same))
          | inr q ↦ (ground (arith, q), ground (arith, q))
        ]

    listen-Once :
        (s : Server N) (w : N.State) (n b : ℕ)
        → held s.srv b + n ≤ is_bound w b
        → let (_, s', w') = listen_and_serve N panel fp s w in held s'.srv b + n ≤ is_bound w' b
    unfolding listen_and_serve
    listen-Once s w n b h = elim (Result-cases (N.listen s.cfg.port w).0) [
      | inr (e, q) ↦
          let kept = L.bound-listen_failed s.cfg.port w e b q in ground (arith, q, kept, h)
      | inl ((c, t), q) ↦
          let free = L.listen_fresh s.cfg.port w c t q in
          let taken = L.bound-listen s.cfg.port w c t b q in
          let w1 = (N.listen s.cfg.port w).1 in
          let s' = record s {
            port = (elim t as (λ _. ℤ) [ none ↦ s.port | some p ↦ p ]);
            srv = some c;
            running = true;
          } in
          let after = advertise_sockets s' w1 b in
          let goes_on : listen_and_serve N panel fp s w ≡ advertise_server N panel fp s' w1 =
            ground (arith, q) in
          subst (λ (r : Option GoError × Server N × N.State). held r.1.srv b + n ≤ is_bound r.2 b)
            (sym goes_on) (rw (after.0, after.1, taken) (binds c w (held s.srv b) n b free h))
    ]

    start-Once :
        (s : Server N) (w : N.State) (n b : ℕ)
        → held s.srv b + n ≤ is_bound w b
        → let (_, s', w') = start N panel fp s w in held s'.srv b + n ≤ is_bound w' b
    start-Once s w n b h = elim (start_either N L panel fp s w) [
      | inr (p, q) ↦ rw (p, q) h
      | inl (off, goes_on) ↦
          subst (λ (r : Option GoError × Server N × N.State). held r.1.srv b + n ≤ is_bound r.2 b)
            (sym goes_on) (listen-Once s w n b h)
    ]

  move-Once :
      (fp : Str → Str) (m : Move N) (x : Scene N)
      → Once x.server x.world x.stopping
      → let y = play_move N fp m x in Once y.server y.world y.stopping
  move-Once fp (starting panel) x h b =
      start-Once panel fp x.server x.world (held_by x.stopping b) b (h b)
  move-Once fp taking x h b = omega (arith, h b)
  move-Once fp (going_on k) x h b =
      let more = advance_at-Once k x.stopping x.server x.world 0 b (omega (arith, h b)) in
      omega (arith, more)

  play-Once :
      (fp : Str → Str) (ms : List (Move N)) (x : Scene N)
      → Once x.server x.world x.stopping
      → let y = play N fp ms x in Once y.server y.world y.stopping
  play-Once fp [] x h = h
  play-Once fp (m ∷ ms) x h = play-Once fp ms (play_move N fp m x) (move-Once fp m x h)

  -- Over a documented network, however calls of Start and the parts of calls of Stop follow each
  -- other behind a state in which the server serves nothing and no Stop is under way: no two of the
  -- server and the calls of Stop under way hold the server of the same socket, and what they hold
  -- still has its socket. So nothing that serves is shut down twice, and what Start and Stop find
  -- in the server was not shut down.
  pub play_lem :
      (fp : Str → Str) (ms : List (Move N)) (s : Server N) (w : N.State) (b : ℕ)
      → s.srv ≡ none
      → let y = play N fp ms (record { server = s; world = w; stopping = [] }) in
        held y.server.srv b + held_by y.stopping b ≤ is_bound y.world b
  play_lem fp ms s w b unserved =
      play-Once fp ms (record { server = s; world = w; stopping = [] })
        (λ a. rw unserved (omega arith)) b

  -- A Stop between whose parts nothing else runs is the one step that Stop is elsewhere.
  pub whole_stop_lem :
      (fp : Str → Str) (s : Server N) (w : N.State)
      → let (s', w') = stop N s w in
        play N fp (whole_stop N) (record { server = s; world = w; stopping = [] })
        ≡ record { server = s'; world = w'; stopping = [] }
  unfolding stop
  whole_stop_lem fp s w = elim (Bool-cases s.running) [
    | inl q ↦ ground (arith, q)
    | inr q ↦ ground (arith, q)
  ]
