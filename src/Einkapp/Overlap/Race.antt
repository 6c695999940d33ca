-- ===== src/Einkapp/Overlap/Race.antt =====
-- A RotateNow, and a Stop and a Start that run while it is under way, in the order in which the new
-- server is lost.
use tableaux_eink_go.Base.{
  ℕ, ◌<◌, ◌≡◌, ◌≢◌, refl, subst, sym, ap, ◌∙◌, inl, inr, Bool, true, none, some, List, [], ◌∷◌,
  arith, Option-cases, if◌then◌else◌, ◌==◌,
}
use tableaux_eink_go.Base.Errors.{ok}
use tableaux_eink_go.Einkgrpc.Host.{FileName, IsHost}
use tableaux_eink_go.Einkgrpc.Net.{IsNet}
use tableaux_eink_go.Einkgrpc.CertManager.{rotate}
use tableaux_eink_go.Einkgrpc.Server.{Server, PanelInfo}
use tableaux_eink_go.Einkapp.{Platform, World, App, do_start, do_stop, do_is_running}
use tableaux_eink_go.Einkapp.Recovery.{start_running}
use tableaux_eink_go.Einkapp.Calls.Holds.{Holds, start-Holds}
use tableaux_eink_go.Einkapp.Calls.Steps.{stop-Holds}
use tableaux_eink_go.Einkapp.Overlap.{
  Rotation, clearing, Scene, view, at, keep_started, play_start, Move, starting, stopping,
  rotating_now, going_on, play,
}
use tableaux_eink_go.Einkapp.Overlap.Seen.{seen, seen-play_start}

module _ (P : Platform) where
  -- RotateNow has stopped the server, and a Stop runs.
  abbrev pub interrupted : Rotation P → List (Move P)
  interrupted r = rotating_now r ∷ going_on 0 ∷ stopping ∷ going_on 0 ∷ []

  -- A Start runs, and RotateNow goes on to its end.
  abbrev pub resumed : List FileName → List FileName → PanelInfo P.net → List (Move P)
  resumed reads writes panel = starting reads writes panel ∷ going_on 0 ∷ going_on 0 ∷ []

  interrupted_lem :
      (x : Scene P) (r : Rotation P) (p : ℕ) (srv : Server P.net)
      → x.server ≡ some p
      → x.servers p ≡ some srv
      → x.doing ≡ []
      → (rotate P.host r.order srv.cm x.world.disk).0 ≡ ok tt
      → let y = play P (interrupted r) x in (y.server ≡ none) × (y.doing ≡ clearing r ∷ [])
  interrupted_lem x r p srv has stored idle made = elim (Option-cases x.display) [
    | inl z ↦
        (ground (arith, has, stored, idle, made, z), ground (arith, has, stored, idle, made, z))
    | inr (fd, z) ↦
        (ground (arith, has, stored, idle, made, z), ground (arith, has, stored, idle, made, z))
  ]

  -- A Start leaves the servers that there were in the store, and its own is not one of them.
  play_start_new :
      (reads writes : List FileName) (panel : PanelInfo P.net) (x : Scene P) (q : ℕ)
      → x.server ≡ none
      → q < x.next
      → let y = play_start P reads writes panel x in
        (y.servers q ≡ x.servers q) × (y.server ≢ some q) × (y.doing ≡ x.doing)
  unfolding play_start
  play_start_new reads writes panel x q unserved old =
      let started = do_start P reads writes panel (view P x) x.world in
      elim (Option-cases started.1.server) [
        | inl z ↦ (
          ground (arith, unserved, z),
          λ h. absurd (ground (arith, unserved, z, h)),
          ground (arith, unserved, z),
        )
        | inr (srv, z) ↦ (
          ground (arith, unserved, z, old),
          λ h. absurd (ground (arith, unserved, z, old, h)),
          ground (arith, unserved, z),
        )
      ]

module _ (P : Platform) (HL : IsHost P.host) (L : IsNet P.net) where
  -- The server in this place of the store runs and serves a socket, and neither the variable nor a
  -- call under way refers to it; nor does a Stop close the socket.
  abbrev pub Lost : ℕ → P.net.Conn → Scene P → Type 0
  Lost q c x =
      ((srv : Server P.net) × (x.servers q ≡ some srv) × (srv.running ≡ true) × (srv.srv ≡ some c))
      × (x.server ≢ some q)
      × (x.doing ≡ [])
      × (L.bound (L.socket c) x.world.sockets ≡ true)
      × (L.bound (L.socket c) (do_stop P (view P x) x.world).1.sockets ≡ true)

  -- A server that a Start brought up.
  abbrev Fresh : (ℕ → Bool) → App P × World P → Type 0
  Fresh first (app, w) =
      (srv : Server P.net) × (c : P.net.Conn) × (app.server ≡ some srv)
      × (srv.running ≡ true)
      × (srv.srv ≡ some c)
      × ((b : ℕ) → L.bound b w.sockets ≡ (if b == L.socket c then true else first b))

  Holds-Fresh :
      (first : ℕ → Bool) (app : App P) (w : World P)
      → Holds P L first (app, w)
      → do_is_running P app ≡ true
      → Fresh first (app, w)
  unfolding do_is_running
  Holds-Fresh first app w (inl (unserved, free)) runs = absurd (ground (arith, unserved, runs))
  Holds-Fresh first app w (inr (srv, (on, has, dir, inl (off, _, _)))) runs =
      absurd (ground (arith, has, runs, off))
  Holds-Fresh first app w (inr (srv, (on, has, dir, inr (up, c, serves, free, same)))) runs =
      (srv, c, has, up, serves, same)

  -- The sockets from before a call are bound after it.
  still_bound :
      (first : ℕ → Bool) (app : App P) (w : World P) (b : ℕ)
      → first b ≡ true
      → Holds P L first (app, w)
      → L.bound b w.sockets ≡ true
  still_bound first app w b was (inl (_, free)) = free b ∙ was
  still_bound first app w b was (inr (srv, (on, has, dir, inl (_, _, free)))) = free b ∙ was
  still_bound first app w b was (inr (srv, (on, has, dir, inr (up, c, serves, _, same)))) =
      ground (arith, same b, was)

  -- The rest of RotateNow forgets a server that was brought up meanwhile.
  forgotten :
      (r : Rotation P) (x : Scene P) (q : ℕ) (srv : Server P.net) (c : P.net.Conn)
      → x.servers q ≡ some srv
      → srv.running ≡ true
      → srv.srv ≡ some c
      → q < x.next
      → x.doing ≡ clearing r ∷ []
      → L.bound (L.socket c) x.world.sockets ≡ true
      → Lost q c (play P (going_on 0 ∷ going_on 0 ∷ []) x)
  forgotten r x q srv c stored runs serves old rest bound =
      let z : Scene P = record x { server = none; doing = [] } in
      let z' = play_start P r.reads r.writes r.panel z in
      let run : play P (going_on 0 ∷ going_on 0 ∷ []) x ≡ z' = ground (arith, rest) in
      let (kept, other, idle) = play_start_new P r.reads r.writes r.panel z q refl old in
      let first = λ (b : ℕ). L.bound b x.world.sockets in
      let started =
        start-Holds P L first r.reads r.writes r.panel (view P z) z.world (inl (refl, λ b. refl)) in
      let holds : Holds P L first (seen P z') =
        subst (Holds P L first) (sym (seen-play_start P r.reads r.writes r.panel z refl)) started in
      let (_, free) = stop-Holds P L first (view P z') z'.world holds in
      subst (Lost q c) (sym run) (
        (srv, kept ∙ stored, runs, serves),
        other,
        idle,
        still_bound first (view P z') z'.world (L.socket c) bound holds,
        free (L.socket c) ∙ bound,
      )

  brought_up :
      (reads writes : List FileName) (panel : PanelInfo P.net) (y : Scene P) (b : Server P.net)
      → y.server ≡ none
      → (do_start P reads writes panel (view P y) y.world).1.server ≡ some b
      → let started = do_start P reads writes panel (view P y) y.world in
        play_start P reads writes panel y
        ≡ keep_started P (some b) (record y { display = started.1.display; world = started.2 })
  unfolding play_start
  brought_up reads writes panel y b unserved up = ground (arith, unserved, up)

  resumed_lem :
      (r : Rotation P) (reads writes : List FileName) (panel : PanelInfo P.net) (y : Scene P)
      → y.server ≡ none
      → y.doing ≡ clearing r ∷ []
      → (do_start P reads writes panel (view P y) y.world).0 ≡ none
      → (c : P.net.Conn) × Lost y.next c (play P (resumed P reads writes panel) y)
  resumed_lem r reads writes panel y unserved rest succeeds =
      let none_served = ap (at P y.servers) unserved in
      let started = do_start P reads writes panel (view P y) y.world in
      let first = λ (b : ℕ). L.bound b y.world.sockets in
      let holds =
        start-Holds P L first reads writes panel (view P y) y.world
          (inl (none_served, λ b. refl)) in
      let runs = start_running P HL reads writes panel (view P y) y.world none_served succeeds in
      let (b, c, up, on, serves, sockets) = Holds-Fresh first started.1 started.2 holds runs in
      let bound : L.bound (L.socket c) started.2.sockets ≡ true =
        ground (arith, sockets (L.socket c)) in
      let x : Scene P =
        keep_started P (some b) (record y { display = started.1.display; world = started.2 }) in
      let same = brought_up reads writes panel y b unserved up in
      (
        c,
        subst (λ z. Lost y.next c (play P (going_on 0 ∷ going_on 0 ∷ []) z)) (sym same)
            (forgotten r x y.next b c (ground arith) on serves (omega arith) rest bound),
      )

  -- Of an application with a server and no call under way: where RotateNow has changed the
  -- credentials and stopped the server, and a Stop runs, and a Start that brings a server up, before
  -- RotateNow goes on, then RotateNow ends with this server lost: it runs and serves a socket, the
  -- variable does not refer to it, and a Stop does not close its socket.
  pub rotate_overlap_loses :
      (x : Scene P) (r : Rotation P) (reads writes : List FileName) (panel : PanelInfo P.net)
      (p : ℕ) (srv : Server P.net)
      → x.server ≡ some p
      → x.servers p ≡ some srv
      → x.doing ≡ []
      → (rotate P.host r.order srv.cm x.world.disk).0 ≡ ok tt
      → let y = play P (interrupted P r) x in
        (do_start P reads writes panel (view P y) y.world).0 ≡ none
        → (q : ℕ) × (c : P.net.Conn) × Lost q c (play P (resumed P reads writes panel) y)
  rotate_overlap_loses x r reads writes panel p srv has stored idle made succeeds =
      let y = play P (interrupted P r) x in
      let (unserved, rest) = interrupted_lem P x r p srv has stored idle made in
      let (c, lost) = resumed_lem r reads writes panel y unserved rest succeeds in (y.next, c, lost)
