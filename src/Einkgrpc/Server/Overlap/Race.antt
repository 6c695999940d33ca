-- ===== src/Einkgrpc/Server/Overlap/Race.antt =====
-- A Stop and a Start of a server that does not run, in the order in which the server is lost.
use tableaux_eink_go.Base.{
  ℕ, ◌≡◌, refl, subst, sym, ◌∙◌, inl, inr, true, false, none, some, List, [], ◌∷◌, arith,
}
use tableaux_eink_go.Base.Text.{Str}
use tableaux_eink_go.Einkgrpc.Net.{Net, IsNet}
use tableaux_eink_go.Einkgrpc.Server.{Server, PanelInfo, start, stop}
use tableaux_eink_go.Einkgrpc.Server.Lifecycle.{start-Owns}
use tableaux_eink_go.Einkgrpc.Server.Started.{start_runs}
use tableaux_eink_go.Einkgrpc.Server.Overlap.{
  loading, Scene, Move, starting, taking, going_on, play,
}

module _ (N : Net) (L : IsNet N) where
  -- Stop takes nothing, Start brings the server up, and Stop goes on.
  abbrev pub overlap : PanelInfo N → List (Move N)
  overlap panel = taking ∷ starting panel ∷ going_on 0 ∷ going_on 0 ∷ going_on 0 ∷ []

  abbrev pub at_rest : Server N → N.State → Scene N
  at_rest s w = record { server = s; world = w; stopping = [] }

  -- A Stop that finds the server running goes on to the end.
  goes_on_to_end :
      (fp : Str → Str) (s : Server N) (w : N.State)
      → s.running ≡ true
      → play N fp (going_on 0 ∷ going_on 0 ∷ going_on 0 ∷ []) (record {
        server = s;
        world = w;
        stopping = record { phase = loading; srv = none; mdns = none } ∷ [];
      })
        ≡ at_rest (record s { running = false }) w
  goes_on_to_end fp s w on = ground (arith, on)

  abbrev pub emptied : Server N → Server N
  emptied s = record s { srv = none; mdns = none }

  overlap_runs :
      (fp : Str → Str) (panel : PanelInfo N) (s : Server N) (w : N.State)
      → (start N panel fp (emptied s) w).1.running ≡ true
      → play N fp (overlap panel) (at_rest (emptied s) w)
        ≡ at_rest
            (record (start N panel fp (emptied s) w).1 { running = false })
            (start N panel fp (emptied s) w).2
  overlap_runs fp panel s w on =
      goes_on_to_end fp (start N panel fp (emptied s) w).1 (start N panel fp (emptied s) w).2 on

  -- The server serves the socket of a connection and does not count as running, and a Stop forgets
  -- it without closing the socket.
  abbrev pub Lost : N.Conn → Scene N → Type 0
  Lost c x =
      let (s2, w2) = stop N x.server x.world in
      (x.server.srv ≡ some c)
      × (x.server.running ≡ false)
      × (L.bound (L.socket c) x.world ≡ true)
      × (s2.srv ≡ none)
      × (s2.running ≡ false)
      × (L.bound (L.socket c) w2 ≡ true)

  forgotten :
      (s : Server N) (w : N.State) (c : N.Conn)
      → s.srv ≡ some c
      → s.running ≡ false
      → L.bound (L.socket c) w ≡ true
      → Lost c (at_rest s w)
  unfolding stop
  forgotten s w c serves off bound =
      (serves, off, bound, ground (arith, off), ground (arith, off), ground (arith, off, bound))

  -- A Stop of a server that is down, which has begun when a Start brings the server up and ends
  -- behind it, loses the server: it serves a socket and does not count as running, and another Stop
  -- forgets it without closing the socket.
  pub overlap_loses :
      (fp : Str → Str) (panel : PanelInfo N) (s : Server N) (w : N.State)
      → s.running ≡ false
      → (start N panel fp (emptied s) w).0 ≡ none
      → (c : N.Conn) × Lost c (play N fp (overlap panel) (at_rest (emptied s) w))
  overlap_loses fp panel s w off succeeds =
      let up = start N panel fp (emptied s) w in
      let first = λ (b : ℕ). L.bound b w in
      let on = (start_runs N panel fp (emptied s) w succeeds).1 in
      elim (start-Owns N L panel fp first (emptied s) w (inl (off, refl, λ b. refl))) [
        | inl (down, unserved, same) ↦ absurd (cc (sym down ∙ on))
        | inr (_, c, serves, free, sockets) ↦
            let bound : L.bound (L.socket c) up.2 ≡ true = ground (arith, sockets (L.socket c)) in
            (
              c,
              subst (Lost c) (sym (overlap_runs fp panel s w on))
                  (forgotten (record up.1 { running = false }) up.2 c serves refl bound),
            )
      ]
