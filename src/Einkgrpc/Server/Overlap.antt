-- ===== src/Einkgrpc/Server/Overlap.antt =====
-- Stop of einkgrpc/server.go in its parts, between which other calls run: it takes the server and
-- the registrar under the lock, and then loads the flag, stores it, and shuts down what it took.
-- Start holds the lock and is one step; a Stop that reads the flag while Start registers the
-- advertisement reads what it reads behind it.
pub mod Sockets
pub mod Race
use tableaux_eink_go.Base.{
  ℕ, zero, suc, Bool, false, Option, none, some, List, [], ◌∷◌, ◌++◌, if◌then◌else◌, not,
}
use tableaux_eink_go.Base.Text.{Str}
use tableaux_eink_go.Einkgrpc.Net.{Net}
use tableaux_eink_go.Einkgrpc.Mdns.{Registrar, unregister}
use tableaux_eink_go.Einkgrpc.Server.{Server, PanelInfo, start}

-- What a Stop does next.
pub data Phase : Type 0 where
  loading storing releasing : Phase

-- A Stop behind its section under the lock, with what it took.
pub record Stopping (N : Net) : Type 0 where
  pub phase : Phase
  pub srv : Option N.Conn
  pub mdns : Option (Registrar N)

-- A server with the calls of Stop that are under way.
pub record Scene (N : Net) : Type 0 where
  pub server : Server N
  pub world : N.State
  pub stopping : List (Stopping N)

module _ (N : Net) where
  -- The section under the lock.
  abbrev pub take : Server N → Stopping N × Server N
  take s =
      (record { phase = loading; srv = s.srv; mdns = s.mdns }, record s { srv = none; mdns = none })

  -- mdns.Unregister, and the shutdown of the server.
  abbrev pub release : Stopping N → N.State → N.State
  release p w =
      let w1 = elim p.mdns as (λ _. N.State) [ none ↦ w | some z ↦ (unregister N z w).1 ] in
      elim p.srv as (λ _. N.State) [ none ↦ w1 | some c ↦ N.shutdown c w1 ]

  -- The next part of a Stop; without a rest it has returned.
  abbrev pub advance_by :
      Phase → Stopping N → Server N → N.State → Option (Stopping N) × Server N × N.State
  advance_by loading p s w =
      if not s.running then (none, s, w) else (some (record p { phase = storing }), s, w)
  advance_by storing p s w =
      (some (record p { phase = releasing }), record s { running = false }, w)
  advance_by releasing p s w = (none, s, release p w)

  abbrev pub advance : Stopping N → Server N → N.State → Option (Stopping N) × Server N × N.State
  advance p = advance_by p.phase p

  abbrev pub replace : Option (Stopping N) → List (Stopping N) → List (Stopping N)
  replace none ps = ps
  replace (some p) ps = p ∷ ps

  -- The next part of the Stop at a place of the list.
  abbrev pub advance_at :
      ℕ → List (Stopping N) → Server N → N.State → List (Stopping N) × Server N × N.State
  advance_at k [] s w = ([], s, w)
  advance_at zero (p ∷ ps) s w = let (rest, s', w') = advance p s w in (replace rest ps, s', w')
  advance_at (suc k) (p ∷ ps) s w = let (ps', s', w') = advance_at k ps s w in (p ∷ ps', s', w')

  pub data Move : Type 0 where
    starting : PanelInfo N → Move
    taking : Move
    going_on : ℕ → Move

  abbrev pub play_move : (Str → Str) → Move → Scene N → Scene N
  play_move fp (starting panel) x =
      let (_, s, w) = start N panel fp x.server x.world in record x { server = s; world = w }
  play_move fp taking x =
      let (p, s) = take x.server in record x { server = s; stopping = p ∷ x.stopping }
  play_move fp (going_on k) x =
      let (ps, s, w) = advance_at k x.stopping x.server x.world in
      record { server = s; world = w; stopping = ps }

  abbrev pub play : (Str → Str) → List Move → Scene N → Scene N
  play fp [] x = x
  play fp (m ∷ ms) x = play fp ms (play_move fp m x)

  -- A Stop between whose parts nothing else runs.
  abbrev pub whole_stop : List Move
  whole_stop = taking ∷ going_on 0 ∷ going_on 0 ∷ going_on 0 ∷ []
