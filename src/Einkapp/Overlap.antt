-- ===== src/Einkapp/Overlap.antt =====
-- doStop and doRotate of einkapp/app_android.go in their parts, between which other calls run: they
-- hold the lock only while they read and set the variables. The variable `server` is a pointer, which
-- a call under way keeps, so the servers are in a store. A section without the lock is one step.
pub mod Seen
pub mod Race
use tableaux_eink_go.Base.{
  ℕ, zero, suc, ◌==◌, if◌then◌else◌, Bool, true, false, Option, none, some, List, [], ◌∷◌, ◌++◌,
}
use tableaux_eink_go.Base.Int.{ℤ}
use tableaux_eink_go.Base.Text.{Str, str}
use tableaux_eink_go.Base.Errors.{ok, err}
use tableaux_eink_go.Einklib.Display.{close}
use tableaux_eink_go.Einkgrpc.Host.{FileName}
use tableaux_eink_go.Einkgrpc.CertManager.{Failure, returned, rotate}
use tableaux_eink_go.Einkgrpc.Server
use tableaux_eink_go.Einkgrpc.Server.{Server, PanelInfo}
use tableaux_eink_go.Einkapp.{Platform, World, App, do_start}

-- The orders and the answer of the panel that a RotateNow meets: those of Rotate, and of its start.
pub record Rotation (P : Platform) : Type 0 where
  pub order : List FileName
  pub reads : List FileName
  pub writes : List FileName
  pub panel : PanelInfo P.net

-- What a call has left to do: doStop behind its section under the lock, with the server and the
-- display that it took; doRotate with the server that it read, behind the stop of this server, and
-- before its start.
pub data Doing (P : Platform) : Type 0 where
  releasing : Option ℕ → Option ℤ → Doing P
  rotating : ℕ → Rotation P → Doing P
  clearing : Rotation P → Doing P
  restarting : Rotation P → Doing P

-- The variables, the servers, of which the next one gets the number `next`, and the calls that are
-- under way.
pub record Scene (P : Platform) : Type 0 where
  pub inited : Bool
  pub files_dir : Str
  pub dev_path : Str
  pub display : Option ℤ
  pub server : Option ℕ
  pub servers : ℕ → Option (Server P.net)
  pub next : ℕ
  pub world : World P
  pub doing : List (Doing P)

module _ (P : Platform) where
  abbrev pub at : (ℕ → Option (Server P.net)) → Option ℕ → Option (Server P.net)
  at servers none = none
  at servers (some p) = servers p

  -- The variables with the server that the pointer refers to.
  abbrev pub view : Scene P → App P
  view x = record {
    inited = x.inited;
    files_dir = x.files_dir;
    dev_path = x.dev_path;
    display = x.display;
    server = at x.servers x.server;
  }

  abbrev pub store : ℕ → Server P.net → (ℕ → Option (Server P.net)) → ℕ → Option (Server P.net)
  store p srv servers i = if i == p then some srv else servers i

  -- doStart, which holds the lock throughout; a server that it brings up is a new one.
  abbrev pub keep_started : Option (Server P.net) → Scene P → Scene P
  keep_started none x = x
  keep_started (some srv) x = record x {
    server = some x.next;
    servers = store x.next srv x.servers;
    next = suc x.next;
  }

  unfoldable pub play_start : List FileName → List FileName → PanelInfo P.net → Scene P → Scene P
  play_start reads writes panel x =
      let (_, app, w) = do_start P reads writes panel (view x) x.world in
      let y = record x { display = app.display; world = w } in
      elim x.server [ some p ↦ x | none ↦ keep_started app.server y ]

  -- The sections of doStop: under the lock, and behind it.
  abbrev pub take : Scene P → Doing P × Scene P
  take x = (releasing x.server x.display, record x { server = none; display = none })

  abbrev pub stop_at : ℕ → Option (Server P.net) → Scene P → Scene P
  stop_at p none x = x
  stop_at p (some srv) x =
      let (srv', n) = Server.stop P.net srv x.world.sockets in
      record x { servers = store p srv' x.servers; world = record x.world { sockets = n } }

  abbrev pub stop_taken : Option ℕ → Scene P → Scene P
  stop_taken none x = x
  stop_taken (some p) x = stop_at p (x.servers p) x

  abbrev pub stop_service : Scene P → Scene P
  stop_service x =
      let (_, a) = P.service_stop x.world.android in
      if x.inited then record x { world = record x.world { android = a } } else x

  abbrev pub close_taken : Option ℤ → Scene P → Scene P
  close_taken none x = x
  close_taken (some fd) x =
      let k = (close P.kernel (record { fd = fd; kernel = x.world.devices })).1.kernel in
      record x { world = record x.world { devices = k } }

  -- doRotate without the lock: Rotate of the certificate manager, and Stop of the server.
  abbrev pub rotate_at :
      ℕ → Rotation P → Option (Server P.net) → Scene P → Option (Doing P) × Scene P
  rotate_at p r none x = (none, x)
  rotate_at p r (some srv) x =
      let (made, cm, h) = rotate P.host r.order srv.cm x.world.disk in
      let y = record x {
        servers = store p (record srv { cm = cm }) x.servers;
        world = record x.world { disk = h };
      } in
      elim made [
        | err e ↦ (none, y)
        | ok _ ↦ (some (clearing r), stop_at p (some (record srv { cm = cm })) y)
      ]

  -- The next section of a call; without a rest it has returned.
  abbrev pub advance : Doing P → Scene P → Option (Doing P) × Scene P
  advance (releasing p fd) x = (none, close_taken fd (stop_service (stop_taken p x)))
  advance (rotating p r) x = rotate_at p r (x.servers p) x
  advance (clearing r) x = (some (restarting r), record x { server = none })
  advance (restarting r) x = (none, play_start r.reads r.writes r.panel x)

  abbrev pub begin_rotation : Option ℕ → Rotation P → Scene P → Scene P
  begin_rotation none r x = x
  begin_rotation (some p) r x = record x { doing = rotating p r ∷ x.doing }

  -- The call at a place of the list, and the others.
  abbrev pub pick : ℕ → List (Doing P) → Option (Doing P × List (Doing P))
  pick k [] = none
  pick zero (d ∷ ds) = some (d, ds)
  pick (suc k) (d ∷ ds) = elim (pick k ds) [ none ↦ none | some (e, es) ↦ some (e, d ∷ es) ]

  abbrev pub go_on : Option (Doing P × List (Doing P)) → Scene P → Scene P
  go_on none x = x
  go_on (some (d, ds)) x =
      let (rest, y) = advance d (record x { doing = ds }) in
      elim rest [ none ↦ y | some e ↦ record y { doing = e ∷ ds } ]

  -- What the host does: Start; the first section of Stop and of RotateNow; the next section of a call
  -- under way, of which a call that goes on comes first.
  pub data Move : Type 0 where
    starting : List FileName → List FileName → PanelInfo P.net → Move
    stopping : Move
    rotating_now : Rotation P → Move
    going_on : ℕ → Move

  abbrev pub play_move : Move → Scene P → Scene P
  play_move (starting reads writes panel) x = play_start reads writes panel x
  play_move stopping x = let (d, y) = take x in record y { doing = d ∷ y.doing }
  play_move (rotating_now r) x = begin_rotation x.server r x
  play_move (going_on k) x = go_on (pick k x.doing) x

  abbrev pub play : List Move → Scene P → Scene P
  play [] x = x
  play (m ∷ ms) x = play ms (play_move m x)
