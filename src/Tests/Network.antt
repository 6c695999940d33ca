-- ===== src/Tests/Network.antt =====
-- The server over a small network for the tests, in which one port can be taken.
use tableaux_eink_go.Base.{
  ℕ, ◌+◌, ◌≤◌, ◌≡◌, refl, Bool, true, false, Option, none, some, List, [], ◌∷◌, arith,
  if◌then◌else◌, ◌&&◌, ◌==◌,
}
use tableaux_eink_go.Base.Int.{ℤ, pos}
use tableaux_eink_go.Base.Text.{str}
use tableaux_eink_go.Base.Errors.{GoError, foreign, Result, ok, err}
use tableaux_eink_go.Einkgrpc.Net.{Net, IsNet}
use tableaux_eink_go.Einkgrpc.CertManager.{empty_manager}
use tableaux_eink_go.Einkgrpc.Server.{Server, start, listen_and_serve, advertise_server}
use tableaux_eink_go.Einkgrpc.Server.Overlap.{Move, starting, taking, going_on, Scene, play}
use tableaux_eink_go.Einkgrpc.Server.Overlap.Sockets.{held, held_by, is_bound, play_lem}
use tableaux_eink_go.Einkgrpc.Server.Overlap.Race.{overlap, at_rest, emptied, Lost, overlap_loses}
use tableaux_eink_go.Einkgrpc.Server.Lifecycle.{Owns}
use tableaux_eink_go.Einkgrpc.Server.Runs.{Call, starting, rotating, run, run_lem}

abbrev bind : Bool → Result GoError (ℕ × Option ℤ) × Bool
bind true = (err (foreign (str "address already in use")), true)
bind false = (ok (1, some (pos 50051)), true)

-- The state is whether the port is taken; a server is a number, which is that of its socket.
abbrev pub one_port : Net
one_port = record {
  State = Bool;
  Conn = ℕ;
  Advert = ℕ;
  key_pair_error = λ c k. none;
  has_certificate = λ c. true;
  listen = λ port w. bind w;
  shutdown = λ c w. if c == 1 then false else w;
  hostname = λ w. str "panel";
  advertise = λ name port txt w. (ok 7, w);
  withdraw = λ a w. w;
}

bind_fresh : (w : Bool) (c : ℕ) (t : Option ℤ) → (bind w).0 ≡ ok (c, t) → (w && c == 1) ≡ false
bind_fresh true c t h = absurd (cc)
bind_fresh false c t h = refl

bind_takes :
    (w : Bool) (c : ℕ) (t : Option ℤ) (b : ℕ)
    → (bind w).0 ≡ ok (c, t)
    → ((bind w).1 && b == 1) ≡ (if b == c then true else w && b == 1)
bind_takes true c t b h = absurd (cc)
bind_takes false c t b h = ground arith

bind_failed :
    (w : Bool) (e : GoError) (b : ℕ) → (bind w).0 ≡ err e → ((bind w).1 && b == 1) ≡ (w && b == 1)
bind_failed true e b h = refl
bind_failed false e b h = absurd (cc)

pub one_port-IsNet : IsNet one_port
one_port-IsNet = record {
  socket = λ c. c;
  bound = λ b w. w && b == 1;
  listen_fresh = λ port. bind_fresh;
  bound-listen = λ port. bind_takes;
  bound-listen_failed = λ port. bind_failed;
  bound-shutdown = λ c w b. ground arith;
  bound-advertise = λ name port txt w b. refl;
  bound-withdraw = λ a w b. refl;
}

taken_by_one : (b : ℕ) → (true && b == 1) ≡ (if b == 1 then true else false)
taken_by_one b = ground arith

pub one_port_taken :
    (b : ℕ) → one_port-IsNet.bound b true ≡ (if b == one_port-IsNet.socket 1 then true else false)
unfolding one_port-IsNet
one_port_taken b = taken_by_one b

abbrev pub new_host : Server one_port
new_host = record {
  cfg = record {
    files_dir = str "files";
    port = pos 50051;
    max_recv_bytes = pos 0x1000000;
    server_version = str "0.1.0";
    enable_mtls = true;
    enable_mdns = true;
  };
  cm = empty_manager (str "files/tls");
  mdns = none;
  srv = none;
  running = false;
  port = pos 0;
  rotate_req = 0;
}

abbrev calls : List (Call one_port one_port-IsNet)
calls = starting none ∷ rotating ∷ starting none ∷ []

run_lem_example :
    Owns one_port one_port-IsNet
      (λ b. one_port-IsNet.bound b false)
      (run one_port one_port-IsNet (λ c. c) calls new_host false).0
      (run one_port one_port-IsNet (λ c. c) calls new_host false).1
run_lem_example = run_lem one_port one_port-IsNet (λ c. c) calls new_host false refl refl

abbrev ran : Server one_port × Bool
ran = run one_port one_port-IsNet (λ c. c) calls new_host false

abbrev moves : List (Move one_port)
moves = taking ∷ starting none ∷ going_on 0 ∷ taking ∷ going_on 1 ∷ starting none ∷ going_on 0 ∷ []

abbrev scene : Scene one_port
scene = play one_port (λ c. c) moves (record { server = new_host; world = false; stopping = [] })

play_lem_example :
    held one_port one_port-IsNet scene.server.srv 1
      + held_by one_port one_port-IsNet scene.stopping 1
    ≤ is_bound one_port one_port-IsNet scene.world 1
play_lem_example = play_lem one_port one_port-IsNet (λ c. c) moves new_host false 1 refl

overlap_loses_example :
    (c : ℕ) × Lost one_port one_port-IsNet c (
      play one_port
        (λ c. c)
        (overlap one_port one_port-IsNet none)
        (at_rest one_port one_port-IsNet (emptied one_port one_port-IsNet new_host) false))
unfolding start listen_and_serve advertise_server
overlap_loses_example = overlap_loses one_port one_port-IsNet (λ c. c) none new_host false refl refl
