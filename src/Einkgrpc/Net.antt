-- ===== src/Einkgrpc/Net.antt =====
-- What einkgrpc/server.go and einkgrpc/mdns_zeroconf.go call of the packages net, grpc, crypto and
-- zeroconf: a parameter of the model.
use tableaux_eink_go.Base.{ℕ, ◌≡◌, Bool, true, false, Option, List, if◌then◌else◌, ◌==◌}
use tableaux_eink_go.Base.Int.{ℤ}
use tableaux_eink_go.Base.Text.{Str}
use tableaux_eink_go.Base.Errors.{GoError, Result, ok, err}

pub record Net : Type 1 where
  pub State : Type 0
  -- a grpc.Server that serves a listener
  pub Conn : Type 0
  -- a zeroconf.Server
  pub Advert : Type 0
  -- the error of tls.X509KeyPair on a certificate and its key
  pub key_pair_error : Str → Str → Option GoError
  -- whether AppendCertsFromPEM finds a certificate
  pub has_certificate : Str → Bool
  -- net.Listen on a port of TCP, with the port of the listener if its address is one of TCP
  pub listen : ℤ → State → Result GoError (Conn × Option ℤ) × State
  -- GracefulStop, or Stop when that took five seconds
  pub shutdown : Conn → State → State
  -- os.Hostname, empty on an error
  pub hostname : State → Str
  -- zeroconf.Register of an instance, on a port, with TXT records
  pub advertise : Str → ℤ → List Str → State → Result GoError Advert × State
  pub withdraw : Advert → State → State

-- What is documented of the sockets: one that is bound was free before, and is bound until its
-- server is shut down; nothing else binds or releases one.
pub record IsNet (N : Net) : Type 0 where
  pub socket : N.Conn → ℕ
  pub bound : ℕ → N.State → Bool
  pub listen_fresh :
      (port : ℤ) (w : N.State) (c : N.Conn) (t : Option ℤ)
      → (N.listen port w).0 ≡ ok (c, t)
      → bound (socket c) w ≡ false
  pub bound-listen :
      (port : ℤ) (w : N.State) (c : N.Conn) (t : Option ℤ) (b : ℕ)
      → (N.listen port w).0 ≡ ok (c, t)
      → bound b (N.listen port w).1 ≡ (if b == socket c then true else bound b w)
  pub bound-listen_failed :
      (port : ℤ) (w : N.State) (e : GoError) (b : ℕ)
      → (N.listen port w).0 ≡ err e
      → bound b (N.listen port w).1 ≡ bound b w
  pub bound-shutdown :
      (c : N.Conn) (w : N.State) (b : ℕ)
      → bound b (N.shutdown c w) ≡ (if b == socket c then false else bound b w)
  pub bound-advertise :
      (name : Str) (port : ℤ) (txt : List Str) (w : N.State) (b : ℕ)
      → bound b (N.advertise name port txt w).1 ≡ bound b w
  pub bound-withdraw : (a : N.Advert) (w : N.State) (b : ℕ) → bound b (N.withdraw a w) ≡ bound b w
