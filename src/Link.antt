-- ===== src/Link.antt =====
-- The commands of tableaux-cli over the server of einkgrpc, by what is taken for granted of gRPC and
-- of a connection that works: a call of a stub is served by the handler of that name, behind the
-- interceptor, and gives its answer. The handler of a stream runs on the messages that were sent
-- when the client waits for the answer, where the server accepts their sizes. What the files and the
-- browser of the client do does not touch the server.
pub mod Keeps
pub mod Stranger
pub mod Upload
pub mod Fill
pub mod Reissue
pub mod Rotate
use tableaux_eink_go.Base.{◌≡◌, ◌≢◌, Bool, true, All, Option, none, some, List, [], ◌∷◌, ◌++◌}
use tableaux_eink_go.Base.Int.{ℤ}
use tableaux_eink_go.Base.Text.{Str}
use tableaux_eink_go.Base.Errors.{GoError, Result, ok, err, RpcError}
use tableaux_eink_go.Einkproto.{FillRequest, SetOverlayRequest, RefreshChunk}
use tableaux_eink_go.Einklib.Interface.{DisplayApi}
use tableaux_eink_go.Einkgrpc.TokenAuth.{check}
use tableaux_eink_go.Einkgrpc.Host.{FileName, Host}
use tableaux_eink_go.Einkgrpc.CertManager.{CertManager, Failure, returned, panicked}
use tableaux_eink_go.Einkgrpc.Credentials.{failure}
use tableaux_eink_go.Einkgrpc.DisplayService.{Recv, message, failed}
use tableaux_eink_go.Einkgrpc.Backend.{
  Backend, Outcome, replied, died, tokens_of, ended, serve_get_info, serve_health, serve_fill,
  serve_refresh, serve_set_overlay, serve_rotate, serve_reissue, serve_get_metrics,
}
use tableaux_eink_go.Cli.Flags.{Network}
use tableaux_eink_go.Cli.Remote.{Remote}

module _ (D : DisplayApi) (H : Host) (N : Network) (R : Remote N) where
  -- The server that the calls reach, as part of the state of the client's system, with what a call
  -- depends on besides: how a status looks as an error, the error of a call whose server is gone,
  -- the clocks, and the order in which Rotate goes through its files.
  pub record Link : Type 0 where
    pub view : R.State → Backend D H
    pub status_error : RpcError → GoError
    pub lost : GoError
    pub clock : R.State → ℤ
    pub order : R.State → List FileName
    -- the context that a stream was opened with, and the messages that were sent on it
    pub stream_md : R.Stream → List Str
    pub sent_on : R.Stream → R.State → List Recv
    -- whether the server accepts a message of this size
    pub fits : RefreshChunk → Bool

  abbrev pub received : {A : Type 0} → Link → Outcome A → Result GoError A
  received l (replied (ok a)) = ok a
  received l (replied (err e)) = err (l.status_error e)
  received l (died t) = err l.lost

  -- A handler that fails gives no message.
  pub failed_undelivered :
      {A : Type 0} (l : Link) (text : Str) (e : Failure) (cm : CertManager) (d : H.State)
      (b : Backend D H) (a : A)
      → received l (ended D H (failure text e, cm, d) b).0 ≢ ok a
  failed_undelivered l text (returned e) cm d b a h = cc
  failed_undelivered l text (panicked t) cm d b a h = cc

  -- A call gives what was received of an outcome, and leaves the server that came with it.
  abbrev Gives : {A : Type 0} → Link → Result GoError A × R.State → Outcome A × Backend D H → Type 0
  Gives l call out = (call.0 ≡ received l out.0) × (l.view call.1 ≡ out.1)

  abbrev pub Fits : Link → Recv → Type 0
  Fits l (message c) = l.fits c ≡ true
  Fits l (failed e) = Unit

  -- Two states with the same server.
  abbrev Untouched : Link → R.State → R.State → Type 0
  Untouched l s s' = l.view s' ≡ l.view s

  pub record IsLink (l : Link) : Type 0 where
    pub serves_get_info :
        (conn : N.Conn) (md : List Str) (s : R.State)
        → Gives l (R.get_info conn md s) (serve_get_info D H (some md) (l.view s))
    pub serves_health :
        (conn : N.Conn) (md : List Str) (s : R.State)
        → Gives l (R.health conn md s) (serve_health D H (l.clock s) (some md) (l.view s))
    pub serves_fill :
        (conn : N.Conn) (md : List Str) (req : FillRequest) (s : R.State)
        → Gives l (R.fill conn md req s) (serve_fill D H req (l.clock s) (some md) (l.view s))
    pub serves_set_overlay :
        (conn : N.Conn) (md : List Str) (req : SetOverlayRequest) (s : R.State)
        → Gives l (R.set_overlay conn md req s) (serve_set_overlay D H req (some md) (l.view s))
    pub serves_rotate :
        (conn : N.Conn) (md : List Str) (s : R.State)
        → Gives l
            (R.rotate conn md s)
            (serve_rotate D H (l.order s) (l.clock s) (some md) (l.view s))
    pub serves_reissue :
        (conn : N.Conn) (md : List Str) (s : R.State)
        → Gives l (R.reissue_client_cert conn md s) (serve_reissue D H (some md) (l.view s))
    pub serves_get_metrics :
        (conn : N.Conn) (md : List Str) (s : R.State)
        → Gives l (R.get_metrics conn md s) (serve_get_metrics D H (l.clock s) (some md) (l.view s))
    pub view-refresh :
        (conn : N.Conn) (md : List Str) (s : R.State) → Untouched l s (R.refresh conn md s).1
    pub opened_md :
        (conn : N.Conn) (md : List Str) (s : R.State) (stream : R.Stream)
        → (R.refresh conn md s).0 ≡ ok stream
        → l.stream_md stream ≡ md
    pub opened_empty :
        (conn : N.Conn) (md : List Str) (s : R.State) (stream : R.Stream)
        → (R.refresh conn md s).0 ≡ ok stream
        → l.sent_on stream (R.refresh conn md s).1 ≡ []
    pub view-send :
        (stream : R.Stream) (c : RefreshChunk) (s : R.State) → Untouched l s (R.send stream c s).1
    pub sent-send :
        (stream : R.Stream) (c : RefreshChunk) (s : R.State)
        → (R.send stream c s).0 ≡ none
        → l.sent_on stream (R.send stream c s).1 ≡ l.sent_on stream s ++ (message c ∷ [])
    pub serves_stream :
        (stream : R.Stream) (s : R.State)
        → All (Fits l) (l.sent_on stream s)
        → Gives l (R.close_and_recv stream s) (
            serve_refresh D H
              (l.sent_on stream s)
              (l.clock s)
              none
              (some (l.stream_md stream))
              (l.view s))
    -- the interceptor comes before the messages
    pub refuses_stream :
        (stream : R.Stream) (s : R.State) (e : RpcError)
        → check (tokens_of (l.view s).cm) (some (l.stream_md stream)) ≡ some e
        → Gives l (R.close_and_recv stream s) (replied (err e), l.view s)
    pub view-mkdir_all : (path : Str) (s : R.State) → Untouched l s (R.mkdir_all path s).1
    pub view-write_file :
        (path text : Str) (s : R.State) → Untouched l s (R.write_file path text s).1
    pub view-browse : (seconds : ℤ) (s : R.State) → Untouched l s (R.browse seconds s).1
