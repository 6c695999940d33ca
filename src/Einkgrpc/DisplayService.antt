-- ===== src/Einkgrpc/DisplayService.antt =====
-- einkgrpc/displayservice.go: the handlers that draw. A handler takes the service and returns its
-- result with the service after it; the time that a handler measures is an argument.
pub mod Loop
pub mod Upload
pub mod Frames
use tableaux_eink_go.Base.{
  ℕ, ◌+◌, Bool, true, false, Option, none, some, List, [], ◌∷◌, ◌++◌, ◌||◌, if◌then◌else◌, length,
  overwrite,
}
use tableaux_eink_go.Base.Int.{ℤ, pos, ltb_ℤ, eqb_ℤ}
use mathlib.Core.Bool.{not}
use tableaux_eink_go.Base.Text.{Str, str, decimal, decimal_ℤ}
use tableaux_eink_go.Base.Errors.{
  GoError, error_text, is_eof, eof, Result, ok, err, RpcError, status, raw, failed_precondition,
  internal, invalid_argument,
}
use tableaux_eink_go.Einkproto
use tableaux_eink_go.Einkproto.{
  RefreshChunk, Payload, header, bytes, RefreshHeader, RefreshResponse, FillRequest,
  SetOverlayRequest, HealthResponse, GetMetricsResponse,
}
use tableaux_eink_go.Einklib.Geometry.{DisplayInfo, Region, new_region}
use tableaux_eink_go.Einklib.Bitmap.{fill_solid}
use tableaux_eink_go.Einklib.Interface.{DisplayApi}
use tableaux_eink_go.Einkgrpc.Modes.{translate_mode}

-- DisplayService, without the parts that are in Credentials. `display` is `none` for nil.
pub record Service (D : DisplayApi) : Type 0 where
  pub display : Option D.State
  pub server_version : Str
  pub last_error : Str

-- NewDisplayService. The certificate manager and the callback are with the server (Backend).
abbrev pub new_display_service : (D : DisplayApi) → Option D.State → Str → Service D
new_display_service D d version = record { display = d; server_version = version; last_error = [] }

-- What stream.Recv returns, one after the other. Behind the last, the stream has ended: io.EOF.
pub data Recv : Type 0 where
  message : RefreshChunk → Recv
  failed : GoError → Recv

unfoldable pub recv : List Recv → Result GoError RefreshChunk × List Recv
recv [] = (err eof, [])
recv (message c ∷ rest) = (ok c, rest)
recv (failed e ∷ rest) = (err e, rest)

abbrev pub not_opened : RpcError
not_opened = status failed_precondition (str "display not opened")

abbrev pub internal_error : Str → GoError → RpcError
internal_error text e = status internal (text ++ error_text e)

abbrev pub refused : Str → RpcError
refused text = status invalid_argument text

-- How the receive loop of Refresh ends: at the end of the stream with the bytes written, or with
-- the error that Refresh returns after Cancel.
pub data LoopEnd : Type 0 where
  finished : ℕ → LoopEnd
  stopped : RpcError → LoopEnd

module _ (D : DisplayApi) where
  -- recordErr, with the display that the failed call left.
  abbrev pub record_err : GoError → D.State → Service D → Service D
  record_err e st s = record s { display = some st; last_error = error_text e }

  abbrev pub with_display : D.State → Service D → Service D
  with_display st s = record s { display = some st }

  unfoldable pub get_info : Service D → Result RpcError Einkproto.DisplayInfo × Service D
  get_info s = elim s.display [
    | none ↦ (err not_opened, s)
    | some st ↦
        let (r, st') = D.info st in
        elim r [
          | err e ↦ (err (internal_error (str "display.info: ") e), record_err e st' s)
          | ok i ↦ (
            ok (record {
              width = i.width;
              height = i.height;
              virtual_width = i.virtual_width;
              virtual_height = i.virt_height;
              color = i.color;
              app_version = s.server_version;
            }),
            with_display st' s,
          )
        ]
  ]

  -- `s.display != nil`
  abbrev pub device_open : Service D → Bool
  device_open s = elim s.display [ none ↦ false | some st ↦ true ]

  unfoldable pub health : ℤ → Service D → HealthResponse
  health uptime s = record {
    device_open = device_open s;
    last_error = s.last_error;
    server_version = s.server_version;
    uptime_seconds = uptime;
  }

  unfoldable pub fill_display :
      FillRequest → ℤ → D.State → Service D → Result RpcError RefreshResponse × Service D
  fill_display req elapsed st s =
      let (r, st') = D.acquire_frame st in
      elim r [
        | err e ↦ (err (internal_error (str "acquireFrame: ") e), record_err e st' s)
        | ok frame ↦
            let painted =
              D.write frame (fill_solid (D.frame_info frame) req.argb (D.pixels frame)) in
            let (c, _, st'') = D.commit (translate_mode req.mode) none painted st' in
            elim c [
              | some e ↦ (err (internal_error (str "commit: ") e), record_err e st'' s)
              | none ↦ (ok (record { elapsed_ms = elapsed }), with_display st'' s)
            ]
      ]

  unfoldable pub fill : FillRequest → ℤ → Service D → Result RpcError RefreshResponse × Service D
  unfolding fill_display
  fill req elapsed s = elim s.display [
    | none ↦ (err not_opened, s)
    | some st ↦ fill_display req elapsed st s
  ]

  -- The `for` loop of Refresh. A slice has fewer than 2 ^ 62 bytes, so `end` does not overflow.
  unfoldable pub receive : D.Frame → ℕ → ℤ → List Recv → LoopEnd × D.Frame
  receive frame written total [] = (finished written, frame)
  receive frame written total (failed e ∷ rest) =
      if is_eof e then (finished written, frame) else (stopped (raw e), frame)
  receive frame written total (message chunk ∷ rest) = elim chunk.payload [
    | none ↦ (stopped (refused (str "expected data chunk after header")), frame)
    | some (header h) ↦ (stopped (refused (str "expected data chunk after header")), frame)
    | some (bytes b) ↦
        let end = written + length b in
        let more = receive (D.write frame (overwrite (D.pixels frame) written b)) end total rest in
        if ltb_ℤ total (pos end)
        then (stopped (refused (str "chunk overflows total_bytes")), frame)
        else more
  ]

  -- `_ = frame.Cancel()` and the return of an error.
  abbrev pub cancelled :
      RpcError → D.Frame → D.State → Service D → Result RpcError RefreshResponse × Service D
  cancelled e frame st s = (err e, with_display (D.cancel frame st).2 s)

  -- einklib.NewRegion of the region of the header, if it has one.
  abbrev pub header_region : RefreshHeader → Option Region
  header_region h = elim h.region [ none ↦ none | some r ↦ some (new_region r.x1 r.y1 r.x2 r.y2) ]

  -- Refresh from its Commit on. `send` is what SendAndClose returns.
  unfoldable pub commit_upload :
      RefreshHeader
      → ℤ
      → Option GoError
      → D.Frame
      → D.State
      → Service D
      → Result RpcError RefreshResponse × Service D
  commit_upload h elapsed send frame st s =
      let (c, _, st') = D.commit (translate_mode h.mode) (header_region h) frame st in
      elim c [
        | some e ↦ (err (internal_error (str "commit: ") e), record_err e st' s)
        | none ↦
            let answer : Result RpcError RefreshResponse = elim send [
              | some e ↦ err (raw e)
              | none ↦ ok (record { elapsed_ms = elapsed })
            ] in
            (answer, with_display st' s)
      ]

  -- Refresh from its receive loop on.
  unfoldable pub upload :
      RefreshHeader
      → List Recv
      → ℤ
      → Option GoError
      → D.Frame
      → D.State
      → Service D
      → Result RpcError RefreshResponse × Service D
  upload h rest elapsed send frame st s =
      let (end, written_to) = receive frame 0 h.total_bytes rest in
      elim end [
        | stopped e ↦ cancelled e written_to st s
        | finished n ↦
            if not (eqb_ℤ (pos n) h.total_bytes)
            then cancelled
                (refused
                  (str "got " ++ (decimal n ++ (str " bytes, want " ++ decimal_ℤ h.total_bytes))))
                written_to st s
            else commit_upload h elapsed send written_to st s
      ]

  -- Refresh from AcquireFrame on.
  unfoldable pub refresh_display :
      RefreshHeader
      → List Recv
      → ℤ
      → Option GoError
      → D.State
      → Service D
      → Result RpcError RefreshResponse × Service D
  refresh_display h rest elapsed send st s =
      let (r, st') = D.acquire_frame st in
      elim r [
        | err e ↦ (err (internal_error (str "acquireFrame: ") e), record_err e st' s)
        | ok frame ↦
            if ltb_ℤ h.total_bytes (pos 0) || ltb_ℤ (pos (length (D.pixels frame))) h.total_bytes
            then cancelled
                (refused (str "total_bytes " ++ (decimal_ℤ h.total_bytes ++ str " out of range")))
                frame st' s
            else upload h rest elapsed send frame st' s
      ]

  unfoldable pub refresh :
      List Recv → ℤ → Option GoError → Service D → Result RpcError RefreshResponse × Service D
  unfolding recv
  refresh msgs elapsed send s = elim s.display [
    | none ↦ (err not_opened, s)
    | some st ↦
        let (first, rest) = recv msgs in
        elim first [
          | err e ↦ (err (raw e), s)
          | ok chunk ↦ elim chunk.payload [
            | some (header (some h)) ↦ refresh_display h rest elapsed send st s
            | _ ↦ (err (refused (str "first chunk must be RefreshHeader")), s)
          ]
        ]
  ]

  unfoldable pub set_overlay :
      SetOverlayRequest → Service D → Result RpcError (Unit {0}) × Service D
  set_overlay req s = elim s.display [
    | none ↦ (err not_opened, s)
    | some st ↦
        let (r, st') = D.set_overlay req.enabled st in
        elim r [
          | some e ↦ (err (internal_error (str "setOverlay: ") e), record_err e st' s)
          | none ↦ (ok tt, with_display st' s)
        ]
  ]
