-- ===== src/Cli/Upload/EndToEnd.antt =====
-- The file that the command sends is the file that the panel's frame gets.
use tableaux_eink_go.Base.{
  ℕ, ◌≤◌, ◌<◌, ◌≡◌, refl, sym, ap, Option, none, some, List, [], ◌∷◌, length,
}
use tableaux_eink_go.Base.Int.{ℤ, pos}
use tableaux_eink_go.Base.Text.{Str}
use tableaux_eink_go.Base.Errors.{GoError, ok}
use tableaux_eink_go.Einkproto.{RefreshChunk, WaveformMode}
use tableaux_eink_go.Einklib.Interface.{DisplayApi, IsLawful}
use tableaux_eink_go.Einkgrpc.DisplayService.{Service, commit_upload, refresh}
use tableaux_eink_go.Einkgrpc.DisplayService.Loop.{data_messages, written_over}
use tableaux_eink_go.Einkgrpc.DisplayService.Upload.{header_message, refresh_exact}
use tableaux_eink_go.Cli.Upload.{sent, send_chunks, upload_header}
use tableaux_eink_go.Cli.Upload.Chunks.{sent_all, send_chunks_whole}

-- With any positive chunk size and a Send that succeeds, the stream that cmdRefresh sends for a
-- file that fits the frame of an open display makes the handler Refresh commit the frame with the file at its front and the frame's other
-- bytes as they were, in the mode of the header and without a window.
pub upload_arrives :
    (D : DisplayApi) (L : IsLawful D) (S : Type 0) (send : RefreshChunk → S → Option GoError × S)
    (sends : (c : RefreshChunk) (x : S) → (send c x).0 ≡ none) (x : S) (fuel chunk : ℕ)
    (mode : WaveformMode) (px : Str) (elapsed : ℤ) (s : Service D) (st : D.State) (frame : D.Frame)
    → 0 < chunk
    → length px < fuel
    → s.display ≡ some st
    → (D.acquire_frame st).0 ≡ ok frame
    → length px ≤ length (D.pixels frame)
    → (bs : List Str) × (send_chunks send fuel (pos chunk) px x
        ≡ (sent bs, sent_all send sends bs x))
      × (refresh D (header_message (upload_header mode px) ∷ data_messages bs []) elapsed none s
          ≡ commit_upload D
              (upload_header mode px)
              elapsed
              none
              (D.write frame (written_over px (D.pixels frame)))
              (D.acquire_frame st).1
              s)
upload_arrives D L S send sends x fuel chunk mode px elapsed s st frame h enough opened got fits =
    let (bs, loop, whole, _) = send_chunks_whole send sends fuel chunk px x h enough in
    let exact =
      refresh_exact D L (upload_header mode px) bs [] elapsed none s st frame opened got
        (ap (λ file. pos (length file)) (sym whole)) (rw whole fits) refl in
    (bs, loop, rw whole at exact)
