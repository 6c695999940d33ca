-- ===== src/Link/Upload.antt =====
-- The command refresh against the server: the file is on the panel.
use tableaux_eink_go.Base.{
  ℕ, ◌≤◌, ◌<◌, ◌≡◌, refl, sym, ap, ◌∙◌, true, false, Option, none, some, List, [], ◌∷◌, ◌++◌, arith,
  All, length, append_assoc, append-nil,
}
use tableaux_eink_go.Base.Int.{ℤ, pos}
use tableaux_eink_go.Base.Text.{Str, IsVisible, is_empty}
use tableaux_eink_go.Base.Errors.{GoError, Result, ok}
use tableaux_eink_go.Einkproto.{RefreshChunk, RefreshResponse, WaveformMode, header}
use tableaux_eink_go.Einklib.Interface.{DisplayApi, IsLawful}
use tableaux_eink_go.Einkgrpc.Host.{Host}
use tableaux_eink_go.Einkgrpc.Modes.{translate_mode}
use tableaux_eink_go.Einkgrpc.TokenAuth.{check}
use tableaux_eink_go.Einkgrpc.TokenAuth.Bearer.{IsToken}
use tableaux_eink_go.Einkgrpc.DisplayService.{message, commit_upload}
use tableaux_eink_go.Einkgrpc.DisplayService.Loop.{data_messages, joined, written_over}
use tableaux_eink_go.Einkgrpc.DisplayService.Upload.{header_message, refresh_exact}
use tableaux_eink_go.Einkgrpc.Backend.{Backend, Outcome, replied, tokens_of, serve_refresh}
use tableaux_eink_go.Cli.Flags.{CommonFlags, Network, validate, dial}
use tableaux_eink_go.Cli.Flags.Dialled.{dial_passes}
use tableaux_eink_go.Cli.Remote.{Remote}
use tableaux_eink_go.Cli.Upload.{sent, data_chunk, send_chunks, upload_header}
use tableaux_eink_go.Cli.Upload.Chunks.{IsChunk, sent_all, send_chunks_whole}
use tableaux_eink_go.Cli.Commands.{Halt, Shell, cmd_refresh, parse_mode}
use tableaux_eink_go.Cli.Texts.{elapsed_text}
use tableaux_eink_go.Link.{Link, IsLink, received, Fits}

-- The chunk with the header.
abbrev head_chunk : WaveformMode → Str → RefreshChunk
head_chunk wm px = record { payload = some (header (some (upload_header wm px))) }

-- What cmdRefresh does when nothing fails, by what its calls return.
refresh_steps :
    (N : Network) (R : Remote N) (fuel : ℕ) (c : CommonFlags) (path mode : Str) (chunk : ℤ)
    (s : Shell R.State) (wm : WaveformMode) (px : Str) (conn : N.Conn) (md : List Str)
    (stream : R.Stream) (s1 s2 s3 s4 : R.State) (bs : List Str) (resp : RefreshResponse)
    → validate c ≡ none
    → is_empty path ≡ false
    → parse_mode N R mode ≡ ok wm
    → N.read_file path ≡ ok px
    → dial N c ≡ ok (conn, md)
    → R.refresh conn md s.remote ≡ (ok stream, s1)
    → R.send stream (record { payload = some (header (some (upload_header wm px))) }) s1
      ≡ (none, s2)
    → send_chunks (R.send stream) fuel chunk px s2 ≡ (sent bs, s3)
    → R.close_and_recv stream s3 ≡ (ok resp, s4)
    → cmd_refresh N R fuel c path mode chunk s
      ≡ (ok tt, record { printed = s.printed ++ elapsed_text resp; remote = s4 })
unfolding cmd_refresh
refresh_steps N R fuel c path mode chunk s wm px conn md stream s1 s2 s3 s4 bs resp h1 h2 h3 h4 h5
      h6 h7 h8 h9 =
    ground (arith, h1, h2, h3, h4, h5, h6, h7, h8, h9)

module _ (D : DisplayApi) (H : Host) (N : Network) (R : Remote N) (l : Link D H N R)
    (L : IsLink D H N R l) (DL : IsLawful D)
    (sends : (stream : R.Stream) (c : RefreshChunk) (s : R.State)
      → (R.send stream c s).0 ≡ none) where
  -- The messages of a stream behind the chunks of a file.
  sent_all-on :
      (stream : R.Stream) (bs : List Str) (s : R.State)
      → l.sent_on stream (sent_all (R.send stream) (sends stream) bs s)
        ≡ l.sent_on stream s ++ data_messages bs []
  sent_all-on stream [] s = sym (append-nil (l.sent_on stream s))
  sent_all-on stream (b ∷ bs) s =
      let s' = (R.send stream (data_chunk b) s).1 in
      sent_all-on stream bs s'
      ∙ ap (λ ms. ms ++ data_messages bs [])
          (L.sent-send stream (data_chunk b) s (sends stream (data_chunk b) s))
      ∙ append_assoc (l.sent_on stream s) (message (data_chunk b) ∷ []) (data_messages bs [])

  data-Fits :
      (chunk : ℕ) (bs : List Str)
      → ((b : Str) → length b ≤ chunk → l.fits (data_chunk b) ≡ true)
      → All (IsChunk chunk) bs
      → All (Fits D H N R l) (data_messages bs [])
  data-Fits chunk [] small sizes = tt
  data-Fits chunk (b ∷ bs) small (size, sizes) = (small b size.1, data-Fits chunk bs small sizes)

  sent_all-view :
      (stream : R.Stream) (bs : List Str) (s : R.State)
      → l.view (sent_all (R.send stream) (sends stream) bs s) ≡ l.view s
  sent_all-view stream [] s = refl
  sent_all-view stream (b ∷ bs) s =
      sent_all-view stream bs (R.send stream (data_chunk b) s).1
      ∙ L.view-send stream (data_chunk b) s

  -- A call whose commit succeeds.
  committed :
      (b : Backend D H) (md : List Str) (st : D.State) (frame : D.Frame) (wm : WaveformMode)
      (bs : List Str) (elapsed : ℤ)
      → check (tokens_of b.cm) (some md) ≡ none
      → b.service.display ≡ some st
      → (D.acquire_frame st).0 ≡ ok frame
      → length (joined bs) ≤ length (D.pixels frame)
      → let drawn = D.write frame (written_over (joined bs) (D.pixels frame)) in
        let shown = D.commit (translate_mode wm) none drawn (D.acquire_frame st).1 in
        let msgs = header_message (upload_header wm (joined bs)) ∷ data_messages bs [] in
        shown.0 ≡ none
        → serve_refresh D H msgs elapsed none (some md) b ≡ (
          replied (ok (record { elapsed_ms = elapsed })),
          record b { service = record b.service { display = some shown.2 } },
        )
  unfolding commit_upload
  committed b md st frame wm bs elapsed passes opened got fits shows =
      let exact =
        refresh_exact D DL (upload_header wm (joined bs)) bs [] elapsed none b.service st frame
          opened got refl fits refl in
      ground (arith, passes, exact, shows)

  -- The stream that cmdRefresh sends, and its answer.
  stream_shows :
      (b : Backend D H) (md : List Str) (st : D.State) (frame : D.Frame) (wm : WaveformMode)
      (bs : List Str) (stream : R.Stream) (s1 : R.State)
      → l.view s1 ≡ b
      → l.stream_md stream ≡ md
      → l.sent_on stream s1 ≡ []
      → check (tokens_of b.cm) (some md) ≡ none
      → b.service.display ≡ some st
      → (D.acquire_frame st).0 ≡ ok frame
      → length (joined bs) ≤ length (D.pixels frame)
      → (D.commit
          (translate_mode wm)
          none
          (D.write frame (written_over (joined bs) (D.pixels frame)))
          (D.acquire_frame st).1).0
        ≡ none
      → All (Fits D H N R l) (header_message (upload_header wm (joined bs)) ∷ data_messages bs [])
      → let head = head_chunk wm (joined bs) in
        let s3 = sent_all (R.send stream) (sends stream) bs (R.send stream head s1).1 in
        let shown =
          D.commit
            (translate_mode wm)
            none
            (D.write frame (written_over (joined bs) (D.pixels frame)))
            (D.acquire_frame st).1 in
        ((R.close_and_recv stream s3).0 ≡ ok (record { elapsed_ms = l.clock s3 }))
        × (l.view (R.close_and_recv stream s3).1
            ≡ record b { service = record b.service { display = some shown.2 } })
  stream_shows b md st frame wm bs stream s1 at opened_with empty passes opened got fits shows
        accepted =
      let head = head_chunk wm (joined bs) in
      let s2 = (R.send stream head s1).1 in
      let s3 = sent_all (R.send stream) (sends stream) bs s2 in
      let view3 = sent_all-view stream bs s2 ∙ L.view-send stream head s1 ∙ at in
      let first =
        L.sent-send stream head s1 (sends stream head s1)
        ∙ ap (λ ms. ms ++ (message head ∷ [])) empty in
      let msgs = sent_all-on stream bs s2 ∙ ap (λ ms. ms ++ data_messages bs []) first in
      let served = committed b md st frame wm bs (l.clock s3) passes opened got fits shows in
      let reached : serve_refresh D H (l.sent_on stream s3) (l.clock s3) none
            (some (l.stream_md stream)) (l.view s3)
          ≡ serve_refresh D H (header_message (upload_header wm (joined bs)) ∷ data_messages bs [])
              (l.clock s3) none (some md) b =
        rw (msgs, opened_with, view3) refl in
      let (answer, after) = L.serves_stream stream s3 (rw msgs accepted) in
      (
        answer
            ∙ ap (λ (o : Outcome RefreshResponse × Backend D H). received D H N R l o.0)
                (reached ∙ served),
        after ∙ ap (λ (o : Outcome RefreshResponse × Backend D H). o.1) (reached ∙ served),
      )

  -- What the panel shows behind a commit of the frame with a file at its front.
  abbrev pub shows_file :
      WaveformMode → Str → D.Frame → D.State → Option GoError × D.Frame × D.State
  shows_file wm px frame st =
      D.commit (translate_mode wm) none (D.write frame (written_over px (D.pixels frame)))
        (D.acquire_frame st).1

  -- Where every Send succeeds and the server accepts messages with the header and with pieces of the
  -- chunk size or less: refresh of a file, with flags that are complete, a token of the server in
  -- visible ASCII, a mode, a positive chunk size, and a connection and a stream that open, succeeds
  -- if the display of the server is open, gives a frame that the file fits, and commits it; and what
  -- the server is left with is the display behind the commit of this frame, with the bytes of the
  -- file at its front, the others as they were, no window, and the mode that was asked for.
  pub refresh_shows_file :
      (fuel : ℕ) (c : CommonFlags) (path mode : Str) (chunk : ℕ) (s : Shell R.State)
      (wm : WaveformMode) (px : Str) (conn : N.Conn) (md : List Str) (stream : R.Stream)
      (st : D.State) (frame : D.Frame)
      → validate c ≡ none
      → is_empty path ≡ false
      → parse_mode N R mode ≡ ok wm
      → N.read_file path ≡ ok px
      → dial N c ≡ ok (conn, md)
      → (R.refresh conn md s.remote).0 ≡ ok stream
      → All IsVisible c.token
      → IsToken (tokens_of (l.view s.remote).cm) c.token
      → 0 < chunk
      → length px < fuel
      → (l.view s.remote).service.display ≡ some st
      → (D.acquire_frame st).0 ≡ ok frame
      → length px ≤ length (D.pixels frame)
      → (shows_file wm px frame st).0 ≡ none
      → l.fits (head_chunk wm px) ≡ true
      → ((b : Str) → length b ≤ chunk → l.fits (data_chunk b) ≡ true)
      → let b = l.view s.remote in
        let (r, s') = cmd_refresh N R fuel c path mode (pos chunk) s in
        (r ≡ ok tt)
        × (l.view s'.remote ≡ record b {
          service = record b.service { display = some (shows_file wm px frame st).2 };
        })
  refresh_shows_file fuel c path mode chunk s wm px conn md stream st frame h1 h2 h3 h4 h5 h6
        visible token some_bytes enough opened got fits shows head_fits small =
      let b = l.view s.remote in
      let s1 = (R.refresh conn md s.remote).1 in
      let s2 = (R.send stream (head_chunk wm px) s1).1 in
      let (bs, loop, whole, sizes) =
        send_chunks_whole (R.send stream) (sends stream) fuel chunk px s2 some_bytes enough in
      let passes = dial_passes N c (tokens_of b.cm) conn md visible token h5 in
      let shown =
        stream_shows b md st frame wm bs stream s1 (L.view-refresh conn md s.remote)
          (L.opened_md conn md s.remote stream h6) (L.opened_empty conn md s.remote stream h6)
          passes opened got (rw whole fits) (rw whole shows)
          (rw whole head_fits, data-Fits chunk bs small sizes) in
      let s3 = sent_all (R.send stream) (sends stream) bs s2 in
      let (answer, after) = rw whole at shown in
      let s4 = (R.close_and_recv stream s3).1 in
      let steps =
        refresh_steps N R fuel c path mode (pos chunk) s wm px conn md stream s1 s2 s3 s4 bs
          (record { elapsed_ms = l.clock s3 }) h1 h2 h3 h4 h5 (ap (λ r. (r, s1)) h6)
          (ap (λ r. (r, s2)) (sends stream (head_chunk wm px) s1)) loop
          (ap (λ r. (r, s4)) answer) in
      (
        ap (λ (r : Result Halt (Unit {0}) × Shell R.State). r.0) steps,
        ap (λ (r : Result Halt (Unit {0}) × Shell R.State). l.view r.1.remote) steps ∙ after,
      )
