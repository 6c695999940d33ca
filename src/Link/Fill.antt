-- ===== src/Link/Fill.antt =====
-- The command fill against the server: the colour is on the panel.
use tableaux_eink_go.Base.{ℕ, ◌≡◌, ap, ◌∙◌, Option, none, some, List, ◌++◌, arith, All}
use tableaux_eink_go.Base.Int.{ℤ}
use tableaux_eink_go.Base.Text.{Str, IsVisible}
use tableaux_eink_go.Base.Errors.{GoError, Result, ok}
use tableaux_eink_go.Einkproto.{RefreshResponse, WaveformMode}
use tableaux_eink_go.Einklib.Bitmap.{fill_solid}
use tableaux_eink_go.Einklib.Interface.{DisplayApi}
use tableaux_eink_go.Einkgrpc.Host.{Host}
use tableaux_eink_go.Einkgrpc.Modes.{translate_mode}
use tableaux_eink_go.Einkgrpc.TokenAuth.{check}
use tableaux_eink_go.Einkgrpc.TokenAuth.Bearer.{IsToken}
use tableaux_eink_go.Einkgrpc.DisplayService.{fill_display, fill}
use tableaux_eink_go.Einkgrpc.Backend.{Backend, Outcome, replied, tokens_of, serve_fill}
use tableaux_eink_go.Cli.Flags.{CommonFlags, Network, validate, dial}
use tableaux_eink_go.Cli.Flags.Dialled.{dial_passes}
use tableaux_eink_go.Cli.Remote.{Remote}
use tableaux_eink_go.Cli.Commands.{Halt, Shell, cmd_fill, parse_argb, parse_mode}
use tableaux_eink_go.Cli.Texts.{elapsed_text}
use tableaux_eink_go.Link.{Link, IsLink, received}

-- What cmdFill does when nothing fails, by what its calls return.
fill_steps :
    (N : Network) (R : Remote N) (c : CommonFlags) (argb mode : Str) (s : Shell R.State) (n : ℕ)
    (wm : WaveformMode) (conn : N.Conn) (md : List Str) (resp : RefreshResponse)
    → validate c ≡ none
    → parse_argb N R argb ≡ ok n
    → parse_mode N R mode ≡ ok wm
    → dial N c ≡ ok (conn, md)
    → (R.fill conn md (record { argb = n; mode = wm }) s.remote).0 ≡ ok resp
    → cmd_fill N R c argb mode s ≡ (
      ok tt,
      record {
        printed = s.printed ++ elapsed_text resp;
        remote = (R.fill conn md (record { argb = n; mode = wm }) s.remote).1;
      },
    )
unfolding cmd_fill
fill_steps N R c argb mode s n wm conn md resp h1 h2 h3 h4 h5 = ground (arith, h1, h2, h3, h4, h5)

module _ (D : DisplayApi) (H : Host) (N : Network) (R : Remote N) (l : Link D H N R)
    (L : IsLink D H N R l) where
  -- What the panel shows behind a commit of the frame in one colour.
  abbrev pub shows_colour :
      WaveformMode → ℕ → D.Frame → D.State → Option GoError × D.Frame × D.State
  shows_colour wm n frame st =
      D.commit (translate_mode wm) none
        (D.write frame (fill_solid (D.frame_info frame) n (D.pixels frame))) (D.acquire_frame st).1

  filled :
      (b : Backend D H) (md : List Str) (st : D.State) (frame : D.Frame) (wm : WaveformMode) (n : ℕ)
      (elapsed : ℤ)
      → check (tokens_of b.cm) (some md) ≡ none
      → b.service.display ≡ some st
      → (D.acquire_frame st).0 ≡ ok frame
      → (shows_colour wm n frame st).0 ≡ none
      → serve_fill D H (record { argb = n; mode = wm }) elapsed (some md) b ≡ (
        replied (ok (record { elapsed_ms = elapsed })),
        record b { service = record b.service { display = some (shows_colour wm n frame st).2 } },
      )
  unfolding fill fill_display
  filled b md st frame wm n elapsed passes opened got shows =
      ground (arith, passes, opened, got, shows)

  -- fill with flags that are complete, a token of the server in visible ASCII, a colour and a mode,
  -- over a connection that opens, succeeds if the display of the server is open, gives a frame, and
  -- commits it; and what the server is left with is the display behind the commit of this frame,
  -- painted by FillSolid in this colour, whole and in the mode that was asked for.
  pub fill_shows_colour :
      (c : CommonFlags) (argb mode : Str) (s : Shell R.State) (n : ℕ) (wm : WaveformMode)
      (conn : N.Conn) (md : List Str) (st : D.State) (frame : D.Frame)
      → validate c ≡ none
      → parse_argb N R argb ≡ ok n
      → parse_mode N R mode ≡ ok wm
      → dial N c ≡ ok (conn, md)
      → All IsVisible c.token
      → IsToken (tokens_of (l.view s.remote).cm) c.token
      → (l.view s.remote).service.display ≡ some st
      → (D.acquire_frame st).0 ≡ ok frame
      → (shows_colour wm n frame st).0 ≡ none
      → let b = l.view s.remote in
        let (r, s') = cmd_fill N R c argb mode s in
        (r ≡ ok tt)
        × (l.view s'.remote ≡ record b {
          service = record b.service { display = some (shows_colour wm n frame st).2 };
        })
  fill_shows_colour c argb mode s n wm conn md st frame h1 h2 h3 h4 visible token opened got shows =
      let b = l.view s.remote in
      let elapsed = l.clock s.remote in
      let passes = dial_passes N c (tokens_of b.cm) conn md visible token h4 in
      let served = filled b md st frame wm n elapsed passes opened got shows in
      let (answer, after) = L.serves_fill conn md (record { argb = n; mode = wm }) s.remote in
      let answer' =
        answer
        ∙ ap (λ (o : Outcome RefreshResponse × Backend D H). received D H N R l o.0) served in
      let after' = after ∙ ap (λ (o : Outcome RefreshResponse × Backend D H). o.1) served in
      let steps =
        fill_steps N R c argb mode s n wm conn md (record { elapsed_ms = elapsed }) h1 h2 h3 h4
          answer' in
      (
        ap (λ (r : Result Halt (Unit {0}) × Shell R.State). r.0) steps,
        ap (λ (r : Result Halt (Unit {0}) × Shell R.State). l.view r.1.remote) steps ∙ after',
      )
