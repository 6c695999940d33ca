-- ===== src/Link/Stranger.antt =====
-- The commands of a client without a token of the server.
use tableaux_eink_go.Base.{ℕ, ◌≡◌, refl, subst, sym, Bool, some, List, arith, inl, inr}
use tableaux_eink_go.Base.Int.{ℤ}
use tableaux_eink_go.Base.Text.{Str}
use tableaux_eink_go.Base.Errors.{GoError, Result, Result-cases}
use tableaux_eink_go.Einkproto.{WaveformMode, header}
use tableaux_eink_go.Cli.Upload.{upload_header}
use tableaux_eink_go.Cli.Texts.{elapsed_text}
use tableaux_eink_go.Einklib.Interface.{DisplayApi}
use tableaux_eink_go.Einkgrpc.Host.{Host}
use tableaux_eink_go.Einkgrpc.Backend.{Backend}
use tableaux_eink_go.Cli.Flags.{CommonFlags, Network, dial}
use tableaux_eink_go.Cli.Remote.{Remote}
use tableaux_eink_go.Cli.Commands.{
  Shell, Cmd, ◌>>=◌, ◌>>◌, print, pure_call, call, act, return_if, validated, send_file, Command,
  run, flags_of, info, health, rotate, metrics, fill, refresh, overlay, reissue, discover, connect,
  cmd_info, cmd_health, cmd_fill, cmd_refresh, cmd_overlay, cmd_rotate, cmd_reissue, cmd_metrics,
  cmd_discover, cmd_connect,
}
use tableaux_eink_go.Link.{Link, IsLink}
use tableaux_eink_go.Link.Keeps.{
  Refused, Keeps, Keeps-bind, pure_call-Keeps, return_if-Keeps, validated-Keeps, print-Keeps,
  call-Keeps, act-Keeps, get_info-Keeps, health-Keeps, fill-Keeps, set_overlay-Keeps, rotate-Keeps,
  reissue-Keeps, get_metrics-Keeps, refresh-Keeps, send-Keeps, close-Keeps, mkdir_all-Keeps,
  write_file-Keeps, browse-Keeps, send_file-Keeps, IsStranger, stranger-Refused,
}

module _ (D : DisplayApi) (H : Host) (N : Network) (R : Remote N) (l : Link D H N R)
    (L : IsLink D H N R l) (b : Backend D H) where
  abbrev Kept : {A : Type 0} → Cmd N R A → Type 0
  Kept = Keeps D H N R l L b

  -- The rules, one for each action.
  bind :
      {A B : Type 0} (m : Cmd N R A) (f : A → Cmd N R B)
      → Kept m
      → ((a : A) → Kept (f a))
      → Kept (◌>>=◌ N R m f)
  bind = Keeps-bind D H N R l L b

  pure_first : {A : Type 0} (r : Result GoError A) → Kept (pure_call N R r)
  pure_first = pure_call-Keeps D H N R l L b

  return_first : (c : Bool) (x : GoError) → Kept (return_if N R c x)
  return_first = return_if-Keeps D H N R l L b

  validated_first : (c : CommonFlags) → Kept (validated N R c)
  validated_first = validated-Keeps D H N R l L b

  printed : (t : Str) → Kept (print N R t)
  printed = print-Keeps D H N R l L b

  dialled :
      {B : Type 0} (c : CommonFlags) (g : N.Conn × List Str → Cmd N R B)
      → IsStranger D H N R l L c b
      → ((conn : N.Conn) (md : List Str) → Refused D H N R l L md b → Kept (g (conn, md)))
      → Kept (◌>>=◌ N R (pure_call N R (dial N c)) g)
  dialled c g stranger q s at = elim (Result-cases (dial N c)) [
    | inr (x, r) ↦ ground (arith, r, at)
    | inl ((conn, md), r) ↦
        ground (arith, r, q conn md (stranger-Refused D H N R l L c b conn md stranger r) s at)
  ]

  opened :
      {B : Type 0} (conn : N.Conn) (md : List Str) (g : R.Stream → Cmd N R B)
      → Refused D H N R l L md b
      → ((stream : R.Stream) → Refused D H N R l L (l.stream_md stream) b → Kept (g stream))
      → Kept (◌>>=◌ N R (call N R (R.refresh conn md)) g)
  opened conn md g r q s at = elim (Result-cases (R.refresh conn md s.remote).0) [
    | inr (x, z) ↦ ground (arith, z, refresh-Keeps D H N R l L b conn md s.remote at)
    | inl (stream, z) ↦
        let s' = record s { remote = (R.refresh conn md s.remote).1 } in
        let same = L.opened_md conn md s.remote stream z in
        let r' = subst (λ x. Refused D H N R l L x b) (sym same) r in
        let kept = refresh-Keeps D H N R l L b conn md s.remote at in
        ground (arith, z, q stream r' s' kept)
  ]

  ruleset kept = (dialled, bind, pure_first, validated_first, printed, call-Keeps)

  cmd_info-Kept : (c : CommonFlags) → IsStranger D H N R l L c b → Kept (cmd_info N R c)
  unfolding cmd_info
  cmd_info-Kept c stranger = search (kept, get_info-Keeps)

  cmd_health-Kept : (c : CommonFlags) → IsStranger D H N R l L c b → Kept (cmd_health N R c)
  unfolding cmd_health
  cmd_health-Kept c stranger = search (kept, health-Keeps)

  cmd_rotate-Kept : (c : CommonFlags) → IsStranger D H N R l L c b → Kept (cmd_rotate N R c)
  unfolding cmd_rotate
  cmd_rotate-Kept c stranger = search (kept, rotate-Keeps)

  cmd_metrics-Kept : (c : CommonFlags) → IsStranger D H N R l L c b → Kept (cmd_metrics N R c)
  unfolding cmd_metrics
  cmd_metrics-Kept c stranger = search (kept, get_metrics-Keeps)

  cmd_fill-Kept :
      (c : CommonFlags) (argb mode : Str)
      → IsStranger D H N R l L c b
      → Kept (cmd_fill N R c argb mode)
  unfolding cmd_fill
  cmd_fill-Kept c argb mode stranger = search (kept, fill-Keeps) depth 14

  cmd_overlay-Kept :
      (c : CommonFlags) (enabled : Bool)
      → IsStranger D H N R l L c b
      → Kept (cmd_overlay N R c enabled)
  unfolding cmd_overlay
  cmd_overlay-Kept c enabled stranger = search (kept, set_overlay-Keeps)

  reissue_first :
      (conn : N.Conn) (md : List Str)
      → Refused D H N R l L md b
      → Kept (call N R (R.reissue_client_cert conn md))
  reissue_first conn md r =
      call-Keeps D H N R l L b (R.reissue_client_cert conn md)
        (reissue-Keeps D H N R l L b conn md r)

  mkdir_first : (path : Str) → Kept (act N R (R.mkdir_all path))
  mkdir_first path = act-Keeps D H N R l L b (R.mkdir_all path) (mkdir_all-Keeps D H N R l L b path)

  write_first : (path text : Str) → Kept (act N R (R.write_file path text))
  write_first path text =
      act-Keeps D H N R l L b (R.write_file path text) (write_file-Keeps D H N R l L b path text)

  cmd_reissue-Kept :
      (c : CommonFlags) (out : Str) → IsStranger D H N R l L c b → Kept (cmd_reissue N R c out)
  unfolding cmd_reissue
  cmd_reissue-Kept c out stranger =
      search (dialled, bind, validated_first, printed, reissue_first, mkdir_first, write_first)
        depth 20

  cmd_discover-Kept : (timeout : ℤ) (first : Bool) → Kept (cmd_discover N R timeout first)
  unfolding cmd_discover
  cmd_discover-Kept timeout first = search (kept, browse-Keeps)

  cmd_connect-Kept : (args : List Str) → Kept (cmd_connect N R args)
  unfolding cmd_connect
  cmd_connect-Kept args = search (kept, return_first)

  -- cmdRefresh on an open stream.
  stream-Kept :
      (fuel : ℕ) (wm : WaveformMode) (px : Str) (chunk : ℤ) (stream : R.Stream)
      → Refused D H N R l L (l.stream_md stream) b
      → Kept (
          ◌>>◌ N R
            (act N R
              (R.send stream (record { payload = some (header (some (upload_header wm px))) })))
            (◌>>◌ N R (send_file N R fuel stream chunk px) (
              ◌>>=◌ N R
                (call N R (R.close_and_recv stream))
                (λ resp. print N R (elapsed_text resp)))))
  stream-Kept fuel wm px chunk stream r =
      search (bind, printed, call-Keeps, act-Keeps, send-Keeps, close-Keeps, send_file-Keeps)

  cmd_refresh-Kept :
      (fuel : ℕ) (c : CommonFlags) (path mode : Str) (chunk : ℤ)
      → IsStranger D H N R l L c b
      → Kept (cmd_refresh N R fuel c path mode chunk)
  unfolding cmd_refresh
  cmd_refresh-Kept fuel c path mode chunk stranger =
      search (dialled, opened, bind, pure_first, return_first, validated_first, stream-Kept) depth
        20

  -- A client whose token, without the white space around it, is not one of the server's tokens
  -- changes nothing on the server, whichever command it runs and however far this gets: neither the
  -- display nor the credentials, on disk or in memory, nor what the service remembers, and the
  -- server is not asked to restart.
  pub stranger_changes_nothing :
      (fuel : ℕ) (k : Command N R) (s : Shell R.State)
      → l.view s.remote ≡ b
      → ((c : CommonFlags) → flags_of N R k ≡ some c → IsStranger D H N R l L c b)
      → l.view (run N R fuel k s).1.remote ≡ b
  stranger_changes_nothing fuel (info c) s at stranger = cmd_info-Kept c (stranger c refl) s at
  stranger_changes_nothing fuel (health c) s at stranger = cmd_health-Kept c (stranger c refl) s at
  stranger_changes_nothing fuel (rotate c) s at stranger = cmd_rotate-Kept c (stranger c refl) s at
  stranger_changes_nothing fuel (metrics c) s at stranger =
      cmd_metrics-Kept c (stranger c refl) s at
  stranger_changes_nothing fuel (fill c argb mode) s at stranger =
      cmd_fill-Kept c argb mode (stranger c refl) s at
  stranger_changes_nothing fuel (refresh c path mode chunk) s at stranger =
      cmd_refresh-Kept fuel c path mode chunk (stranger c refl) s at
  stranger_changes_nothing fuel (overlay c enabled) s at stranger =
      cmd_overlay-Kept c enabled (stranger c refl) s at
  stranger_changes_nothing fuel (reissue c out) s at stranger =
      cmd_reissue-Kept c out (stranger c refl) s at
  stranger_changes_nothing fuel (discover timeout first) s at stranger =
      cmd_discover-Kept timeout first s at
  stranger_changes_nothing fuel (connect args) s at stranger = cmd_connect-Kept args s at
