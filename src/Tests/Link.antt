-- ===== src/Tests/Link.antt =====
-- The commands over a connection to the server of the tests: calls go straight to its handlers.
use tableaux_eink_go.Base.{◌≡◌, refl, true, false, none, some, List, [], ◌∷◌, ◌++◌, arith}
use tableaux_eink_go.Base.Int.{pos}
use tableaux_eink_go.Base.Text.{Str, str}
use tableaux_eink_go.Base.Errors.{GoError, foreign, Result, ok, err, RpcError}
use tableaux_eink_go.Einkgrpc.DisplayService.{Recv, message}
use tableaux_eink_go.Einkgrpc.Backend.{
  Backend, Outcome, replied, died, tokens_of, serve_get_info, serve_health, serve_fill,
  serve_refresh, serve_set_overlay, serve_rotate, serve_reissue, serve_get_metrics,
}
use tableaux_eink_go.Einkgrpc.TokenAuth.{check}
use tableaux_eink_go.Cli.Flags.{Network}
use tableaux_eink_go.Cli.Remote.{Remote}
use tableaux_eink_go.Link.{Link, IsLink, received}
use tableaux_eink_go.Tests.Auth.{direct}
use tableaux_eink_go.Tests.Service.{api}
use tableaux_eink_go.Tests.Disk.{disk_host}
use tableaux_eink_go.Tests.Certificates.{order}
use tableaux_eink_go.Tests.Urls.{cut_url}

abbrev pub Panel : Type 0
Panel = Backend (api false) disk_host

-- The server, and the messages on the stream.
pub record Wire : Type 0 where
  pub panel : Panel
  pub sent : List Recv

abbrev pub rpc_error : RpcError → GoError
rpc_error e = foreign (str "rpc error")

abbrev pub lost : GoError
lost = foreign (str "connection lost")

abbrev pub answer : {A : Type 0} → Outcome A → Result GoError A
answer (replied (ok a)) = ok a
answer (replied (err e)) = err (rpc_error e)
answer (died t) = err lost

abbrev pub over : {A : Type 0} → Wire → Outcome A × Panel → Result GoError A × Wire
over s (o, b) = (answer o, record s { panel = b })

abbrev pub file : Network
file = record direct { read_file = λ path. ok (1 ∷ 2 ∷ 3 ∷ []) }

-- A stream is the context that it was opened with.
abbrev pub remote : Remote file
remote = record {
  State = Wire;
  Stream = List Str;
  get_info = λ conn md s. over s (serve_get_info (api false) disk_host (some md) s.panel);
  health = λ conn md s. over s (serve_health (api false) disk_host (pos 4) (some md) s.panel);
  fill = λ conn md m s. over s (serve_fill (api false) disk_host m (pos 4) (some md) s.panel);
  refresh = λ conn md s. (ok md, record s { sent = [] });
  send = λ stream m s. (none, record s { sent = s.sent ++ (message m ∷ []) });
  close_and_recv = λ stream s.
      over s (serve_refresh (api false) disk_host s.sent (pos 4) none (some stream) s.panel);
  set_overlay = λ conn md m s. over s (serve_set_overlay (api false) disk_host m (some md) s.panel);
  rotate = λ conn md s. over s (serve_rotate (api false) disk_host order (pos 4) (some md) s.panel);
  reissue_client_cert = λ conn md s. over s (serve_reissue (api false) disk_host (some md) s.panel);
  get_metrics =
      λ conn md s. over s (serve_get_metrics (api false) disk_host (pos 4) (some md) s.panel);
  mkdir_all = λ path s. (none, s);
  write_file = λ path text s. (none, s);
  join = λ dir name. dir ++ (str "/" ++ name);
  browse = λ seconds s. (ok [], s);
  unicode_lower = λ s. s;
  quote = λ s. str "\"" ++ (s ++ str "\"");
  parse_url = cut_url;
}

abbrev pub link : Link (api false) disk_host file remote
link = record {
  view = λ s. s.panel;
  status_error = rpc_error;
  lost = lost;
  clock = λ s. pos 4;
  order = λ s. order;
  stream_md = λ stream. stream;
  sent_on = λ stream s. s.sent;
  fits = λ c. true;
}

over_gives :
    {A : Type 0} (s : Wire) (r : Outcome A × Panel)
    → ((over s r).0 ≡ received (api false) disk_host file remote link r.0)
      × ((over s r).1.panel ≡ r.1)
over_gives s (replied (ok a), b) = (refl, refl)
over_gives s (replied (err e), b) = (refl, refl)
over_gives s (died t, b) = (refl, refl)

refuses :
    (stream : List Str) (s : Wire) (e : RpcError)
    → check (tokens_of s.panel.cm) (some stream) ≡ some e
    → ((remote.close_and_recv stream s).0 ≡ err (rpc_error e))
      × ((remote.close_and_recv stream s).1.panel ≡ s.panel)
refuses stream s e h = (ground (arith, h), ground (arith, h))

pub link-IsLink : IsLink (api false) disk_host file remote link
link-IsLink = record {
  serves_get_info =
      λ conn md s. over_gives s (serve_get_info (api false) disk_host (some md) s.panel);
  serves_health =
      λ conn md s. over_gives s (serve_health (api false) disk_host (pos 4) (some md) s.panel);
  serves_fill =
      λ conn md m s. over_gives s (serve_fill (api false) disk_host m (pos 4) (some md) s.panel);
  serves_set_overlay =
      λ conn md m s. over_gives s (serve_set_overlay (api false) disk_host m (some md) s.panel);
  serves_rotate = λ conn md s.
      over_gives s (serve_rotate (api false) disk_host order (pos 4) (some md) s.panel);
  serves_reissue =
      λ conn md s. over_gives s (serve_reissue (api false) disk_host (some md) s.panel);
  serves_get_metrics =
      λ conn md s. over_gives s (serve_get_metrics (api false) disk_host (pos 4) (some md) s.panel);
  view-refresh = λ conn md s. refl;
  opened_md = λ conn md s stream h. cc;
  opened_empty = λ conn md s stream h. refl;
  view-send = λ stream c s. refl;
  sent-send = λ stream c s h. refl;
  refuses_stream = refuses;
  serves_stream = λ stream s h.
      over_gives s (serve_refresh (api false) disk_host s.sent (pos 4) none (some stream) s.panel);
  view-mkdir_all = λ path s. refl;
  view-write_file = λ path text s. refl;
  view-browse = λ seconds s. refl;
}
