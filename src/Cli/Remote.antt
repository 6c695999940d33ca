-- ===== src/Cli/Remote.antt =====
-- What the commands of tableaux-cli call besides the flags and the connection: the stubs of the
-- protocol, the file system, the mDNS browser, and three functions of the standard library: two that go
-- by the tables of Unicode, and url.Parse. They are a parameter; a stub takes the values of `authorization` that
-- the context of the call carries.
use tableaux_eink_go.Base.{Option, List}
use tableaux_eink_go.Base.Int.{ℤ}
use tableaux_eink_go.Base.Text.{Str}
use tableaux_eink_go.Base.Errors.{GoError, Result}
use tableaux_eink_go.Einkproto.{
  DisplayInfo, HealthResponse, FillRequest, RefreshResponse, SetOverlayRequest, RotateResponse,
  GetMetricsResponse, ReissueClientCertResponse, RefreshChunk,
}
use tableaux_eink_go.Base.Url.{Url}
use tableaux_eink_go.Cli.Flags.{Network}

-- zeroconf.ServiceEntry, with its addresses as fmt prints them.
pub record ServiceEntry : Type 0 where
  pub instance_name : Str
  pub addresses : Str
  pub port : ℤ
  pub text : List Str

pub record Remote (N : Network) : Type 1 where
  pub State : Type 0
  pub Stream : Type 0
  pub get_info : N.Conn → List Str → State → Result GoError DisplayInfo × State
  pub health : N.Conn → List Str → State → Result GoError HealthResponse × State
  pub fill : N.Conn → List Str → FillRequest → State → Result GoError RefreshResponse × State
  pub refresh : N.Conn → List Str → State → Result GoError Stream × State
  pub send : Stream → RefreshChunk → State → Option GoError × State
  pub close_and_recv : Stream → State → Result GoError RefreshResponse × State
  pub set_overlay :
      N.Conn → List Str → SetOverlayRequest → State → Result GoError (Unit {0}) × State
  pub rotate : N.Conn → List Str → State → Result GoError RotateResponse × State
  pub reissue_client_cert :
      N.Conn → List Str → State → Result GoError ReissueClientCertResponse × State
  pub get_metrics : N.Conn → List Str → State → Result GoError GetMetricsResponse × State
  pub mkdir_all : Str → State → Option GoError × State
  -- of a path
  pub write_file : Str → Str → State → Option GoError × State
  -- filepath.Join of a directory and a name
  pub join : Str → Str → Str
  -- NewResolver and Browse for a number of seconds, with the entries that its channel gives
  pub browse : ℤ → State → Result GoError (List ServiceEntry) × State
  -- strings.ToLower where a byte is not ASCII, and strconv.Quote
  pub unicode_lower : Str → Str
  pub quote : Str → Str
  -- url.Parse
  pub parse_url : Str → Result GoError Url
