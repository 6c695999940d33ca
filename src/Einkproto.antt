-- ===== src/Einkproto.antt =====
-- einkproto/display.pb.go: the messages of the gRPC service, as the handlers read and build them.
-- The fields that the protobuf runtime keeps for itself are left out.
use tableaux_eink_go.Base.{ℕ, Bool, Option}
use tableaux_eink_go.Base.Int.{ℤ, pos}
use tableaux_eink_go.Base.Text.{Str}

-- The enumeration is open: any int32 can arrive.
abbrev pub WaveformMode : Type 0
WaveformMode = ℤ

abbrev pub waveform_mode_unspecified : WaveformMode
waveform_mode_unspecified = pos 0

abbrev pub waveform_mode_init : WaveformMode
waveform_mode_init = pos 1

abbrev pub waveform_mode_direct_update : WaveformMode
waveform_mode_direct_update = pos 2

abbrev pub waveform_mode_gc16 : WaveformMode
waveform_mode_gc16 = pos 3

abbrev pub waveform_mode_gcc16 : WaveformMode
waveform_mode_gcc16 = pos 4

abbrev pub waveform_mode_animation : WaveformMode
waveform_mode_animation = pos 5

abbrev pub waveform_mode_partial : WaveformMode
waveform_mode_partial = pos 6

abbrev pub waveform_mode_full : WaveformMode
waveform_mode_full = pos 7

abbrev pub waveform_mode_auto : WaveformMode
waveform_mode_auto = pos 8

abbrev pub waveform_mode_reset : WaveformMode
waveform_mode_reset = pos 9

abbrev pub waveform_mode_black_white : WaveformMode
waveform_mode_black_white = pos 10

abbrev pub waveform_mode_transparent : WaveformMode
waveform_mode_transparent = pos 11

abbrev pub waveform_mode_regal : WaveformMode
waveform_mode_regal = pos 12

abbrev pub waveform_mode_spectra_full_gc16 : WaveformMode
waveform_mode_spectra_full_gc16 = pos 13

abbrev pub waveform_mode_spectra_glare_reduced : WaveformMode
waveform_mode_spectra_glare_reduced = pos 14

abbrev pub waveform_mode_spectra_ghost_reduced : WaveformMode
waveform_mode_spectra_ghost_reduced = pos 15

abbrev pub waveform_mode_spectra_full_gcc16 : WaveformMode
waveform_mode_spectra_full_gcc16 = pos 16

pub record DisplayInfo : Type 0 where
  pub width : ℤ
  pub height : ℤ
  pub virtual_width : ℤ
  pub virtual_height : ℤ
  pub color : Bool
  pub app_version : Str

pub record Region : Type 0 where
  pub x1 : ℤ
  pub y1 : ℤ
  pub x2 : ℤ
  pub y2 : ℤ

pub record RefreshHeader : Type 0 where
  pub mode : WaveformMode
  pub region : Option Region
  pub total_bytes : ℤ

-- The oneof of RefreshChunk. A header can be the nil pointer.
pub data Payload : Type 0 where
  header : Option RefreshHeader → Payload
  bytes : Str → Payload

-- `none`: no member of the oneof is set.
pub record RefreshChunk : Type 0 where
  pub payload : Option Payload

pub record RefreshResponse : Type 0 where
  pub elapsed_ms : ℤ

pub record FillRequest : Type 0 where
  pub argb : ℕ
  pub mode : WaveformMode

pub record SetOverlayRequest : Type 0 where
  pub enabled : Bool

pub record HealthResponse : Type 0 where
  pub device_open : Bool
  pub last_error : Str
  pub server_version : Str
  pub uptime_seconds : ℤ

pub record RotateResponse : Type 0 where
  pub scheduled_at_ms : ℤ

pub record GetMetricsResponse : Type 0 where
  pub prom_text : Str

pub record ReissueClientCertResponse : Type 0 where
  pub client_cert_pem : Str
  pub client_key_pem : Str
  pub client_cert_fingerprint : Str
  pub server_restart_in_ms : ℤ
