-- ===== src/Einkgrpc/Credentials.antt =====
-- The fingerprints of einkgrpc/certmanager.go, and the handlers Rotate, ReissueClientCert and
-- GetMetrics of einkgrpc/displayservice.go.
pub mod Fingerprints
pub mod Reissue
use tableaux_eink_go.Base.{
  ℕ, ◌+◌, ◌-◌, ◌*◌, ◌/◌, ◌%◌, Bool, true, false, Option, none, some, List, [], ◌∷◌, ◌++◌,
  if◌then◌else◌, ltb,
}
use tableaux_eink_go.Base.Int.{ℤ, pos}
use tableaux_eink_go.Base.Text.{Str, str, decimal_ℤ}
use tableaux_eink_go.Base.Errors.{GoError, error_text, Result, ok, err, RpcError, status, internal}
use tableaux_eink_go.Einkproto.{RotateResponse, GetMetricsResponse, ReissueClientCertResponse}
use tableaux_eink_go.Einkgrpc.Host.{FileName, Host}
use tableaux_eink_go.Einkgrpc.CertManager.{
  CertManager, Failure, returned, panicked, rotate, reissue_client_cert,
}

-- One digit of hex.EncodeToString in upper case.
abbrev pub hex_digit : ℕ → ℕ
hex_digit d = if ltb d 10 then b'0' + d else b'A' + (d - 10)

-- The bytes in upper-case hexadecimal, joined by colons.
unfoldable pub colon_hex : Str → Str
colon_hex [] = []
colon_hex (b ∷ []) = hex_digit (b / 16) ∷ hex_digit (b % 16) ∷ []
colon_hex (b ∷ c ∷ rest) = hex_digit (b / 16) ∷ hex_digit (b % 16) ∷ b':' ∷ colon_hex (c ∷ rest)

-- How a handler ends: with an answer, and with whether it has arranged for the callback
-- rotateRequest; with an error; or in a panic.
pub data Ending (A : Type 0) : Type 0 where
  answered : A → Bool → Ending A
  failing : RpcError → Ending A
  crashed : Str → Ending A

abbrev pub failure : {A : Type 0} → Str → Failure → Ending A
failure text (returned e) = failing (status internal (text ++ error_text e))
failure text (panicked t) = crashed t

-- boolToInt
abbrev pub bool_to_int : Bool → ℤ
bool_to_int true = pos 1
bool_to_int false = pos 0

-- GetMetrics at an uptime in seconds.
unfoldable pub get_metrics : ℤ → Bool → GetMetricsResponse
get_metrics uptime device_open = record {
  prom_text =
      str
        "# HELP tableaux_uptime_seconds Server uptime in seconds.\n# TYPE tableaux_uptime_seconds counter\ntableaux_uptime_seconds "
      ++ (decimal_ℤ uptime
          ++ (str
                "\n# HELP tableaux_device_open Whether the EBC device is opened.\n# TYPE tableaux_device_open gauge\ntableaux_device_open "
              ++ (decimal_ℤ (bool_to_int device_open) ++ str "\n")));
}

module _ (H : Host) where
  unfoldable pub fingerprint_pem : Str → Str
  fingerprint_pem cert_pem = elim (H.pem_decode cert_pem) [
    | none ↦ []
    | some der ↦ colon_hex (H.sha256 der)
  ]

  -- Fingerprint and ClientFingerprint
  abbrev pub fingerprint : CertManager → Str
  fingerprint cm = fingerprint_pem cm.server_cer

  abbrev pub client_fingerprint : CertManager → Str
  client_fingerprint cm = fingerprint_pem cm.client_cer

  -- Rotate of the service. `hosted`: whether it has a callback; `at` is the time in milliseconds.
  unfoldable pub rotate_credentials :
      List FileName
      → Bool
      → ℤ
      → CertManager
      → H.State
      → Ending RotateResponse × CertManager × H.State
  rotate_credentials order hosted at cm s =
      let (r, cm', s') = rotate H order cm s in
      elim r [
        | err e ↦ (failure (str "rotate: ") e, cm', s')
        | ok _ ↦ (answered (record { scheduled_at_ms = at }) hosted, cm', s')
      ]

  -- ReissueClientCert of the service, whose callback comes after two seconds.
  unfoldable pub reissue :
      Bool → CertManager → H.State → Ending ReissueClientCertResponse × CertManager × H.State
  reissue hosted cm s =
      let (r, cm', s') = reissue_client_cert H cm s in
      elim r [
        | err e ↦ (failure (str "reissue: ") e, cm', s')
        | ok _ ↦ (
          answered
              (record {
                client_cert_pem = cm'.client_cer;
                client_key_pem = cm'.client_key;
                client_cert_fingerprint = client_fingerprint cm';
                server_restart_in_ms = pos 2000;
              })
              hosted,
          cm',
          s',
        )
      ]
