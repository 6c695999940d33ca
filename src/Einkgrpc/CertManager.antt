-- ===== src/Einkgrpc/CertManager.antt =====
-- einkgrpc/certmanager.go: the TLS material and the bearer tokens, in memory and on disk. The lock
-- makes a method one step; ReissueClientCert writes its files behind the lock.
pub mod Tokens
pub mod Storage
pub mod Reissued
pub mod Directory
pub mod Reload
pub mod Loaded
use tableaux_eink_go.Base.{
  ℕ, ◌+◌, ◌-◌, ◌*◌, ◌/◌, ◌%◌, ◌^◌, Bool, true, false, Option, none, some, List, [], ◌∷◌, ◌++◌,
  if◌then◌else◌, ltb, ◌==◌,
}
use tableaux_eink_go.Base.Int.{ℤ, pos, negsuc, ◌+ℤ◌}
use tableaux_eink_go.Base.Text.{Str, str, trim_space}
use tableaux_eink_go.Base.Errors.{GoError, error_text, wrapped, plain, Result, ok, err}
use tableaux_eink_go.Einkgrpc.Host.{
  FileName, cert_pem, key_pem, client_cert_pem, client_key_pem, token_txt, admin_token_txt,
  Template, Host,
}

pub record CertManager : Type 0 where
  pub tls_dir : Str
  pub server_cer : Str
  pub server_key : Str
  pub client_cer : Str
  pub client_key : Str
  pub token : Str
  pub admin_tok : Str

-- A method fails by the error that it returns, or by a panic.
pub data Failure : Type 0 where
  returned : GoError → Failure
  panicked : Str → Failure

-- The alphabet of base64.RawURLEncoding.
unfoldable pub base64_char : ℕ → ℕ
base64_char i =
    if ltb i 26
    then b'A' + i
    else if ltb i 52
    then b'a' + (i - 26)
    else if ltb i 62
    then b'0' + (i - 52)
    else if i == 62
    then b'-'
    else b'_'

-- EncodeToString: three bytes to four characters, without padding at the end.
unfoldable pub base64_encode : Str → Str
base64_encode [] = []
base64_encode (a ∷ []) = base64_char (a / 4) ∷ base64_char (a % 4 * 16) ∷ []
base64_encode (a ∷ b ∷ []) =
    base64_char (a / 4) ∷ base64_char (a % 4 * 16 + b / 16) ∷ base64_char (b % 16 * 4) ∷ []
base64_encode (a ∷ b ∷ c ∷ rest) =
    base64_char (a / 4)
    ∷ base64_char (a % 4 * 16 + b / 16)
    ∷ base64_char (b % 16 * 4 + c / 64)
    ∷ base64_char (c % 64)
    ∷ base64_encode rest

-- What is stored in each file.
abbrev pub content : CertManager → FileName → Str
content cm cert_pem = cm.server_cer
content cm key_pem = cm.server_key
content cm client_cert_pem = cm.client_cer
content cm client_key_pem = cm.client_key
content cm token_txt = cm.token
content cm admin_token_txt = cm.admin_tok

-- `*sink = b` of loadOrInit; the tokens are not among its files.
abbrev pub sink : FileName → Str → CertManager → CertManager
sink cert_pem b cm = record cm { server_cer = b }
sink key_pem b cm = record cm { server_key = b }
sink client_cert_pem b cm = record cm { client_cer = b }
sink client_key_pem b cm = record cm { client_key = b }
sink token_txt b cm = cm
sink admin_token_txt b cm = cm

abbrev pub file_text : FileName → Str
file_text cert_pem = str "cert.pem"
file_text key_pem = str "key.pem"
file_text client_cert_pem = str "client-cert.pem"
file_text client_key_pem = str "client-key.pem"
file_text token_txt = str "token.txt"
file_text admin_token_txt = str "admin-token.txt"

-- Valid from an hour ago for ten years; the usages and the rest are the same in every certificate.
abbrev pub template : Str → ℕ → ℤ → ℤ → Template
template common_name serial created expires = record {
  serial = serial;
  common_name = common_name;
  not_before = created +ℤ negsuc 3599;
  not_after = expires +ℤ pos (10 * 365 * 24 * 3600);
}

-- The fields before anything is loaded.
abbrev pub empty_manager : Str → CertManager
empty_manager dir = record {
  tls_dir = dir;
  server_cer = [];
  server_key = [];
  client_cer = [];
  client_key = [];
  token = [];
  admin_tok = [];
}

module _ (H : Host) where
  abbrev Call : Type 0 → Type 0
  Call A = H.State → Result Failure A × H.State

  infixl 5 ◌>>=◌
  abbrev ◌>>=◌ : {A B : Type 0} → Call A → (A → Call B) → Call B
  ◌>>=◌ m f s = let (r, s') = m s in elim r [ err e ↦ (err e, s') | ok a ↦ f a s' ]

  abbrev attempt : {A : Type 0} → (H.State → Result GoError A × H.State) → Call A
  attempt call s =
      let (r, s') = call s in elim r [ err e ↦ (err (returned e), s') | ok a ↦ (ok a, s') ]

  unfoldable pub gen_self_signed : Str → H.State → Result Failure (Str × Str) × H.State
  gen_self_signed common_name = do
    key ← attempt H.generate_key
    serial ← attempt (H.random_int (2 ^ 128))
    created ← λ s. let (t, s') = H.now s in (ok t, s')
    expires ← λ s. let (t, s') = H.now s in (ok t, s')
    der ← attempt (H.create_certificate (template common_name serial created expires) key)
    key_der ← λ s. attempt (λ s'. (H.marshal_key key, s')) s
    λ s. (ok (H.pem_encode (str "CERTIFICATE") der, H.pem_encode (str "PRIVATE KEY") key_der), s)

  -- A failure of the random source panics.
  unfoldable pub random_token : H.State → Result Failure Str × H.State
  random_token s =
      let (r, s') = H.random_bytes 24 s in
      elim r [
        | err e ↦ (err (panicked (str "crypto/rand: " ++ error_text e)), s')
        | ok b ↦ (ok (base64_encode b), s')
      ]

  -- The loop over the files to write, in the order of the map's iteration.
  unfoldable pub write_all : List FileName → CertManager → H.State → Option GoError × H.State
  write_all [] cm s = (none, s)
  write_all (f ∷ files) cm s =
      let (r, s') = H.write_file cm.tls_dir f (content cm f) s in
      let more = write_all files cm s' in
      elim r [
        | some e ↦ (some (wrapped (str "write " ++ (file_text f ++ str ": ")) e), s')
        | none ↦ more
      ]

  abbrev pub Method : Type 0
  Method = CertManager → H.State → Result Failure (Unit {0}) × CertManager × H.State

  -- `return err` or nil behind the files.
  abbrev pub ended :
      CertManager → Option GoError × H.State → Result Failure (Unit {0}) × CertManager × H.State
  ended cm (none, s) = (ok tt, cm, s)
  ended cm (some e, s) = (err (returned e), cm, s)

  -- regenerateLocked from the new tokens on; the certificates are set.
  unfoldable pub regenerate_tokens : List FileName → Method
  regenerate_tokens order cm s =
      let (t, s1) = random_token s in
      elim t [
        | err e ↦ (err e, cm, s1)
        | ok token ↦
            let cm1 = record cm { token = token } in
            let (a, s2) = random_token s1 in
            elim a [
              | err e ↦ (err e, cm1, s2)
              | ok admin ↦
                  let cm2 = record cm1 { admin_tok = admin } in ended cm2 (write_all order cm2 s2)
            ]
      ]

  unfoldable pub regenerate_locked : List FileName → Method
  regenerate_locked order cm s =
      let (server, s1) = gen_self_signed (str "tableaux-eink server") s in
      let (client, s2) = gen_self_signed (str "tableaux-eink client") s1 in
      elim server [
        | err e ↦ (err e, cm, s1)
        | ok (srv_cer, srv_key) ↦ elim client [
          | err e ↦ (err e, cm, s2)
          | ok (cli_cer, cli_key) ↦
              regenerate_tokens order
                (record cm {
                  server_cer = srv_cer;
                  server_key = srv_key;
                  client_cer = cli_cer;
                  client_key = cli_key;
                })
                s2
        ]
      ]

  -- The loop over the files to read, in the order of the map's iteration, up to the first that is
  -- missing; what was read until then stays in the fields.
  unfoldable pub read_all : List FileName → CertManager → H.State → Bool × CertManager
  read_all [] cm s = (false, cm)
  read_all (f ∷ files) cm s = elim (H.read_file cm.tls_dir f s) [
    | err e ↦ (true, cm)
    | ok b ↦ read_all files (sink f b cm) s
  ]

  -- The two token files, both of which are tried.
  unfoldable pub read_tokens : CertManager → H.State → Bool × CertManager
  read_tokens cm s =
      let (miss_token, cm1) =
        elim (H.read_file cm.tls_dir token_txt s) as (λ _. Bool × CertManager) [
          | ok b ↦ (false, record cm { token = trim_space b })
          | err e ↦ (true, cm)
        ] in
      elim (H.read_file cm.tls_dir admin_token_txt s) [
        | ok b ↦ (miss_token, record cm1 { admin_tok = trim_space b })
        | err e ↦ (true, cm1)
      ]

  unfoldable pub load_or_init : List FileName → List FileName → Method
  load_or_init reads writes cm s =
      let (missing, cm1) = read_all reads cm s in
      let (no_token, cm2) = read_tokens cm1 s in
      if missing
      then regenerate_locked writes cm1 s
      else if no_token
      then regenerate_locked writes cm2 s
      else (ok tt, cm2, s)

  -- NewCertManager; `tls_dir` is the directory tls below filesDir.
  unfoldable pub new_cert_manager :
      List FileName → List FileName → Str → H.State → Result Failure CertManager × H.State
  new_cert_manager reads writes tls_dir s =
      let (made, s1) = H.mkdir_all tls_dir s in
      let (loaded, cm, s2) = load_or_init reads writes (empty_manager tls_dir) s1 in
      elim made [
        | some e ↦ (err (returned (wrapped (str "mkdir tls dir: ") e)), s1)
        | none ↦ elim loaded [ err e ↦ (err e, s2) | ok _ ↦ (ok cm, s2) ]
      ]

  -- Rotate
  abbrev pub rotate : List FileName → Method
  rotate = regenerate_locked

  unfoldable pub reissue_client_cert : Method
  reissue_client_cert cm s =
      let (client, s1) = gen_self_signed (str "tableaux-eink client") s in
      elim client [
        | err e ↦ (err e, cm, s1)
        | ok (cli_cer, cli_key) ↦
            let cm1 = record cm { client_cer = cli_cer; client_key = cli_key } in
            let (r1, s2) = H.write_file cm.tls_dir client_cert_pem cli_cer s1 in
            elim r1 [
              | some e ↦ (err (returned e), cm1, s2)
              | none ↦ ended cm1 (H.write_file cm.tls_dir client_key_pem cli_key s2)
            ]
      ]
