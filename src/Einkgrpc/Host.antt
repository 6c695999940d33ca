-- ===== src/Einkgrpc/Host.antt =====
-- What einkgrpc/certmanager.go calls of the system: the files of the directory tls, the random
-- source, the clock, and the packages crypto and encoding/pem. They are a parameter of the model.
use tableaux_eink_go.Base.{ℕ, ◌<◌, ◌≡◌, Bool, true, false, Option, none, if◌then◌else◌, length, All}
use tableaux_eink_go.Base.Int.{ℤ}
use tableaux_eink_go.Base.Text.{Str}
use tableaux_eink_go.Base.Errors.{GoError, Result, ok}

-- The files of CertManager: cert.pem, key.pem, client-cert.pem, client-key.pem, token.txt and
-- admin-token.txt.
pub data FileName : Type 0 where
  cert_pem key_pem client_cert_pem client_key_pem token_txt admin_token_txt : FileName

abbrev pub same_file : FileName → FileName → Bool
same_file cert_pem cert_pem = true
same_file key_pem key_pem = true
same_file client_cert_pem client_cert_pem = true
same_file client_key_pem client_key_pem = true
same_file token_txt token_txt = true
same_file admin_token_txt admin_token_txt = true
same_file _ _ = false

-- The fields of x509.Certificate that differ from call to call; times are seconds.
pub record Template : Type 0 where
  pub serial : ℕ
  pub common_name : Str
  pub not_before : ℤ
  pub not_after : ℤ

-- A file is named by its directory and its name there.
pub record Host : Type 1 where
  pub State : Type 0
  pub Key : Type 0
  pub mkdir_all : Str → State → Option GoError × State
  pub read_file : Str → FileName → State → Result GoError Str
  pub write_file : Str → FileName → Str → State → Option GoError × State
  -- rsa.GenerateKey with 2048 bits
  pub generate_key : State → Result GoError Key × State
  -- rand.Int below a bound
  pub random_int : ℕ → State → Result GoError ℕ × State
  -- rand.Read of so many bytes
  pub random_bytes : ℕ → State → Result GoError Str × State
  pub now : State → ℤ × State
  -- a self-signed certificate, in DER
  pub create_certificate : Template → Key → State → Result GoError Str × State
  pub marshal_key : Key → Result GoError Str
  -- pem.EncodeToMemory of a block of a type, and pem.Decode of the first block
  pub pem_encode : Str → Str → Str
  pub pem_decode : Str → Option Str
  pub sha256 : Str → Str

-- What the program relies on: a file that was written without an error reads back, no other file
-- changes by that, nothing else writes files, and the random bytes are as many as were asked for.
pub record IsHost (H : Host) : Type 0 where
  pub read-write :
      (dir : Str) (f g : FileName) (c : Str) (s : H.State)
      → (H.write_file dir f c s).0 ≡ none
      → H.read_file dir g (H.write_file dir f c s).1
        ≡ (if same_file g f then ok c else H.read_file dir g s)
  pub random_bytes_size :
      (n : ℕ) (s : H.State) (b : Str) → (H.random_bytes n s).0 ≡ ok b → length b ≡ n
  pub random_bytes_range :
      (n : ℕ) (s : H.State) (b : Str) → (H.random_bytes n s).0 ≡ ok b → All (λ x. x < 256) b
  pub read-mkdir_all :
      (dir : Str) (d : Str) (g : FileName) (s : H.State)
      → H.read_file d g (H.mkdir_all dir s).1 ≡ H.read_file d g s
  pub read-generate_key :
      (d : Str) (g : FileName) (s : H.State)
      → H.read_file d g (H.generate_key s).1 ≡ H.read_file d g s
  pub read-random_int :
      (n : ℕ) (d : Str) (g : FileName) (s : H.State)
      → H.read_file d g (H.random_int n s).1 ≡ H.read_file d g s
  pub read-now :
      (d : Str) (g : FileName) (s : H.State) → H.read_file d g (H.now s).1 ≡ H.read_file d g s
  pub read-create_certificate :
      (t : Template) (k : H.Key) (d : Str) (g : FileName) (s : H.State)
      → H.read_file d g (H.create_certificate t k s).1 ≡ H.read_file d g s
