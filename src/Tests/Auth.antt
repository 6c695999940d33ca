-- ===== src/Tests/Auth.antt =====
-- The interceptors on concrete calls.
use tableaux_eink_go.Base.{true}
use tableaux_eink_go.Base.{
  ℕ, suc, ◌≡◌, ◌≢◌, ◌↔◌, none, some, List, [], ◌∷◌, ◌++◌, arith, length, drop, All,
}
use tableaux_eink_go.Base.Text.{Str, str, IsVisible, trim_space}
use tableaux_eink_go.Base.Errors.{Result, ok, RpcError}
use tableaux_eink_go.Base.Int.{pos}
use tableaux_eink_go.Cli.Flags.{CommonFlags, Network}
use tableaux_eink_go.Einkgrpc.TokenAuth.{Tokens, prefix, check}
use tableaux_eink_go.Einkgrpc.TokenAuth.Bearer.{IsToken, presented, check_iff}

abbrev tokens : Tokens
tokens = record { token = str "abc"; admin_token = str "root" }

check_iff_example : (check tokens (some (str " Bearer  abc " ∷ [])) ≡ none) ↔ (
    (auth : Str) × (auths : List Str) × (some (str " Bearer  abc " ∷ []) ≡ some (auth ∷ auths))
    × (trim_space auth ≡ prefix ++ drop (length prefix) (trim_space auth))
    × IsToken tokens (presented auth))
check_iff_example = check_iff tokens (some (str " Bearer  abc " ∷ []))

abbrev count : ℕ → Result RpcError ℕ × ℕ
count s = (ok s, suc s)

pub root-IsVisible : All IsVisible (str "root")
unfolding str
root-IsVisible = (
  (omega arith, omega arith),
  ((omega arith, omega arith), ((omega arith, omega arith), ((omega arith, omega arith), tt))),
)

pub root_ne : str "root" ≢ []
unfolding str
root_ne e = cc

abbrev pub direct : Network
direct = record {
  KeyPair = ℕ;
  Conn = ℕ;
  read_file = λ path. ok [];
  has_certificate = λ pem. true;
  load_key_pair = λ cert key. ok 1;
  new_client = λ target tls. ok 5;
}

abbrev pub flags : CommonFlags
flags = record {
  host = str "panel";
  port = pos 50051;
  token = str "root";
  cert_file = [];
  client_cert = [];
  client_key = [];
  insecure = true;
}
