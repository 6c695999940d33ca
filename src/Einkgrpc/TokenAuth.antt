-- ===== src/Einkgrpc/TokenAuth.antt =====
-- einkgrpc/tokenauth.go: the interceptors that ask for a bearer token.
pub mod Bearer
use tableaux_eink_go.Base.{
  ℕ, Bool, true, false, Option, none, some, List, [], ◌∷◌, ◌&&◌, ◌||◌, not, if◌then◌else◌, ◌==◌,
  length, drop,
}
use tableaux_eink_go.Base.Text.{Str, str, str_eq, is_empty, has_prefix, trim_space}
use tableaux_eink_go.Base.Errors.{Result, ok, err, RpcError, status, unauthenticated}

-- What CertManager.Token and CertManager.AdminToken return.
pub record Tokens : Type 0 where
  pub token : Str
  pub admin_token : Str

-- The incoming metadata of a call, of which only the values of `authorization` are read;
-- `none` where the context has no metadata.
abbrev pub Metadata : Type 0
Metadata = Option (List Str)

abbrev pub prefix : Str
prefix = str "Bearer "

-- subtle.ConstantTimeCompare of two slices of one length is 1 exactly when they are equal.
unfoldable pub equals : Str → Str → Bool
equals a b = if is_empty a || (is_empty b || not (length a == length b)) then false else str_eq a b

unfoldable pub check : Tokens → Metadata → Option RpcError
unfolding equals
check t none = some (status unauthenticated (str "missing metadata"))
check t (some []) = some (status unauthenticated (str "missing authorization header"))
check t (some (auth ∷ auths)) =
    let got = trim_space auth in
    let tok = trim_space (drop (length prefix) got) in
    if not (has_prefix got prefix)
    then some (status unauthenticated (str "authorization is not Bearer"))
    else if not (equals tok t.token) && not (equals tok t.admin_token)
    then some (status unauthenticated (str "invalid token"))
    else none

-- TokenAuth.Unary and TokenAuth.Stream: the handler runs only behind the check. A handler takes
-- the state of the server and returns its result with the state after it.
unfoldable pub intercept {ℓ κ} :
    {S : Type ℓ} {A : Type κ}
    → Tokens
    → Metadata
    → (S → Result RpcError A × S)
    → S
    → Result RpcError A × S
intercept t md handler s = elim (check t md) [ some e ↦ (err e, s) | none ↦ handler s ]
