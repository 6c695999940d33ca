-- ===== src/Base/Errors.antt =====
-- Go's `error` values, and results that carry one.
use mathlib.Core.Path.{◌≡◌, refl}
use mathlib.Core.Logic.{◌⊎◌, inl, inr}
use mathlib.Core.Bool.{Bool, true, false}
use mathlib.Core.Option.{Option, none, some}
use mathlib.Core.List.{◌++◌}
use tableaux_eink_go.Base.Text.{Str, str}

pub data GoError : Type 0 where
  -- errors.New, and fmt.Errorf with no %w
  plain : Str → GoError
  -- fmt.Errorf("<text>%w", err)
  wrapped : Str → GoError → GoError
  -- an error of the operating system or of a library, known by its text
  foreign : Str → GoError
  -- os.ErrClosed
  closed : GoError
  -- io.EOF
  eof : GoError

-- err.Error()
unfoldable pub error_text : GoError → Str
error_text (plain s) = s
error_text (wrapped s e) = s ++ error_text e
error_text (foreign s) = s
error_text closed = str "file already closed"
error_text eof = str "EOF"

-- errors.Is(err, io.EOF)
unfoldable pub is_eof : GoError → Bool
is_eof (plain s) = false
is_eof (wrapped s e) = is_eof e
is_eof (foreign s) = false
is_eof closed = false
is_eof eof = true

-- A value and a nil error, or an error.
pub data Result {ℓ κ} (E : Type ℓ) (A : Type κ) : Type (ℓ ⊔ κ) where
  ok : A → Result E A
  err : E → Result E A

abbrev pub is_ok {ℓ κ} : {E : Type ℓ} {A : Type κ} → Result E A → Bool
is_ok (ok a) = true
is_ok (err e) = false

-- To split on a computed result and keep the equation.
pub Result-cases {ℓ κ} :
    {E : Type ℓ} {A : Type κ} (r : Result E A) → ((a : A) × (r ≡ ok a)) ⊎ ((e : E) × (r ≡ err e))
Result-cases (ok a) = inl (a, refl)
Result-cases (err e) = inr (e, refl)

-- The codes of package codes that the server answers with.
pub data Code : Type 0 where
  failed_precondition internal invalid_argument unauthenticated : Code

-- What a handler returns as its error: status.Error and status.Errorf, or an error handed on.
pub data RpcError : Type 0 where
  status : Code → Str → RpcError
  raw : GoError → RpcError

-- A chain of calls, each of which returns an error at once.
infixl 5 ◌>>=◌ ◌>>◌
abbrev pub ◌>>=◌ {ℓ κ ι} :
    {E : Type ℓ} {A : Type κ} {B : Type ι} → Result E A → (A → Result E B) → Result E B
ok a >>= f = f a
err e >>= f = err e

abbrev pub ◌>>◌ {ℓ κ} : {E : Type ℓ} {B : Type κ} → Result E (Unit {0}) → Result E B → Result E B
m >> k = m >>= λ _. k

-- `if err := ...; err != nil { return err }`
abbrev pub check_error {ℓ} : {E : Type ℓ} → Option E → Result E (Unit {0})
check_error none = ok tt
check_error (some e) = err e

-- `if bad { return e }`
abbrev pub fail_if {ℓ} : {E : Type ℓ} → Bool → E → Result E (Unit {0})
fail_if true e = err e
fail_if false e = ok tt
