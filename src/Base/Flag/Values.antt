-- ===== src/Base/Flag/Values.antt =====
-- The values of flags: strconv.ParseInt in base 0 with 64 bits, and strconv.ParseBool. `none` is an
-- error, of the syntax or of the range.
pub mod RoundTrip
use Prim.Native.Nat.{ℕ, zero, suc, ◌+◌, ◌*◌, ◌^◌}
use mathlib.Core.Bool.{Bool, true, false, ◌||◌}
use mathlib.Core.Option.{Option, none, some}
use mathlib.Core.List.{[], ◌∷◌}
use tableaux_eink_go.Base.Tests.{ltb, leb, ◌==◌, if◌then◌else◌}
use tableaux_eink_go.Base.Int.{ℤ, pos, negsuc}
use tableaux_eink_go.Base.Text.{Str, str, str_eq}
use tableaux_eink_go.Base.Strconv.{hex_value}

-- The digits behind those of `n`. An underscore stands behind a digit or a prefix, which `saw`
-- tells, and in front of a digit.
unfoldable pub scan_digits : ℕ → Bool → ℕ → Str → Option ℕ
scan_digits base saw n [] = if saw then some n else none
scan_digits base saw n (c ∷ s) =
    let skipped = scan_digits base false n s in
    let digit = elim (hex_value c) as (λ _. Option ℕ) [
      | none ↦ none
      | some d ↦
          let more = scan_digits base true (n * base + d) s in if ltb d base then more else none
    ] in
    if c == b'_' then (if saw then skipped else none) else digit

-- The base, whether there is a prefix, and the digits.
unfoldable pub base_of : Str → ℕ × Bool × Str
base_of [] = (10, false, [])
base_of (z ∷ []) = if z == b'0' then (8, true, []) else (10, false, z ∷ [])
base_of (z ∷ p ∷ []) = if z == b'0' then (8, true, p ∷ []) else (10, false, z ∷ p ∷ [])
base_of (z ∷ p ∷ d ∷ s) =
    let prefixed =
      if p == b'b' || p == b'B'
      then (2, true, d ∷ s)
      else if p == b'o' || p == b'O'
      then (8, true, d ∷ s)
      else if p == b'x' || p == b'X'
      then (16, true, d ∷ s)
      else (8, true, p ∷ d ∷ s) in
    if z == b'0' then prefixed else (10, false, z ∷ p ∷ d ∷ s)

unfoldable pub parse_uint : Str → Option ℕ
parse_uint s = let (base, saw, digits) = base_of s in scan_digits base saw 0 digits

abbrev pub positive : Option ℕ → Option ℤ
positive none = none
positive (some n) = if ltb n (2 ^ 63) then some (pos n) else none

abbrev negated : ℕ → ℤ
negated zero = pos 0
negated (suc n) = negsuc n

abbrev pub negative : Option ℕ → Option ℤ
negative none = none
negative (some n) = if leb n (2 ^ 63) then some (negated n) else none

-- ParseInt(s, 0, 64)
unfoldable pub parse_int : Str → Option ℤ
parse_int [] = none
parse_int (c ∷ s) =
    if c == b'+'
    then positive (parse_uint s)
    else if c == b'-'
    then negative (parse_uint s)
    else positive (parse_uint (c ∷ s))

abbrev is_one_of : Str → Str → Str → Str → Str → Str → Str → Bool
is_one_of s a b c d e f =
    str_eq s a || (str_eq s b || (str_eq s c || (str_eq s d || (str_eq s e || str_eq s f))))

unfoldable pub parse_bool : Str → Option Bool
parse_bool s =
    if is_one_of s (str "1") (str "t") (str "T") (str "true") (str "TRUE") (str "True")
    then some true
    else if is_one_of s (str "0") (str "f") (str "F") (str "false") (str "FALSE") (str "False")
    then some false
    else none
