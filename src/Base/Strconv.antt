-- ===== src/Base/Strconv.antt =====
-- What the program uses of package strconv: ParseUint in base 16 with 32 bits.
pub mod Hex
use Prim.Native.Nat.{ℕ, ◌+◌, ◌-◌, ◌*◌, ◌^◌}
use mathlib.Core.Bool.{◌&&◌}
use mathlib.Core.Option.{Option, none, some}
use mathlib.Core.List.{[], ◌∷◌, ◌++◌}
use tableaux_eink_go.Base.Tests.{ltb, leb, if◌then◌else◌}
use tableaux_eink_go.Base.Text.{Str, str}
use tableaux_eink_go.Base.Errors.{GoError, plain, Result, ok, err}

unfoldable pub hex_value : ℕ → Option ℕ
hex_value c =
    if leb b'0' c && leb c b'9'
    then some (c - b'0')
    else if leb b'a' c && leb c b'f'
    then some (c - b'a' + 10)
    else if leb b'A' c && leb c b'F'
    then some (c - b'A' + 10)
    else none

-- ErrSyntax and ErrRange
pub data Fault : Type 0 where
  syntax range : Fault

-- The loop behind the digits that have the value `n`.
unfoldable pub scan_hex : ℕ → Str → Result Fault ℕ
scan_hex n [] = ok n
scan_hex n (c ∷ s) = elim (hex_value c) [
  | none ↦ err syntax
  | some d ↦
      let more = scan_hex (n * 16 + d) s in
      if ltb (2 ^ 32 - 1) (n * 16 + d) then err range else more
]

-- ParseUint(s, 16, 32)
unfoldable pub parse_hex : Str → Result Fault ℕ
parse_hex [] = err syntax
parse_hex (c ∷ s) = scan_hex 0 (c ∷ s)

abbrev fault_text : Fault → Str
fault_text syntax = str "invalid syntax"
fault_text range = str "value out of range"

-- The error as a NumError. `quote` is strconv.Quote.
unfoldable pub num_error : (Str → Str) → Str → Fault → GoError
num_error quote s f =
    plain (str "strconv.ParseUint: parsing " ++ (quote s ++ (str ": " ++ fault_text f)))
