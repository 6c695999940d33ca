-- ===== src/Base/Flag/Values/RoundTrip.antt =====
-- A number that %d writes is read back by ParseInt.
use Prim.Native.Nat.{ℕ, zero, suc, ◌+◌, ◌-◌, ◌*◌, ◌/◌, ◌%◌, ◌^◌, ◌≤◌, ◌<◌}
use mathlib.Core.Path.{◌≡◌, refl, ◌∙◌}
use mathlib.Core.Logic.{inl, inr}
use mathlib.Core.Bool.{true, false}
use mathlib.Core.Option.{some}
use mathlib.Core.List.{[], ◌∷◌, ◌++◌}
use native.Mathlib.Omega.{arith}
use tableaux_eink_go.Base.Tests.{ltb, Bool-cases}
use tableaux_eink_go.Base.Lists.{All, All-append}
use tableaux_eink_go.Base.Int.{pos}
use tableaux_eink_go.Base.Text.{Str, decimal_from, decimal}
use tableaux_eink_go.Base.Text.Decimal.{IsDigit, spelled, spelled-decimal}
use tableaux_eink_go.Base.Strconv.{hex_value}
use tableaux_eink_go.Base.Flag.Values.{scan_digits, base_of, parse_uint, positive, parse_int}

-- A first digit that is not 0, and digits behind it.
abbrev Leads : Str → Type 0
Leads t = (c : ℕ) × (s : Str) × (t ≡ c ∷ s) × (49 ≤ c) × (c ≤ 57) × All IsDigit s

decimal_from-Leads : (rounds n : ℕ) → n < rounds → 1 ≤ n → Leads (decimal_from rounds n)
unfolding decimal_from
decimal_from-Leads zero n h k = absurd (omega arith)
decimal_from-Leads (suc rounds) n h k = elim (Bool-cases (ltb n 10)) [
  | inl q ↦ (48 + n, [], rw q refl, omega arith, ground (arith, q), tt)
  | inr q ↦
      let (c, s, e, low, high, digits) =
        decimal_from-Leads rounds (n / 10) (ground (arith, q)) (ground (arith, q)) in
      (
        c,
        s ++ (48 + n % 10) ∷ [],
        rw (q, e) refl,
        low,
        high,
        All-append IsDigit s ((48 + n % 10) ∷ []) digits (omega arith, tt),
      )
]

scan-digits : (n : ℕ) (s : Str) → All IsDigit s → scan_digits 10 true n s ≡ some (spelled n s)
unfolding scan_digits hex_value
scan-digits n [] h = refl
scan-digits n (c ∷ s) h =
    let more = scan-digits (n * 10 + (c - b'0')) s h.1 in ground (arith, more, h.0)

scan-leading :
    (c : ℕ) (s : Str)
    → IsDigit c
    → All IsDigit s
    → scan_digits 10 false 0 (c ∷ s) ≡ some (spelled 0 (c ∷ s))
unfolding scan_digits hex_value
scan-leading c s h k = let more = scan-digits (0 * 10 + (c - b'0')) s k in ground (arith, more, h)

base_of-leading : (c : ℕ) (s : Str) → 49 ≤ c → base_of (c ∷ s) ≡ (10, false, c ∷ s)
unfolding base_of
base_of-leading c [] h = ground arith
base_of-leading c (d ∷ []) h = ground arith
base_of-leading c (d ∷ e ∷ s) h = ground arith

parse_int-leading :
    (c : ℕ) (s : Str)
    → 49 ≤ c
    → c ≤ 57
    → All IsDigit s
    → parse_int (c ∷ s) ≡ positive (some (spelled 0 (c ∷ s)))
unfolding parse_int parse_uint
parse_int-leading c s low high digits =
    let base = base_of-leading c s low in
    let scanned = scan-leading c s (omega arith, high) digits in ground (arith, base, scanned)

parse_int-Leads : (t : Str) → Leads t → parse_int t ≡ positive (some (spelled 0 t))
parse_int-Leads t (c, s, e, low, high, digits) = rw e (parse_int-leading c s low high digits)

parse_int-zero : parse_int (decimal 0) ≡ some (pos 0)
unfolding parse_int parse_uint base_of scan_digits decimal decimal_from
parse_int-zero = refl

parse_int-positive : (p : ℕ) → 1 ≤ p → p < 2 ^ 63 → parse_int (decimal p) ≡ some (pos p)
unfolding decimal
parse_int-positive p h k =
    parse_int-Leads (decimal p) (decimal_from-Leads (suc p) p (omega arith) h)
    ∙ rw (spelled-decimal p) (ground arith)

pub parse_int-decimal : (p : ℕ) → p < 2 ^ 63 → parse_int (decimal p) ≡ some (pos p)
parse_int-decimal zero h = parse_int-zero
parse_int-decimal (suc p) h = parse_int-positive (suc p) (omega arith) h
