-- ===== src/Base/Text/Decimal.antt =====
-- The digits that %d writes, and the number that they spell.
use Prim.Native.Nat.{ℕ, zero, suc, ◌+◌, ◌-◌, ◌*◌, ◌/◌, ◌%◌, ◌≤◌, ◌<◌}
use mathlib.Core.Path.{◌≡◌, refl}
use mathlib.Core.Logic.{inl, inr}
use mathlib.Core.Bool.{false}
use mathlib.Core.List.{[], ◌∷◌, ◌++◌}
use native.Mathlib.Omega.{arith}
use tableaux_eink_go.Base.Tests.{ltb, Bool-cases}
use tableaux_eink_go.Base.Lists.{All, All-append}
use tableaux_eink_go.Base.Text.{Str, is_empty, decimal_from, decimal}

abbrev pub IsDigit : ℕ → Type 0
IsDigit c = (b'0' ≤ c) × (c ≤ b'9')

-- The number that digits spell behind those of `n`.
abbrev pub spelled : ℕ → Str → ℕ
spelled n [] = n
spelled n (c ∷ s) = spelled (n * 10 + (c - b'0')) s

spelled-append : (n : ℕ) (s : Str) (c : ℕ) → spelled n (s ++ c ∷ []) ≡ spelled n s * 10 + (c - b'0')
spelled-append n [] c = refl
spelled-append n (d ∷ s) c = spelled-append (n * 10 + (d - b'0')) s c

pub decimal_from-Digits : (rounds n : ℕ) → All IsDigit (decimal_from rounds n)
unfolding decimal_from
decimal_from-Digits zero n = tt
decimal_from-Digits (suc rounds) n = elim (Bool-cases (ltb n 10)) [
  | inl q ↦ rw q ((ground (arith, q), tt))
  | inr q ↦ rw q (
      All-append IsDigit (decimal_from rounds (n / 10)) ((48 + n % 10) ∷ [])
        (decimal_from-Digits rounds (n / 10)) (omega arith, tt))
]

pub decimal-Digits : (n : ℕ) → All IsDigit (decimal n)
unfolding decimal
decimal-Digits n = decimal_from-Digits (suc n) n

spelled-decimal_from : (rounds n : ℕ) → n < rounds → spelled 0 (decimal_from rounds n) ≡ n
unfolding decimal_from
spelled-decimal_from zero n h = absurd (omega arith)
spelled-decimal_from (suc rounds) n h = elim (Bool-cases (ltb n 10)) [
  | inl q ↦ rw q (omega arith)
  | inr q ↦
      let front = spelled-decimal_from rounds (n / 10) (ground (arith, q)) in
      rw (q, spelled-append 0 (decimal_from rounds (n / 10)) (48 + n % 10), front) (omega arith)
]

pub spelled-decimal : (n : ℕ) → spelled 0 (decimal n) ≡ n
unfolding decimal
spelled-decimal n = spelled-decimal_from (suc n) n (omega arith)

is_empty-snoc : (s : Str) (c : ℕ) → is_empty (s ++ c ∷ []) ≡ false
is_empty-snoc [] c = refl
is_empty-snoc (d ∷ s) c = refl

pub is_empty-decimal : (n : ℕ) → is_empty (decimal n) ≡ false
unfolding decimal decimal_from
is_empty-decimal n = elim (Bool-cases (ltb n 10)) [
  | inl q ↦ rw q refl
  | inr q ↦ rw q (is_empty-snoc (decimal_from n (n / 10)) (48 + n % 10))
]
