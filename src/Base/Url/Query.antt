-- ===== src/Base/Url/Query.antt =====
-- A query that was encoded is read back.
use Prim.Native.Nat.{ℕ, ◌+◌, ◌*◌, ◌/◌, ◌%◌, ◌≤◌, ◌<◌}
use mathlib.Core.Path.{◌≡◌, refl, ap, ◌∙◌}
use mathlib.Core.Bool.{true, false}
use mathlib.Core.Option.{some}
use mathlib.Core.List.{[], ◌∷◌, ◌++◌}
use mathlib.Core.Logic.{inl, inr}
use native.Mathlib.Omega.{arith}
use tableaux_eink_go.Base.Tests.{◌==◌, Bool-cases}
use tableaux_eink_go.Base.Lists.{All}
use tableaux_eink_go.Base.Text.{Str}
use tableaux_eink_go.Base.Strconv.{hex_value}
use tableaux_eink_go.Base.Url.{
  is_unreserved, upper_hex, escaped, query_escape, cons?, spelled, query_unescape,
}

abbrev pub IsByte : ℕ → Type 0
IsByte c = c < 256

hex_value-upper_hex : (d : ℕ) → d < 16 → hex_value (upper_hex d) ≡ some d
unfolding hex_value
hex_value-upper_hex d h = ground arith

copied :
    (c : ℕ) (t : Str) → is_unreserved c ≡ true → query_unescape (c ∷ t) ≡ cons? c (query_unescape t)
unfolding query_unescape is_unreserved
copied c [] h = ground arith
copied c (a ∷ []) h = ground arith
copied c (a ∷ b ∷ t) h = ground arith

blank : (t : Str) → query_unescape (b'+' ∷ t) ≡ cons? b' ' (query_unescape t)
unfolding query_unescape
blank [] = refl
blank (a ∷ []) = refl
blank (a ∷ b ∷ t) = refl

hidden :
    (a b : ℕ) (t : Str)
    → query_unescape (b'%' ∷ a ∷ b ∷ t) ≡ spelled (hex_value a) (hex_value b) (query_unescape t)
unfolding query_unescape
hidden a b t = refl

unescape-escaped :
    (c : ℕ) (t : Str) → IsByte c → query_unescape (escaped c ++ t) ≡ cons? c (query_unescape t)
unescape-escaped c t small = elim (Bool-cases (is_unreserved c)) [
  | inl q ↦ rw q (copied c t q)
  | inr q ↦ elim (Bool-cases (c == b' ')) [
    | inl z ↦ ground (arith, q, blank t)
    | inr z ↦
        let high = hex_value-upper_hex (c / 16) (omega arith) in
        let low = hex_value-upper_hex (c % 16) (omega arith) in
        let value : c / 16 * 16 + c % 16 ≡ c = omega arith in
        rw (q, z)
          (hidden (upper_hex (c / 16)) (upper_hex (c % 16)) t
            ∙ rw (high, low) (ap (λ n. cons? n (query_unescape t)) value))
  ]
]

-- Whatever the bytes of a text are, QueryUnescape undoes QueryEscape.
pub query_unescape-query_escape :
    (s : Str) → All IsByte s → query_unescape (query_escape s) ≡ some s
unfolding query_escape
query_unescape-query_escape [] h = unfold query_unescape in refl
query_unescape-query_escape (c ∷ s) h =
    unescape-escaped c (query_escape s) h.0 ∙ ap (cons? c) (query_unescape-query_escape s h.1)

-- The bytes that QueryEscape writes.
abbrev pub IsEscaped : ℕ → Type 0
IsEscaped c =
    (33 ≤ c)
    × (c ≤ 126)
    × ((c == b'&') ≡ false)
    × ((c == b'=') ≡ false)
    × ((c == b';') ≡ false)
    × ((c == b'#') ≡ false)

upper_hex-IsEscaped : (d : ℕ) → d < 16 → IsEscaped (upper_hex d)
upper_hex-IsEscaped d h = ground arith

unreserved-IsEscaped : (c : ℕ) → is_unreserved c ≡ true → IsEscaped c
unfolding is_unreserved
unreserved-IsEscaped c h = ground arith

escaped-IsEscaped : (c : ℕ) (t : Str) → IsByte c → All IsEscaped t → All IsEscaped (escaped c ++ t)
escaped-IsEscaped c t small rest = elim (Bool-cases (is_unreserved c)) [
  | inl q ↦ rw q ((unreserved-IsEscaped c q, rest))
  | inr q ↦ elim (Bool-cases (c == b' ')) [
    | inl z ↦ rw (q, z) ((ground arith, rest))
    | inr z ↦
        let high = upper_hex-IsEscaped (c / 16) (omega arith) in
        let low = upper_hex-IsEscaped (c % 16) (omega arith) in
        rw (q, z) ((ground arith, (high, (low, rest))))
  ]
]

pub query_escape-IsEscaped : (s : Str) → All IsByte s → All IsEscaped (query_escape s)
unfolding query_escape
query_escape-IsEscaped [] h = tt
query_escape-IsEscaped (c ∷ s) h =
    escaped-IsEscaped c (query_escape s) h.0 (query_escape-IsEscaped s h.1)
