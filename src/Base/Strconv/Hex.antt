-- ===== src/Base/Strconv/Hex.antt =====
-- What ParseUint accepts, and what it returns.
use Prim.Native.Nat.{ℕ, ◌+◌, ◌-◌, ◌*◌, ◌^◌, ◌≤◌, ◌<◌}
use mathlib.Core.Path.{◌≡◌, refl}
use mathlib.Core.Logic.{◌↔◌, ◌≢◌, inl, inr}
use mathlib.Core.Option.{some}
use mathlib.Core.List.{List, [], ◌∷◌}
use native.Mathlib.Omega.{arith}
use tableaux_eink_go.Base.Tests.{ltb, Bool-cases, Option-cases}
use tableaux_eink_go.Base.Text.{Str}
use tableaux_eink_go.Base.Errors.{ok}
use tableaux_eink_go.Base.Strconv.{hex_value, scan_hex, parse_hex}

-- The values of the digits of a text.
abbrev pub Digits : Str → List ℕ → Type 0
Digits [] [] = Unit
Digits [] (d ∷ ds) = ⊥
Digits (c ∷ s) [] = ⊥
Digits (c ∷ s) (d ∷ ds) = (hex_value c ≡ some d) × Digits s ds

-- The number that digits spell behind `n`.
abbrev pub number : ℕ → List ℕ → ℕ
number n [] = n
number n (d ∷ ds) = number (n * 16 + d) ds

le-number : (ds : List ℕ) (n : ℕ) → n ≤ number n ds
le-number [] n = omega arith
le-number (d ∷ ds) n = omega (arith, le-number ds (n * 16 + d))

scan_sound :
    (s : Str) (n r : ℕ)
    → n < 2 ^ 32
    → scan_hex n s ≡ ok r
    → (ds : List ℕ) × Digits s ds × (r ≡ number n ds) × (r < 2 ^ 32)
unfolding scan_hex
scan_sound [] n r small h = ([], tt, ground (arith, h), ground (arith, h))
scan_sound (c ∷ s) n r small h = elim (Option-cases (hex_value c)) [
  | inl q ↦ absurd (ground (arith, h))
  | inr (d, q) ↦ elim (Bool-cases (ltb (2 ^ 32 - 1) (n * 16 + d))) [
    | inl big ↦ absurd (ground (arith, h))
    | inr fits ↦
        let (ds, spelled, exact, bound) =
          scan_sound s (n * 16 + d) r (ground arith) (ground (arith, h)) in
        (d ∷ ds, (q, spelled), exact, bound)
  ]
]

scan_complete :
    (s : Str) (n : ℕ) (ds : List ℕ)
    → Digits s ds
    → number n ds < 2 ^ 32
    → scan_hex n s ≡ ok (number n ds)
unfolding scan_hex
scan_complete [] n [] spelled fits = refl
scan_complete [] n (d ∷ ds) spelled fits = absurd spelled
scan_complete (c ∷ s) n [] spelled fits = absurd spelled
scan_complete (c ∷ s) n (d ∷ ds) (q, spelled) fits =
    ground (arith, scan_complete s (n * 16 + d) ds spelled fits, le-number ds (n * 16 + d))

-- Exactly the texts of one or more digits are accepted whose number is below 2 ^ 32, and the result
-- is this number.
pub parse_hex_iff :
    (s : Str) (r : ℕ)
    → (parse_hex s ≡ ok r)
      ↔ ((s ≢ []) × (ds : List ℕ) × Digits s ds × (r ≡ number 0 ds) × (r < 2 ^ 32))
unfolding parse_hex
parse_hex_iff [] r = (λ h. cc, λ h. absurd (h.0 refl))
parse_hex_iff (c ∷ s) r = (
  λ h.
      let (ds, spelled, exact, fits) = scan_sound (c ∷ s) 0 r (omega arith) h in
      ((λ e. cc), ds, spelled, exact, fits),
  λ (ne, ds, spelled, exact, fits).
      rw exact (scan_complete (c ∷ s) 0 ds spelled (rw exact at fits)),
)
