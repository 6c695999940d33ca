-- ===== src/Cli/Commands/Argb.antt =====
-- The colours that `fill --argb` takes.
use tableaux_eink_go.Base.{
  ℕ, ◌^◌, ◌<◌, ◌≡◌, ◌≢◌, ◌↔◌, ◌⊎◌, refl, sym, ◌∙◌, arith, true, Bool-cases, ◌==◌, if◌then◌else◌,
  some, List, [], ◌∷◌, map, inl, inr, drop,
}
use tableaux_eink_go.Base.Text.{Str, str, has_prefix, lower_byte}
use tableaux_eink_go.Base.Errors.{ok, Result-cases}
use tableaux_eink_go.Base.Strconv.{hex_value, parse_hex}
use tableaux_eink_go.Base.Strconv.Hex.{Digits, number, parse_hex_iff}
use tableaux_eink_go.Cli.Flags.{Network}
use tableaux_eink_go.Cli.Remote.{Remote}
use tableaux_eink_go.Cli.Waveform.{all_ascii, to_lower}
use tableaux_eink_go.Cli.Commands.{argb_digits, parse_argb}

-- The text is these digits, or `0x` or `0X` and these digits.
abbrev pub IsSpelled : Str → Str → Type 0
IsSpelled argb digits =
    (argb ≡ digits) ⊎ ((argb ≡ b'0' ∷ b'x' ∷ digits) ⊎ (argb ≡ b'0' ∷ b'X' ∷ digits))

-- A colour: one or more hexadecimal digits of either case, and their number, which has 32 bits.
abbrev pub IsColour : Str → ℕ → Type 0
IsColour digits n =
    (digits ≢ []) × (ds : List ℕ) × Digits digits ds × (n ≡ number 0 ds) × (n < 2 ^ 32)

hex_value-lower : (c : ℕ) → hex_value (lower_byte c) ≡ hex_value c
unfolding hex_value lower_byte
hex_value-lower c = ground arith

Digits-lower : (s : Str) (ds : List ℕ) → Digits (map lower_byte s) ds ↔ Digits s ds
Digits-lower [] [] = (λ h. h, λ h. h)
Digits-lower [] (d ∷ ds) = (λ h. h, λ h. h)
Digits-lower (c ∷ s) [] = (λ h. h, λ h. h)
Digits-lower (c ∷ s) (d ∷ ds) = (
  λ (q, h). (sym (hex_value-lower c) ∙ q, (Digits-lower s ds).0 h),
  λ (q, h). (hex_value-lower c ∙ q, (Digits-lower s ds).1 h),
)

IsColour-lower : (s : Str) (n : ℕ) → IsColour (map lower_byte s) n ↔ IsColour s n
IsColour-lower [] n = (λ h. h, λ h. h)
IsColour-lower (c ∷ s) n = (
  λ (ne, ds, spelled, exact, fits).
      ((λ e. cc), ds, (Digits-lower (c ∷ s) ds).0 spelled, exact, fits),
  λ (ne, ds, spelled, exact, fits).
      ((λ e. cc), ds, (Digits-lower (c ∷ s) ds).1 spelled, exact, fits),
)

-- What is left of a text in small letters.
abbrev cut : Str → Str
cut low = if has_prefix low (str "0x") then drop 2 low else low

marked :
    (a b : ℕ) (s : Str)
    → has_prefix (map lower_byte (a ∷ b ∷ s)) (str "0x") ≡ true
    → (a ≡ b'0') × ((b ≡ b'x') ⊎ (b ≡ b'X'))
unfolding has_prefix str lower_byte
marked a b s h = (
  ground (arith, h),
  elim (Bool-cases (b == b'x')) [
    | inl q ↦ inl (ground (arith, q))
    | inr q ↦ inr (ground (arith, h, q))
  ],
)

marks :
    (b : ℕ) (s : Str)
    → (b ≡ b'x') ⊎ (b ≡ b'X')
    → has_prefix (map lower_byte (b'0' ∷ b ∷ s)) (str "0x") ≡ true
unfolding has_prefix str lower_byte
marks b s (inl q) = ground (arith, q)
marks b s (inr q) = ground (arith, q)

mark_no_digit : (b d : ℕ) → (b ≡ b'x') ⊎ (b ≡ b'X') → hex_value b ≢ some d
unfolding hex_value
mark_no_digit b d (inl q) h = absurd (ground (arith, q, h))
mark_no_digit b d (inr q) h = absurd (ground (arith, q, h))

marked_no_digits : (a b : ℕ) (s : Str) (n : ℕ) → (b ≡ b'x') ⊎ (b ≡ b'X') → ¬ IsColour (a ∷ b ∷ s) n
marked_no_digits a b s n mark (_, [], spelled, _, _) = spelled
marked_no_digits a b s n mark (_, d ∷ [], spelled, _, _) = spelled.1
marked_no_digits a b s n mark (_, d ∷ e ∷ ds, (_, (q, _)), _, _) = mark_no_digit b e mark q

IsSpelled-marked :
    (a b : ℕ) (s : Str) → a ≡ b'0' → (b ≡ b'x') ⊎ (b ≡ b'X') → IsSpelled (a ∷ b ∷ s) s
IsSpelled-marked a b s p (inl q) = inr (inl cc)
IsSpelled-marked a b s p (inr q) = inr (inr cc)

-- What a text spells.
abbrev pub Spells : Str → ℕ → Type 0
Spells argb n = (digits : Str) × IsSpelled argb digits × IsColour digits n

cut_sound : (argb : Str) (n : ℕ) → IsColour (cut (map lower_byte argb)) n → Spells argb n
unfolding has_prefix str
cut_sound [] n h = ([], inl refl, h)
cut_sound (a ∷ []) n h =
    let low : cut (map lower_byte (a ∷ [])) ≡ map lower_byte (a ∷ []) = ground arith in
    (a ∷ [], inl refl, (IsColour-lower (a ∷ []) n).0 (rw low at h))
cut_sound (a ∷ b ∷ s) n h = elim (Bool-cases (has_prefix (map lower_byte (a ∷ b ∷ s)) (str "0x"))) [
  | inl q ↦
      let (zero_first, mark) = marked a b s q in
      let low : cut (map lower_byte (a ∷ b ∷ s)) ≡ map lower_byte s = ground (arith, q) in
      (s, IsSpelled-marked a b s zero_first mark, (IsColour-lower s n).0 (rw low at h))
  | inr q ↦
      let low : cut (map lower_byte (a ∷ b ∷ s)) ≡ map lower_byte (a ∷ b ∷ s) = ground (arith, q) in
      (a ∷ b ∷ s, inl refl, (IsColour-lower (a ∷ b ∷ s) n).0 (rw low at h))
]

unmarked : (digits : Str) (n : ℕ) → IsColour digits n → IsColour (cut (map lower_byte digits)) n
unfolding has_prefix str
unmarked [] n h = h
unmarked (a ∷ []) n h =
    let low : cut (map lower_byte (a ∷ [])) ≡ map lower_byte (a ∷ []) = ground arith in
    rw low ((IsColour-lower (a ∷ []) n).1 h)
unmarked (a ∷ b ∷ s) n h = elim (Bool-cases (has_prefix (map lower_byte (a ∷ b ∷ s)) (str "0x"))) [
  | inl q ↦ absurd (marked_no_digits a b s n (marked a b s q).1 h)
  | inr q ↦
      let low : cut (map lower_byte (a ∷ b ∷ s)) ≡ map lower_byte (a ∷ b ∷ s) = ground (arith, q) in
      rw low ((IsColour-lower (a ∷ b ∷ s) n).1 h)
]

with_mark :
    (b : ℕ) (digits : Str) (n : ℕ)
    → (b ≡ b'x') ⊎ (b ≡ b'X')
    → IsColour digits n
    → IsColour (cut (map lower_byte (b'0' ∷ b ∷ digits))) n
with_mark b digits n mark h =
    let low : cut (map lower_byte (b'0' ∷ b ∷ digits)) ≡ map lower_byte digits =
      ground (arith, marks b digits mark) in
    rw low ((IsColour-lower digits n).1 h)

cut_complete : (argb : Str) (n : ℕ) → Spells argb n → IsColour (cut (map lower_byte argb)) n
cut_complete argb n (digits, inl e, h) = rw e (unmarked digits n h)
cut_complete argb n (digits, inr (inl e), h) = rw e (with_mark b'x' digits n (inl refl) h)
cut_complete argb n (digits, inr (inr e), h) = rw e (with_mark b'X' digits n (inr refl) h)

module _ (N : Network) (R : Remote N) where
  digits_cut :
      (argb : Str) → all_ascii argb ≡ true → argb_digits N R argb ≡ cut (map lower_byte argb)
  unfolding to_lower
  digits_cut argb ascii = ground (arith, ascii)

  -- The flag, where it is ASCII, is taken exactly when it is one or more hexadecimal digits, large or
  -- small, with `0x`, `0X` or nothing in front, whose number is below 2 ^ 32; the colour is this
  -- number.
  pub parse_argb_iff :
      (argb : Str) (n : ℕ) → all_ascii argb ≡ true → (parse_argb N R argb ≡ ok n) ↔ Spells argb n
  unfolding parse_argb
  parse_argb_iff argb n ascii =
      let same = digits_cut argb ascii in
      (
        λ h. elim (Result-cases (parse_hex (argb_digits N R argb))) [
          | inr (f, q) ↦ absurd (ground (arith, h))
          | inl (m, q) ↦
              cut_sound argb n
                (rw same at ((parse_hex_iff (argb_digits N R argb) n).0 (ground (arith, h))))
        ],
        λ spelled.
            let colour : IsColour (argb_digits N R argb) n =
              rw same (cut_complete argb n spelled) in
            let q = (parse_hex_iff (argb_digits N R argb) n).1 colour in ground (arith, q),
      )
