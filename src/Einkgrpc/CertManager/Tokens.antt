-- ===== src/Einkgrpc/CertManager/Tokens.antt =====
-- The tokens that CertManager makes: 32 characters of the URL alphabet of base64.
use tableaux_eink_go.Base.{ℕ, ◌+◌, ◌*◌, ◌/◌, ◌<◌, ◌≡◌, inl, inr, [], ◌∷◌, arith, length, All}
use tableaux_eink_go.Base.Text.{Str, IsVisible}
use tableaux_eink_go.Base.Errors.{ok, Result-cases}
use tableaux_eink_go.Einkgrpc.Host.{Host, IsHost}
use tableaux_eink_go.Einkgrpc.CertManager.{base64_char, base64_encode, random_token}

base64_char-IsVisible : (i : ℕ) → i < 64 → IsVisible (base64_char i)
unfolding base64_char
base64_char-IsVisible i h = (ground arith, ground arith)

base64_encode-IsVisible : (s : Str) → All (λ x. x < 256) s → All IsVisible (base64_encode s)
unfolding base64_encode
base64_encode-IsVisible [] h = tt
base64_encode-IsVisible (a ∷ []) h =
    (base64_char-IsVisible _ (omega arith), (base64_char-IsVisible _ (omega arith), tt))
base64_encode-IsVisible (a ∷ b ∷ []) h = (
  base64_char-IsVisible _ (omega arith),
  (base64_char-IsVisible _ (omega arith), (base64_char-IsVisible _ (omega arith), tt)),
)
base64_encode-IsVisible (a ∷ b ∷ c ∷ rest) h = (
  base64_char-IsVisible _ (omega arith),
  (
    base64_char-IsVisible _ (omega arith),
    (
      base64_char-IsVisible _ (omega arith),
      (base64_char-IsVisible _ (omega arith), base64_encode-IsVisible rest (h.1.1.1)),
    ),
  ),
)

-- The length of base64 text without padding: 4 characters for 3 bytes, rounded up.
length-base64_encode : (s : Str) → length (base64_encode s) ≡ (4 * length s + 2) / 3
unfolding base64_encode
length-base64_encode [] = omega arith
length-base64_encode (a ∷ []) = omega arith
length-base64_encode (a ∷ b ∷ []) = omega arith
length-base64_encode (a ∷ b ∷ c ∷ rest) = omega (arith, length-base64_encode rest)

-- A token that was made has 32 characters, each visible ASCII, so that it goes through a header
-- and a file unchanged.
pub random_token_shape :
    (H : Host) (L : IsHost H) (s : H.State) (t : Str)
    → (random_token H s).0 ≡ ok t
    → (length t ≡ 32) × All IsVisible t
unfolding random_token
random_token_shape H L s t h = elim (Result-cases (H.random_bytes 24 s).0) [
  | inr (e, q) ↦ absurd (ground arith)
  | inl (b, q) ↦
      let made : base64_encode b ≡ t = ground arith in
      rw (← made) (
        omega (arith, length-base64_encode b, L.random_bytes_size 24 s b q),
        base64_encode-IsVisible b (L.random_bytes_range 24 s b q),
      )
]
