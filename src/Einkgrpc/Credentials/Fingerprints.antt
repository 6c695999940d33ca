-- ===== src/Einkgrpc/Credentials/Fingerprints.antt =====
-- The fingerprint that is shown in full, and the short one of the connect URI and of mDNS.
use tableaux_eink_go.Base.{
  ℕ, zero, suc, ◌+◌, ◌*◌, ◌≤◌, ◌<◌, ◌≡◌, refl, ap, ◌∙◌, false, some, [], ◌∷◌, arith, if◌then◌else◌,
  leb, length, take,
}
use tableaux_eink_go.Base.Text.{Str}
use tableaux_eink_go.Einkgrpc.Host.{Host}
use tableaux_eink_go.Einkgrpc.Mdns.{truncated_fingerprint}
use tableaux_eink_go.Einkgrpc.Credentials.{colon_hex, fingerprint_pem}

length-colon_hex : (b : ℕ) (s : Str) → length (colon_hex (b ∷ s)) ≡ 3 * length s + 2
unfolding colon_hex
length-colon_hex b [] = refl
length-colon_hex b (c ∷ s) = omega (arith, length-colon_hex c s)

take-colon_hex :
    (k b : ℕ) (s : Str)
    → k ≤ length s
    → take (3 * k + 2) (colon_hex (b ∷ s)) ≡ colon_hex (b ∷ take k s)
unfolding colon_hex
take-colon_hex zero b [] h = refl
take-colon_hex zero b (c ∷ s) h = refl
take-colon_hex (suc k) b [] h = absurd (omega arith)
take-colon_hex (suc k) b (c ∷ s) h =
    let more : 3 * suc k + 2 ≡ suc (suc (suc (3 * k + 2))) = omega arith in
    rw (more, take-colon_hex k c s (omega arith)) refl

fingerprint_decoded :
    (H : Host) (pem der : Str)
    → H.pem_decode pem ≡ some der
    → fingerprint_pem H pem ≡ colon_hex (H.sha256 der)
unfolding fingerprint_pem
fingerprint_decoded H pem der decoded = ground (arith, decoded)

short_hex : (s : Str) → 16 < length s → truncated_fingerprint (colon_hex s) ≡ colon_hex (take 16 s)
unfolding truncated_fingerprint
short_hex [] h = absurd (omega arith)
short_hex (b ∷ s) h =
    let cut : leb (length (colon_hex (b ∷ s))) 47 ≡ false = ground (arith, length-colon_hex b s) in
    let full = colon_hex (b ∷ s) in
    ap (λ short. if short then full else take 47 full) cut ∙ take-colon_hex 15 b s (omega arith)

-- The short fingerprint of a certificate whose hash has more than sixteen bytes is that of the
-- first sixteen bytes of the hash, with the colons between them and none behind.
pub truncated_fingerprint_lem :
    (H : Host) (pem der : Str)
    → H.pem_decode pem ≡ some der
    → 16 < length (H.sha256 der)
    → truncated_fingerprint (fingerprint_pem H pem) ≡ colon_hex (take 16 (H.sha256 der))
truncated_fingerprint_lem H pem der decoded long =
    ap truncated_fingerprint (fingerprint_decoded H pem der decoded) ∙ short_hex (H.sha256 der) long
