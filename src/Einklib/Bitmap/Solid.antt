-- ===== src/Einklib/Bitmap/Solid.antt =====
-- What FillSolid and the Paint functions leave in the frame.
use native.Mathlib.Nat.{zero-add}
use tableaux_eink_go.Base.{
  ℕ, zero, suc, ◌+◌, ◌*◌, ◌/◌, ◌<◌, ◌≡◌, refl, ap, true, false, [], ◌∷◌, ◌++◌, map, arith, ltb,
  ◌==◌, ==_iff, holds_below, holds_below_sound, length, take, drop, overwrite, replicate,
  length-replicate, length-take, drop_all, take_all, drop_of_le, take_of_le, Bool-cases, inl, inr,
}
use tableaux_eink_go.Base.Text.{Str}
use tableaux_eink_go.Einklib.Geometry.{DisplayInfo}
use tableaux_eink_go.Einklib.Bitmap.{
  red_of, green_of, blue_of, fill_rgb, luma, nibble_pair, fill_solid, paint,
}

-- The weights add up to 256, so no byte overflows.
luma_lem :
    (argb : ℕ)
    → luma (red_of argb) (green_of argb) (blue_of argb) / 16
      ≡ (54 * red_of argb + 183 * green_of argb + 19 * blue_of argb) / 4096
unfolding luma
luma_lem argb = omega arith

luma-lt : (r g b : ℕ) → luma r g b < 256
unfolding luma
luma-lt r g b = omega arith

nibble_table : holds_below 256 (λ l. nibble_pair l == l / 16 * 17) ≡ true
unfolding holds_below nibble_pair
nibble_table = refl

nibble_pair_lem : (l : ℕ) → l < 256 → nibble_pair l ≡ l / 16 * 17
nibble_pair_lem l h = (==_iff _ _).0 (holds_below_sound 256 _ l nibble_table h)

length-fill_rgb : (r g b : ℕ) (px : Str) → length (fill_rgb r g b px) ≡ length px
unfolding fill_rgb
length-fill_rgb r g b [] = refl
length-fill_rgb r g b (x ∷ []) = refl
length-fill_rgb r g b (x ∷ y ∷ []) = refl
length-fill_rgb r g b (x ∷ y ∷ z ∷ rest) = omega (arith, length-fill_rgb r g b rest)

length-map_const : (c : ℕ) (px : Str) → map (λ _. c) px ≡ replicate (length px) c
length-map_const c [] = refl
length-map_const c (x ∷ px) = ap (λ s. c ∷ s) (length-map_const c px)

-- FillSolid never changes the size of the frame.
pub length-fill_solid :
    (d : DisplayInfo) (argb : ℕ) (px : Str) → length (fill_solid d argb px) ≡ length px
unfolding fill_solid
length-fill_solid d argb px = elim (Bool-cases d.color) [
  | inl c ↦ rw c (length-fill_rgb (red_of argb) (green_of argb) (blue_of argb) px)
  | inr c ↦
      let v = nibble_pair (luma (red_of argb) (green_of argb) (blue_of argb)) in
      rw (c, length-map_const v px) (length-replicate (length px) v)
]

-- A row of `n` pixels of one colour.
unfoldable pub solid_pixels : ℕ → ℕ → ℕ → ℕ → Str
solid_pixels zero r g b = []
solid_pixels (suc n) r g b = r ∷ g ∷ b ∷ solid_pixels n r g b

-- On a grayscale panel FillSolid makes every byte a pair of equal pixels, each the upper four bits
-- of the weighted luminance, whatever the frame held: 17 times a level below 16.
pub fill_solid_gray :
    (d : DisplayInfo) (argb : ℕ) (px : Str)
    → d.color ≡ false
    → fill_solid d argb px
      ≡ replicate
          (length px)
          ((54 * red_of argb + 183 * green_of argb + 19 * blue_of argb) / 4096 * 17)
unfolding fill_solid
fill_solid_gray d argb px c =
    let l = luma (red_of argb) (green_of argb) (blue_of argb) in
    rw (
      c,
      length-map_const (nibble_pair l) px,
      nibble_pair_lem l (luma-lt (red_of argb) (green_of argb) (blue_of argb)),
      luma_lem argb,
    )

-- A buffer is copied to the front of the frame, cut at the frame's end; what it does not reach of
-- the frame stays.
pub paint_lem : (dst src : Str) → paint dst src ≡ take (length dst) src ++ drop (length src) dst
unfolding paint overwrite
paint_lem dst src = elim (Bool-cases (ltb (length dst) (length src))) [
  | inl c ↦
      let full : 0 + length (take (length dst) src) ≡ length dst =
        ground (arith, length-take (length dst) src) in
      rw (c, full, drop_all dst, drop_of_le (length src) dst (ground arith))
  | inr c ↦ rw (c, take_all src, zero-add, take_of_le (length dst) src (ground arith))
]
