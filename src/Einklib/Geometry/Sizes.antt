-- ===== src/Einklib/Geometry/Sizes.antt =====
-- FrameByteCount against the number of pixels of the panel.
use tableaux_eink_go.Base.{
  ℕ, ◌+◌, ◌*◌, ◌/◌, ◌^◌, ◌<◌, ◌≡◌, false, Bool-cases, ◌%◌, inl, inr, arith, ◌∙◌, if◌then◌else◌,
}
use tableaux_eink_go.Base.Int.{pos, ◌*ℤ◌, wrap64_small, half}
use tableaux_eink_go.Einklib.Geometry.{DisplayInfo, frame_byte_count, bytes_per_pixel_times2}

mul_pos : (a b : ℕ) → pos a *ℤ pos b ≡ pos (a * b)
unfolding ◌*ℤ◌
mul_pos a b = ground arith

area_fits : (w h : ℕ) → w < 2 ^ 31 → h < 2 ^ 31 → w * h < 2 ^ 62
area_fits w h p q = grind arith

-- The frame of a panel with `w` times `h` virtual pixels, both int32 and not negative, has
-- 3 bytes for a pixel on a colour panel and half a byte, rounded down over all, on a grayscale
-- panel, if three times the number of pixels fits an int64.
pub frame_byte_count_exact :
    (d : DisplayInfo) (w h : ℕ)
    → d.virtual_width ≡ pos w
    → d.virt_height ≡ pos h
    → w * h * 3 < 2 ^ 63
    → frame_byte_count d ≡ pos (if d.color then w * h * 3 else w * h / 2)
unfolding frame_byte_count half
frame_byte_count_exact d w h ew eh fits =
    rw
      (
        ew,
        eh,
        mul_pos w h,
        wrap64_small (w * h) (omega arith),
        mul_pos (w * h) 3,
        wrap64_small (w * h * 3) fits,
        half,
      )
      (elim (Bool-cases d.color) [ inl c ↦ rw c | inr c ↦ rw c ])

-- On a grayscale panel whose virtual sizes are int32 and not negative, the frame has half a byte
-- for a pixel, rounded down over all: the product of the sizes never overflows an int64.
pub frame_byte_count_gray :
    (d : DisplayInfo) (w h : ℕ)
    → d.color ≡ false
    → d.virtual_width ≡ pos w
    → d.virt_height ≡ pos h
    → w < 2 ^ 31
    → h < 2 ^ 31
    → frame_byte_count d ≡ pos (w * h / 2)
unfolding frame_byte_count half
frame_byte_count_gray d w h c ew eh lw lh =
    rw (c, ew, eh, mul_pos w h, wrap64_small (w * h) (omega (arith, area_fits w h lw lh)))

-- On a panel whose virtual sizes are not negative and whose number of pixels, three times, is below
-- 2 ^ 63: twice the frame's bytes are what BytesPerPixelTimes2 gives for the pixels, save for a
-- grayscale panel with an odd number of them, whose last pixel has no room in the frame.
pub frame_holds_pixels :
    (d : DisplayInfo) (w h : ℕ)
    → d.virtual_width ≡ pos w
    → d.virt_height ≡ pos h
    → w * h * 3 < 2 ^ 63
    → (n k : ℕ) × (frame_byte_count d ≡ pos n)
      × (bytes_per_pixel_times2 d ≡ pos k)
      × (2 * n + (if d.color then 0 else w * h % 2) ≡ w * h * k)
unfolding bytes_per_pixel_times2
frame_holds_pixels d w h ew eh fits =
    let count = frame_byte_count_exact d w h ew eh fits in
    elim (Bool-cases d.color) [
      | inl c ↦ (w * h * 3, 6, count ∙ (rw c), rw c, rw c (omega arith))
      | inr c ↦ (w * h / 2, 1, count ∙ (rw c), rw c, rw c (omega arith))
    ]
