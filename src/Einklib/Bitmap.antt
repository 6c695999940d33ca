-- ===== src/Einklib/Bitmap.antt =====
-- einklib/bitmap.go: what is painted into a frame. A function takes the pixels of the frame and
-- returns what they are after it.
pub mod Solid
use Prim.Native.Nat.{bit_or}
use tableaux_eink_go.Base.{
  ℕ, ◌+◌, ◌*◌, ◌/◌, ◌%◌, ◌^◌, Bool, true, false, [], ◌∷◌, map, if◌then◌else◌, ltb, length, take,
  overwrite,
}
use tableaux_eink_go.Base.Text.{Str}
use tableaux_eink_go.Einklib.Geometry.{DisplayInfo}

-- The three bytes of a uint32 colour, `byte((argb >> k) & 0xFF)`.
abbrev pub red_of : ℕ → ℕ
red_of argb = argb / 65536 % 256

abbrev pub green_of : ℕ → ℕ
green_of argb = argb / 256 % 256

abbrev pub blue_of : ℕ → ℕ
blue_of argb = argb % 256

-- The loop over a colour frame: three bytes in a round, as long as three are left.
unfoldable pub fill_rgb : ℕ → ℕ → ℕ → Str → Str
fill_rgb r g b (x ∷ y ∷ z ∷ rest) = r ∷ g ∷ b ∷ fill_rgb r g b rest
fill_rgb r g b rest = rest

-- `byte((uint32(r)*54 + uint32(g)*183 + uint32(b)*19) >> 8)`
unfoldable pub luma : ℕ → ℕ → ℕ → ℕ
luma r g b = (r * 54 + g * 183 + b * 19) % 2 ^ 32 / 256 % 256

-- `nib := luma >> 4; pair := (nib << 4) | nib`, in bytes.
unfoldable pub nibble_pair : ℕ → ℕ
nibble_pair l = let nib = l / 16 in bit_or (nib * 16 % 256) nib

unfoldable pub fill_solid : DisplayInfo → ℕ → Str → Str
fill_solid d argb px =
    let r = red_of argb in
    let g = green_of argb in
    let b = blue_of argb in
    if d.color then fill_rgb r g b px else map (λ _. nibble_pair (luma r g b)) px

-- PaintRGB888 and PaintGrayscale have one body: `copy(dst[:n], src[:n])`, n the smaller length.
unfoldable pub paint : Str → Str → Str
paint dst src =
    let n = if ltb (length dst) (length src) then length dst else length src in
    overwrite dst 0 (take n src)

abbrev pub paint_rgb888 : Str → Str → Str
paint_rgb888 = paint

abbrev pub paint_grayscale : Str → Str → Str
paint_grayscale = paint
