-- ===== src/Einklib/Geometry.antt =====
-- einklib/display.go: the geometry of the panel and the update window.
pub mod Sizes
use tableaux_eink_go.Base.{Bool, if◌then◌else◌}
use tableaux_eink_go.Base.Int.{ℤ, pos, ◌*ℤ◌, wrap64, half}

-- The four sizes are int32.
pub record DisplayInfo : Type 0 where
  pub width : ℤ
  pub height : ℤ
  pub virtual_width : ℤ
  pub virt_height : ℤ
  pub color : Bool

-- DisplayInfo.FrameByteCount. `int` has 64 bits on the targets of the program.
unfoldable pub frame_byte_count : DisplayInfo → ℤ
frame_byte_count d =
    if d.color
    then wrap64 (wrap64 (d.virtual_width *ℤ d.virt_height) *ℤ pos 3)
    else half (wrap64 (d.virtual_width *ℤ d.virt_height))

unfoldable pub bytes_per_pixel_times2 : DisplayInfo → ℤ
bytes_per_pixel_times2 d = if d.color then pos 6 else pos 1

-- Inclusive on (x1, y1), exclusive on (x2, y2); each an int32.
pub record Region : Type 0 where
  pub x1 : ℤ
  pub y1 : ℤ
  pub x2 : ℤ
  pub y2 : ℤ

unfoldable pub new_region : ℤ → ℤ → ℤ → ℤ → Region
new_region a b c d = record { x1 = a; y1 = b; x2 = c; y2 = d }
