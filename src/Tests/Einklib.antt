-- ===== src/Tests/Einklib.antt =====
-- einklib: runs and instances.
use tableaux_eink_go.Base.{
  ℕ, ◌*◌, ◌+◌, ◌%◌, ◌≡◌, refl, ◌↔◌, ◌≢◌, not, holds_below, holds_below_sound, true, false, none, [],
  ◌∷◌, arith, if◌then◌else◌,
}
use tableaux_eink_go.Base.Int.{ℤ, pos, negsuc, ◌*ℤ◌, wrap64}
use tableaux_eink_go.Base.Text.{str, str_eq, str_eq_iff, lower_byte}
use tableaux_eink_go.Einklib.Waveform.{mode_string, eq_fold, parse_waveform_mode}
use tableaux_eink_go.Einklib.Waveform.Parsing.{lowered, IsNamed, parse_waveform_mode_iff}
use tableaux_eink_go.Einklib.Geometry.{DisplayInfo, frame_byte_count, bytes_per_pixel_times2}
use tableaux_eink_go.Einklib.Geometry.Sizes.{frame_holds_pixels}
use tableaux_eink_go.Einklib.Display.{Frame, Display, close, commit, cancel, ebc_display}
use tableaux_eink_go.Einklib.Interface.{IsLawful}
use tableaux_eink_go.Einklib.Display.Lawful.{ebc_display-IsLawful}
use tableaux_eink_go.Einklib.Display.Closed.{Refuses, close_final, commit_consumes, is_none}
use tableaux_eink_go.Tests.Panel.{idle, panel_kernel, panel_kernel-IsKernel}

-- Any case of letters is taken.
parse_gc16 : parse_waveform_mode (str "gC16") ≡ (pos 2, true)
unfolding parse_waveform_mode mode_string eq_fold str lower_byte
parse_gc16 = refl

parse_waveform_mode_iff_example :
    (parse_waveform_mode (str "REGAL") ≡ (pos 11, true))
    ↔ (IsNamed (pos 11) × (lowered (str "REGAL") ≡ lowered (mode_string (pos 11))))
parse_waveform_mode_iff_example = parse_waveform_mode_iff (str "REGAL") (pos 11)

nope_table :
    holds_below 16 (λ n. not (str_eq (lowered (str "nope")) (lowered (mode_string (pos n))))) ≡ true
unfolding holds_below mode_string str str_eq lower_byte
nope_table = refl

no_mode : (m : ℤ) → IsNamed m → lowered (str "nope") ≢ lowered (mode_string m)
no_mode (negsuc n) h e = h
no_mode (pos n) h e = ground (
  arith,
  holds_below_sound 16 _ n nope_table h,
  (str_eq_iff (lowered (str "nope")) (lowered (mode_string (pos n)))).1 e,
)

abbrev gray_panel : DisplayInfo
gray_panel = record {
  width = pos 3;
  height = pos 3;
  virtual_width = pos 3;
  virt_height = pos 3;
  color = false;
}

abbrev color_panel : DisplayInfo
color_panel = record gray_panel { color = true }

color_bytes : frame_byte_count color_panel ≡ pos 27
unfolding frame_byte_count wrap64 ◌*ℤ◌
color_bytes = refl

-- Nine gray pixels have room for eight.
frame_holds_pixels_example :
    (n k : ℕ) × (frame_byte_count gray_panel ≡ pos n)
    × (bytes_per_pixel_times2 gray_panel ≡ pos k)
    × (2 * n + (if gray_panel.color then 0 else 3 * 3 % 2) ≡ 3 * 3 * k)
frame_holds_pixels_example = frame_holds_pixels gray_panel 3 3 refl refl (omega arith)

abbrev open_panel : Display (panel_kernel false)
open_panel = record { fd = pos 3; kernel = idle }

abbrev used_frame : Frame
used_frame = record {
  info = color_panel;
  pixels = 1 ∷ 2 ∷ 3 ∷ [];
  buffer_addr = 4096;
  consumed = true;
}

abbrev new_frame : Frame
new_frame = record used_frame { consumed = false }

ebc_display-IsLawful_example : IsLawful (ebc_display (panel_kernel true))
ebc_display-IsLawful_example = ebc_display-IsLawful (panel_kernel true) (panel_kernel-IsKernel true)

close_final_example : Refuses (panel_kernel false) true (close (panel_kernel false) open_panel).1
close_final_example = close_final (panel_kernel false) open_panel true

commit_consumes_example :
    ((cancel (panel_kernel false) new_frame open_panel).1 ≡ record new_frame { consumed = true })
    × ((commit (panel_kernel false) (pos 2) none new_frame open_panel).1 ≡ record new_frame {
      consumed = is_none (commit (panel_kernel false) (pos 2) none new_frame open_panel).0;
    })
commit_consumes_example =
    commit_consumes (panel_kernel false) (pos 2) none new_frame open_panel refl
