-- ===== src/Cli/Waveform.antt =====
-- tableaux-cli/commands.go, parseWaveform: the mode that is named on the command line.
pub mod Agreement
use tableaux_eink_go.Base.{Bool, true, false, ◌&&◌, ◌||◌, [], ◌∷◌, map, if◌then◌else◌, ltb}
use tableaux_eink_go.Base.Text.{Str, str, str_eq, lower_byte, trim_space}
use tableaux_eink_go.Einkproto
use tableaux_eink_go.Einkproto.{WaveformMode}

unfoldable pub all_ascii : Str → Bool
all_ascii [] = true
all_ascii (c ∷ s) = ltb c 128 && all_ascii s

-- strings.ToLower. Text beyond ASCII goes by the tables of package unicode, an argument here.
unfoldable pub to_lower : (Str → Str) → Str → Str
unfolding all_ascii
to_lower unicode_lower s = if all_ascii s then map lower_byte s else unicode_lower s

-- The `switch`, in the order of its cases.
unfoldable pub waveform_of : Str → WaveformMode × Bool
waveform_of s =
    if str_eq s (str "init")
    then (Einkproto.waveform_mode_init, true)
    else if str_eq s (str "directupdate") || str_eq s (str "direct_update")
    then (Einkproto.waveform_mode_direct_update, true)
    else if str_eq s (str "gc16")
    then (Einkproto.waveform_mode_gc16, true)
    else if str_eq s (str "gcc16")
    then (Einkproto.waveform_mode_gcc16, true)
    else if str_eq s (str "animation")
    then (Einkproto.waveform_mode_animation, true)
    else if str_eq s (str "partial")
    then (Einkproto.waveform_mode_partial, true)
    else if str_eq s (str "full")
    then (Einkproto.waveform_mode_full, true)
    else if str_eq s (str "auto")
    then (Einkproto.waveform_mode_auto, true)
    else if str_eq s (str "reset")
    then (Einkproto.waveform_mode_reset, true)
    else if str_eq s (str "blackwhite") || str_eq s (str "black_white")
    then (Einkproto.waveform_mode_black_white, true)
    else if str_eq s (str "transparent")
    then (Einkproto.waveform_mode_transparent, true)
    else if str_eq s (str "regal")
    then (Einkproto.waveform_mode_regal, true)
    else if str_eq s (str "spectrafullgc16") || str_eq s (str "spectra_full_gc16")
    then (Einkproto.waveform_mode_spectra_full_gc16, true)
    else if str_eq s (str "spectraglarereduced") || str_eq s (str "spectra_glare_reduced")
    then (Einkproto.waveform_mode_spectra_glare_reduced, true)
    else if str_eq s (str "spectraghostreduced") || str_eq s (str "spectra_ghost_reduced")
    then (Einkproto.waveform_mode_spectra_ghost_reduced, true)
    else if str_eq s (str "spectrafullgcc16") || str_eq s (str "spectra_full_gcc16")
    then (Einkproto.waveform_mode_spectra_full_gcc16, true)
    else (Einkproto.waveform_mode_unspecified, false)

unfoldable pub parse_waveform : (Str → Str) → Str → WaveformMode × Bool
parse_waveform unicode_lower s = waveform_of (to_lower unicode_lower (trim_space s))
