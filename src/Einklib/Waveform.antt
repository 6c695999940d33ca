-- ===== src/Einklib/Waveform.antt =====
-- einklib/waveform.go: the refresh modes of the panel, their names, and the parser of a name.
pub mod Parsing
use tableaux_eink_go.Base.{
  ℕ, zero, suc, Bool, true, false, ◌&&◌, [], ◌∷◌, ◌==◌, if◌then◌else◌, length,
}
use tableaux_eink_go.Base.Int.{ℤ, pos, eqb_ℤ}
use tableaux_eink_go.Base.Text.{Str, str, lower_byte}

-- An int32, so any value of that type can occur, the named ones and others.
abbrev pub WaveformMode : Type 0
WaveformMode = ℤ

abbrev pub waveform_init : WaveformMode
waveform_init = pos 0

abbrev pub waveform_direct_update : WaveformMode
waveform_direct_update = pos 1

abbrev pub waveform_gc16 : WaveformMode
waveform_gc16 = pos 2

abbrev pub waveform_gcc16 : WaveformMode
waveform_gcc16 = pos 3

abbrev pub waveform_animation : WaveformMode
waveform_animation = pos 4

abbrev pub waveform_partial : WaveformMode
waveform_partial = pos 5

abbrev pub waveform_full : WaveformMode
waveform_full = pos 6

abbrev pub waveform_auto : WaveformMode
waveform_auto = pos 7

abbrev pub waveform_reset : WaveformMode
waveform_reset = pos 8

abbrev pub waveform_black_white : WaveformMode
waveform_black_white = pos 9

abbrev pub waveform_transparent : WaveformMode
waveform_transparent = pos 10

abbrev pub waveform_regal : WaveformMode
waveform_regal = pos 11

abbrev pub waveform_spectra_full_gc16 : WaveformMode
waveform_spectra_full_gc16 = pos 12

abbrev pub waveform_spectra_glare_reduced : WaveformMode
waveform_spectra_glare_reduced = pos 13

abbrev pub waveform_spectra_ghost_reduced : WaveformMode
waveform_spectra_ghost_reduced = pos 14

abbrev pub waveform_spectra_full_gcc16 : WaveformMode
waveform_spectra_full_gcc16 = pos 15

-- WaveformMode.String: the `switch`, in the order of its cases.
unfoldable pub mode_string : WaveformMode → Str
mode_string m =
    if eqb_ℤ m waveform_init
    then str "Init"
    else if eqb_ℤ m waveform_direct_update
    then str "DirectUpdate"
    else if eqb_ℤ m waveform_gc16
    then str "GC16"
    else if eqb_ℤ m waveform_gcc16
    then str "GCC16"
    else if eqb_ℤ m waveform_animation
    then str "Animation"
    else if eqb_ℤ m waveform_partial
    then str "Partial"
    else if eqb_ℤ m waveform_full
    then str "Full"
    else if eqb_ℤ m waveform_auto
    then str "Auto"
    else if eqb_ℤ m waveform_reset
    then str "Reset"
    else if eqb_ℤ m waveform_black_white
    then str "BlackWhite"
    else if eqb_ℤ m waveform_transparent
    then str "Transparent"
    else if eqb_ℤ m waveform_regal
    then str "Regal"
    else if eqb_ℤ m waveform_spectra_full_gc16
    then str "SpectraFullGC16"
    else if eqb_ℤ m waveform_spectra_glare_reduced
    then str "SpectraGlareReduced"
    else if eqb_ℤ m waveform_spectra_ghost_reduced
    then str "SpectraGhostReduced"
    else if eqb_ℤ m waveform_spectra_full_gcc16
    then str "SpectraFullGCC16"
    else str "Unknown"

-- The loop of eqFold over two strings of one length.
fold_loop : Str → Str → Bool
fold_loop [] t = true
fold_loop (a ∷ s) [] = true
fold_loop (a ∷ s) (b ∷ t) = lower_byte a == lower_byte b && fold_loop s t

unfoldable pub eq_fold : Str → Str → Bool
unfolding fold_loop
eq_fold a b = if length a == length b then fold_loop a b else false

-- The loop of ParseWaveformMode from mode `m`, with the rounds that are left.
parse_from : ℕ → ℕ → Str → WaveformMode × Bool
parse_from zero m s = (pos 0, false)
parse_from (suc rounds) m s =
    let rest = parse_from rounds (suc m) s in
    if eq_fold (mode_string (pos m)) s then (pos m, true) else rest

unfoldable pub parse_waveform_mode : Str → WaveformMode × Bool
unfolding parse_from
parse_waveform_mode s = parse_from 16 0 s
