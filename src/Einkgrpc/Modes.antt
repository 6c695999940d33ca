-- ===== src/Einkgrpc/Modes.antt =====
-- einkgrpc/displayservice.go, translateMode: the modes of the protocol as modes of the panel.
pub mod Translation
use tableaux_eink_go.Base.{if◌then◌else◌}
use tableaux_eink_go.Base.Int.{eqb_ℤ}
use tableaux_eink_go.Einkproto
use tableaux_eink_go.Einklib.Waveform
use tableaux_eink_go.Einklib.Waveform.{WaveformMode}

-- The `switch`, in the order of its cases.
unfoldable pub translate_mode : Einkproto.WaveformMode → WaveformMode
translate_mode m =
    if eqb_ℤ m Einkproto.waveform_mode_init
    then Waveform.waveform_init
    else if eqb_ℤ m Einkproto.waveform_mode_direct_update
    then Waveform.waveform_direct_update
    else if eqb_ℤ m Einkproto.waveform_mode_gc16
    then Waveform.waveform_gc16
    else if eqb_ℤ m Einkproto.waveform_mode_gcc16
    then Waveform.waveform_gcc16
    else if eqb_ℤ m Einkproto.waveform_mode_animation
    then Waveform.waveform_animation
    else if eqb_ℤ m Einkproto.waveform_mode_partial
    then Waveform.waveform_partial
    else if eqb_ℤ m Einkproto.waveform_mode_full
    then Waveform.waveform_full
    else if eqb_ℤ m Einkproto.waveform_mode_auto
    then Waveform.waveform_auto
    else if eqb_ℤ m Einkproto.waveform_mode_reset
    then Waveform.waveform_reset
    else if eqb_ℤ m Einkproto.waveform_mode_black_white
    then Waveform.waveform_black_white
    else if eqb_ℤ m Einkproto.waveform_mode_transparent
    then Waveform.waveform_transparent
    else if eqb_ℤ m Einkproto.waveform_mode_regal
    then Waveform.waveform_regal
    else if eqb_ℤ m Einkproto.waveform_mode_spectra_full_gc16
    then Waveform.waveform_spectra_full_gc16
    else if eqb_ℤ m Einkproto.waveform_mode_spectra_glare_reduced
    then Waveform.waveform_spectra_glare_reduced
    else if eqb_ℤ m Einkproto.waveform_mode_spectra_ghost_reduced
    then Waveform.waveform_spectra_ghost_reduced
    else if eqb_ℤ m Einkproto.waveform_mode_spectra_full_gcc16
    then Waveform.waveform_spectra_full_gcc16
    else Waveform.waveform_auto
