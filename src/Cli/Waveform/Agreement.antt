-- ===== src/Cli/Waveform/Agreement.antt =====
-- The command line, the protocol and the panel agree on the names of the modes.
use tableaux_eink_go.Base.{
  ℕ, suc, ◌<◌, ◌≡◌, refl, Bool, true, ◌&&◌, arith, holds_below, holds_below_sound,
}
use tableaux_eink_go.Base.Int.{pos, eqb_ℤ, eqb_ℤ_iff}
use tableaux_eink_go.Base.Text.{Str, str, str_eq, lower_byte, trim_space}
use tableaux_eink_go.Einklib.Waveform.{mode_string, parse_waveform_mode}
use tableaux_eink_go.Einklib.Waveform.Parsing.{lowered, parse_waveform_mode_iff}
use tableaux_eink_go.Einkgrpc.Modes.{translate_mode}
use tableaux_eink_go.Cli.Waveform.{all_ascii, to_lower, waveform_of, parse_waveform}

-- Whether a mode's name, in lower case, is taken for a mode that the server translates back.
agrees : ℕ → Bool
agrees n =
    let r = waveform_of (lowered (mode_string (pos n))) in
    r.1 && eqb_ℤ r.0 (pos (suc n)) && eqb_ℤ (translate_mode r.0) (pos n)

agrees_table : holds_below 16 agrees ≡ true
unfolding holds_below agrees waveform_of mode_string translate_mode str str_eq lower_byte
agrees_table = refl

waveform_of-mode_string :
    (n : ℕ)
    → n < 16
    → (waveform_of (lowered (mode_string (pos n))) ≡ (pos (suc n), true))
      × (translate_mode (pos (suc n)) ≡ pos n)
unfolding agrees
waveform_of-mode_string n h =
    let r = waveform_of (lowered (mode_string (pos n))) in
    ground (
      arith,
      holds_below_sound 16 agrees n agrees_table h,
      eqb_ℤ_iff r.0 (pos (suc n)),
      eqb_ℤ_iff (translate_mode r.0) (pos n),
    )

-- Whatever ASCII text the library reads as a mode, blanks around it aside, the command line reads
-- as the mode of the protocol that the server translates to that mode again.
pub parse_waveform_agrees :
    (unicode_lower : Str → Str) (s : Str) (n : ℕ)
    → all_ascii (trim_space s) ≡ true
    → parse_waveform_mode (trim_space s) ≡ (pos n, true)
    → (parse_waveform unicode_lower s ≡ (pos (suc n), true))
      × (translate_mode (parse_waveform unicode_lower s).0 ≡ pos n)
unfolding parse_waveform to_lower
parse_waveform_agrees unicode_lower s n ascii h =
    let (named, same) = (parse_waveform_mode_iff (trim_space s) (pos n)).0 h in
    let (taken, back) = waveform_of-mode_string n named in rw (ascii, same, taken) (refl, back)
