-- ===== src/Tests/Cli.antt =====
-- The command line on concrete input.
use tableaux_eink_go.Base.{◌≡◌, refl, true, Option, none, List, [], ◌∷◌}
use tableaux_eink_go.Base.Int.{pos}
use tableaux_eink_go.Base.Text.{Str, str, lower_byte, trim_space}
use tableaux_eink_go.Base.Errors.{GoError}
use tableaux_eink_go.Einkproto.{RefreshChunk}
use tableaux_eink_go.Einklib.Waveform.{mode_string, eq_fold, parse_waveform_mode}
use tableaux_eink_go.Einkgrpc.Modes.{translate_mode}
use tableaux_eink_go.Cli.Waveform.{all_ascii, parse_waveform}
use tableaux_eink_go.Cli.Waveform.Agreement.{parse_waveform_agrees}
use tableaux_eink_go.Cli.Upload.{running, send_chunks}
use tableaux_eink_go.Cli.Upload.Chunks.{send_chunks_zero}

parse_waveform_agrees_example :
    (parse_waveform (λ s. s) (str " Regal ") ≡ (pos 12, true))
    × (translate_mode (parse_waveform (λ s. s) (str " Regal ")).0 ≡ pos 11)
unfolding parse_waveform_mode mode_string eq_fold str lower_byte trim_space all_ascii
parse_waveform_agrees_example = parse_waveform_agrees (λ s. s) (str " Regal ") 11 refl refl

abbrev file : Str
file = 1 ∷ 2 ∷ 3 ∷ 4 ∷ 5 ∷ []

-- The stream keeps what is sent, the last first.
abbrev accept : RefreshChunk → List RefreshChunk → Option GoError × List RefreshChunk
accept c log = (none, c ∷ log)

send_chunks_zero_example : (send_chunks accept 1000 (pos 0) file []).0 ≡ running
send_chunks_zero_example = send_chunks_zero accept (λ c s. refl) 1000 file [] (λ e. cc)
