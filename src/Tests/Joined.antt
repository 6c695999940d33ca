-- ===== src/Tests/Joined.antt =====
-- The commands against the server of the tests.
use tableaux_eink_go.Base.{
  replicate, ℕ, ◌≡◌, refl, subst, ap, Bool, true, false, Option, none, some, List, [], ◌∷◌, ◌++◌,
  arith, inl, inr, All, length,
}
use tableaux_eink_go.Base.Int.{pos, wrap64, ◌*ℤ◌}
use tableaux_eink_go.Base.Text.{Str, str, IsVisible, str_eq, trim_space, lower_byte}
use tableaux_eink_go.Base.Errors.{GoError, ok}
use tableaux_eink_go.Einkproto.{waveform_mode_gc16}
use tableaux_eink_go.Einklib.Display.{Frame, Display, ebc_display, acquire_frame, map_frame, commit}
use tableaux_eink_go.Einklib.Geometry.{frame_byte_count}
use tableaux_eink_go.Cli.Waveform.{parse_waveform, waveform_of, to_lower}
use tableaux_eink_go.Einkgrpc.Backend.{assemble, tokens_of}
use tableaux_eink_go.Einkgrpc.TokenAuth.Bearer.{IsToken, presented}
use tableaux_eink_go.Einkgrpc.TokenAuth.{prefix, check}
use tableaux_eink_go.Tests.Panel.{panel_kernel}
use tableaux_eink_go.Cli.Flags.{CommonFlags, validate, dial, tls_config}
use tableaux_eink_go.Cli.Commands.{
  Shell, run, parse_mode, parse_argb, cmd_fill, cmd_refresh, cmd_reissue, cmd_rotate, reissue,
}
use tableaux_eink_go.Link.Stranger.{stranger_changes_nothing}
use tableaux_eink_go.Link.Upload.{shows_file, refresh_shows_file}
use tableaux_eink_go.Link.Fill.{shows_colour, fill_shows_colour}
use tableaux_eink_go.Link.Reissue.{Reissued, Saved, reissue_delivers}
use tableaux_eink_go.Tests.Auth.{flags, root-IsVisible, root_ne}
use tableaux_eink_go.Tests.Service.{api, service, lawful, display_of, blank}
use tableaux_eink_go.Tests.Disk.{disk_host, disk_host-IsHost}
use tableaux_eink_go.Tests.Certificates.{kept, disk, nothing_locked, kept-Stored}
use tableaux_eink_go.Einkgrpc.Server.{Server}
use tableaux_eink_go.Tests.Network.{one_port}
use tableaux_eink_go.Tests.Commands.{listening}
use tableaux_eink_go.Tests.Link.{Panel, Wire, file, remote, link, link-IsLink}

-- A server with credentials that are on its disk.
abbrev hosted : Server one_port
hosted = record listening { cm = kept }

abbrev at_first : Shell Wire
at_first = record {
  printed = [];
  remote = record {
    panel =
        assemble (api false) disk_host one_port hosted (service false).display
          (disk nothing_locked);
    sent = [];
  };
}

is_admin : IsToken (tokens_of kept) flags.token
is_admin = (root_ne, inr refl)

abbrev context : List Str
context = (str "Bearer " ++ str "root") ∷ []

-- The server behind a commit.
abbrev behind : Option GoError × Frame × Display (panel_kernel false) → Panel
unfolding ebc_display
behind shown = record at_first.remote.panel {
  service = record at_first.remote.panel.service { display = some shown.2 };
}

refresh_shows_file_example :
    unfold ebc_display in
    let (r, s') = cmd_refresh file remote 9 flags (str "frame") (str "GC16") (pos 2) at_first in
    (r ≡ ok tt)
    × (s'.remote.panel
        ≡ behind (
            shows_file
              (api false)
              disk_host
              file
              remote
              link
              link-IsLink
              (lawful false)
              (λ stream c s. refl)
              waveform_mode_gc16
              (1 ∷ 2 ∷ 3 ∷ [])
              blank
              (display_of false)))
unfolding ebc_display validate str parse_mode parse_waveform waveform_of str_eq to_lower trim_space
    lower_byte dial acquire_frame map_frame frame_byte_count wrap64 ◌*ℤ◌ commit tls_config
refresh_shows_file_example =
    refresh_shows_file (api false) disk_host file remote link link-IsLink (lawful false)
      (λ stream c s. refl) 9 flags (str "frame") (str "GC16") 2 at_first waveform_mode_gc16
      (1 ∷ 2 ∷ 3 ∷ []) 5 context context (display_of false) blank refl refl refl refl refl refl
      root-IsVisible is_admin (omega arith) (omega arith) refl refl (omega arith) refl refl
      (λ b h. refl)

fill_shows_colour_example :
    unfold ebc_display in
    let (r, s') = cmd_fill file remote flags (str "FF000000") (str "GC16") at_first in
    (r ≡ ok tt)
    × (s'.remote.panel
        ≡ behind (
            shows_colour
              (api false)
              disk_host
              file
              remote
              link
              link-IsLink
              waveform_mode_gc16
              0xff000000
              blank
              (display_of false)))
unfolding ebc_display validate str parse_argb parse_mode parse_waveform waveform_of str_eq to_lower
    trim_space lower_byte dial acquire_frame map_frame frame_byte_count wrap64 ◌*ℤ◌ commit
    tls_config tableaux_eink_go.Base.Strconv.parse_hex tableaux_eink_go.Base.Text.has_prefix
    tableaux_eink_go.Base.Strconv.scan_hex tableaux_eink_go.Base.Strconv.hex_value
fill_shows_colour_example =
    fill_shows_colour (api false) disk_host file remote link link-IsLink flags (str "FF000000")
      (str "GC16") at_first 0xff000000 waveform_mode_gc16 5 context (display_of false) blank refl
      refl refl refl root-IsVisible is_admin refl refl refl

-- The command reissue of a client that guesses.
abbrev guess : CommonFlags
guess = record flags { token = str "guess" }

stranger : ¬ IsToken (tokens_of kept) (presented (prefix ++ str "guess"))
unfolding str trim_space
stranger (_, inl e) = cc
stranger (_, inr e) = cc

abbrev flags_or : Option CommonFlags → CommonFlags
flags_or none = guess
flags_or (some c) = c

guess_stranger :
    (c : CommonFlags)
    → some guess ≡ some c
    → ¬ IsToken (tokens_of kept) (presented (prefix ++ c.token))
guess_stranger c h =
    subst (λ x. ¬ IsToken (tokens_of kept) (presented (prefix ++ x.token))) (ap flags_or h) stranger

stranger_changes_nothing_example :
    (run file remote 9 (reissue guess (str "out")) at_first).1.remote.panel ≡ at_first.remote.panel
stranger_changes_nothing_example =
    stranger_changes_nothing (api false) disk_host file remote link link-IsLink
      at_first.remote.panel 9 (reissue guess (str "out")) at_first refl guess_stranger

abbrev handed : Shell Wire
handed = (cmd_reissue file remote flags (str "out") at_first).1

reissue_delivers_example :
    let b' = handed.remote.panel in
    Reissued (api false) disk_host disk_host-IsHost file remote link at_first.remote.panel b'
    × (s2 : Wire) × Saved file remote flags
        (str "out")
        at_first
        s2
        b'.cm.client_cer
        b'.cm.client_key
        handed.remote
unfolding validate str dial tls_config cmd_reissue tableaux_eink_go.Einkgrpc.TokenAuth.check
    tableaux_eink_go.Base.Text.has_prefix trim_space str_eq
    tableaux_eink_go.Einkgrpc.Credentials.reissue
    tableaux_eink_go.Einkgrpc.CertManager.reissue_client_cert
    tableaux_eink_go.Einkgrpc.CertManager.gen_self_signed
reissue_delivers_example =
    reissue_delivers (api false) disk_host disk_host-IsHost file remote link link-IsLink flags
      (str "out") at_first (kept-Stored nothing_locked) refl

-- The command rotate.
abbrev rotated : Shell Wire
rotated = (cmd_rotate file remote flags at_first).1
