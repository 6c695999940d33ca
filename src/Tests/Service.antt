-- ===== src/Tests/Service.antt =====
-- The handlers over the panel of the tests.
use tableaux_eink_go.Base.{
  ℕ, ◌≡◌, ◌≢◌, refl, ◌⊎◌, Bool, true, false, Option, none, some, List, [], ◌∷◌, ◌++◌, arith,
  if◌then◌else◌, length, replicate,
}
use tableaux_eink_go.Base.Int.{pos, wrap64, ◌*ℤ◌}
use tableaux_eink_go.Base.Text.{Str, str}
use tableaux_eink_go.Base.Errors.{GoError, eof, wrapped, Result, ok, err}
use tableaux_eink_go.Einkproto.{RefreshHeader, FillRequest}
use tableaux_eink_go.Einklib.Geometry.{frame_byte_count}
use tableaux_eink_go.Einklib.Interface.{DisplayApi, IsLawful}
use tableaux_eink_go.Einklib.Display.{Frame, Display, map_frame, acquire_frame, commit, ebc_display}
use tableaux_eink_go.Einklib.Display.Lawful.{ebc_display-IsLawful}
use tableaux_eink_go.Einkgrpc.DisplayService.{
  Service, Recv, failed, fill, commit_upload, receive, upload, refresh_display, refresh,
}
use tableaux_eink_go.Einkgrpc.DisplayService.Loop.{data_messages, joined, ends}
use tableaux_eink_go.Einkgrpc.DisplayService.Upload.{
  header_message, refresh_exact, refresh_ok_sound,
}
use tableaux_eink_go.Einkgrpc.DisplayService.Frames.{
  held_by, CommitFailed, fill_returns, fill_failed_commit_leaks, refresh_returns,
}
use tableaux_eink_go.Tests.Panel.{idle, trouble, panel_kernel, panel_kernel-IsKernel}

abbrev pub api : Bool → DisplayApi
api refuses = ebc_display (panel_kernel refuses)

pub lawful : (refuses : Bool) → IsLawful (api refuses)
lawful refuses = ebc_display-IsLawful (panel_kernel refuses) (panel_kernel-IsKernel refuses)

abbrev pub display_of : (refuses : Bool) → Display (panel_kernel refuses)
display_of refuses = record { fd = pos 3; kernel = idle }

abbrev pub service : (refuses : Bool) → Service (api refuses)
unfolding ebc_display
service refuses = record {
  display = some (display_of refuses);
  server_version = str "0.1.0";
  last_error = [];
}

abbrev header : RefreshHeader
header = record { mode = pos 13; region = none; total_bytes = pos 5 }

abbrev chunks : List Str
chunks = (1 ∷ 2 ∷ []) ∷ [] ∷ (3 ∷ 4 ∷ 5 ∷ []) ∷ []

abbrev pub painted : Frame
painted = record {
  info = record {
    width = pos 2;
    height = pos 1;
    virtual_width = pos 2;
    virt_height = pos 1;
    color = true;
  };
  pixels = 0 ∷ 0 ∷ 0 ∷ 0 ∷ 0 ∷ 0 ∷ [];
  buffer_addr = 4096;
  consumed = false;
}

-- The stream ends in an error that wraps io.EOF.
refresh_exact_example :
    unfold ebc_display in
    refresh
      (api false)
      (header_message header ∷ data_messages chunks (failed (wrapped (str "recv: ") eof) ∷ []))
      (pos 7)
      none
      (service false)
    ≡ commit_upload
        (api false)
        header
        (pos 7)
        none
        (record painted { pixels = 1 ∷ 2 ∷ 3 ∷ 4 ∷ 5 ∷ 0 ∷ [] })
        (record { fd = pos 3; kernel = record { busy = true; shown = [] } })
        (service false)
unfolding ebc_display acquire_frame map_frame frame_byte_count wrap64 ◌*ℤ◌
    tableaux_eink_go.Base.Errors.is_eof
refresh_exact_example =
    refresh_exact (api false) (lawful false) header chunks
      (failed (wrapped (str "recv: ") eof) ∷ []) (pos 7) none (service false) (display_of false)
      painted refl refl refl (omega arith) refl

refresh_ok_sound_example :
    (h : RefreshHeader) × (bs : List Str) × (tail : List Recv) × ((header_message header
        ∷ data_messages chunks [])
      ≡ header_message h ∷ data_messages bs tail)
    × (ends tail ≡ true)
    × (h.total_bytes ≡ pos (length (joined bs)))
unfolding ebc_display acquire_frame map_frame frame_byte_count wrap64 ◌*ℤ◌ refresh refresh_display
    upload receive commit_upload commit
refresh_ok_sound_example =
    refresh_ok_sound (api false) (lawful false) (header_message header ∷ data_messages chunks [])
      (pos 7) none (service false) (record { elapsed_ms = pos 7 }) refl

abbrev black : FillRequest
black = record { argb = 0; mode = pos 3 }

fill_returns_example :
    CommitFailed (api true) (lawful true) (fill (api true) black (pos 7) (service true)).0
    ⊎ (held_by (api true) (lawful true) 4096 (fill (api true) black (pos 7) (service true)).1
        ≡ held_by (api true) (lawful true) 4096 (service true))
fill_returns_example = fill_returns (api true) (lawful true) black (pos 7) (service true) 4096

refresh_returns_example :
    CommitFailed
      (api true)
      (lawful true)
      (refresh (api true) (header_message header ∷ []) (pos 7) none (service true)).0
    ⊎ (held_by
          (api true)
          (lawful true)
          4096
          (refresh (api true) (header_message header ∷ []) (pos 7) none (service true)).1
        ≡ held_by (api true) (lawful true) 4096 (service true))
refresh_returns_example =
    refresh_returns (api true) (lawful true) (header_message header ∷ []) (pos 7) none
      (service true) 4096

abbrev pub blank : Frame
blank = record painted { pixels = replicate 6 0 }

fill_failed_commit_leaks_example :
    unfold ebc_display in
    (held_by (api true) (lawful true) ((lawful true).address blank) (service true) ≡ false)
    × (held_by
          (api true)
          (lawful true)
          ((lawful true).address blank)
          (fill (api true) black (pos 7) (service true)).1
        ≡ true)
unfolding ebc_display acquire_frame map_frame frame_byte_count wrap64 ◌*ℤ◌ commit
fill_failed_commit_leaks_example =
    fill_failed_commit_leaks (api true) (lawful true) black (pos 7) (service true) (display_of true)
      blank (wrapped (str "EBC_SEND_BUFFER: ") trouble) refl refl refl
