-- ===== src/Einklib/Display.antt =====
-- einklib/display_linux.go: the display over the device file. The mutex of a display makes each of
-- its methods one step.
pub mod Lawful
pub mod Closed
use tableaux_eink_go.Base.{Bool, true, false, Option, none, some, ◌++◌, ℕ, if◌then◌else◌}
use tableaux_eink_go.Base.Int.{ℤ, pos, negsuc, ltb_ℤ, eqb_ℤ}
use mathlib.Core.Bool.{not}
use tableaux_eink_go.Base.Text.{Str, str, decimal_ℤ}
use tableaux_eink_go.Base.Errors.{GoError, plain, wrapped, closed, Result, ok, err}
use tableaux_eink_go.Einklib.Waveform.{WaveformMode}
use tableaux_eink_go.Einklib.Geometry.{DisplayInfo, Region, frame_byte_count, new_region}
use tableaux_eink_go.Einklib.Device.{BufInfo, Kernel}
use tableaux_eink_go.Einklib.Interface.{DisplayApi}

abbrev pub new_display_info : BufInfo → DisplayInfo
new_display_info i = record {
  width = i.width;
  height = i.height;
  virtual_width = i.vir_width;
  virt_height = i.vir_height;
  color = not (eqb_ℤ i.panel_color (pos 0));
}

-- A frame, without the pointer to its display, which is the one that it is used with.
pub record Frame : Type 0 where
  pub info : DisplayInfo
  pub pixels : Str
  pub buffer_addr : ℕ
  pub consumed : Bool

-- `if rc, err := ...; rc < 0 { return fmt.Errorf("<text>: %w", err) }`
abbrev pub wrap_failure : Str → Option GoError → Option GoError
wrap_failure text none = none
wrap_failure text (some e) = some (wrapped text e)

-- The struct that Commit hands to the driver.
unfoldable pub commit_info : WaveformMode → Option Region → Frame → BufInfo
unfolding new_region
commit_info mode region f =
    let r : Region = elim region [
      | none ↦ new_region (pos 0) (pos 0) f.info.virtual_width f.info.virt_height
      | some given ↦ given
    ] in
    record {
      width = f.info.width;
      height = f.info.height;
      vir_width = f.info.virtual_width;
      vir_height = f.info.virt_height;
      panel_color = if f.info.color then pos 1 else pos 0;
      win_x1 = r.x1;
      win_y1 = r.y1;
      win_x2 = r.x2;
      win_y2 = r.y2;
      epd_mode = mode;
      buf_fd = negsuc 0;
      needpic = pos 0;
      buffer = pos f.buffer_addr;
    }

-- The display, with the kernel that it calls.
pub record Display (K : Kernel) : Type 0 where
  pub fd : ℤ
  pub kernel : K.State

module _ (K : Kernel) where
  -- `d.fd < 0`
  abbrev pub is_closed : Display K → Bool
  is_closed d = ltb_ℤ d.fd (pos 0)

  -- Open
  unfoldable pub open_display : Str → K.State → Result GoError (Display K) × K.State
  open_display path k =
      let (r, k') = K.sys_open path k in
      elim r [
        | err e ↦ (err (wrapped (str "open " ++ (path ++ str ": ")) e), k')
        | ok fd ↦ (ok (record { fd = pos fd; kernel = k' }), k')
      ]

  unfoldable pub info : Display K → Result GoError DisplayInfo × Display K
  info d =
      let (r, k) = K.get_buffer_info d.fd d.kernel in
      let d' : Display K = record d { kernel = k } in
      if is_closed d then (err closed, d) else elim r [
        | err e ↦ (err (wrapped (str "EBC_GET_BUFFER_INFO: ") e), d')
        | ok i ↦ (ok (new_display_info i), d')
      ]

  -- The second half of AcquireFrame: the buffer that the driver gave is mapped.
  unfoldable pub map_frame : DisplayInfo → Display K → Result GoError Frame × Display K
  map_frame di d =
      let bytes = frame_byte_count di in
      let (r, k) = K.mmap d.fd bytes d.kernel in
      let d' : Display K = record d { kernel = k } in
      elim r [
        | err e ↦
            (err (wrapped (str "mmap ebc buffer (" ++ (decimal_ℤ bytes ++ str " bytes): ")) e), d')
        | ok (mapped, address) ↦ (
          ok (record { info = di; pixels = mapped; buffer_addr = address; consumed = false }),
          d',
        )
      ]

  unfoldable pub acquire_frame : Display K → Result GoError Frame × Display K
  acquire_frame d =
      let (r, k) = K.get_buffer d.fd d.kernel in
      let d' : Display K = record d { kernel = k } in
      if is_closed d then (err closed, d) else elim r [
        | err e ↦ (err (wrapped (str "EBC_GET_BUFFER: ") e), d')
        | ok i ↦ map_frame (new_display_info i) d'
      ]

  unfoldable pub set_overlay : Bool → Display K → Option GoError × Display K
  set_overlay enabled d =
      let (r, k) = if enabled then K.overlay_on d.fd d.kernel else K.overlay_off d.fd d.kernel in
      if is_closed d
      then (some closed, d)
      else (wrap_failure (str "overlay: ") r, record d { kernel = k })

  unfoldable pub close : Display K → Option GoError × Display K
  close d =
      let (r, k) = K.sys_close d.fd d.kernel in
      if is_closed d then (none, d) else (r, record { fd = negsuc 0; kernel = k })

  -- frame.Commit. The error of munmap is dropped.
  unfoldable pub commit :
      WaveformMode → Option Region → Frame → Display K → Option GoError × Frame × Display K
  commit mode region f d =
      let (r, k) = K.send_buffer d.fd (commit_info mode region f) f.pixels d.kernel in
      let (_, k') = K.munmap f.buffer_addr k in
      if f.consumed then (some (plain (str "einklib: frame already consumed")), f, d) else elim r [
        | some e ↦ (some (wrapped (str "EBC_SEND_BUFFER: ") e), f, record d { kernel = k })
        | none ↦ (none, record f { consumed = true }, record d { kernel = k' })
      ]

  -- frame.Cancel
  unfoldable pub cancel : Frame → Display K → Option GoError × Frame × Display K
  cancel f d =
      let (r, k) = K.munmap f.buffer_addr d.kernel in
      if f.consumed
      then (none, f, d)
      else (r, record f { consumed = true }, record d { kernel = k })

  -- The display on the device file as an implementation of the interface.
  unfoldable pub ebc_display : DisplayApi
  ebc_display = record {
    State = Display K;
    Frame = Frame;
    info = info;
    acquire_frame = acquire_frame;
    set_overlay = set_overlay;
    close = close;
    pixels = λ f. f.pixels;
    write = λ f px. record f { pixels = px };
    frame_info = λ f. f.info;
    commit = commit;
    cancel = cancel;
  }
