-- ===== src/Einklib/Display/Lawful.antt =====
-- The display on the device file keeps the laws of the interface, over a kernel that maps and
-- unmaps as documented.
use tableaux_eink_go.Base.{
  ℕ, ◌≡◌, refl, Bool, true, false, Option, none, some, arith, Bool-cases, inl, inr, if◌then◌else◌,
  ◌==◌, length, not, ◌∙◌,
}
use tableaux_eink_go.Base.Int.{pos}
use tableaux_eink_go.Base.Errors.{GoError, ok, err, Result-cases}
use tableaux_eink_go.Einklib.Waveform.{WaveformMode}
use tableaux_eink_go.Einklib.Geometry.{Region, DisplayInfo, frame_byte_count}
use tableaux_eink_go.Einklib.Device.{Kernel, IsKernel, BufInfo}
use tableaux_eink_go.Einklib.Interface.{IsLawful}
use tableaux_eink_go.Einklib.Display.{
  Frame, Display, info, map_frame, acquire_frame, set_overlay, commit, cancel, close, is_closed,
  ebc_display, new_display_info, commit_info,
}

module _ (K : Kernel) (L : IsKernel K) where
  abbrev held : ℕ → Display K → Bool
  held b d = L.mapped b d.kernel

  -- What a new frame is, once the driver has given `d` and the mapping was made.
  abbrev IsNew : Frame → Display K → Display K → Type 0
  IsNew f before after =
      (f.consumed ≡ false)
      × (frame_byte_count f.info ≡ pos (length f.pixels))
      × (held f.buffer_addr before ≡ false)
      × ((b : ℕ) → held b after ≡ (if b == f.buffer_addr then true else held b before))

  mapped-IsNew :
      (di : DisplayInfo) (d : Display K) (f : Frame)
      → (map_frame K di d).0 ≡ ok f
      → IsNew f d (map_frame K di d).1
  unfolding map_frame
  mapped-IsNew di d f h =
      let call : (K.mmap d.fd (frame_byte_count di) d.kernel).0 ≡ ok (f.pixels, f.buffer_addr) =
        ground arith in
      (
        ground arith,
        ground (arith, L.mmap_length d.fd (frame_byte_count di) d.kernel f.pixels f.buffer_addr),
        L.mmap_fresh d.fd (frame_byte_count di) d.kernel f.pixels f.buffer_addr call,
        λ b.
            ground
              (arith, L.mapped-mmap d.fd (frame_byte_count di) d.kernel f.pixels f.buffer_addr b),
      )

  mapped_failed :
      (di : DisplayInfo) (d : Display K) (e : GoError) (b : ℕ)
      → (map_frame K di d).0 ≡ err e
      → held b (map_frame K di d).1 ≡ held b d
  unfolding map_frame
  mapped_failed di d e b h = elim (Result-cases (K.mmap d.fd (frame_byte_count di) d.kernel).0) [
    | inl (r, q) ↦ absurd (ground arith)
    | inr (x, q) ↦
        rw (q, map_frame) (L.mapped-mmap_failed d.fd (frame_byte_count di) d.kernel x b q)
  ]

  acquired :
      (d : Display K) (f : Frame) → (acquire_frame K d).0 ≡ ok f → IsNew f d (acquire_frame K d).1
  unfolding acquire_frame
  acquired d f h = elim (Bool-cases (is_closed K d)) [
    | inl c ↦ absurd (ground arith)
    | inr c ↦
        let d' : Display K = record d { kernel = (K.get_buffer d.fd d.kernel).1 } in
        elim (Result-cases (K.get_buffer d.fd d.kernel).0) [
          | inr (x, q) ↦ absurd (ground arith)
          | inl (i, q) ↦
              let new = mapped-IsNew (new_display_info i) d' f (ground arith) in
              (
                new.0,
                new.1,
                ground (arith, L.mapped-get_buffer d.fd d.kernel f.buffer_addr, new),
                λ b. rw (c, q) (ground (arith, L.mapped-get_buffer d.fd d.kernel b, new.3 b)),
              )
        ]
  ]

  acquire_failed :
      (d : Display K) (e : GoError) (b : ℕ)
      → (acquire_frame K d).0 ≡ err e
      → held b (acquire_frame K d).1 ≡ held b d
  unfolding acquire_frame
  acquire_failed d e b h =
      let d' : Display K = record d { kernel = (K.get_buffer d.fd d.kernel).1 } in
      let same = L.mapped-get_buffer d.fd d.kernel b in
      elim (Bool-cases (is_closed K d)) [
        | inl c ↦ rw c
        | inr c ↦ elim (Result-cases (K.get_buffer d.fd d.kernel).0) [
          | inr (x, q) ↦ rw (c, q) same
          | inl (i, q) ↦ rw (c, q) (mapped_failed (new_display_info i) d' e b (ground arith) ∙ same)
        ]
      ]

  held-info : (d : Display K) (b : ℕ) → held b (info K d).1 ≡ held b d
  unfolding info
  held-info d b = ground (arith, L.mapped-get_buffer_info d.fd d.kernel b)

  held-set_overlay : (on : Bool) (d : Display K) (b : ℕ) → held b (set_overlay K on d).1 ≡ held b d
  unfolding set_overlay
  held-set_overlay on d b =
      ground (arith, L.mapped-overlay_on d.fd d.kernel b, L.mapped-overlay_off d.fd d.kernel b)

  held-cancel :
      (f : Frame) (d : Display K) (b : ℕ)
      → f.consumed ≡ false
      → held f.buffer_addr d ≡ true
      → held b (cancel K f d).2 ≡ (if b == f.buffer_addr then false else held b d)
  unfolding cancel
  held-cancel f d b h m = rw h (L.mapped-munmap f.buffer_addr b d.kernel m)

  module _ (m : WaveformMode) (r : Option Region) (f : Frame) (d : Display K) where
    held-commit :
        (b : ℕ)
        → f.consumed ≡ false
        → held f.buffer_addr d ≡ true
        → (commit K m r f d).0 ≡ none
        → held b (commit K m r f d).2 ≡ (if b == f.buffer_addr then false else held b d)
    unfolding commit
    held-commit b h q e =
        let sent : BufInfo = commit_info m r f in
        ground (
          arith,
          L.mapped-send_buffer d.fd sent f.pixels d.kernel b,
          L.mapped-send_buffer d.fd sent f.pixels d.kernel f.buffer_addr,
          L.mapped-munmap f.buffer_addr b (K.send_buffer d.fd sent f.pixels d.kernel).1,
        )

    held-commit_failed :
        (e : GoError) (b : ℕ)
        → (commit K m r f d).0 ≡ some e
        → held b (commit K m r f d).2 ≡ held b d
    unfolding commit
    held-commit_failed e b h =
        ground (arith, L.mapped-send_buffer d.fd (commit_info m r f) f.pixels d.kernel b)

    held-commit_used : (b : ℕ) → f.consumed ≡ true → held b (commit K m r f d).2 ≡ held b d
    unfolding commit
    held-commit_used b used = ground (arith, used)

    held-commit_unheld :
        (b : ℕ) → held f.buffer_addr d ≡ false → held b (commit K m r f d).2 ≡ held b d
    unfolding commit
    held-commit_unheld b free =
        let sent : BufInfo = commit_info m r f in
        let k = (K.send_buffer d.fd sent f.pixels d.kernel).1 in
        let same = L.mapped-send_buffer d.fd sent f.pixels d.kernel in
        let kept = L.mapped-munmap_unmapped f.buffer_addr b k (same f.buffer_addr ∙ free) in
        ground (arith, same b, kept)

    live-commit : (commit K m r f d).0 ≡ none → (not (commit K m r f d).1.consumed) ≡ false
    unfolding commit
    live-commit h = ground (arith, h)

  held-cancel_used :
      (f : Frame) (d : Display K) (b : ℕ) → f.consumed ≡ true → held b (cancel K f d).2 ≡ held b d
  unfolding cancel
  held-cancel_used f d b used = ground (arith, used)

  held-cancel_unheld :
      (f : Frame) (d : Display K) (b : ℕ)
      → held f.buffer_addr d ≡ false
      → held b (cancel K f d).2 ≡ held b d
  unfolding cancel
  held-cancel_unheld f d b free =
      ground (arith, L.mapped-munmap_unmapped f.buffer_addr b d.kernel free)

  live-cancel : (f : Frame) (d : Display K) → (not (cancel K f d).1.consumed) ≡ false
  unfolding cancel
  live-cancel f d = ground arith

  held-close : (d : Display K) (b : ℕ) → held b (close K d).1 ≡ held b d
  unfolding close
  held-close d b = ground (arith, L.mapped-sys_close d.fd d.kernel b)

  -- Over a kernel that behaves as documented, the display keeps every law of the interface: a frame
  -- is acquired at an address that was free, is held there until it is cancelled or its commit
  -- succeeds, which use it up, and no other call takes or releases a buffer: not one that fails to
  -- acquire or to commit, none of a frame that is used up or whose buffer is not held, and neither
  -- Info, SetOverlay nor Close.
  pub ebc_display-IsLawful : IsLawful (ebc_display K)
  unfolding ebc_display
  ebc_display-IsLawful = record {
    held = held;
    address = λ f. f.buffer_addr;
    live = λ f. not f.consumed;
    pixels-write = λ f px. refl;
    write-pixels = λ f. refl;
    write-write = λ f px py. refl;
    address-write = λ f px. refl;
    live-write = λ f px. refl;
    acquired_live = λ d f h. rw ((acquired d f h).0);
    acquired_fresh = λ d f h. (acquired d f h).2;
    held-acquire_frame = λ d f b h. (acquired d f h).3 b;
    held-acquire_failed = acquire_failed;
    held-cancel = λ f d b h. held-cancel f d b (ground arith);
    held-commit = λ m r f d b h. held-commit m r f d b (ground arith);
    held-commit_failed = λ m r f d e b. held-commit_failed m r f d e b;
    held-cancel_used = λ f d b h. held-cancel_used f d b (ground arith);
    held-cancel_unheld = held-cancel_unheld;
    held-commit_used = λ m r f d b h. held-commit_used m r f d b (ground arith);
    held-commit_unheld = held-commit_unheld;
    live-cancel = live-cancel;
    live-commit = live-commit;
    held-close = held-close;
    held-info = held-info;
    held-set_overlay = held-set_overlay;
  }
