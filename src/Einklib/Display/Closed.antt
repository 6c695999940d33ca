-- ===== src/Einklib/Display/Closed.antt =====
-- What a closed display and a used frame refuse, and what is sent for a frame that is neither.
use tableaux_eink_go.Base.{
  ◌≡◌, refl, Bool, true, false, Option, none, some, arith, Bool-cases, inl, inr,
}
use tableaux_eink_go.Base.Int.{pos}
use tableaux_eink_go.Base.Text.{str}
use tableaux_eink_go.Base.Errors.{plain, closed, err}
use tableaux_eink_go.Einklib.Waveform.{WaveformMode}
use tableaux_eink_go.Einklib.Geometry.{Region, new_region}
use tableaux_eink_go.Einklib.Device.{Kernel}
use tableaux_eink_go.Einklib.Display.{
  Frame, Display, info, acquire_frame, set_overlay, close, commit, commit_info, cancel, is_closed,
}

abbrev pub is_none {ℓ} : {A : Type ℓ} → Option A → Bool
is_none none = true
is_none (some a) = false

-- The window of the whole virtual panel, from its origin to its far corner.
abbrev pub whole_panel : Frame → Region
whole_panel f = record {
  x1 = pos 0;
  y1 = pos 0;
  x2 = f.info.virtual_width;
  y2 = f.info.virt_height;
}

module _ (K : Kernel) where
  abbrev pub Refuses : Bool → Display K → Type 0
  Refuses on c =
      (acquire_frame K c ≡ (err closed, c))
      × (info K c ≡ (err closed, c))
      × (set_overlay K on c ≡ (some closed, c))
      × (close K c ≡ (none, c))

  closed-Refuses : (on : Bool) (d : Display K) → is_closed K d ≡ true → Refuses on d
  unfolding close acquire_frame info set_overlay
  closed-Refuses on d h = (rw h, rw h, rw h, rw h)

  close-is_closed : (d : Display K) → is_closed K (close K d).1 ≡ true
  unfolding close
  close-is_closed d = elim (Bool-cases (is_closed K d)) [ inl c ↦ rw c c | inr c ↦ rw c ]

  -- Close leaves the display closed, whatever it was: after it no frame, geometry or overlay can be
  -- had, each is refused as closed, and neither these calls nor a second Close change anything.
  pub close_final : (d : Display K) (on : Bool) → Refuses on (close K d).1
  close_final d on = closed-Refuses on (close K d).1 (close-is_closed d)

  -- A frame is used at most once: a frame that was committed or cancelled is refused by Commit,
  -- and Cancel reports success, neither of them calling the driver or unmapping again.
  pub consumed_final :
      (m : WaveformMode) (r : Option Region) (f : Frame) (d : Display K)
      → f.consumed ≡ true
      → (commit K m r f d ≡ (some (plain (str "einklib: frame already consumed")), f, d))
        × (cancel K f d ≡ (none, f, d))
  unfolding commit cancel
  consumed_final m r f d h = (rw h, rw h)

  -- A frame that was not used is used up by Cancel, and by Commit exactly if Commit succeeds: after
  -- a Commit that fails it is what it was, so that it can still be cancelled.
  pub commit_consumes :
      (m : WaveformMode) (r : Option Region) (f : Frame) (d : Display K)
      → f.consumed ≡ false
      → ((cancel K f d).1 ≡ record f { consumed = true })
        × ((commit K m r f d).1 ≡ record f { consumed = is_none (commit K m r f d).0 })
  unfolding commit cancel
  commit_consumes m r f d h = (ground arith, ground arith)

  -- A Commit without a window is a Commit with the window of the whole virtual panel.
  pub commit_whole_panel :
      (m : WaveformMode) (f : Frame) (d : Display K)
      → commit K m none f d ≡ commit K m (some (whole_panel f)) f d
  unfolding commit commit_info new_region
  commit_whole_panel m f d = refl
