-- ===== src/Einklib/Interface.antt =====
-- einklib/display.go: the interfaces Display and Frame, through which the service draws.
use tableaux_eink_go.Base.{ℕ, ◌≡◌, Bool, true, false, Option, none, some, if◌then◌else◌, ◌==◌}
use tableaux_eink_go.Base.Text.{Str}
use tableaux_eink_go.Base.Errors.{GoError, Result, ok, err}
use tableaux_eink_go.Einklib.Waveform.{WaveformMode}
use tableaux_eink_go.Einklib.Geometry.{DisplayInfo, Region}

-- `State` is the display with all that it acts on. A method of Frame acts on the frame and on the
-- display that it came from. `write` is a write into the slice that Pixels returns.
pub record DisplayApi : Type 1 where
  pub State : Type 0
  pub Frame : Type 0
  pub info : State → Result GoError DisplayInfo × State
  pub acquire_frame : State → Result GoError Frame × State
  pub set_overlay : Bool → State → Option GoError × State
  pub close : State → Option GoError × State
  pub pixels : Frame → Str
  pub write : Frame → Str → Frame
  pub frame_info : Frame → DisplayInfo
  pub commit : WaveformMode → Option Region → Frame → State → Option GoError × Frame × State
  pub cancel : Frame → State → Option GoError × Frame × State

-- What a client may rely on. `held a s`: the buffer at address `a` is mapped. A frame that has
-- been acquired and neither committed nor cancelled is `live`.
pub record IsLawful (D : DisplayApi) : Type 0 where
  pub held : ℕ → D.State → Bool
  pub address : D.Frame → ℕ
  pub live : D.Frame → Bool
  pub pixels-write : (f : D.Frame) (px : Str) → D.pixels (D.write f px) ≡ px
  pub write-pixels : (f : D.Frame) → D.write f (D.pixels f) ≡ f
  pub write-write : (f : D.Frame) (px py : Str) → D.write (D.write f px) py ≡ D.write f py
  pub address-write : (f : D.Frame) (px : Str) → address (D.write f px) ≡ address f
  pub live-write : (f : D.Frame) (px : Str) → live (D.write f px) ≡ live f
  pub acquired_live : (s : D.State) (f : D.Frame) → (D.acquire_frame s).0 ≡ ok f → live f ≡ true
  pub acquired_fresh :
      (s : D.State) (f : D.Frame) → (D.acquire_frame s).0 ≡ ok f → held (address f) s ≡ false
  pub held-acquire_frame :
      (s : D.State) (f : D.Frame) (b : ℕ)
      → (D.acquire_frame s).0 ≡ ok f
      → held b (D.acquire_frame s).1 ≡ (if b == address f then true else held b s)
  pub held-acquire_failed :
      (s : D.State) (e : GoError) (b : ℕ)
      → (D.acquire_frame s).0 ≡ err e
      → held b (D.acquire_frame s).1 ≡ held b s
  pub held-cancel :
      (f : D.Frame) (s : D.State) (b : ℕ)
      → live f ≡ true
      → held (address f) s ≡ true
      → held b (D.cancel f s).2 ≡ (if b == address f then false else held b s)
  pub held-commit :
      (m : WaveformMode) (r : Option Region) (f : D.Frame) (s : D.State) (b : ℕ)
      → live f ≡ true
      → held (address f) s ≡ true
      → (D.commit m r f s).0 ≡ none
      → held b (D.commit m r f s).2 ≡ (if b == address f then false else held b s)
  pub held-commit_failed :
      (m : WaveformMode) (r : Option Region) (f : D.Frame) (s : D.State) (e : GoError) (b : ℕ)
      → (D.commit m r f s).0 ≡ some e
      → held b (D.commit m r f s).2 ≡ held b s
  -- a frame that is not live, or whose buffer is not held, releases nothing
  pub held-cancel_used :
      (f : D.Frame) (s : D.State) (b : ℕ) → live f ≡ false → held b (D.cancel f s).2 ≡ held b s
  pub held-cancel_unheld :
      (f : D.Frame) (s : D.State) (b : ℕ)
      → held (address f) s ≡ false
      → held b (D.cancel f s).2 ≡ held b s
  pub held-commit_used :
      (m : WaveformMode) (r : Option Region) (f : D.Frame) (s : D.State) (b : ℕ)
      → live f ≡ false
      → held b (D.commit m r f s).2 ≡ held b s
  pub held-commit_unheld :
      (m : WaveformMode) (r : Option Region) (f : D.Frame) (s : D.State) (b : ℕ)
      → held (address f) s ≡ false
      → held b (D.commit m r f s).2 ≡ held b s
  pub live-cancel : (f : D.Frame) (s : D.State) → live (D.cancel f s).1 ≡ false
  pub live-commit :
      (m : WaveformMode) (r : Option Region) (f : D.Frame) (s : D.State)
      → (D.commit m r f s).0 ≡ none
      → live (D.commit m r f s).1 ≡ false
  pub held-close : (s : D.State) (b : ℕ) → held b (D.close s).1 ≡ held b s
  pub held-info : (s : D.State) (b : ℕ) → held b (D.info s).1 ≡ held b s
  pub held-set_overlay :
      (on : Bool) (s : D.State) (b : ℕ) → held b (D.set_overlay on s).1 ≡ held b s
