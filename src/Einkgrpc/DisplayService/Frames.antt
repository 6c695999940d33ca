-- ===== src/Einkgrpc/DisplayService/Frames.antt =====
-- The frame buffers that the drawing handlers take from the display, and give back.
use tableaux_eink_go.Base.{
  ℕ, ◌≡◌, ◌∙◌, ◌⊎◌, inl, inr, Bool, true, false, Option, none, some, List, [], ◌∷◌, arith,
  if◌then◌else◌, ◌==◌, Option-cases, Bool-cases, length, ◌||◌,
}
use tableaux_eink_go.Base.Int.{ℤ, pos, ltb_ℤ, eqb_ℤ}
use tableaux_eink_go.Base.Text.{str}
use tableaux_eink_go.Base.Errors.{GoError, Result, ok, err, Result-cases, RpcError}
use tableaux_eink_go.Einkproto.{FillRequest, RefreshHeader}
use tableaux_eink_go.Einklib.Waveform.{WaveformMode}
use tableaux_eink_go.Einklib.Geometry.{Region}
use tableaux_eink_go.Einklib.Bitmap.{fill_solid}
use tableaux_eink_go.Einklib.Interface.{DisplayApi, IsLawful}
use tableaux_eink_go.Einkgrpc.Modes.{translate_mode}
use tableaux_eink_go.Einkgrpc.DisplayService.{
  Service, Recv, message, failed, receive, internal_error, fill_display, fill, commit_upload,
  upload, refresh_display, refresh, header_region,
}
use tableaux_eink_go.Einkgrpc.DisplayService.Loop.{receive_same_frame}
use tableaux_eink_go.Einkgrpc.DisplayService.Upload.{LoopEnd-cases, first_header}

module _ (D : DisplayApi) (L : IsLawful D) where
  -- Whether the service's display holds the buffer at an address.
  abbrev pub held_by : ℕ → Service D → Bool
  held_by b s = elim s.display [ none ↦ false | some st ↦ L.held b st ]

  -- The handler's commit failed, with this result.
  abbrev pub CommitFailed {ℓ} : {A : Type ℓ} → Result RpcError A → Type ℓ
  CommitFailed {A} r = (e : GoError) × (r ≡ err (internal_error (str "commit: ") e))

  -- A frame that has just been acquired at an address that was free, in the display before and
  -- after that.
  record IsTaken (frame : D.Frame) (before after : D.State) : Type 0 where
    is_live : L.live frame ≡ true
    fresh : L.held (L.address frame) before ≡ false
    taken : (b : ℕ) → L.held b after ≡ (if b == L.address frame then true else L.held b before)

  acquired :
      (st : D.State) (frame : D.Frame)
      → (D.acquire_frame st).0 ≡ ok frame
      → IsTaken frame st (D.acquire_frame st).1
  acquired st frame h = record {
    is_live = L.acquired_live st frame h;
    fresh = L.acquired_fresh st frame h;
    taken = λ b. L.held-acquire_frame st frame b h;
  }

  module _ (frame : D.Frame) (st st' : D.State) (t : IsTaken frame st st') where
    cancel_returns : (b : ℕ) → L.held b (D.cancel frame st').2 ≡ L.held b st
    cancel_returns b =
        ground (
          arith,
          L.held-cancel frame st' b t.is_live,
          t.taken b,
          t.taken (L.address frame),
          t.fresh,
        )

    commit_returns :
        (m : WaveformMode) (r : Option Region) (b : ℕ)
        → (D.commit m r frame st').0 ≡ none
        → L.held b (D.commit m r frame st').2 ≡ L.held b st
    commit_returns m r b h = ground (
      arith,
      L.held-commit m r frame st' b t.is_live,
      t.taken b,
      t.taken (L.address frame),
      t.fresh,
    )

    -- Another frame at the same address, as a write leaves it.
    retaken :
        (f : D.Frame) → L.address f ≡ L.address frame → L.live f ≡ L.live frame → IsTaken f st st'
    retaken f a l = record {
      is_live = l ∙ t.is_live;
      fresh = rw a t.fresh;
      taken = λ b. rw a (t.taken b);
    }

  abbrev Returned {ℓ} : {A : Type ℓ} → ℕ → D.State → Result RpcError A × Service D → Type ℓ
  Returned b st out = CommitFailed out.0 ⊎ (held_by b out.1 ≡ L.held b st)

  fill_display_returns :
      (req : FillRequest) (elapsed : ℤ) (st : D.State) (s : Service D) (b : ℕ)
      → Returned b st (fill_display D req elapsed st s)
  unfolding fill_display
  fill_display_returns req elapsed st s b = elim (Result-cases (D.acquire_frame st).0) [
    | inr (e, q) ↦ inr (ground (arith, L.held-acquire_failed st e b q))
    | inl (frame, q) ↦
        let px = fill_solid (D.frame_info frame) req.argb (D.pixels frame) in
        let st' = (D.acquire_frame st).1 in
        let painted = D.write frame px in
        let m = translate_mode req.mode in
        let t : IsTaken painted st st' =
          retaken frame st st' (acquired st frame q) painted (L.address-write frame px)
            (L.live-write frame px) in
        elim (Option-cases (D.commit m none painted st').0) [
          | inr (e, z) ↦ inl (e, ground arith)
          | inl z ↦ inr (ground (arith, commit_returns painted st st' t m none b z))
        ]
  ]

  -- After Fill the display holds the same buffers as before, unless the commit of its frame failed.
  pub fill_returns :
      (req : FillRequest) (elapsed : ℤ) (s : Service D) (b : ℕ)
      → CommitFailed (fill D req elapsed s).0 ⊎ (held_by b (fill D req elapsed s).1 ≡ held_by b s)
  unfolding fill
  fill_returns req elapsed s b = elim (Option-cases s.display) [
    | inl q ↦ inr (ground arith)
    | inr (st, q) ↦ elim (fill_display_returns req elapsed st s b) [
      | inl (e, z) ↦ inl (e, ground arith)
      | inr z ↦ inr (ground arith)
    ]
  ]

  -- When Fill acquires a frame and the commit of it fails, Fill returns without a release of the
  -- frame's buffer: the buffer was free before the call and is still held behind it.
  pub fill_failed_commit_leaks :
      (req : FillRequest) (elapsed : ℤ) (s : Service D) (st : D.State) (frame : D.Frame)
      (e : GoError)
      → s.display ≡ some st
      → (D.acquire_frame st).0 ≡ ok frame
      → (D.commit
          (translate_mode req.mode)
          none
          (D.write frame (fill_solid (D.frame_info frame) req.argb (D.pixels frame)))
          (D.acquire_frame st).1).0
        ≡ some e
      → (held_by (L.address frame) s ≡ false)
        × (held_by (L.address frame) (fill D req elapsed s).1 ≡ true)
  unfolding fill fill_display
  fill_failed_commit_leaks req elapsed s st frame e opened got fails =
      let px = fill_solid (D.frame_info frame) req.argb (D.pixels frame) in
      let t = acquired st frame got in
      (
        ground (arith, t.fresh),
        ground (
          arith,
          L.held-commit_failed (translate_mode req.mode) none (D.write frame px)
              (D.acquire_frame st).1 e (L.address frame) fails,
          t.taken (L.address frame),
        ),
      )

  commit_upload_returns :
      (h : RefreshHeader) (elapsed : ℤ) (send : Option GoError) (frame : D.Frame) (st st' : D.State)
      (s : Service D) (b : ℕ)
      → IsTaken frame st st'
      → Returned b st (commit_upload D h elapsed send frame st' s)
  unfolding commit_upload
  commit_upload_returns h elapsed send frame st st' s b t =
      elim (Option-cases (D.commit (translate_mode h.mode) (header_region D h) frame st').0) [
        | inr (e, z) ↦ inl (e, ground arith)
        | inl z ↦ inr (
            ground (
              arith,
              commit_returns frame st st' t (translate_mode h.mode) (header_region D h) b z,
            ))
      ]

  upload_returns :
      (h : RefreshHeader) (rest : List Recv) (elapsed : ℤ) (send : Option GoError) (frame : D.Frame)
      (st st' : D.State) (s : Service D) (b : ℕ)
      → IsTaken frame st st'
      → Returned b st (upload D h rest elapsed send frame st' s)
  unfolding upload
  upload_returns h rest elapsed send frame st st' s b t =
      let same = receive_same_frame D L rest frame 0 h.total_bytes in
      let f = (receive D frame 0 h.total_bytes rest).1 in
      let t' : IsTaken f st st' = retaken frame st st' t f same.0 same.1 in
      let cancels = cancel_returns f st st' t' b in
      elim (LoopEnd-cases (receive D frame 0 h.total_bytes rest).0) [
        | inr (x, q) ↦ inr (ground (arith, cancels))
        | inl (n, q) ↦ elim (Bool-cases (eqb_ℤ (pos n) h.total_bytes)) [
          | inr z ↦ inr (ground (arith, cancels))
          | inl z ↦ elim (commit_upload_returns h elapsed send f st st' s b t') [
            | inl (e, y) ↦ inl (e, ground arith)
            | inr y ↦ inr (ground arith)
          ]
        ]
      ]

  refresh_display_returns :
      (h : RefreshHeader) (rest : List Recv) (elapsed : ℤ) (send : Option GoError) (st : D.State)
      (s : Service D) (b : ℕ)
      → Returned b st (refresh_display D h rest elapsed send st s)
  unfolding refresh_display
  refresh_display_returns h rest elapsed send st s b = elim (Result-cases (D.acquire_frame st).0) [
    | inr (e, q) ↦ inr (ground (arith, L.held-acquire_failed st e b q))
    | inl (frame, q) ↦
        let st' = (D.acquire_frame st).1 in
        let t = acquired st frame q in
        let outside =
          ltb_ℤ h.total_bytes (pos 0) || ltb_ℤ (pos (length (D.pixels frame))) h.total_bytes in
        elim (Bool-cases outside) [
          | inl z ↦ inr (ground (arith, cancel_returns frame st st' t b))
          | inr z ↦ elim (upload_returns h rest elapsed send frame st st' s b t) [
            | inl (e, y) ↦ inl (e, ground arith)
            | inr y ↦ inr (ground arith)
          ]
        ]
  ]

  -- After Refresh, whatever the stream was, the display holds the same buffers as before, unless
  -- the commit of its frame failed.
  pub refresh_returns :
      (msgs : List Recv) (elapsed : ℤ) (send : Option GoError) (s : Service D) (b : ℕ)
      → CommitFailed (refresh D msgs elapsed send s).0
        ⊎ (held_by b (refresh D msgs elapsed send s).1 ≡ held_by b s)
  unfolding refresh
  refresh_returns [] elapsed send s b = inr (ground arith)
  refresh_returns (failed x ∷ rest) elapsed send s b = inr (ground arith)
  refresh_returns (message c ∷ rest) elapsed send s b = elim (Option-cases s.display) [
    | inl q ↦ inr (ground arith)
    | inr (st, q) ↦ elim (first_header c.payload) [
      | inr (inl z) ↦ inr (ground arith)
      | inr (inr (inl z)) ↦ inr (ground arith)
      | inr (inr (inr (x, z))) ↦ inr (ground arith)
      | inl (h, z) ↦ elim (refresh_display_returns h rest elapsed send st s b) [
        | inl (e, y) ↦ inl (e, ground arith)
        | inr y ↦ inr (ground arith)
      ]
    ]
  ]
