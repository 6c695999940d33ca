-- ===== src/Einkgrpc/DisplayService/Upload.antt =====
-- What Refresh as a whole does with a stream: the frame that it commits, and the streams for which
-- it answers.
use native.Mathlib.Nat.{le_refl}
use tableaux_eink_go.Base.{
  ℕ, ◌≤◌, ◌≡◌, refl, sym, ◌∙◌, ◌⊎◌, inl, inr, true, Option, none, some, List, [], ◌∷◌, arith,
  length, Option-cases, ap,
}
use tableaux_eink_go.Base.Int.{ℤ, pos, eqb_ℤ, eqb_ℤ_iff}
use tableaux_eink_go.Base.Text.{Str}
use tableaux_eink_go.Base.Errors.{GoError, ok, Result-cases, RpcError}
use tableaux_eink_go.Einkproto.{Payload, header, bytes, RefreshHeader, RefreshResponse}
use tableaux_eink_go.Einklib.Interface.{DisplayApi, IsLawful}
use tableaux_eink_go.Einkgrpc.DisplayService.{
  Service, Recv, message, failed, LoopEnd, finished, stopped, receive, commit_upload, upload,
  refresh_display, refresh,
}
use tableaux_eink_go.Einkgrpc.DisplayService.Loop.{
  data_messages, joined, ends, written_over, receive_fits, receive_sound,
}

-- A stream that begins with this header.
abbrev pub header_message : RefreshHeader → Recv
header_message h = message (record { payload = some (header (some h)) })

pub LoopEnd-cases :
    (end : LoopEnd) → ((n : ℕ) × (end ≡ finished n)) ⊎ ((e : RpcError) × (end ≡ stopped e))
LoopEnd-cases (finished n) = inl (n, refl)
LoopEnd-cases (stopped e) = inr (e, refl)

-- The payload of a first chunk that Refresh goes on with.
pub first_header :
    (p : Option Payload)
    → ((h : RefreshHeader) × (p ≡ some (header (some h))))
      ⊎ ((p ≡ none) ⊎ (p ≡ some (header none)) ⊎ ((b : Str) × (p ≡ some (bytes b))))
first_header none = inr (inl refl)
first_header (some (header none)) = inr (inr (inl refl))
first_header (some (header (some h))) = inl (h, refl)
first_header (some (bytes b)) = inr (inr (inr (b, refl)))

module _ (D : DisplayApi) (L : IsLawful D) where
  upload_exact :
      (h : RefreshHeader) (bs : List Str) (tail : List Recv) (elapsed : ℤ) (send : Option GoError)
      (frame : D.Frame) (st : D.State) (s : Service D)
      → h.total_bytes ≡ pos (length (joined bs))
      → ends tail ≡ true
      → upload D h (data_messages bs tail) elapsed send frame st s
        ≡ commit_upload D h elapsed send
            (D.write frame (written_over (joined bs) (D.pixels frame)))
            st
            s
  unfolding upload
  upload_exact h bs tail elapsed send frame st s total over =
      let n = length (joined bs) in
      let loop = receive_fits D L bs tail [] (D.pixels frame) n frame over refl (le_refl n) in
      let loop' = ap (λ t. receive D frame 0 t (data_messages bs tail)) total ∙ loop in
      let same : eqb_ℤ (pos n) h.total_bytes ≡ true =
        (eqb_ℤ_iff (pos n) h.total_bytes).1 (sym total) in
      ground (arith, loop', same)

  -- On a display that keeps the laws of the interface and gives a frame: a stream of a header that
  -- announces `n` bytes, within the size of the frame, and of data chunks with `n` bytes in all,
  -- however they are cut, that ends there, commits this frame with these bytes at its front and its
  -- other bytes as they were; the result is that of this commit.
  pub refresh_exact :
      (h : RefreshHeader) (bs : List Str) (tail : List Recv) (elapsed : ℤ) (send : Option GoError)
      (s : Service D) (st : D.State) (frame : D.Frame)
      → s.display ≡ some st
      → (D.acquire_frame st).0 ≡ ok frame
      → h.total_bytes ≡ pos (length (joined bs))
      → length (joined bs) ≤ length (D.pixels frame)
      → ends tail ≡ true
      → refresh D (header_message h ∷ data_messages bs tail) elapsed send s
        ≡ commit_upload D h elapsed send
            (D.write frame (written_over (joined bs) (D.pixels frame)))
            (D.acquire_frame st).1
            s
  unfolding refresh refresh_display
  refresh_exact h bs tail elapsed send s st frame opened got total fits over =
      ground (arith, upload_exact h bs tail elapsed send frame (D.acquire_frame st).1 s total over)

  upload_sound :
      (h : RefreshHeader) (rest : List Recv) (elapsed : ℤ) (send : Option GoError) (frame : D.Frame)
      (st : D.State) (s : Service D) (answer : RefreshResponse)
      → (upload D h rest elapsed send frame st s).0 ≡ ok answer
      → (n : ℕ) × ((receive D frame 0 h.total_bytes rest).0 ≡ finished n) × (h.total_bytes ≡ pos n)
  unfolding upload
  upload_sound h rest elapsed send frame st s answer e =
      elim (LoopEnd-cases (receive D frame 0 h.total_bytes rest).0) [
        | inr (x, q) ↦ absurd (ground arith)
        | inl (n, q) ↦ (n, q, ground (arith, eqb_ℤ_iff (pos n) h.total_bytes))
      ]

  refresh_display_sound :
      (h : RefreshHeader) (rest : List Recv) (elapsed : ℤ) (send : Option GoError) (st : D.State)
      (s : Service D) (answer : RefreshResponse)
      → (refresh_display D h rest elapsed send st s).0 ≡ ok answer
      → (bs : List Str) × (tail : List Recv) × (rest ≡ data_messages bs tail)
        × (ends tail ≡ true)
        × (h.total_bytes ≡ pos (length (joined bs)))
  unfolding refresh_display
  refresh_display_sound h rest elapsed send st s answer e =
      elim (Result-cases (D.acquire_frame st).0) [
        | inr (x, q) ↦ absurd (ground arith)
        | inl (frame, q) ↦
            let (n, loop, total) =
              upload_sound h rest elapsed send frame (D.acquire_frame st).1 s answer
                (ground arith) in
            let (bs, tail, split, over, count) =
              receive_sound D L rest frame 0 h.total_bytes n loop in
            (bs, tail, split, over, total ∙ ap pos (omega (arith, count)))
      ]

  -- Refresh answers only a stream of a header and of data chunks that have as many bytes in all as
  -- the header announced.
  pub refresh_ok_sound :
      (msgs : List Recv) (elapsed : ℤ) (send : Option GoError) (s : Service D)
      (answer : RefreshResponse)
      → (refresh D msgs elapsed send s).0 ≡ ok answer
      → (h : RefreshHeader) × (bs : List Str) × (tail : List Recv) × (msgs
          ≡ header_message h ∷ data_messages bs tail)
        × (ends tail ≡ true)
        × (h.total_bytes ≡ pos (length (joined bs)))
  unfolding refresh
  refresh_ok_sound [] elapsed send s answer e = absurd (ground arith)
  refresh_ok_sound (failed x ∷ rest) elapsed send s answer e = absurd (ground arith)
  refresh_ok_sound (message c ∷ rest) elapsed send s answer e = elim (Option-cases s.display) [
    | inl q ↦ absurd (ground arith)
    | inr (st, q) ↦ elim (first_header c.payload) [
      | inr (inl z) ↦ absurd (ground arith)
      | inr (inr (inl z)) ↦ absurd (ground arith)
      | inr (inr (inr (b, z))) ↦ absurd (ground arith)
      | inl (h, z) ↦
          let (bs, tail, split, over, count) =
            refresh_display_sound h rest elapsed send st s answer (ground arith) in
          (h, bs, tail, ground (arith, split), over, count)
    ]
  ]
