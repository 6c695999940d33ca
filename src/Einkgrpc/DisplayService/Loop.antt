-- ===== src/Einkgrpc/DisplayService/Loop.antt =====
-- The receive loop of Refresh: it writes the data chunks one behind the other, and ends well
-- exactly at the end of a stream of data chunks that stay within the announced size.
use tableaux_eink_go.Base.{
  ℕ, ◌+◌, ◌≤◌, ◌≡◌, refl, ap, ◌∙◌, ◌⊎◌, inl, inr, Bool, true, false, Option, none, some, List, [],
  ◌∷◌, ◌++◌, arith, ltb, append-nil, append_assoc, length, length-append, drop, overwrite,
  overwrite-overwrite,
}
use tableaux_eink_go.Base.Int.{ℤ, pos}
use tableaux_eink_go.Base.Text.{Str}
use tableaux_eink_go.Base.Errors.{is_eof}
use tableaux_eink_go.Einkproto.{Payload, header, bytes, RefreshHeader}
use tableaux_eink_go.Einklib.Interface.{DisplayApi, IsLawful}
use tableaux_eink_go.Einkgrpc.DisplayService.{Recv, message, failed, finished, receive}

-- The stream of some data chunks, before what follows them.
abbrev pub data_messages : List Str → List Recv → List Recv
data_messages [] tail = tail
data_messages (b ∷ bs) tail = message (record { payload = some (bytes b) }) ∷ data_messages bs tail

abbrev pub joined : List Str → Str
joined [] = []
joined (b ∷ bs) = b ++ joined bs

-- The stream ends here: nothing more comes, or an error that is io.EOF.
abbrev pub ends : List Recv → Bool
ends [] = true
ends (message c ∷ rest) = false
ends (failed e ∷ rest) = is_eof e

-- What a frame of the pixels `old` shows when `done` was written to its front.
abbrev pub written_over : Str → Str → Str
written_over done old = done ++ drop (length done) old

-- The members of the oneof, with the data chunk first.
Payload-cases :
    (p : Option Payload)
    → ((b : Str) × (p ≡ some (bytes b)))
      ⊎ (p ≡ none)
      ⊎ ((h : Option RefreshHeader) × (p ≡ some (header h)))
Payload-cases none = inr (inl refl)
Payload-cases (some (header h)) = inr (inr (h, refl))
Payload-cases (some (bytes b)) = inl (b, refl)

module _ (D : DisplayApi) (L : IsLawful D) where
  receive_at_end :
      (frame : D.Frame) (w : ℕ) (total : ℤ) (tail : List Recv)
      → ends tail ≡ true
      → receive D frame w total tail ≡ (finished w, frame)
  unfolding receive
  receive_at_end frame w total [] h = refl
  receive_at_end frame w total (message c ∷ rest) h = absurd (cc)
  receive_at_end frame w total (failed e ∷ rest) h = rw h

  -- Chunks that fit are written one behind the other.
  pub receive_fits :
      (bs : List Str) (tail : List Recv) (done old : Str) (n : ℕ) (frame : D.Frame)
      → ends tail ≡ true
      → D.pixels frame ≡ written_over done old
      → length (done ++ joined bs) ≤ n
      → receive D frame (length done) (pos n) (data_messages bs tail) ≡ (
        finished (length (done ++ joined bs)),
        D.write frame (written_over (done ++ joined bs) old),
      )
  unfolding receive
  receive_fits [] tail done old n frame e p fits =
      rw (append-nil, receive_at_end frame (length done) (pos n) tail e, ← p, L.write-pixels)
  receive_fits (b ∷ bs) tail done old n frame e p fits =
      let test : ltb n (length done + length b) ≡ false =
        ground (arith, length-append done (b ++ joined bs), length-append b (joined bs), fits) in
      let frame' = D.write frame (overwrite (D.pixels frame) (length done) b) in
      let shown : D.pixels frame' ≡ written_over (done ++ b) old =
        L.pixels-write frame (overwrite (D.pixels frame) (length done) b)
        ∙ (ap (λ px. overwrite px (length done) b) p ∙ overwrite-overwrite done b old) in
      let regroup = append_assoc done b (joined bs) in
      let ih =
        receive_fits bs tail (done ++ b) old n frame' e shown (rw (ap length regroup) fits) in
      rw (test, ← length-append done b, ih, L.write-write, regroup)

  -- The frame stays the same frame.
  pub receive_same_frame :
      (msgs : List Recv) (frame : D.Frame) (w : ℕ) (total : ℤ)
      → let f = (receive D frame w total msgs).1 in
        (L.address f ≡ L.address frame) × (L.live f ≡ L.live frame)
  unfolding receive
  receive_same_frame [] frame w total = (refl, refl)
  receive_same_frame (failed e ∷ rest) frame w total = ground arith
  receive_same_frame (message c ∷ rest) frame w total = elim (Payload-cases c.payload) [
    | inr (inl q) ↦ rw q (refl, refl)
    | inr (inr (h, q)) ↦ rw q (refl, refl)
    | inl (b, e) ↦
        let frame' = D.write frame (overwrite (D.pixels frame) w b) in
        let ih = receive_same_frame rest frame' (w + length b) total in
        rw e (
          ground (
            arith,
            ih,
            L.address-write frame (overwrite (D.pixels frame) w b),
            L.live-write frame (overwrite (D.pixels frame) w b),
          ))
  ]

  pub receive_sound :
      (msgs : List Recv) (frame : D.Frame) (w : ℕ) (total : ℤ) (n : ℕ)
      → (receive D frame w total msgs).0 ≡ finished n
      → (bs : List Str) × (tail : List Recv) × (msgs ≡ data_messages bs tail)
        × (ends tail ≡ true)
        × (n ≡ w + length (joined bs))
  unfolding receive
  receive_sound [] frame w total n h = ([], [], refl, refl, ground arith)
  receive_sound (failed e ∷ rest) frame w total n h =
      ([], failed e ∷ rest, refl, ground arith, ground arith)
  receive_sound (message c ∷ rest) frame w total n h = elim (Payload-cases c.payload) [
    | inr (inl q) ↦ absurd (ground arith)
    | inr (inr (x, q)) ↦ absurd (ground arith)
    | inl (b, e) ↦
        let frame' = D.write frame (overwrite (D.pixels frame) w b) in
        let (bs, tail, split, over, count) =
          receive_sound rest frame' (w + length b) total n (ground arith) in
        (
          b ∷ bs,
          tail,
          ground (arith, split),
          over,
          ground (arith, count, length-append b (joined bs)),
        )
  ]
