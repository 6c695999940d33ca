-- ===== src/Cli/Upload/Chunks.antt =====
-- The sending loop ends, and what it sent is the file; or it does not end.
use tableaux_eink_go.Base.{
  ℕ, zero, suc, ◌+◌, ◌-◌, ◌≤◌, ◌<◌, ◌≡◌, refl, sym, ap, ◌∙◌, ◌≢◌, Option, none, List, [], ◌∷◌, ◌++◌,
  arith, if◌then◌else◌, ltb, Bool-cases, inl, inr, length, drop, length-take, length-drop,
  take-append-drop, drop-drop, drop_of_le, take_of_le, All, append-nil, ltb→lt,
}
use tableaux_eink_go.Base.Int.{pos}
use tableaux_eink_go.Base.Text.{Str}
use tableaux_eink_go.Base.Errors.{GoError}
use tableaux_eink_go.Einkproto.{RefreshChunk}
use tableaux_eink_go.Einkgrpc.DisplayService.Loop.{joined}
use tableaux_eink_go.Cli.Upload.{sent, running, data_chunk, slice, send_from, send_chunks}

abbrev pub IsChunk : ℕ → Str → Type 0
IsChunk chunk b = (0 < length b) × (length b ≤ chunk)

-- Where the slice of one round ends.
abbrev end_of : Str → ℕ → ℕ → ℕ
end_of px off chunk = if ltb (length px) (off + chunk) then length px else off + chunk

slice_rest :
    (px : Str) (off chunk : ℕ)
    → slice px off (end_of px off chunk) ++ drop (off + chunk) px ≡ drop off px
slice_rest px off chunk = elim (Bool-cases (ltb (length px) (off + chunk))) [
  | inl q ↦ rw (
    q,
    take_of_le (length px - off) (drop off px) (omega (arith, length-drop off px)),
    drop_of_le (off + chunk) px (ground arith),
    append-nil,
  )
  | inr q ↦
      let size : off + chunk - off ≡ chunk = omega arith in
      rw (q, size, ← drop-drop off chunk px) (take-append-drop chunk (drop off px))
]

slice_size :
    (px : Str) (off chunk : ℕ)
    → 0 < chunk
    → off < length px
    → IsChunk chunk (slice px off (end_of px off chunk))
slice_size px off chunk h inside =
    let size = length-take (end_of px off chunk - off) (drop off px) in
    let left = length-drop off px in (ground (arith, size, left), ground (arith, size, left))

module _ {S : Type 0} (send : RefreshChunk → S → Option GoError × S)
    (sends : (c : RefreshChunk) (s : S) → (send c s).0 ≡ none) where
  -- What the Sends of these chunks, one after the other, leave.
  abbrev pub sent_all : List Str → S → S
  sent_all [] s = s
  sent_all (b ∷ bs) s = sent_all bs (send (data_chunk b) s).1

  send_from_whole :
      (fuel off chunk : ℕ) (px : Str) (s : S)
      → 0 < chunk
      → 0 < fuel
      → length px < off + fuel
      → (bs : List Str) × (send_from send fuel off chunk px s ≡ (sent bs, sent_all bs s))
        × (joined bs ≡ drop off px)
        × All (IsChunk chunk) bs
  unfolding send_from
  send_from_whole zero off chunk px s h some_fuel enough = absurd (omega arith)
  send_from_whole (suc fuel) off chunk px s h some_fuel enough =
      elim (Bool-cases (ltb off (length px))) [
        | inr q ↦ ([], rw q, sym (drop_of_le off px (ground arith)), tt)
        | inl q ↦
            let inside = ltb→lt off (length px) q in
            let b = slice px off (end_of px off chunk) in
            let s1 = (send (data_chunk b) s).1 in
            let (bs, more, whole, sizes) =
              send_from_whole fuel (off + chunk) chunk px s1 h (omega arith) (omega arith) in
            (
              b ∷ bs,
              rw (q, sends (data_chunk b) s, more),
              ap (λ rest. b ++ rest) whole ∙ slice_rest px off chunk,
              (slice_size px off chunk h inside, sizes),
            )
      ]

  -- With a positive chunk size and a Send that succeeds, the loop of cmdRefresh ends after at most
  -- as many rounds as the file has bytes, and one; what it sent, in order, joined is the file, in
  -- chunks that are not empty and not longer than the chunk size.
  pub send_chunks_whole :
      (fuel chunk : ℕ) (px : Str) (s : S)
      → 0 < chunk
      → length px < fuel
      → (bs : List Str) × (send_chunks send fuel (pos chunk) px s ≡ (sent bs, sent_all bs s))
        × (joined bs ≡ px)
        × All (IsChunk chunk) bs
  unfolding send_chunks
  send_chunks_whole fuel chunk px s h enough =
      send_from_whole fuel 0 chunk px s h (omega arith) (omega arith)

  send_from_stays :
      (fuel : ℕ) (px : Str) (s : S) → px ≢ [] → (send_from send fuel 0 0 px s).0 ≡ running
  unfolding send_from
  send_from_stays zero px s ne = refl
  send_from_stays (suc fuel) [] s ne = absurd (ne refl)
  send_from_stays (suc fuel) (x ∷ px) s ne =
      let s1 = (send (data_chunk []) s).1 in
      ground (arith, sends (data_chunk []) s, send_from_stays fuel (x ∷ px) s1 ne)

  -- Where Send succeeds, a file that is not empty is never sent with the chunk size 0, which the flag
  -- accepts: however many rounds the loop has run, it goes on.
  pub send_chunks_zero :
      (fuel : ℕ) (px : Str) (s : S) → px ≢ [] → (send_chunks send fuel (pos 0) px s).0 ≡ running
  unfolding send_chunks
  send_chunks_zero fuel px s ne = send_from_stays fuel px s ne
