-- ===== src/Cli/Upload/Ending.antt =====
-- The sending loop ends.
use tableaux_eink_go.Base.{
  ℕ, zero, suc, ◌+◌, ◌≤◌, ◌<◌, ◌≡◌, ◌≢◌, refl, Option, [], ◌∷◌, arith, inl, inr, length, Bool-cases,
  Option-cases, ltb, if◌then◌else◌,
}
use tableaux_eink_go.Base.Int.{ℤ, pos, negsuc}
use tableaux_eink_go.Base.Text.{Str}
use tableaux_eink_go.Base.Errors.{GoError}
use tableaux_eink_go.Einkproto.{RefreshChunk}
use tableaux_eink_go.Cli.Upload.{
  first_sent, Sending, sent, send_failed, panicked, running, slice, data_chunk, send_from,
  send_chunks,
}

module _ {S : Type 0} (send : RefreshChunk → S → Option GoError × S) where
  first_sent_ends : (b : Str) (more : Sending) → first_sent b more ≡ running → more ≡ running
  first_sent_ends b (sent bs) e = absurd (cc)
  first_sent_ends b (send_failed x) e = absurd (cc)
  first_sent_ends b panicked e = absurd (cc)
  first_sent_ends b running e = refl

  -- Whatever the calls of Send return: the loop ends within one round more than there are bytes.
  send_from_ends :
      (fuel off chunk : ℕ) (px : Str) (s : S)
      → 1 ≤ chunk
      → 1 ≤ fuel
      → length px < fuel + off
      → (send_from send fuel off chunk px s).0 ≢ running
  unfolding send_from
  send_from_ends zero off chunk px s some_bytes some_fuel enough e = absurd (omega arith)
  send_from_ends (suc fuel) off chunk px s some_bytes some_fuel enough e =
      let end = if ltb (length px) (off + chunk) then length px else off + chunk in
      let b = slice px off end in
      let (r, s1) = send (data_chunk b) s in
      elim (Bool-cases (ltb off (length px))) [
        | inr q ↦ absurd (ground (arith, q, e))
        | inl q ↦ elim (Option-cases r) [
          | inr (x, z) ↦ absurd (ground (arith, q, z, e))
          | inl z ↦
              let more = send_from send fuel (off + chunk) chunk px s1 in
              let same : first_sent b more.0 ≡ running = ground (arith, q, z, e) in
              send_from_ends fuel (off + chunk) chunk px s1 some_bytes (ground (arith, q))
                (ground (arith, q)) (first_sent_ends b more.0 same)
        ]
      ]

  -- The loop of cmdRefresh ends whatever Send returns, unless the chunk size is 0.
  pub send_chunks_ends :
      (fuel : ℕ) (chunk : ℤ) (px : Str) (s : S)
      → chunk ≢ pos 0
      → length px < fuel
      → (send_chunks send fuel chunk px s).0 ≢ running
  unfolding send_chunks
  send_chunks_ends fuel (pos zero) px s some_bytes enough e = some_bytes refl
  send_chunks_ends fuel (pos (suc chunk)) px s some_bytes enough e =
      send_from_ends fuel 0 (suc chunk) px s (omega arith) (omega (arith, enough))
        (omega (arith, enough)) e
  send_chunks_ends fuel (negsuc n) [] s some_bytes enough e = absurd (cc)
  send_chunks_ends fuel (negsuc n) (x ∷ px) s some_bytes enough e = absurd (cc)
