-- ===== src/Cli/Upload.antt =====
-- tableaux-cli/commands.go, cmdRefresh: a file of pixels is sent in chunks.
pub mod Chunks
pub mod Ending
pub mod EndToEnd
use tableaux_eink_go.Base.{
  ℕ, zero, suc, ◌+◌, ◌-◌, Bool, true, false, Option, none, some, List, [], ◌∷◌, ◌++◌, if◌then◌else◌,
  ltb, length, take, drop,
}
use tableaux_eink_go.Base.Int.{ℤ, pos, negsuc}
use tableaux_eink_go.Base.Text.{Str, str}
use tableaux_eink_go.Base.Errors.{GoError}
use tableaux_eink_go.Einkproto.{RefreshChunk, Payload, header, bytes, RefreshHeader, WaveformMode}

-- How the sending loop ends: with the chunks that were sent, with the error of a Send, in a
-- slice expression out of bounds, or not within the rounds that it was given.
pub data Sending : Type 0 where
  sent : List Str → Sending
  send_failed : GoError → Sending
  panicked : Sending
  running : Sending

abbrev pub first_sent : Str → Sending → Sending
first_sent b (sent bs) = sent (b ∷ bs)
first_sent b (send_failed e) = send_failed e
first_sent b panicked = panicked
first_sent b running = running

abbrev pub data_chunk : Str → RefreshChunk
data_chunk b = record { payload = some (bytes b) }

-- `pixels[off:end]`
abbrev pub slice : Str → ℕ → ℕ → Str
slice px off end = take (end - off) (drop off px)

-- `send` is Send of the stream, over what it changes.
module _ {S : Type 0} (send : RefreshChunk → S → Option GoError × S) where
  -- The loop over a chunk size that is not negative, with fuel. `off` stays below the size of the
  -- file plus one chunk, so no sum overflows.
  unfoldable pub send_from : ℕ → ℕ → ℕ → Str → S → Sending × S
  send_from zero off chunk px s = (running, s)
  send_from (suc fuel) off chunk px s =
      let end = if ltb (length px) (off + chunk) then length px else off + chunk in
      let b = slice px off end in
      let (r, s1) = send (data_chunk b) s in
      let (more, s2) = send_from fuel (off + chunk) chunk px s1 in
      let round = elim r as (λ _. Sending × S) [
        | some e ↦ (send_failed e, s1)
        | none ↦ (first_sent b more, s2)
      ] in
      if ltb off (length px) then round else (sent [], s)

  -- The loop of cmdRefresh. A negative size makes `end` negative, and the first slice panics.
  unfoldable pub send_chunks : ℕ → ℤ → Str → S → Sending × S
  send_chunks fuel (pos chunk) px s = send_from fuel 0 chunk px s
  send_chunks fuel (negsuc n) [] s = (sent [], s)
  send_chunks fuel (negsuc n) (x ∷ px) s = (panicked, s)

-- The header that is sent first.
abbrev pub upload_header : WaveformMode → Str → RefreshHeader
upload_header mode px = record { mode = mode; region = none; total_bytes = pos (length px) }
