-- ===== src/Link/Keeps.antt =====
-- Calls that leave the server as it is: those that it refuses, and those of the client's own system.
use tableaux_eink_go.Base.{
  ℕ, zero, suc, ◌+◌, ltb, length, if◌then◌else◌, ◌≡◌, subst, sym, ◌∙◌, inl, inr, true, false, Bool,
  Option, some, List, [], ◌∷◌, ◌++◌, arith, Option-cases,
}
use tableaux_eink_go.Base.Int.{ℤ, pos, negsuc}
use tableaux_eink_go.Base.Text.{Str}
use tableaux_eink_go.Base.Errors.{GoError, Result, ok, err, RpcError, Result-cases}
use tableaux_eink_go.Einkproto.{FillRequest, SetOverlayRequest, RefreshChunk}
use tableaux_eink_go.Einklib.Interface.{DisplayApi}
use tableaux_eink_go.Einkgrpc.Host.{Host}
use tableaux_eink_go.Einkgrpc.TokenAuth.{check, prefix}
use tableaux_eink_go.Einkgrpc.TokenAuth.Bearer.{IsToken, presented, check_iff}
use tableaux_eink_go.Einkgrpc.Backend.{Backend, tokens_of}
use tableaux_eink_go.Cli.Flags.{CommonFlags, Network, dial}
use tableaux_eink_go.Cli.Flags.Dialled.{dialled_header}
use tableaux_eink_go.Cli.Remote.{Remote}
use tableaux_eink_go.Cli.Upload.{send_from, send_chunks, data_chunk, slice}
use tableaux_eink_go.Cli.Commands.{
  Shell, Cmd, ◌>>=◌, print, pure_call, call, act, return_if, validated, send_file,
}
use tableaux_eink_go.Link.{Link, IsLink}

module _ (D : DisplayApi) (H : Host) (N : Network) (R : Remote N) (l : Link D H N R)
    (L : IsLink D H N R l) where
  -- Whether the server refuses calls with these values of `authorization`.
  abbrev pub Refused : List Str → Backend D H → Type 0
  Refused md b = (e : RpcError) × (check (tokens_of b.cm) (some md) ≡ some e)

  -- Leaves the server as it is, if it is this one.
  abbrev pub Keeps : {A : Type 0} → Backend D H → Cmd N R A → Type 0
  Keeps b m = (s : Shell R.State) → l.view s.remote ≡ b → l.view (m s).1.remote ≡ b

  pub Keeps-bind :
      {A B : Type 0} (b : Backend D H) (m : Cmd N R A) (f : A → Cmd N R B)
      → Keeps b m
      → ((a : A) → Keeps b (f a))
      → Keeps b (◌>>=◌ N R m f)
  Keeps-bind b m f p q s at = elim (Result-cases (m s).0) [
    | inr (x, r) ↦ ground (arith, r, p s at)
    | inl (a, r) ↦ ground (arith, r, q a (m s).1 (p s at))
  ]

  pub pure_call-Keeps :
      {A : Type 0} (b : Backend D H) (r : Result GoError A) → Keeps b (pure_call N R r)
  pure_call-Keeps b (ok a) s at = at
  pure_call-Keeps b (err x) s at = at

  pub return_if-Keeps : (b : Backend D H) (c : Bool) (x : GoError) → Keeps b (return_if N R c x)
  return_if-Keeps b true x s at = at
  return_if-Keeps b false x s at = at

  pub validated-Keeps : (b : Backend D H) (c : CommonFlags) → Keeps b (validated N R c)
  validated-Keeps b c s at = ground (arith, at)

  pub print-Keeps : (b : Backend D H) (t : Str) → Keeps b (print N R t)
  print-Keeps b t s at = at

  -- A call of the system that leaves the server as it is.
  abbrev pub KeepsView : {A : Type 0} → Backend D H → (R.State → A × R.State) → Type 0
  KeepsView b f = (s : R.State) → l.view s ≡ b → l.view (f s).1 ≡ b

  pub call-Keeps :
      {A : Type 0} (b : Backend D H) (f : R.State → Result GoError A × R.State)
      → KeepsView b f
      → Keeps b (call N R f)
  call-Keeps b f k s at =
      pure_call-Keeps b (f s.remote).0 (record s { remote = (f s.remote).1 }) (k s.remote at)

  pub act-Keeps :
      (b : Backend D H) (f : R.State → Option GoError × R.State)
      → KeepsView b f
      → Keeps b (act N R f)
  act-Keeps b f k s at = ground (arith, k s.remote at)

  -- The check at a state whose server is this one.
  Refused-at :
      (b : Backend D H) (md : List Str) (s : R.State)
      → l.view s ≡ b
      → (r : Refused md b) → check (tokens_of (l.view s).cm) (some md) ≡ some r.0
  Refused-at b md s at r = subst (λ x. check (tokens_of x.cm) (some md) ≡ some r.0) (sym at) r.1

  pub get_info-Keeps :
      (b : Backend D H) (conn : N.Conn) (md : List Str)
      → Refused md b
      → KeepsView b (R.get_info conn md)
  get_info-Keeps b conn md r s at =
      ground (arith, Refused-at b md s at r, (L.serves_get_info conn md s).1, at)

  pub health-Keeps :
      (b : Backend D H) (conn : N.Conn) (md : List Str)
      → Refused md b
      → KeepsView b (R.health conn md)
  health-Keeps b conn md r s at =
      ground (arith, Refused-at b md s at r, (L.serves_health conn md s).1, at)

  pub fill-Keeps :
      (b : Backend D H) (conn : N.Conn) (md : List Str) (req : FillRequest)
      → Refused md b
      → KeepsView b (R.fill conn md req)
  fill-Keeps b conn md req r s at =
      ground (arith, Refused-at b md s at r, (L.serves_fill conn md req s).1, at)

  pub set_overlay-Keeps :
      (b : Backend D H) (conn : N.Conn) (md : List Str) (req : SetOverlayRequest)
      → Refused md b
      → KeepsView b (R.set_overlay conn md req)
  set_overlay-Keeps b conn md req r s at =
      ground (arith, Refused-at b md s at r, (L.serves_set_overlay conn md req s).1, at)

  pub rotate-Keeps :
      (b : Backend D H) (conn : N.Conn) (md : List Str)
      → Refused md b
      → KeepsView b (R.rotate conn md)
  rotate-Keeps b conn md r s at =
      ground (arith, Refused-at b md s at r, (L.serves_rotate conn md s).1, at)

  pub reissue-Keeps :
      (b : Backend D H) (conn : N.Conn) (md : List Str)
      → Refused md b
      → KeepsView b (R.reissue_client_cert conn md)
  reissue-Keeps b conn md r s at =
      ground (arith, Refused-at b md s at r, (L.serves_reissue conn md s).1, at)

  pub get_metrics-Keeps :
      (b : Backend D H) (conn : N.Conn) (md : List Str)
      → Refused md b
      → KeepsView b (R.get_metrics conn md)
  get_metrics-Keeps b conn md r s at =
      ground (arith, Refused-at b md s at r, (L.serves_get_metrics conn md s).1, at)

  pub refresh-Keeps :
      (b : Backend D H) (conn : N.Conn) (md : List Str) → KeepsView b (R.refresh conn md)
  refresh-Keeps b conn md s at = L.view-refresh conn md s ∙ at

  pub send-Keeps :
      (b : Backend D H) (stream : R.Stream) (c : RefreshChunk) → KeepsView b (R.send stream c)
  send-Keeps b stream c s at = L.view-send stream c s ∙ at

  pub close-Keeps :
      (b : Backend D H) (stream : R.Stream)
      → Refused (l.stream_md stream) b
      → KeepsView b (R.close_and_recv stream)
  close-Keeps b stream r s at =
      (L.refuses_stream stream s r.0 (Refused-at b (l.stream_md stream) s at r)).1 ∙ at

  pub mkdir_all-Keeps : (b : Backend D H) (path : Str) → KeepsView b (R.mkdir_all path)
  mkdir_all-Keeps b path s at = L.view-mkdir_all path s ∙ at

  pub write_file-Keeps : (b : Backend D H) (path text : Str) → KeepsView b (R.write_file path text)
  write_file-Keeps b path text s at = L.view-write_file path text s ∙ at

  pub browse-Keeps : (b : Backend D H) (seconds : ℤ) → KeepsView b (R.browse seconds)
  browse-Keeps b seconds s at = L.view-browse seconds s ∙ at

  send_from-Keeps :
      (b : Backend D H) (stream : R.Stream) (fuel off chunk : ℕ) (px : Str)
      → KeepsView b (send_from (R.send stream) fuel off chunk px)
  unfolding send_from
  send_from-Keeps b stream zero off chunk px s at = at
  send_from-Keeps b stream (suc fuel) off chunk px s at =
      let end = if ltb (length px) (off + chunk) then length px else off + chunk in
      let c = data_chunk (slice px off end) in
      let sent = send-Keeps b stream c s at in
      let more = send_from-Keeps b stream fuel (off + chunk) chunk px (R.send stream c s).1 sent in
      ground (arith, at, sent, more)

  send_chunks-Keeps :
      (b : Backend D H) (stream : R.Stream) (fuel : ℕ) (chunk : ℤ) (px : Str)
      → KeepsView b (send_chunks (R.send stream) fuel chunk px)
  unfolding send_chunks
  send_chunks-Keeps b stream fuel (pos chunk) px s at =
      send_from-Keeps b stream fuel 0 chunk px s at
  send_chunks-Keeps b stream fuel (negsuc n) [] s at = at
  send_chunks-Keeps b stream fuel (negsuc n) (x ∷ px) s at = at

  pub send_file-Keeps :
      (b : Backend D H) (fuel : ℕ) (stream : R.Stream) (chunk : ℤ) (px : Str)
      → Keeps b (send_file N R fuel stream chunk px)
  send_file-Keeps b fuel stream chunk px s at =
      let kept = send_chunks-Keeps b stream fuel chunk px s.remote at in ground (arith, kept)

  -- A token that, without the white space around it, is not one of the server's.
  abbrev pub IsStranger : CommonFlags → Backend D H → Type 0
  IsStranger c b = ¬ IsToken (tokens_of b.cm) (presented (prefix ++ c.token))

  pub stranger-Refused :
      (c : CommonFlags) (b : Backend D H) (conn : N.Conn) (md : List Str)
      → IsStranger c b
      → dial N c ≡ ok (conn, md)
      → Refused md b
  stranger-Refused c b conn md stranger dialled =
      elim (Option-cases (check (tokens_of b.cm) (some md))) [
        | inr (e, q) ↦ (e, q)
        | inl q ↦
            let (auth, auths, same, _, token) = (check_iff (tokens_of b.cm) (some md)).0 q in
            let is_auth : prefix ++ c.token ≡ auth =
              cc (same, dialled_header N c conn md dialled) in
            absurd (stranger (rw is_auth token))
      ]
