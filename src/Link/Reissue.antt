-- ===== src/Link/Reissue.antt =====
-- The command reissue against the server: the files of the client are those of the server.
use tableaux_eink_go.Base.{
  ◌≡◌, subst, sym, ap, ◌∙◌, inl, inr, true, none, some, List, arith, Option-cases,
}
use tableaux_eink_go.Base.Text.{Str, str}
use tableaux_eink_go.Base.Errors.{ok, Result-cases}
use tableaux_eink_go.Einkproto.{ReissueClientCertResponse}
use tableaux_eink_go.Einklib.Interface.{DisplayApi}
use tableaux_eink_go.Einkgrpc.Host.{Host, IsHost}
use tableaux_eink_go.Einkgrpc.TokenAuth.{Metadata, check}
use tableaux_eink_go.Einkgrpc.CertManager.{reissue_client_cert}
use tableaux_eink_go.Einkgrpc.CertManager.Storage.{Stored}
use tableaux_eink_go.Einkgrpc.CertManager.Reissued.{with_client, reissue-Stored}
use tableaux_eink_go.Einkgrpc.Credentials.{reissue}
use tableaux_eink_go.Einkgrpc.Backend.{Backend, tokens_of, serve_reissue}
use tableaux_eink_go.Cli.Flags.{CommonFlags, Network, validate, dial}
use tableaux_eink_go.Cli.Remote.{Remote}
use tableaux_eink_go.Cli.Commands.{Shell, cmd_reissue}
use tableaux_eink_go.Link.{Link, IsLink, received, failed_undelivered}

module _ (N : Network) (R : Remote N) (c : CommonFlags) (out : Str) (s : Shell R.State) where
  abbrev pub cert_path : Str
  cert_path = R.join out (str "client-cert.pem")

  abbrev pub key_path : Str
  key_path = R.join out (str "client-key.pem")

  -- A certificate and a key are written, between two states of the client's system.
  abbrev pub Saved : R.State → Str → Str → R.State → Type 0
  Saved s2 cert key s' =
      let (r, s3) = R.write_file cert_path cert s2 in
      let (r', s4) = R.write_file key_path key s3 in (r ≡ none) × (r' ≡ none) × (s' ≡ s4)

  -- The calls of a cmdReissue that succeeds.
  reissue_calls :
      (cmd_reissue N R c out s).0 ≡ ok tt
      → (conn : N.Conn) × (md : List Str) × (resp : ReissueClientCertResponse) × (dial N c
          ≡ ok (conn, md))
        × ((R.reissue_client_cert conn md s.remote).0 ≡ ok resp)
        × Saved
            (R.mkdir_all out (R.reissue_client_cert conn md s.remote).1).1
            resp.client_cert_pem
            resp.client_key_pem
            (cmd_reissue N R c out s).1.remote
  unfolding cmd_reissue
  reissue_calls h = elim (Option-cases (validate c)) [
    | inr (e, q) ↦ absurd (ground (arith, q, h))
    | inl q ↦ elim (Result-cases (dial N c)) [
      | inr (e, d) ↦ absurd (ground (arith, q, d, h))
      | inl ((conn, md), d) ↦ elim (Result-cases (R.reissue_client_cert conn md s.remote).0) [
        | inr (e, a) ↦ absurd (ground (arith, q, d, a, h))
        | inl (resp, a) ↦
            let s1 = (R.reissue_client_cert conn md s.remote).1 in
            let (m, s2) = R.mkdir_all out s1 in
            let (r, s3) = R.write_file cert_path resp.client_cert_pem s2 in
            let (r', s4) = R.write_file key_path resp.client_key_pem s3 in
            elim (Option-cases m) [
              | inr (e, z) ↦ absurd (ground (arith, q, d, a, z, h))
              | inl z ↦ elim (Option-cases r) [
                | inr (e, w) ↦ absurd (ground (arith, q, d, a, z, w, h))
                | inl w ↦ elim (Option-cases r') [
                  | inr (e, v) ↦ absurd (ground (arith, q, d, a, z, w, v, h))
                  | inl v ↦ (conn, md, resp, d, a, (w, v, ground (arith, q, d, a, z, w, v)))
                ]
              ]
            ]
      ]
    ]
  ]

module _ (D : DisplayApi) (H : Host) (HL : IsHost H) (N : Network) (R : Remote N)
    (l : Link D H N R) where
  -- The server behind a ReissueClientCert: it holds another pair for the client, in memory and on
  -- disk, and is asked to restart.
  abbrev pub Reissued : Backend D H → Backend D H → Type 0
  Reissued b b' =
      ((pair : Str × Str) × (b'
          ≡ record b { cm = with_client H HL b.cm pair; disk = b'.disk; restarts = true }))
      × Stored H HL b'.cm b'.disk

  -- With an answer that carries this pair.
  abbrev Delivered : Backend D H → ReissueClientCertResponse → Backend D H → Type 0
  Delivered b resp b' =
      Reissued b b'
      × (resp.client_cert_pem ≡ b'.cm.client_cer)
      × (resp.client_key_pem ≡ b'.cm.client_key)

  -- A call of ReissueClientCert whose answer is a message.
  reissue_answered :
      (b : Backend D H) (md : Metadata) (resp : ReissueClientCertResponse)
      → Stored H HL b.cm b.disk
      → received D H N R l (serve_reissue D H md b).0 ≡ ok resp
      → Delivered b resp (serve_reissue D H md b).1
  unfolding reissue
  reissue_answered b md resp old h = elim (Option-cases (check (tokens_of b.cm) md)) [
    | inr (e, q) ↦ absurd (ground (arith, q, h))
    | inl q ↦ elim (Result-cases (reissue_client_cert H b.cm b.disk).0) [
      | inr (e, z) ↦
          let (_, cm, d) = reissue_client_cert H b.cm b.disk in
          absurd
            (failed_undelivered D H N R l (str "reissue: ") e cm d b resp (ground (arith, q, z, h)))
      | inl (_, z) ↦
          let (_, cm, d) = reissue_client_cert H b.cm b.disk in
          let (changed, now) = reissue-Stored H HL b.cm b.disk old z in
          let b' : Backend D H = record b { cm = cm; disk = d; restarts = true } in
          let same : (serve_reissue D H md b).1 ≡ b' = ground (arith, q, z) in
          let reissued : Reissued b b' = (
            (changed.0, ap (λ m. record b { cm = m; disk = d; restarts = true }) changed.1),
            now,
          ) in
          subst (Delivered b resp) (sym same)
            (reissued, ground (arith, q, z, h), ground (arith, q, z, h))
    ]
  ]

module _ (D : DisplayApi) (H : Host) (HL : IsHost H) (N : Network) (R : Remote N) (l : Link D H N R)
    (L : IsLink D H N R l) where
  -- Where the files of the server's certificates were what it held, and reissue reports success: of
  -- the server's credentials the pair of the client may be another, and nothing else has changed,
  -- nor has its service; its files are what it holds, and it is asked to restart; and the last that
  -- the client did was to write the certificate of this pair and its key in its directory, both
  -- without an error.
  pub reissue_delivers :
      (c : CommonFlags) (out : Str) (s : Shell R.State)
      → Stored H HL (l.view s.remote).cm (l.view s.remote).disk
      → (cmd_reissue N R c out s).0 ≡ ok tt
      → let s' = (cmd_reissue N R c out s).1.remote in
        let cm' = (l.view s').cm in
        Reissued D H HL N R l (l.view s.remote) (l.view s')
        × (s2 : R.State) × Saved N R c out s s2 cm'.client_cer cm'.client_key s'
  reissue_delivers c out s old h =
      let (conn, md, resp, _, answer, (wrote, wrote', last)) = reissue_calls N R c out s h in
      let s' = (cmd_reissue N R c out s).1.remote in
      let s1 = (R.reissue_client_cert conn md s.remote).1 in
      let s2 = (R.mkdir_all out s1).1 in
      let s3 = (R.write_file (cert_path N R c out s) resp.client_cert_pem s2).1 in
      let (gives, after) = L.serves_reissue conn md s.remote in
      let (reissued, cert, key) =
        reissue_answered D H HL N R l (l.view s.remote) (some md) resp old (sym gives ∙ answer) in
      let view' =
        ap l.view last
        ∙ L.view-write_file (key_path N R c out s) resp.client_key_pem s3
        ∙ L.view-write_file (cert_path N R c out s) resp.client_cert_pem s2
        ∙ L.view-mkdir_all out s1
        ∙ after in
      let saved : Saved N R c out s s2 resp.client_cert_pem resp.client_key_pem s' =
        (wrote, wrote', last) in
      subst
        (λ b'.
          Reissued D H HL N R l (l.view s.remote) b'
          × (x : R.State) × Saved N R c out s x b'.cm.client_cer b'.cm.client_key s')
        (sym view') (reissued, s2, rw (← cert, ← key) saved)
