-- ===== src/Einkgrpc/CertManager/Reissued.antt =====
-- What ReissueClientCert leaves in the manager and in the files.
use tableaux_eink_go.Base.{
  ◌≡◌, refl, sym, ap, ◌∙◌, subst, inl, inr, Option, none, some, arith, if◌then◌else◌,
}
use tableaux_eink_go.Base.Text.{Str, str}
use tableaux_eink_go.Base.Errors.{GoError, Result, ok, err, Result-cases}
use tableaux_eink_go.Einkgrpc.Host.{
  FileName, cert_pem, key_pem, client_cert_pem, client_key_pem, token_txt, admin_token_txt,
  same_file, Host, IsHost,
}
use tableaux_eink_go.Einkgrpc.CertManager.{
  CertManager, Failure, returned, content, gen_self_signed, reissue_client_cert,
}
use tableaux_eink_go.Einkgrpc.CertManager.Storage.{
  gen_keeps_files, Outcome, StoredAfter, as_read, Stored,
}

module _ (H : Host) (L : IsHost H) where
  -- The manager with a new client pair.
  abbrev pub with_client : CertManager → Str × Str → CertManager
  with_client cm pair = record cm { client_cer = pair.0; client_key = pair.1 }

  reissued-Stored :
      (cm : CertManager) (s s1 : H.State) (pair : Str × Str)
      → Stored H L cm s
      → ((g : FileName) → H.read_file cm.tls_dir g s1 ≡ H.read_file cm.tls_dir g s)
      → (H.write_file cm.tls_dir client_cert_pem pair.0 s1).0 ≡ none
      → (H.write_file cm.tls_dir client_key_pem pair.1
          (H.write_file cm.tls_dir client_cert_pem pair.0 s1).1).0
        ≡ none
      → Stored H L
          (with_client cm pair)
          (H.write_file cm.tls_dir client_key_pem pair.1
            (H.write_file cm.tls_dir client_cert_pem pair.0 s1).1).1
  reissued-Stored cm s s1 pair old kept w1 w2 g =
      let s2 = (H.write_file cm.tls_dir client_cert_pem pair.0 s1).1 in
      let last = L.read-write cm.tls_dir client_key_pem g pair.1 s2 w2 in
      let first = L.read-write cm.tls_dir client_cert_pem g pair.0 s1 w1 in
      rw last (rw first (go g))
    where
      go :
          (f : FileName)
          → (b : Str) × ((if same_file f client_key_pem
                then ok pair.1
                else if same_file f client_cert_pem
                then ok pair.0
                else H.read_file cm.tls_dir f s1)
              ≡ ok b)
            × (as_read f b ≡ content (with_client cm pair) f)
      go cert_pem = let (b, r, c) = old cert_pem in (b, kept cert_pem ∙ r, c)
      go key_pem = let (b, r, c) = old key_pem in (b, kept key_pem ∙ r, c)
      go client_cert_pem = (pair.0, refl, refl)
      go client_key_pem = (pair.1, refl, refl)
      go token_txt = let (b, r, c) = old token_txt in (b, kept token_txt ∙ r, c)
      go admin_token_txt = let (b, r, c) = old admin_token_txt in (b, kept admin_token_txt ∙ r, c)

  -- Where the files are what the manager holds, a ReissueClientCert that reports success gives the
  -- manager a new client pair and changes no other field, not the server's pair and not the tokens;
  -- the files are what the manager holds after it.
  pub reissue-Stored :
      (cm : CertManager) (s : H.State)
      → Stored H L cm s
      → (reissue_client_cert H cm s).0 ≡ ok tt
      → ((pair : Str × Str) × ((reissue_client_cert H cm s).1 ≡ with_client cm pair))
        × Stored H L (reissue_client_cert H cm s).1 (reissue_client_cert H cm s).2
  unfolding reissue_client_cert
  reissue-Stored cm s old h =
      let s1 = (gen_self_signed H (str "tableaux-eink client") s).1 in
      elim (Result-cases (gen_self_signed H (str "tableaux-eink client") s).0) [
        | inr (e, q) ↦ absurd (ground arith)
        | inl (pair, q) ↦
            let (r1, s2) = H.write_file cm.tls_dir client_cert_pem pair.0 s1 in
            let (r2, s3) = H.write_file cm.tls_dir client_key_pem pair.1 s2 in
            let w1 : r1 ≡ none = ground arith in
            let w2 : r2 ≡ none = ground arith in
            let same : reissue_client_cert H cm s ≡ (ok tt, with_client cm pair, s3) =
              ground arith in
            (
              (pair, ap (λ (r : Outcome H L). r.1) same),
              subst (StoredAfter H L) (sym same) (
                  reissued-Stored cm s s1 pair old
                    (λ g. gen_keeps_files H L (str "tableaux-eink client") cm.tls_dir g s) w1 w2),
            )
      ]

  -- Where the files are what the manager holds: when the second of its two writes fails and leaves its
  -- file alone, ReissueClientCert reports the error, but the certificate on disk is that of the new
  -- pair, beside the key of the old one, while the manager holds the new pair.
  pub reissue_torn :
      (cm : CertManager) (s s1 s2 s3 : H.State) (pair : Str × Str) (e : GoError)
      → Stored H L cm s
      → gen_self_signed H (str "tableaux-eink client") s ≡ (ok pair, s1)
      → H.write_file cm.tls_dir client_cert_pem pair.0 s1 ≡ (none, s2)
      → H.write_file cm.tls_dir client_key_pem pair.1 s2 ≡ (some e, s3)
      → ((g : FileName) → H.read_file cm.tls_dir g s3 ≡ H.read_file cm.tls_dir g s2)
      → (reissue_client_cert H cm s ≡ (err (returned e), with_client cm pair, s3))
        × (H.read_file cm.tls_dir client_cert_pem s3 ≡ ok pair.0)
        × (H.read_file cm.tls_dir client_key_pem s3 ≡ ok cm.client_key)
  unfolding reissue_client_cert
  reissue_torn cm s s1 s2 s3 pair e old made w1 w2 kept =
      let d = cm.tls_dir in
      let (b, r, c) = old client_key_pem in
      let first = λ (g : FileName).
        L.read-write d client_cert_pem g pair.0 s1
          (ap (λ (o : Option GoError × H.State). o.0) w1) in
      let second = ap (λ (o : Option GoError × H.State). o.1) w1 in
      let made_files =
        ap (λ (o : Result Failure (Str × Str) × H.State). H.read_file d client_key_pem o.1)
          (sym made)
        ∙ gen_keeps_files H L (str "tableaux-eink client") d client_key_pem s in
      (
        ground (arith, made, w1, w2),
        kept client_cert_pem
            ∙ (ap (H.read_file d client_cert_pem) (sym second) ∙ first client_cert_pem),
        kept client_key_pem
            ∙ (ap (H.read_file d client_key_pem) (sym second)
                ∙ (first client_key_pem ∙ (made_files ∙ (r ∙ ap ok c)))),
      )
