-- ===== src/Einkgrpc/Credentials/Reissue.antt =====
-- What an administrator is given by ReissueClientCert.
use tableaux_eink_go.Base.{◌≡◌, subst, ap, sym, ◌∙◌, Bool, arith, inl, inr, ◌≢◌}
use tableaux_eink_go.Base.Text.{Str, str}
use tableaux_eink_go.Base.Errors.{ok, Result-cases}
use tableaux_eink_go.Einkproto.{ReissueClientCertResponse}
use tableaux_eink_go.Einkgrpc.Host.{FileName, client_cert_pem, client_key_pem, Host, IsHost}
use tableaux_eink_go.Einkgrpc.CertManager.{
  CertManager, Failure, returned, panicked, reissue_client_cert,
}
use tableaux_eink_go.Einkgrpc.CertManager.Storage.{Stored}
use tableaux_eink_go.Einkgrpc.CertManager.Reissued.{with_client, reissue-Stored}
use tableaux_eink_go.Einkgrpc.Credentials.{
  answered, failure, client_fingerprint, fingerprint_pem, reissue,
}

failed_unanswered :
    (text : Str) (e : Failure) (a : ReissueClientCertResponse) (c : Bool)
    → failure text e ≢ answered a c
failed_unanswered text (returned e) a c h = cc
failed_unanswered text (panicked t) a c h = cc

module _ (H : Host) (L : IsHost H) where
  -- Where ReissueClientCert answers, and the files were what the manager held: the certificate and
  -- the key of the answer are those on disk, the fingerprint is that of this certificate, and the
  -- server's own pair and the tokens are unchanged, in the manager and on disk.
  pub reissue_lem :
      (hosted : Bool) (cm : CertManager) (s : H.State) (a : ReissueClientCertResponse) (c : Bool)
      → Stored H L cm s
      → (reissue H hosted cm s).0 ≡ answered a c
      → (H.read_file cm.tls_dir client_cert_pem (reissue H hosted cm s).2 ≡ ok a.client_cert_pem)
        × (H.read_file cm.tls_dir client_key_pem (reissue H hosted cm s).2 ≡ ok a.client_key_pem)
        × (a.client_cert_fingerprint ≡ fingerprint_pem H a.client_cert_pem)
        × ((pair : Str × Str) × ((reissue H hosted cm s).1 ≡ with_client H L cm pair))
        × Stored H L (reissue H hosted cm s).1 (reissue H hosted cm s).2
  unfolding reissue
  reissue_lem hosted cm s a c old h = elim (Result-cases (reissue_client_cert H cm s).0) [
    | inr (e, q) ↦ absurd (failed_unanswered (str "reissue: ") e a c (ground (arith, h)))
    | inl (_, q) ↦
        let cm' = (reissue_client_cert H cm s).1 in
        let s' = (reissue_client_cert H cm s).2 in
        let (changed, now) = reissue-Stored H L cm s old q in
        let same1 : (reissue H hosted cm s).1 ≡ cm' = ground arith in
        let same2 : (reissue H hosted cm s).2 ≡ s' = ground arith in
        let cert : a.client_cert_pem ≡ cm'.client_cer = ground (arith, h) in
        let key : a.client_key_pem ≡ cm'.client_key = ground (arith, h) in
        let fp : a.client_cert_fingerprint ≡ client_fingerprint H cm' = ground (arith, h) in
        let dir : cm.tls_dir ≡ cm'.tls_dir = sym (ap (λ (m : CertManager). m.tls_dir) changed.1) in
        let after = λ (f : FileName).
          ap (H.read_file cm.tls_dir f) same2 ∙ ap (λ d. H.read_file d f s') dir in
        let (b1, r1, c1) = now client_cert_pem in
        let (b2, r2, c2) = now client_key_pem in
        (
          after client_cert_pem ∙ (r1 ∙ ap ok (c1 ∙ sym cert)),
          after client_key_pem ∙ (r2 ∙ ap ok (c2 ∙ sym key)),
          fp ∙ ap (fingerprint_pem H) (sym cert),
          (changed.0, same1 ∙ changed.1),
          subst (λ m. Stored H L m (reissue H hosted cm s).2) (sym same1)
              (subst (Stored H L cm') (sym same2) now),
        )
  ]
