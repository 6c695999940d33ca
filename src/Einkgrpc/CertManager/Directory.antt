-- ===== src/Einkgrpc/CertManager/Directory.antt =====
-- The directory of a manager is the one that it was made for, whatever it does.
use tableaux_eink_go.Base.{
  ◌≡◌, refl, inl, inr, Option, none, some, List, [], ◌∷◌, arith, Bool-cases, Option-cases,
}
use tableaux_eink_go.Base.Text.{Str, str}
use tableaux_eink_go.Base.Errors.{GoError, ok, Result-cases}
use tableaux_eink_go.Einkgrpc.Host.{
  FileName, cert_pem, key_pem, client_cert_pem, client_key_pem, token_txt, admin_token_txt, Host,
}
use tableaux_eink_go.Einkgrpc.CertManager.{
  CertManager, sink, gen_self_signed, random_token, write_all, ended, regenerate_tokens,
  regenerate_locked, read_all, read_tokens, load_or_init, new_cert_manager, reissue_client_cert,
  empty_manager,
}

pub sink_dir : (f : FileName) (b : Str) (cm : CertManager) → (sink f b cm).tls_dir ≡ cm.tls_dir
sink_dir cert_pem b cm = refl
sink_dir key_pem b cm = refl
sink_dir client_cert_pem b cm = refl
sink_dir client_key_pem b cm = refl
sink_dir token_txt b cm = refl
sink_dir admin_token_txt b cm = refl

module _ (H : Host) where
  ended_keeps : (cm : CertManager) (r : Option GoError × H.State) → (ended H cm r).1 ≡ cm
  ended_keeps cm (none, s) = refl
  ended_keeps cm (some e, s) = refl

  tokens_dir :
      (order : List FileName) (cm : CertManager) (s : H.State)
      → (regenerate_tokens H order cm s).1.tls_dir ≡ cm.tls_dir
  unfolding regenerate_tokens
  tokens_dir order cm s =
      let s1 = (random_token H s).1 in
      let s2 = (random_token H s1).1 in
      elim (Result-cases (random_token H s).0) [
        | inr (e, q) ↦ ground arith
        | inl (t, q) ↦ elim (Result-cases (random_token H s1).0) [
          | inr (e, q1) ↦ ground arith
          | inl (a, q1) ↦
              let cm2 = record cm { token = t; admin_tok = a } in
              ground (arith, ended_keeps cm2 (write_all H order cm2 s2))
        ]
      ]

  pub regenerate_dir :
      (order : List FileName) (cm : CertManager) (s : H.State)
      → (regenerate_locked H order cm s).1.tls_dir ≡ cm.tls_dir
  unfolding regenerate_locked
  regenerate_dir order cm s =
      let s1 = (gen_self_signed H (str "tableaux-eink server") s).1 in
      elim (Result-cases (gen_self_signed H (str "tableaux-eink server") s).0) [
        | inr (e, q) ↦ ground arith
        | inl (server, q) ↦
            elim (Result-cases (gen_self_signed H (str "tableaux-eink client") s1).0) [
              | inr (e, q1) ↦ ground arith
              | inl (client, q1) ↦
                  let cm1 = record cm {
                    server_cer = server.0;
                    server_key = server.1;
                    client_cer = client.0;
                    client_key = client.1;
                  } in
                  let s2 = (gen_self_signed H (str "tableaux-eink client") s1).1 in
                  ground (arith, tokens_dir order cm1 s2)
            ]
      ]

  pub read_all_dir :
      (files : List FileName) (cm : CertManager) (s : H.State)
      → (read_all H files cm s).1.tls_dir ≡ cm.tls_dir
  unfolding read_all
  read_all_dir [] cm s = refl
  read_all_dir (f ∷ files) cm s = elim (Result-cases (H.read_file cm.tls_dir f s)) [
    | inr (e, q) ↦ ground (arith, q)
    | inl (b, q) ↦ ground (arith, q, read_all_dir files (sink f b cm) s, sink_dir f b cm)
  ]

  pub read_tokens_dir :
      (cm : CertManager) (s : H.State) → (read_tokens H cm s).1.tls_dir ≡ cm.tls_dir
  unfolding read_tokens
  read_tokens_dir cm s = elim (Result-cases (H.read_file cm.tls_dir token_txt s)) [
    | inr (e, q) ↦ elim (Result-cases (H.read_file cm.tls_dir admin_token_txt s)) [
      | inr (e', q') ↦ ground (arith, q, q')
      | inl (b', q') ↦ ground (arith, q, q')
    ]
    | inl (b, q) ↦ elim (Result-cases (H.read_file cm.tls_dir admin_token_txt s)) [
      | inr (e', q') ↦ ground (arith, q, q')
      | inl (b', q') ↦ ground (arith, q, q')
    ]
  ]

  load_dir :
      (reads writes : List FileName) (cm : CertManager) (s : H.State)
      → (load_or_init H reads writes cm s).1.tls_dir ≡ cm.tls_dir
  unfolding load_or_init
  load_dir reads writes cm s =
      let cm1 = (read_all H reads cm s).1 in
      let cm2 = (read_tokens H cm1 s).1 in
      let kept1 = read_all_dir reads cm s in
      let kept2 = read_tokens_dir cm1 s in
      elim (Bool-cases (read_all H reads cm s).0) [
        | inl q ↦ ground (arith, q, kept1, regenerate_dir writes cm1 s)
        | inr q ↦ elim (Bool-cases (read_tokens H cm1 s).0) [
          | inl z ↦ ground (arith, q, z, kept1, kept2, regenerate_dir writes cm2 s)
          | inr z ↦ ground (arith, q, z, kept1, kept2)
        ]
      ]

  pub new_cert_manager_dir :
      (reads writes : List FileName) (dir : Str) (s : H.State) (cm : CertManager)
      → (new_cert_manager H reads writes dir s).0 ≡ ok cm
      → cm.tls_dir ≡ dir
  unfolding new_cert_manager
  new_cert_manager_dir reads writes dir s cm h =
      let s1 = (H.mkdir_all dir s).1 in
      let kept = load_dir reads writes (empty_manager dir) s1 in
      elim (Option-cases (H.mkdir_all dir s).0) [
        | inr (e, q) ↦ absurd (ground (arith, q, h))
        | inl q ↦ elim (Result-cases (load_or_init H reads writes (empty_manager dir) s1).0) [
          | inr (e, z) ↦ absurd (ground (arith, q, z, h))
          | inl (u, z) ↦ ground (arith, q, z, h, kept)
        ]
      ]

  pub reissue_dir :
      (cm : CertManager) (s : H.State) → (reissue_client_cert H cm s).1.tls_dir ≡ cm.tls_dir
  unfolding reissue_client_cert
  reissue_dir cm s = elim (Result-cases (gen_self_signed H (str "tableaux-eink client") s).0) [
    | inr (e, q) ↦ ground (arith, q)
    | inl (pair, q) ↦ ground (arith, q)
  ]
