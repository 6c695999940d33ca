-- ===== src/Einkgrpc/CertManager/Storage.antt =====
-- What the writing methods of CertManager leave on disk.
use tableaux_eink_go.Base.{
  ◌^◌, ◌≡◌, refl, sym, ap, ◌∙◌, subst, inl, inr, Bool, true, false, none, List, [], ◌∷◌, arith,
  ◌||◌, if◌then◌else◌, Option-cases, Bool-cases, All,
}
use tableaux_eink_go.Base.Text.{Str, str, trim_space, trim_space-All_visible, IsVisible}
use tableaux_eink_go.Base.Errors.{Result, ok, Result-cases}
use tableaux_eink_go.Einkgrpc.Host.{
  FileName, cert_pem, key_pem, client_cert_pem, client_key_pem, token_txt, admin_token_txt,
  same_file, Host, IsHost,
}
use tableaux_eink_go.Einkgrpc.CertManager.{
  CertManager, Failure, content, gen_self_signed, random_token, write_all, regenerate_tokens,
  regenerate_locked, template,
}
use tableaux_eink_go.Einkgrpc.CertManager.Tokens.{random_token_shape}

-- The order of the iteration comes to this file.
abbrev pub visits : List FileName → FileName → Bool
visits [] g = false
visits (f ∷ order) g = same_file g f || visits order g

abbrev pub VisitsAll : List FileName → Type 0
VisitsAll order = (g : FileName) → visits order g ≡ true

-- What a start makes of a file's text: a token is trimmed.
abbrev pub as_read : FileName → Str → Str
as_read token_txt b = trim_space b
as_read admin_token_txt b = trim_space b
as_read _ b = b

pub same_file_sound : (f g : FileName) → same_file f g ≡ true → f ≡ g
same_file_sound f g h = ground arith

module _ (H : Host) (L : IsHost H) where
  -- Every file can be read and is what the manager holds.
  abbrev pub Stored : CertManager → H.State → Type 0
  Stored cm s =
      (g : FileName)
      → (b : Str) × (H.read_file cm.tls_dir g s ≡ ok b) × (as_read g b ≡ content cm g)

  read-write_all :
      (order : List FileName) (cm : CertManager) (s : H.State) (g : FileName)
      → (write_all H order cm s).0 ≡ none
      → H.read_file cm.tls_dir g (write_all H order cm s).1
        ≡ (if visits order g then ok (content cm g) else H.read_file cm.tls_dir g s)
  unfolding write_all
  read-write_all [] cm s g h = refl
  read-write_all (f ∷ order) cm s g h =
      let s' = (H.write_file cm.tls_dir f (content cm f) s).1 in
      elim (Option-cases (H.write_file cm.tls_dir f (content cm f) s).0) [
        | inr (e, q) ↦ absurd (ground arith)
        | inl q ↦
            let ih = read-write_all order cm s' g in
            let law = L.read-write cm.tls_dir f g (content cm f) s q in
            elim (Bool-cases (same_file g f)) [
              | inr z ↦ ground (arith, ih, law)
              | inl z ↦ ground (arith, ih, law, ap (content cm) (same_file_sound g f z))
            ]
      ]

  -- Making a certificate writes no file, whichever of its calls fails.
  pub gen_keeps_files :
      (name d : Str) (g : FileName) (s : H.State)
      → H.read_file d g (gen_self_signed H name s).1 ≡ H.read_file d g s
  unfolding gen_self_signed
  gen_keeps_files name d g s =
      let s1 = (H.generate_key s).1 in
      let s2 = (H.random_int (2 ^ 128) s1).1 in
      let s3 = (H.now s2).1 in
      let s4 = (H.now s3).1 in
      let k1 = L.read-generate_key d g s in
      let k2 = L.read-random_int (2 ^ 128) d g s1 ∙ k1 in
      let k4 = L.read-now d g s3 ∙ (L.read-now d g s2 ∙ k2) in
      elim (Result-cases (H.generate_key s).0) [
        | inr (e, q) ↦ ground (arith, k1)
        | inl (key, q) ↦ elim (Result-cases (H.random_int (2 ^ 128) s1).0) [
          | inr (e, q2) ↦ ground (arith, k2)
          | inl (serial, q2) ↦
              let t = template name serial (H.now s2).0 (H.now s3).0 in
              let k5 = L.read-create_certificate t key d g s4 ∙ k4 in
              elim (Result-cases (H.create_certificate t key s4).0) [
                | inr (e, q3) ↦ ground (arith, k5)
                | inl (der, q3) ↦ ground (arith, k5)
              ]
        ]
      ]

  as_read-content :
      (cm : CertManager) (g : FileName)
      → All IsVisible cm.token
      → All IsVisible cm.admin_tok
      → as_read g (content cm g) ≡ content cm g
  as_read-content cm cert_pem t a = refl
  as_read-content cm key_pem t a = refl
  as_read-content cm client_cert_pem t a = refl
  as_read-content cm client_key_pem t a = refl
  as_read-content cm token_txt t a = trim_space-All_visible cm.token t
  as_read-content cm admin_token_txt t a = trim_space-All_visible cm.admin_tok a

  written-Stored :
      (order : List FileName) (cm : CertManager) (s : H.State)
      → VisitsAll order
      → All IsVisible cm.token
      → All IsVisible cm.admin_tok
      → (write_all H order cm s).0 ≡ none
      → Stored cm (write_all H order cm s).1
  written-Stored order cm s all t a h g =
      (content cm g, ground (arith, read-write_all order cm s g h, all g), as_read-content cm g t a)

  -- The manager with two new pairs.
  abbrev with_keys : CertManager → Str × Str → Str × Str → CertManager
  with_keys cm server client = record cm {
    server_cer = server.0;
    server_key = server.1;
    client_cer = client.0;
    client_key = client.1;
  }

  -- The manager with two new tokens.
  abbrev with_tokens : CertManager → Str → Str → CertManager
  with_tokens cm t a = record cm { token = t; admin_tok = a }

  abbrev pub Outcome : Type 0
  Outcome = Result Failure (Unit {0}) × CertManager × H.State

  -- What holds of the manager and the files after a method: of the fields 1 and 2 of its outcome.
  abbrev pub StoredAfter : Outcome → Type 0
  StoredAfter r = Stored r.1 r.2

  regenerate_tokens-Stored :
      (order : List FileName) (cm : CertManager) (s : H.State)
      → VisitsAll order
      → (regenerate_tokens H order cm s).0 ≡ ok tt
      → StoredAfter (regenerate_tokens H order cm s)
  unfolding regenerate_tokens
  regenerate_tokens-Stored order cm s all h = elim (Result-cases (random_token H s).0) [
    | inr (e, q) ↦ absurd (ground arith)
    | inl (t, q) ↦
        let s1 = (random_token H s).1 in
        elim (Result-cases (random_token H s1).0) [
          | inr (e, q1) ↦ absurd (ground arith)
          | inl (a, q1) ↦
              let cm2 = with_tokens cm t a in
              let s2 = (random_token H s1).1 in
              let written : (write_all H order cm2 s2).0 ≡ none = ground arith in
              let same : regenerate_tokens H order cm s
                  ≡ (ok tt, cm2, (write_all H order cm2 s2).1) =
                ground arith in
              subst StoredAfter (sym same) (
                written-Stored order cm2 s2 all (random_token_shape H L s t q).1
                  (random_token_shape H L s1 a q1).1 written)
        ]
  ]

  -- After a rotation that reports success, every file can be read and is what the manager holds, in
  -- whatever order the files were written, if the order comes to all of them.
  pub regenerate-Stored :
      (order : List FileName) (cm : CertManager) (s : H.State)
      → VisitsAll order
      → (regenerate_locked H order cm s).0 ≡ ok tt
      → Stored (regenerate_locked H order cm s).1 (regenerate_locked H order cm s).2
  unfolding regenerate_locked
  regenerate-Stored order cm s all h =
      let s1 = (gen_self_signed H (str "tableaux-eink server") s).1 in
      elim (Result-cases (gen_self_signed H (str "tableaux-eink server") s).0) [
        | inr (e, q) ↦ absurd (ground arith)
        | inl (server, q) ↦
            elim (Result-cases (gen_self_signed H (str "tableaux-eink client") s1).0) [
              | inr (e, q1) ↦ absurd (ground arith)
              | inl (client, q1) ↦
                  let cm1 = with_keys cm server client in
                  let s2 = (gen_self_signed H (str "tableaux-eink client") s1).1 in
                  let same : regenerate_locked H order cm s ≡ regenerate_tokens H order cm1 s2 =
                    ground arith in
                  subst StoredAfter (sym same) (
                    regenerate_tokens-Stored order cm1 s2 all
                      (ap (λ (r : Outcome). r.0) (sym same) ∙ h))
            ]
      ]
