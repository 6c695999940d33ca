-- ===== src/Einkgrpc/CertManager/Loaded.antt =====
-- What NewCertManager returns is what is on disk, whether it found the files or made them.
use tableaux_eink_go.Base.{
  ◌≡◌, refl, sym, ap, ◌∙◌, subst, inl, inr, Bool, true, false, List, [], ◌∷◌, arith, Bool-cases,
  Option-cases,
}
use tableaux_eink_go.Base.Text.{Str, trim_space}
use tableaux_eink_go.Base.Errors.{ok, Result-cases}
use tableaux_eink_go.Einkgrpc.Host.{
  FileName, cert_pem, key_pem, client_cert_pem, client_key_pem, token_txt, admin_token_txt,
  same_file, Host, IsHost,
}
use tableaux_eink_go.Einkgrpc.CertManager.{
  CertManager, content, sink, read_all, read_tokens, load_or_init, regenerate_locked,
  new_cert_manager, empty_manager,
}
use tableaux_eink_go.Einkgrpc.CertManager.Directory.{sink_dir, read_all_dir, new_cert_manager_dir}
use tableaux_eink_go.Einkgrpc.CertManager.Storage.{
  visits, VisitsAll, same_file_sound, Stored, StoredAfter, Outcome, regenerate-Stored,
}
use tableaux_eink_go.Einkgrpc.CertManager.Reload.{VisitsPem}

-- One of the four files that the loop reads.
abbrev is_pem : FileName → Bool
is_pem token_txt = false
is_pem admin_token_txt = false
is_pem _ = true

content-sink :
    (f g : FileName) (b : Str) (cm : CertManager)
    → is_pem g ≡ true
    → same_file g f ≡ true
    → content (sink f b cm) g ≡ b
content-sink cert_pem g b cm pem same = ground arith
content-sink key_pem g b cm pem same = ground arith
content-sink client_cert_pem g b cm pem same = ground arith
content-sink client_key_pem g b cm pem same = ground arith
content-sink token_txt g b cm pem same = ground arith
content-sink admin_token_txt g b cm pem same = ground arith

content-sink_other :
    (f g : FileName) (b : Str) (cm : CertManager)
    → is_pem g ≡ true
    → same_file g f ≡ false
    → content (sink f b cm) g ≡ content cm g
content-sink_other cert_pem g b cm pem other = ground arith
content-sink_other key_pem g b cm pem other = ground arith
content-sink_other client_cert_pem g b cm pem other = ground arith
content-sink_other client_key_pem g b cm pem other = ground arith
content-sink_other token_txt g b cm pem other = ground arith
content-sink_other admin_token_txt g b cm pem other = ground arith

module _ (H : Host) where
  -- A file of the order is read, and is in the fields behind the loop.
  abbrev Found : FileName → CertManager → CertManager → H.State → Type 0
  Found g cm cm' s = (b : Str) × (H.read_file cm.tls_dir g s ≡ ok b) × (content cm' g ≡ b)

  read_all_other :
      (order : List FileName) (cm : CertManager) (s : H.State) (g : FileName)
      → is_pem g ≡ true
      → visits order g ≡ false
      → content (read_all H order cm s).1 g ≡ content cm g
  unfolding read_all
  read_all_other [] cm s g pem out = refl
  read_all_other (f ∷ order) cm s g pem out = elim (Result-cases (H.read_file cm.tls_dir f s)) [
    | inr (e, q) ↦ ground (arith, q)
    | inl (b, q) ↦
        let more = read_all_other order (sink f b cm) s g pem (ground arith) in
        let other = content-sink_other f g b cm pem (ground arith) in ground (arith, q, more, other)
  ]

  read_all-Found :
      (order : List FileName) (cm : CertManager) (s : H.State) (g : FileName)
      → is_pem g ≡ true
      → visits order g ≡ true
      → (read_all H order cm s).0 ≡ false
      → Found g cm (read_all H order cm s).1 s
  unfolding read_all
  read_all-Found [] cm s g pem visited h = absurd (cc)
  read_all-Found (f ∷ order) cm s g pem visited h =
      elim (Result-cases (H.read_file cm.tls_dir f s)) [
        | inr (e, q) ↦ absurd (ground (arith, q, h))
        | inl (b, q) ↦
            let run : read_all H (f ∷ order) cm s ≡ read_all H order (sink f b cm) s =
              ground (arith, q) in
            elim (Bool-cases (visits order g)) [
              | inl z ↦
                  let (b', r, c) =
                    read_all-Found order (sink f b cm) s g pem z (ground (arith, q, h)) in
                  (
                    b',
                    subst (λ d. H.read_file d g s ≡ ok b') (sink_dir f b cm) r,
                    ap (λ (r : Bool × CertManager). content r.1 g) run ∙ c,
                  )
              | inr z ↦
                  let same : same_file g f ≡ true = ground arith in
                  (
                    b,
                    ap (λ x. H.read_file cm.tls_dir x s) (same_file_sound g f same) ∙ q,
                    ap (λ (r : Bool × CertManager). content r.1 g) run
                        ∙ (read_all_other order (sink f b cm) s g pem z
                            ∙ content-sink f g b cm pem same),
                  )
            ]
      ]

  -- What the fields are behind the two token files, where both are there.
  TokensFound : CertManager → CertManager → H.State → Type 0
  TokensFound cm cm' s =
      (t : Str) × (a : Str) × (H.read_file cm.tls_dir token_txt s ≡ ok t)
      × (H.read_file cm.tls_dir admin_token_txt s ≡ ok a)
      × (cm' ≡ record cm { token = trim_space t; admin_tok = trim_space a })

  read_tokens-Found :
      (cm : CertManager) (s : H.State)
      → (read_tokens H cm s).0 ≡ false
      → TokensFound cm (read_tokens H cm s).1 s
  unfolding read_tokens TokensFound
  read_tokens-Found cm s h = elim (Result-cases (H.read_file cm.tls_dir token_txt s)) [
    | inr (e, q) ↦ elim (Result-cases (H.read_file cm.tls_dir admin_token_txt s)) [
      | inr (e', q') ↦ absurd (ground (arith, q, q', h))
      | inl (a, q') ↦ absurd (ground (arith, q, q', h))
    ]
    | inl (t, q) ↦ elim (Result-cases (H.read_file cm.tls_dir admin_token_txt s)) [
      | inr (e', q') ↦ absurd (ground (arith, q, q', h))
      | inl (a, q') ↦ (t, a, q, q', ground (arith, q, q'))
    ]
  ]

  -- A file of the loop is what the field of the manager holds.
  abbrev Kept : FileName → CertManager → H.State → Type 0
  Kept g cm s = (b : Str) × (H.read_file cm.tls_dir g s ≡ ok b) × (b ≡ content cm g)

  read_all-Kept :
      (reads : List FileName) (cm : CertManager) (s : H.State) (g : FileName)
      → is_pem g ≡ true
      → visits reads g ≡ true
      → (read_all H reads cm s).0 ≡ false
      → Kept g (read_all H reads cm s).1 s
  read_all-Kept reads cm s g pem v h =
      let (b, r, c) = read_all-Found reads cm s g pem v h in
      (b, ap (λ d. H.read_file d g s) (read_all_dir H reads cm s) ∙ r, sym c)

module _ (H : Host) (L : IsHost H) where
  -- All six files were there.
  found-Stored :
      (cm1 : CertManager) (s : H.State) (t a : Str)
      → Kept H cert_pem cm1 s
      → Kept H key_pem cm1 s
      → Kept H client_cert_pem cm1 s
      → Kept H client_key_pem cm1 s
      → H.read_file cm1.tls_dir token_txt s ≡ ok t
      → H.read_file cm1.tls_dir admin_token_txt s ≡ ok a
      → Stored H L (record cm1 { token = trim_space t; admin_tok = trim_space a }) s
  found-Stored cm1 s t a k1 k2 k3 k4 rt ra cert_pem = k1
  found-Stored cm1 s t a k1 k2 k3 k4 rt ra key_pem = k2
  found-Stored cm1 s t a k1 k2 k3 k4 rt ra client_cert_pem = k3
  found-Stored cm1 s t a k1 k2 k3 k4 rt ra client_key_pem = k4
  found-Stored cm1 s t a k1 k2 k3 k4 rt ra token_txt = (t, rt, refl)
  found-Stored cm1 s t a k1 k2 k3 k4 rt ra admin_token_txt = (a, ra, refl)

  loaded-Stored :
      (reads : List FileName) (cm : CertManager) (s : H.State)
      → VisitsPem reads
      → (read_all H reads cm s).0 ≡ false
      → (read_tokens H (read_all H reads cm s).1 s).0 ≡ false
      → Stored H L (read_tokens H (read_all H reads cm s).1 s).1 s
  unfolding TokensFound
  loaded-Stored reads cm s (v1, v2, v3, v4) pems tokens =
      let cm1 = (read_all H reads cm s).1 in
      let (t, a, rt, ra, same) = read_tokens-Found H cm1 s tokens in
      subst (λ m. Stored H L m s) (sym same)
        (found-Stored cm1 s t a (read_all-Kept H reads cm s cert_pem refl v1 pems)
          (read_all-Kept H reads cm s key_pem refl v2 pems)
          (read_all-Kept H reads cm s client_cert_pem refl v3 pems)
          (read_all-Kept H reads cm s client_key_pem refl v4 pems) rt ra)

  load-Stored :
      (reads writes : List FileName) (cm : CertManager) (s : H.State)
      → VisitsPem reads
      → VisitsAll writes
      → (load_or_init H reads writes cm s).0 ≡ ok tt
      → StoredAfter H L (load_or_init H reads writes cm s)
  unfolding load_or_init
  load-Stored reads writes cm s pem all h =
      let cm1 = (read_all H reads cm s).1 in
      let cm2 = (read_tokens H cm1 s).1 in
      elim (Bool-cases (read_all H reads cm s).0) [
        | inl q ↦
            let same : load_or_init H reads writes cm s ≡ regenerate_locked H writes cm1 s =
              ground (arith, q) in
            subst (StoredAfter H L) (sym same) (
              regenerate-Stored H L writes cm1 s all (ap (λ (r : Outcome H L). r.0) (sym same) ∙ h))
        | inr q ↦ elim (Bool-cases (read_tokens H cm1 s).0) [
          | inl z ↦
              let same : load_or_init H reads writes cm s ≡ regenerate_locked H writes cm2 s =
                ground (arith, q, z) in
              subst (StoredAfter H L) (sym same) (
                regenerate-Stored H L writes cm2 s all
                  (ap (λ (r : Outcome H L). r.0) (sym same) ∙ h))
          | inr z ↦
              let same : load_or_init H reads writes cm s ≡ (ok tt, cm2, s) =
                ground (arith, q, z) in
              subst (StoredAfter H L) (sym same) (loaded-Stored reads cm s pem q z)
        ]
      ]

  -- A certificate manager that NewCertManager returns is what is on disk, whichever of the files were
  -- there before, on a first start as on a later one: it is for the directory that was given, every
  -- one of its files can be read and is what the manager holds; in whatever orders the files are read
  -- and written, if these come to all of them.
  pub new_cert_manager-Stored :
      (reads writes : List FileName) (dir : Str) (s : H.State) (cm : CertManager)
      → VisitsPem reads
      → VisitsAll writes
      → (new_cert_manager H reads writes dir s).0 ≡ ok cm
      → (cm.tls_dir ≡ dir) × Stored H L cm (new_cert_manager H reads writes dir s).1
  unfolding new_cert_manager
  new_cert_manager-Stored reads writes dir s cm pem all h =
      let s1 = (H.mkdir_all dir s).1 in
      let loaded = load_or_init H reads writes (empty_manager dir) s1 in
      elim (Option-cases (H.mkdir_all dir s).0) [
        | inr (e, q) ↦ absurd (ground (arith, q, h))
        | inl q ↦ elim (Result-cases loaded.0) [
          | inr (e, z) ↦ absurd (ground (arith, q, z, h))
          | inl (u, z) ↦
              let made : cm ≡ loaded.1 = ground (arith, q, z, h) in
              let left : (new_cert_manager H reads writes dir s).1 ≡ loaded.2 =
                ground (arith, q, z) in
              (
                new_cert_manager_dir H reads writes dir s cm h,
                subst (λ m. Stored H L m (new_cert_manager H reads writes dir s).1) (sym made)
                    (subst (Stored H L loaded.1) (sym left)
                      (load-Stored reads writes (empty_manager dir) s1 pem all z)),
              )
        ]
      ]
