-- ===== src/Einkgrpc/CertManager/Reload.antt =====
-- A start on files that are there takes them over.
use tableaux_eink_go.Base.{
  ◌≡◌, refl, ap, ◌∙◌, true, false, none, List, [], ◌∷◌, arith, if◌then◌else◌,
}
use tableaux_eink_go.Base.Text.{Str}
use tableaux_eink_go.Base.Errors.{ok}
use tableaux_eink_go.Einkgrpc.Host.{
  FileName, cert_pem, key_pem, client_cert_pem, client_key_pem, token_txt, admin_token_txt, Host,
  IsHost,
}
use tableaux_eink_go.Einkgrpc.CertManager.{
  CertManager, content, sink, read_all, read_tokens, load_or_init, new_cert_manager, empty_manager,
}
use tableaux_eink_go.Einkgrpc.CertManager.Directory.{sink_dir}
use tableaux_eink_go.Einkgrpc.CertManager.Storage.{visits, as_read, Stored}

-- The files that the loop of loadOrInit reads.
abbrev pub pem_files : List FileName
pem_files = cert_pem ∷ key_pem ∷ client_cert_pem ∷ client_key_pem ∷ []

-- What the fields are when the files of an order were read over them.
abbrev merged : List FileName → CertManager → CertManager → CertManager
merged order target cm = record cm {
  server_cer = if visits order cert_pem then target.server_cer else cm.server_cer;
  server_key = if visits order key_pem then target.server_key else cm.server_key;
  client_cer = if visits order client_cert_pem then target.client_cer else cm.client_cer;
  client_key = if visits order client_key_pem then target.client_key else cm.client_key;
}

merged-sink :
    (f : FileName) (b : Str) (order : List FileName) (target cm : CertManager)
    → as_read f b ≡ content target f
    → merged order target (sink f b cm) ≡ merged (f ∷ order) target cm
merged-sink cert_pem b order target cm h = ground arith
merged-sink key_pem b order target cm h = ground arith
merged-sink client_cert_pem b order target cm h = ground arith
merged-sink client_key_pem b order target cm h = ground arith
merged-sink token_txt b order target cm h = refl
merged-sink admin_token_txt b order target cm h = refl

-- Every file that the loop has to read comes in the order.
abbrev pub VisitsPem : List FileName → Type 0
VisitsPem order =
    (visits order cert_pem ≡ true)
    × (visits order key_pem ≡ true)
    × (visits order client_cert_pem ≡ true)
    × (visits order client_key_pem ≡ true)

merged_all :
    (order : List FileName) (target cm : CertManager)
    → VisitsPem order
    → cm.tls_dir ≡ target.tls_dir
    → record (merged order target cm) { token = target.token; admin_tok = target.admin_tok }
      ≡ target
merged_all order target cm h dir = ground arith

module _ (H : Host) (L : IsHost H) where
  read_all-merged :
      (order : List FileName) (target cm : CertManager) (s : H.State)
      → Stored H L target s
      → cm.tls_dir ≡ target.tls_dir
      → read_all H order cm s ≡ (false, merged order target cm)
  unfolding read_all
  read_all-merged [] target cm s stored dir = refl
  read_all-merged (f ∷ order) target cm s stored dir =
      let (b, r, c) = stored f in
      let found = ap (λ d. H.read_file d f s) dir ∙ r in
      let ih = read_all-merged order target (sink f b cm) s stored (sink_dir f b cm ∙ dir) in
      ground (arith, found, ih, merged-sink f b order target cm c)

  read_tokens-merged :
      (target cm : CertManager) (s : H.State)
      → Stored H L target s
      → cm.tls_dir ≡ target.tls_dir
      → read_tokens H cm s
        ≡ (false, record cm { token = target.token; admin_tok = target.admin_tok })
  unfolding read_tokens
  read_tokens-merged target cm s stored dir =
      let (t, rt, ct) = stored token_txt in
      let (a, ra, ca) = stored admin_token_txt in
      ground (
        arith,
        ap (λ d. H.read_file d token_txt s) dir ∙ rt,
        ap (λ d. H.read_file d admin_token_txt s) dir ∙ ra,
        ct,
        ca,
      )

  load_takes_over :
      (reads writes : List FileName) (target cm : CertManager) (s : H.State)
      → Stored H L target s
      → VisitsPem reads
      → cm.tls_dir ≡ target.tls_dir
      → load_or_init H reads writes cm s ≡ (ok tt, target, s)
  unfolding load_or_init
  load_takes_over reads writes target cm s stored all dir = ground (
    arith,
    read_all-merged reads target cm s stored dir,
    read_tokens-merged target (merged reads target cm) s stored dir,
    merged_all reads target cm all dir,
  )

  -- A start on a directory that is there and whose files are what a manager holds gives that manager
  -- again, field by field, and writes nothing, in whatever order the files are read.
  pub new_cert_manager_reload :
      (reads writes : List FileName) (cm : CertManager) (s : H.State)
      → Stored H L cm s
      → VisitsPem reads
      → (H.mkdir_all cm.tls_dir s).0 ≡ none
      → new_cert_manager H reads writes cm.tls_dir s ≡ (ok cm, (H.mkdir_all cm.tls_dir s).1)
  unfolding new_cert_manager
  new_cert_manager_reload reads writes cm s stored all made =
      let s1 = (H.mkdir_all cm.tls_dir s).1 in
      let stored' : Stored H L cm s1 =
        λ g. let (b, r, c) = stored g in (b, L.read-mkdir_all cm.tls_dir cm.tls_dir g s ∙ r, c) in
      ground (arith, load_takes_over reads writes cm (empty_manager cm.tls_dir) s1 stored' all refl)
