-- ===== src/Tests/Certificates.antt =====
-- The certificate manager on the disk of the tests.
use tableaux_eink_go.Base.{◌≡◌, refl, Bool, true, false, none, some, List, [], ◌∷◌, replicate}
use tableaux_eink_go.Base.Text.{Str, str, trim_space}
use tableaux_eink_go.Base.Errors.{Result, ok, err}
use tableaux_eink_go.Einkgrpc.Host.{
  FileName, cert_pem, key_pem, client_cert_pem, client_key_pem, token_txt, admin_token_txt,
}
use tableaux_eink_go.Einkgrpc.CertManager.{
  CertManager, Failure, returned, content, base64_encode, gen_self_signed, random_token, write_all,
  regenerate_tokens, regenerate_locked, reissue_client_cert, empty_manager, new_cert_manager,
  load_or_init, read_all, read_tokens,
}
use tableaux_eink_go.Einkgrpc.CertManager.Storage.{Stored, visits, regenerate-Stored}
use tableaux_eink_go.Einkgrpc.CertManager.Reissued.{with_client, reissue_torn}
use tableaux_eink_go.Einkgrpc.CertManager.Loaded.{new_cert_manager-Stored}
use tableaux_eink_go.Einkgrpc.CertManager.Reload.{new_cert_manager_reload}
use tableaux_eink_go.Base.Int.{pos}
use tableaux_eink_go.Einkproto.{ReissueClientCertResponse}
use tableaux_eink_go.Einkgrpc.Credentials.{Ending, fingerprint_pem, reissue}
use tableaux_eink_go.Tests.Disk.{Disk, disk_error, disk_host, disk_host-IsHost}

abbrev pub kept : CertManager
kept = record {
  tls_dir = str "tls";
  server_cer = 1 ∷ [];
  server_key = 2 ∷ [];
  client_cer = 3 ∷ [];
  client_key = 4 ∷ [];
  token = str "abc";
  admin_tok = str "root";
}

abbrev pub nothing_locked : FileName → Bool
nothing_locked f = false

abbrev key_locked : FileName → Bool
key_locked client_key_pem = true
key_locked _ = false

abbrev pub disk : (FileName → Bool) → Disk
disk locks = record { files = λ f. some (content kept f); locked = locks }

pub kept-Stored : (locks : FileName → Bool) → Stored disk_host disk_host-IsHost kept (disk locks)
unfolding trim_space str
kept-Stored locks cert_pem = (1 ∷ [], refl, refl)
kept-Stored locks key_pem = (2 ∷ [], refl, refl)
kept-Stored locks client_cert_pem = (3 ∷ [], refl, refl)
kept-Stored locks client_key_pem = (4 ∷ [], refl, refl)
kept-Stored locks token_txt = (str "abc", refl, refl)
kept-Stored locks admin_token_txt = (str "root", refl, refl)

abbrev pub order : List FileName
order = token_txt ∷ key_pem ∷ cert_pem ∷ admin_token_txt ∷ client_key_pem ∷ client_cert_pem ∷ []

pub order-VisitsAll : (g : FileName) → visits order g ≡ true
order-VisitsAll cert_pem = refl
order-VisitsAll key_pem = refl
order-VisitsAll client_cert_pem = refl
order-VisitsAll client_key_pem = refl
order-VisitsAll token_txt = refl
order-VisitsAll admin_token_txt = refl

abbrev zero_token : Str
zero_token = base64_encode (replicate 24 0)

abbrev started : Result Failure (Unit {0}) × CertManager × Disk
started = regenerate_locked disk_host order (empty_manager (str "tls")) (disk nothing_locked)

regenerate-Stored_example :
    (b : Str) × (disk_host.read_file (str "tls") token_txt started.2 ≡ ok b)
    × (trim_space b ≡ started.1.token)
unfolding regenerate_locked regenerate_tokens gen_self_signed random_token write_all
regenerate-Stored_example =
    regenerate-Stored disk_host disk_host-IsHost order (empty_manager (str "tls"))
      (disk nothing_locked) order-VisitsAll refl token_txt

abbrev reissued : Result Failure (Unit {0}) × CertManager × Disk
reissued = reissue_client_cert disk_host kept (disk nothing_locked)

abbrev client_pair : Str × Str
client_pair = (str "tableaux-eink client", 7 ∷ [])

abbrev torn : Disk
torn = (disk_host.write_file (str "tls") client_cert_pem client_pair.0 (disk key_locked)).1

reissue_torn_example :
    (reissue_client_cert disk_host kept (disk key_locked)
      ≡ (err (returned disk_error), with_client disk_host disk_host-IsHost kept client_pair, torn))
    × (disk_host.read_file (str "tls") client_cert_pem torn ≡ ok client_pair.0)
    × (disk_host.read_file (str "tls") client_key_pem torn ≡ ok kept.client_key)
unfolding gen_self_signed
reissue_torn_example =
    reissue_torn disk_host disk_host-IsHost kept (disk key_locked) (disk key_locked) torn torn
      client_pair disk_error (kept-Stored key_locked) refl refl refl (λ g. refl)

abbrev pem_order : List FileName
pem_order = client_key_pem ∷ cert_pem ∷ client_cert_pem ∷ key_pem ∷ []

new_cert_manager_reload_example :
    new_cert_manager disk_host pem_order order (str "tls") (disk key_locked)
    ≡ (ok kept, disk key_locked)
new_cert_manager_reload_example =
    new_cert_manager_reload disk_host disk_host-IsHost pem_order order kept (disk key_locked)
      (kept-Stored key_locked) (refl, refl, refl, refl) refl

abbrev given : ReissueClientCertResponse
given = record {
  client_cert_pem = client_pair.0;
  client_key_pem = client_pair.1;
  client_cert_fingerprint = fingerprint_pem disk_host client_pair.0;
  server_restart_in_ms = pos 2000;
}

abbrev reissue_end : Ending ReissueClientCertResponse × CertManager × Disk
reissue_end = reissue disk_host true kept (disk nothing_locked)

-- A first start.
abbrev bare : Disk
bare = record { files = λ f. none; locked = nothing_locked }

abbrev fresh_manager : Result Failure CertManager × Disk
fresh_manager = new_cert_manager disk_host pem_order order (str "tls") bare

abbrev manager_or : Result Failure CertManager → CertManager
manager_or (ok cm) = cm
manager_or (err e) = kept

new_cert_manager-Stored_example :
    ((manager_or fresh_manager.0).tls_dir ≡ str "tls")
    × Stored disk_host disk_host-IsHost (manager_or fresh_manager.0) fresh_manager.1
unfolding new_cert_manager load_or_init read_all read_tokens regenerate_locked regenerate_tokens
    gen_self_signed random_token write_all str
new_cert_manager-Stored_example =
    new_cert_manager-Stored disk_host disk_host-IsHost pem_order order (str "tls") bare
      (manager_or fresh_manager.0) (refl, refl, refl, refl) order-VisitsAll refl
