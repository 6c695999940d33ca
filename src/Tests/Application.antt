-- ===== src/Tests/Application.antt =====
-- The Android application over the small panel, disk and network of the tests.
use tableaux_eink_go.Base.{ℕ, ◌≡◌, ◌⊎◌, refl, Bool, true, false, none, some, List, [], ◌∷◌}
use tableaux_eink_go.Base.Int.{pos}
use tableaux_eink_go.Base.Text.{str}
use tableaux_eink_go.Base.Errors.{GoError, ok, err}
use tableaux_eink_go.Einklib.Display.{Display, open_display}
use tableaux_eink_go.Einkgrpc.Host.{
  FileName, cert_pem, key_pem, client_cert_pem, client_key_pem, token_txt, admin_token_txt,
}
use tableaux_eink_go.Einkgrpc.CertManager.{
  regenerate_locked, regenerate_tokens, gen_self_signed, random_token, write_all, new_cert_manager,
  load_or_init, read_all, read_tokens,
}
use tableaux_eink_go.Einkgrpc.CertManager.Storage.{VisitsAll}
use tableaux_eink_go.Einkgrpc.Server.{
  Server, new_server, start, stop, listen_and_serve, advertise_server, rotate_request,
  with_defaults,
}
use tableaux_eink_go.Einkapp.{
  Platform, World, App, do_start, do_rotate, do_is_running, bring_up, serve, open_panel,
}
use tableaux_eink_go.Einkapp.Rotation.{rotate_reopens, callback_stays_down}
use tableaux_eink_go.Tests.Panel.{idle, panel_kernel}
use tableaux_eink_go.Tests.Disk.{disk_host, disk_host-IsHost}
use tableaux_eink_go.Tests.Network.{one_port, new_host}

abbrev pub phone : Platform
phone = record {
  kernel = panel_kernel false;
  host = disk_host;
  net = one_port;
  Android = ℕ;
  service_start = λ port a. (none, a);
  service_stop = λ a. (none, a);
  tls_dir = λ d. d;
}

abbrev app : App phone
app = record {
  inited = true;
  files_dir = str "files/tls";
  dev_path = str "/dev/ebc";
  display = some (pos 9);
  server = some new_host;
}

abbrev pub world : World phone
world = record {
  devices = idle;
  disk = record { files = λ f. none; locked = λ f. false };
  sockets = false;
  android = 0;
}

abbrev pub order : List FileName
order = token_txt ∷ key_pem ∷ cert_pem ∷ admin_token_txt ∷ client_key_pem ∷ client_cert_pem ∷ []

pub all_files : VisitsAll order
all_files cert_pem = refl
all_files key_pem = refl
all_files client_cert_pem = refl
all_files client_key_pem = refl
all_files token_txt = refl
all_files admin_token_txt = refl

rotation : (do_rotate phone order order order none app world).0 ≡ none
unfolding do_rotate do_start open_panel open_display serve bring_up new_server new_cert_manager
    load_or_init read_all read_tokens regenerate_locked regenerate_tokens gen_self_signed
    random_token write_all start stop listen_and_serve advertise_server with_defaults str
rotation = refl

rotate_reopens_example :
    ((e : GoError) × ((open_display (panel_kernel false) app.dev_path world.devices).0 ≡ err e)
      × ((do_rotate phone order order order none app world).2.devices
          ≡ (open_display (panel_kernel false) app.dev_path world.devices).1)
      × ((do_rotate phone order order order none app world).1.display ≡ app.display))
    ⊎ ((d : Display (panel_kernel false)) × ((open_display
            (panel_kernel false)
            app.dev_path
            world.devices).0
          ≡ ok d)
        × ((do_rotate phone order order order none app world).2.devices ≡ d.kernel)
        × ((do_rotate phone order order order none app world).1.display ≡ some d.fd))
rotate_reopens_example =
    rotate_reopens phone disk_host-IsHost order order order none app world new_host refl rotation

abbrev pub down : Server one_port × Bool
down = rotate_request one_port new_host world.sockets

callback_stays_down_example :
    (do_is_running phone (record app { server = some down.0 }) ≡ false)
    × (do_start phone order order none
          (record app { server = some down.0 })
          (record world { sockets = down.1 })
        ≡ (none, record app { server = some down.0 }, record world { sockets = down.1 }))
callback_stays_down_example = callback_stays_down phone order order none app world new_host refl
