-- ===== src/Tests/Recovery.antt =====
-- The application that is stopped and started, and the URI that it shows.
use tableaux_eink_go.Base.{◌≡◌, refl, true, none, some}
use tableaux_eink_go.Base.Int.{pos}
use tableaux_eink_go.Base.Text.{str, trim_space}
use tableaux_eink_go.Einklib.Display.{open_display, close}
use tableaux_eink_go.Einkgrpc.CertManager.{
  regenerate_locked, regenerate_tokens, gen_self_signed, random_token, write_all, new_cert_manager,
  load_or_init, read_all, read_tokens,
}
use tableaux_eink_go.Einkgrpc.Server.{
  rotate_request, new_server, start, stop, listen_and_serve, advertise_server, with_defaults,
}
use tableaux_eink_go.Einkapp.{
  World, App, do_start, do_stop, do_is_running, bring_up, serve, open_panel,
}
use tableaux_eink_go.Einkapp.Recovery.{stop_start_runs, restart_keeps_credentials}
use tableaux_eink_go.Einkapp.Startup.{Serves}
use tableaux_eink_go.Tests.Certificates.{kept, disk, nothing_locked, kept-Stored}
use tableaux_eink_go.Tests.Disk.{disk_host-IsHost}
use tableaux_eink_go.Tests.Application.{phone, world, order, down}
use tableaux_eink_go.Tests.Commands.{server, listening}

-- The server is down behind the callback of a Rotate.
abbrev lost : App phone
lost = record {
  inited = true;
  files_dir = str "files/tls";
  dev_path = str "/dev/ebc";
  display = some (pos 9);
  server = some down.0;
}

abbrev after : World phone
after = record world { sockets = down.1 }

restarts :
    (do_start phone order order none (do_stop phone lost after).0 (do_stop phone lost after).1).0
    ≡ none
unfolding do_stop do_start open_panel open_display serve bring_up new_server new_cert_manager
    load_or_init read_all read_tokens regenerate_locked regenerate_tokens gen_self_signed
    random_token write_all start stop listen_and_serve advertise_server with_defaults rotate_request
    str
restarts = refl

stop_start_runs_example :
    do_is_running phone
      (do_start phone order order none (do_stop phone lost after).0 (do_stop phone lost after).1).1
    ≡ true
stop_start_runs_example =
    stop_start_runs phone disk_host-IsHost order order none lost after restarts

-- The server listens.
abbrev up : App phone
up = record lost { server = some listening }

abbrev used : World phone
used = record world { sockets = true }

-- The application on the files of a certificate manager.
abbrev settled : App phone
settled = record up { files_dir = str "tls" }

abbrev stored : World phone
stored = record used { disk = disk nothing_locked }

-- It is stopped.
abbrev rested : App phone × World phone
rested = do_stop phone settled stored

restart_keeps_credentials_example : Serves phone disk_host-IsHost kept (
  (do_start phone order order none rested.0 rested.1).1,
  (do_start phone order order none rested.0 rested.1).2,
)
unfolding do_start open_panel open_display serve bring_up new_server new_cert_manager load_or_init
    read_all read_tokens regenerate_locked regenerate_tokens gen_self_signed random_token write_all
    start stop listen_and_serve advertise_server with_defaults str trim_space do_stop close
restart_keeps_credentials_example =
    restart_keeps_credentials phone disk_host-IsHost order order none settled stored kept
      (kept-Stored nothing_locked) (refl, refl, refl, refl) refl refl
