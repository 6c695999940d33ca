-- ===== src/Tests/Calls.antt =====
-- The application of the tests under calls of its host and of a client.
use tableaux_eink_go.Base.{refl, false, Option, none, some, List, [], ◌∷◌}
use tableaux_eink_go.Base.Int.{pos}
use tableaux_eink_go.Base.Text.{str}
use tableaux_eink_go.Einkgrpc.CertManager.{
  rotate, regenerate_locked, regenerate_tokens, gen_self_signed, random_token, write_all,
  new_cert_manager, load_or_init, read_all, read_tokens,
}
use tableaux_eink_go.Einkgrpc.Credentials.{rotate_credentials}
use tableaux_eink_go.Einkgrpc.Server
use tableaux_eink_go.Einkgrpc.Server.{
  Server, new_server, listen_and_serve, advertise_server, rotate_request, with_defaults,
}
use tableaux_eink_go.Einklib.Display.{open_display}
use tableaux_eink_go.Einkapp.{
  App, do_init, do_rotate, do_start, do_stop, bring_up, serve, open_panel,
}
use tableaux_eink_go.Einkapp.Startup.{Serves}
use tableaux_eink_go.Einkapp.Calls.{
  Call, init, start, stop, client_rotates, called_back, run_calls, perform, serve_rotation,
  call_back,
}
use tableaux_eink_go.Einkapp.Calls.Holds.{Holds}
use tableaux_eink_go.Einkapp.Calls.Sound.{calls_lem}
use tableaux_eink_go.Einkapp.Calls.Rotated.{rotate_now-Serves}
use tableaux_eink_go.Tests.Disk.{disk_host-IsHost}
use tableaux_eink_go.Tests.Network.{one_port, one_port-IsNet, new_host}
use tableaux_eink_go.Tests.Application.{phone, world, order, all_files}

-- The variables at first.
abbrev unused : App phone
unused = record {
  inited = false;
  files_dir = [];
  dev_path = str "/dev/ebc";
  display = none;
  server = none;
}

-- A rotation by a client whose callback stops the server, and a restart by the host.
abbrev calls : List (Call phone)
calls =
    init (str "files/tls")
    ∷ start order order none
    ∷ client_rotates order (pos 9)
    ∷ called_back
    ∷ stop
    ∷ start order order none
    ∷ []

calls_lem_example :
    Holds phone one_port-IsNet
      (λ b. one_port-IsNet.bound b world.sockets)
      (run_calls phone calls unused world)
calls_lem_example = calls_lem phone one_port-IsNet unused world calls refl

abbrev server_or : Option (Server one_port) → Server one_port
server_or none = new_host
server_or (some srv) = srv

-- The server behind these calls.
abbrev hosted : Server one_port
hosted = server_or (run_calls phone calls unused world).0.server

rotate_now-Serves_example :
    let (app1, w1) = run_calls phone calls unused world in
    Serves phone disk_host-IsHost (rotate phone.host order hosted.cm w1.disk).1 (
      (do_rotate phone order order order none app1 w1).1,
      (do_rotate phone order order order none app1 w1).2,
    )
unfolding run_calls perform do_init serve_rotation call_back do_rotate do_start do_stop open_panel
    open_display serve bring_up new_server new_cert_manager load_or_init read_all read_tokens
    regenerate_locked regenerate_tokens gen_self_signed random_token write_all Server.start
    Server.stop listen_and_serve advertise_server with_defaults str rotate_credentials
    rotate_request
rotate_now-Serves_example =
    rotate_now-Serves phone disk_host-IsHost one_port-IsNet calls order order order none unused
      world hosted refl refl all_files (refl, refl, refl, refl) refl
