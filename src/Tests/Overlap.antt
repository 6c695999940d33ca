-- ===== src/Tests/Overlap.antt =====
-- RotateNow of the application of the tests in its parts.
use tableaux_eink_go.Base.{ℕ, refl, true, Option, none, some, []}
use tableaux_eink_go.Base.Int.{pos}
use tableaux_eink_go.Base.Text.{str}
use tableaux_eink_go.Einklib.Display.{open_display}
use tableaux_eink_go.Einkgrpc.CertManager.{
  regenerate_locked, regenerate_tokens, gen_self_signed, random_token, write_all, new_cert_manager,
  load_or_init, read_all, read_tokens,
}
use tableaux_eink_go.Einkgrpc.Server
use tableaux_eink_go.Einkgrpc.Server.{
  Server, new_server, listen_and_serve, advertise_server, with_defaults,
}
use tableaux_eink_go.Einkapp.{do_start, bring_up, serve, open_panel}
use tableaux_eink_go.Einkapp.Overlap.{Rotation, Scene, play}
use tableaux_eink_go.Einkapp.Overlap.Race.{interrupted, resumed, Lost, rotate_overlap_loses}
use tableaux_eink_go.Tests.Disk.{disk_host-IsHost}
use tableaux_eink_go.Tests.Network.{one_port, one_port-IsNet}
use tableaux_eink_go.Tests.Commands.{listening}
use tableaux_eink_go.Tests.Application.{phone, world, order}

abbrev only_server : ℕ → Option (Server one_port)
only_server p = some listening

abbrev scene : Scene phone
scene = record {
  inited = true;
  files_dir = str "files/tls";
  dev_path = str "/dev/ebc";
  display = some (pos 9);
  server = some 0;
  servers = only_server;
  next = 1;
  world = record world { sockets = true };
  doing = [];
}

abbrev rotation : Rotation phone
rotation = record { order = order; reads = order; writes = order; panel = none }

abbrev halted : Scene phone
halted = play phone (interrupted phone rotation) scene

rotate_overlap_loses_example :
    (q : ℕ) × (c : one_port.Conn) × Lost phone disk_host-IsHost one_port-IsNet q c
      (play phone (resumed phone order order none) halted)
unfolding do_start open_panel open_display serve bring_up new_server new_cert_manager load_or_init
    read_all read_tokens regenerate_locked regenerate_tokens gen_self_signed random_token write_all
    Server.start Server.stop listen_and_serve advertise_server with_defaults str
rotate_overlap_loses_example =
    rotate_overlap_loses phone disk_host-IsHost one_port-IsNet scene rotation order order none 0
      listening refl refl refl refl refl
