-- ===== src/Einkapp/Connect.antt =====
-- The connect URI of the application, read by the command line.
use tableaux_eink_go.Einkgrpc.Server.{Server}
use tableaux_eink_go.Cli.Remote.{Remote}
