-- ===== src/Link/Rotate.antt =====
-- The command rotate against the server: what the server holds after it.
use tableaux_eink_go.Base.{◌≡◌, true, List}
use tableaux_eink_go.Base.Errors.{ok}
use tableaux_eink_go.Einklib.Interface.{DisplayApi}
use tableaux_eink_go.Einkgrpc.Host.{FileName, Host, IsHost}
use tableaux_eink_go.Einkgrpc.CertManager.{rotate}
use tableaux_eink_go.Einkgrpc.CertManager.Storage.{Stored}
use tableaux_eink_go.Einkgrpc.Backend.{Backend}
use tableaux_eink_go.Cli.Flags.{Network}
use tableaux_eink_go.Cli.Remote.{Remote}
use tableaux_eink_go.Link.{Link}

module _ (D : DisplayApi) (H : Host) (HL : IsHost H) (N : Network) (R : Remote N)
    (l : Link D H N R) where
  -- The server behind a Rotate that succeeds: it holds the credentials that Rotate made, in memory
  -- and in its files, and is asked to restart; nothing else of it has changed.
  abbrev pub Renewed : List FileName → Backend D H → Backend D H → Type 0
  Renewed order b b' =
      let (made, cm, disk) = rotate H order b.cm b.disk in
      (made ≡ ok tt)
      × (b' ≡ record b { cm = cm; disk = disk; restarts = true })
      × Stored H HL b'.cm b'.disk
