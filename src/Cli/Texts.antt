-- ===== src/Cli/Texts.antt =====
-- tableaux-cli/commands.go: what the commands print.
use tableaux_eink_go.Base.{Bool, true, false, List, [], ◌∷◌, ◌++◌, if◌then◌else◌}
use tableaux_eink_go.Base.Text.{Str, str, is_empty, decimal_ℤ}
use tableaux_eink_go.Einkproto.{DisplayInfo, HealthResponse, RefreshResponse}
use tableaux_eink_go.Cli.Remote.{ServiceEntry}

-- `name value` and a line feed.
abbrev pub line : Str → Str → Str
line name value = name ++ (value ++ (b'\n' ∷ []))

-- fmt's %v
abbrev pub bool_text : Bool → Str
bool_text true = str "true"
bool_text false = str "false"

abbrev pub info_text : DisplayInfo → Str
info_text i =
    line (str "width:          ") (decimal_ℤ i.width)
    ++ (line (str "height:         ") (decimal_ℤ i.height)
        ++ (line (str "virtual_width:  ") (decimal_ℤ i.virtual_width)
            ++ (line (str "virtual_height: ") (decimal_ℤ i.virtual_height)
                ++ (line (str "color:          ") (bool_text i.color)
                    ++ line (str "server_version: ") i.app_version))))

abbrev pub health_text : HealthResponse → Str
health_text h =
    line (str "device_open:    ") (bool_text h.device_open)
    ++ (line (str "server_version: ") h.server_version
        ++ (line (str "uptime_seconds: ") (decimal_ℤ h.uptime_seconds)
            ++ (if is_empty h.last_error then [] else line (str "last_error:     ") h.last_error)))

abbrev pub elapsed_text : RefreshResponse → Str
elapsed_text r = line (str "elapsed_ms: ") (decimal_ℤ r.elapsed_ms)

abbrev lines : List Str → Str
lines [] = []
lines (t ∷ ts) = line (str "  ") t ++ lines ts

abbrev pub entry_text : ServiceEntry → Str
entry_text e =
    line (e.instance_name ++ str "@") e.addresses
    ++ (line (str "  port:        ") (decimal_ℤ e.port)
        ++ (line (str "  addresses:   ") e.addresses ++ lines e.text))

-- The loop of cmdDiscover over the channel.
unfoldable pub entries_text : Bool → List ServiceEntry → Str
entries_text first [] = []
entries_text first (e ∷ es) =
    let more = entry_text e ++ entries_text first es in if first then entry_text e else more

-- What cmdConnect prints of a host, a port, a token and a fingerprint.
abbrev pub connect_text : Str → Str → Str → Str → Str
connect_text host port token fp =
    line (str "host:        ") host
    ++ (line (str "port:        ") port
        ++ (line (str "token:       ") token
            ++ (line (str "fingerprint: ") fp
                ++ (str "\nEquivalent flags:\n  -H "
                    ++ (host ++ (str " -p " ++ (port ++ (str " -t " ++ (token ++ str "\n")))))))))
