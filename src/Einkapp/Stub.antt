-- ===== src/Einkapp/Stub.antt =====
-- einkapp/app_stub.go and einklib/display_stub.go: what the packages do on other systems.
use tableaux_eink_go.Base.{Bool, false, Option, none, some, []}
use tableaux_eink_go.Base.Int.{ℤ, pos}
use tableaux_eink_go.Base.Text.{Str, str}
use tableaux_eink_go.Base.Errors.{GoError, plain, Result, err}
use tableaux_eink_go.Einkapp.{not_init}

abbrev pub stub_init : Str → Option GoError
stub_init dir = some not_init

abbrev pub stub_start : Option GoError
stub_start = some not_init

abbrev pub stub_stop : Option GoError
stub_stop = none

abbrev pub stub_is_running : Bool
stub_is_running = false

-- doToken, doAdminToken, doFingerprint, doClientFingerprint
abbrev pub stub_text : Str
stub_text = []

abbrev pub stub_port : ℤ
stub_port = pos 0

-- doConnectURI
abbrev pub stub_connect_uri : Str → Str
stub_connect_uri host = []

abbrev pub stub_rotate : Option GoError
stub_rotate = some not_init

abbrev pub err_not_linux : GoError
err_not_linux = plain (str "einklib: only available on linux/android (cgo + /dev/ebc)")

-- Open
abbrev pub stub_open : {A : Type 0} → Str → Result GoError A
stub_open device_path = err err_not_linux
