-- ===== src/Einkgrpc/Mdns.antt =====
-- einkgrpc/mdns.go and einkgrpc/mdns_zeroconf.go: the advertisement of the server.
use tableaux_eink_go.Base.{
  Bool, Option, none, some, List, [], ◌∷◌, ◌++◌, if◌then◌else◌, leb, length, take,
}
use tableaux_eink_go.Base.Int.{ℤ}
use tableaux_eink_go.Base.Text.{Str, str, is_empty}
use tableaux_eink_go.Base.Errors.{GoError, wrapped, ok, err}
use tableaux_eink_go.Einkgrpc.Net.{Net}

-- zcRegistrar with its mdnsBase. `server` is `none` for nil.
pub record Registrar (N : Net) : Type 0 where
  pub name : Str
  pub server : Option N.Advert

-- HostnameInstance
unfoldable pub hostname_instance : Str → Str
hostname_instance prefix = (if is_empty prefix then str "tableaux-eink" else prefix) ++ str "-go"

unfoldable pub truncated_fingerprint : Str → Str
truncated_fingerprint fp = if leb (length fp) 47 then fp else take 47 fp

-- The TXT records.
unfoldable pub txt_records : Bool → Str → Str → List Str
txt_records panel_is_color cert_fingerprint version =
    (str "version=" ++ version)
    ∷ (str "panel=" ++ (if panel_is_color then str "color" else str "grayscale"))
    ∷ (str "fingerprint=" ++ truncated_fingerprint cert_fingerprint)
    ∷ []

module _ (N : Net) where
  -- NewMdnsRegistrar
  abbrev pub new_registrar : Registrar N
  new_registrar = record { name = []; server = none }

  unfoldable pub register :
      ℤ → Bool → Str → Str → Registrar N → N.State → Option GoError × Registrar N × N.State
  register port panel_is_color cert_fingerprint version z w =
      let host = if is_empty (N.hostname w) then str "device" else N.hostname w in
      let instance_name = hostname_instance host in
      let (r, w') =
        N.advertise instance_name port (txt_records panel_is_color cert_fingerprint version) w in
      elim r [
        | err e ↦ (some (wrapped (str "zeroconf register: ") e), z, w')
        | ok a ↦ (none, record { name = instance_name; server = some a }, w')
      ]

  unfoldable pub unregister : Registrar N → N.State → Registrar N × N.State
  unregister z w = (new_registrar, elim z.server [ none ↦ w | some a ↦ N.withdraw a w ])
