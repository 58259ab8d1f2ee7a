-- ===== src/Config/Load.antt =====
-- Loading the stored configuration: `bridge_config_settings_set` and `bridge_config_init`.
pub mod Stored
use esp_nmea_bridge.Prelude.{
  ℕ, Bool, true, false, List, [], ◌∷◌, Option, none, some, ltb, ◌!=◌, if◌then◌else◌, length,
}
use esp_nmea_bridge.Prelude.CString.{Bytes}
use esp_nmea_bridge.Config.{
  Ais, Sta, Ap, System, TcpClient, Config, Ret, ok, error, enoent, ais_mmsi_max,
}
use esp_nmea_bridge.Config.Record.{
  ais_record_len, sta_record_len, ap_record_len, sys_record_len, tcp_record_len, ais_record_unpack,
  sta_record_unpack, ap_record_unpack, sys_record_unpack, tcp_record_unpack,
}
use esp_nmea_bridge.Config.Store.{Key}

-- `len != sizeof(record) || read_cb(..) != sizeof(record)`: a stored value is `none` where reading
-- it fails or is short.
abbrev pub record_of : ℕ → Option Bytes → Option Bytes
record_of size none = none
record_of size (some r) = if length r != size then none else some r

-- `bridge_config_settings_set`, at one key below "bridge" and what reading its value gives.
unfoldable pub settings_set : Config → Key → Option Bytes → Config × Ret
settings_set c Key.ais v = elim (record_of ais_record_len v) [
  | none ↦ (c, ok)
  | some r ↦
      let stored = ais_record_unpack r in
      if ltb ais_mmsi_max stored.own_mmsi then (c, ok) else (record c { ais = stored }, ok)
]
settings_set c Key.tcp v = elim (record_of tcp_record_len v) [
  | none ↦ (c, ok)
  | some r ↦ elim (tcp_record_unpack r) [
    | none ↦ (c, ok)
    | some stored ↦ (record c { tcp_client = stored }, ok)
  ]
]
settings_set c Key.ap v = elim (record_of ap_record_len v) [
  | none ↦ (c, ok)
  | some r ↦ elim (ap_record_unpack r) [
    | none ↦ (c, ok)
    | some stored ↦ (record c { ap = stored }, ok)
  ]
]
settings_set c Key.sys v = elim (record_of sys_record_len v) [
  | none ↦ (c, ok)
  | some r ↦ elim (sys_record_unpack r) [
    | none ↦ (c, ok)
    | some stored ↦ (record c { system_cfg = stored }, ok)
  ]
]
settings_set c Key.sta v = elim (record_of sta_record_len v) [
  | none ↦ (c, ok)
  | some r ↦ elim (sta_record_unpack r) [
    | none ↦ (c, ok)
    | some stored ↦ (record c { sta = stored }, ok)
  ]
]
settings_set c (Key.other name) v = (c, enoent)

-- What `settings_load_subtree` does with the handler: it calls it for each stored key.
unfoldable pub load_subtree : Config → List (Key × Option Bytes) → Config
unfolding settings_set
load_subtree c [] = c
load_subtree c ((k, v) ∷ rest) = load_subtree (settings_set c k v).0 rest

-- `bridge_config_init`: the results of the subsystem's two calls, and the stored keys that the
-- second one enumerates.
unfoldable pub init : Config → Ret → Ret → List (Key × Option Bytes) → Config × Ret
init c (error e) loaded entries = (c, error e)
init c ok loaded entries = (load_subtree c entries, loaded)
