-- ===== src/Config/Load/Stored.antt =====
-- What the handler makes of a record of the right length that unpacks.
use esp_nmea_bridge.Prelude.{◌≤◌, ◌≡◌, some, length, arith}
use esp_nmea_bridge.Prelude.CString.{Bytes}
use esp_nmea_bridge.Config.{Ais, Sta, Ap, System, TcpClient, Config, ais_mmsi_max}
use esp_nmea_bridge.Config.Record.{
  sta_record_unpack, ap_record_unpack, sys_record_unpack, tcp_record_unpack, ais_record_unpack,
  sta_record_len, ap_record_len, sys_record_len, tcp_record_len, ais_record_len,
}
use esp_nmea_bridge.Config.Store.{Key}
use esp_nmea_bridge.Config.Load.{settings_set}

pub load_sta :
    (boot : Config) (r : Bytes) {x : Sta}
    → length r ≡ sta_record_len
    → sta_record_unpack r ≡ some x
    → (settings_set boot Key.sta (some r)).0 ≡ record boot { sta = x }
unfolding settings_set
load_sta boot r size e = ground arith

pub load_ap :
    (boot : Config) (r : Bytes) {x : Ap}
    → length r ≡ ap_record_len
    → ap_record_unpack r ≡ some x
    → (settings_set boot Key.ap (some r)).0 ≡ record boot { ap = x }
unfolding settings_set
load_ap boot r size e = ground arith

pub load_sys :
    (boot : Config) (r : Bytes) {x : System}
    → length r ≡ sys_record_len
    → sys_record_unpack r ≡ some x
    → (settings_set boot Key.sys (some r)).0 ≡ record boot { system_cfg = x }
unfolding settings_set
load_sys boot r size e = ground arith

pub load_tcp :
    (boot : Config) (r : Bytes) {x : TcpClient}
    → length r ≡ tcp_record_len
    → tcp_record_unpack r ≡ some x
    → (settings_set boot Key.tcp (some r)).0 ≡ record boot { tcp_client = x }
unfolding settings_set
load_tcp boot r size e = ground arith

pub load_ais :
    (boot : Config) (r : Bytes) {x : Ais}
    → length r ≡ ais_record_len
    → ais_record_unpack r ≡ x
    → x.own_mmsi ≤ ais_mmsi_max
    → (settings_set boot Key.ais (some r)).0 ≡ record boot { ais = x }
unfolding settings_set
load_ais boot r size e small = ground arith
