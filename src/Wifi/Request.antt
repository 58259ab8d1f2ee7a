-- ===== src/Wifi/Request.antt =====
-- The requests of src/wifi_manager.c for the station, and the calls that a function makes, in order.
use esp_nmea_bridge.Prelude.{ℕ, true, false, List, [], ◌∷◌, ◌==◌, if◌then◌else◌}
use esp_nmea_bridge.Prelude.CString.{Bytes, cstr, strlen}
use esp_nmea_bridge.Config.{Ret, ok, error}
use esp_nmea_bridge.Wifi.{Wifi}

-- The security types that the firmware asks for.
pub data Security : Type 0 where
  security_none security_psk : Security

-- `struct wifi_connect_req_params`, the channel and the band being always the same.
pub record ConnectReq : Type 0 where
  pub ssid : Bytes
  pub psk : Bytes
  pub security : Security

pub data Call : Type 0 where
  set_gateway add_address set_netmask : List ℕ → Call
  dhcp_server_start : List ℕ → Call
  ap_enable : ConnectReq → Call
  wifi_disconnect : Call
  wifi_connect : ConnectReq → Call
  power_save_off : Call
  set_sta_mode iface_down iface_up : Call
  set_mac_address : List ℕ → Call

abbrev pub enodev : Ret
enodev = error 19

abbrev pub eio : Ret
eio = error 5

-- The parameters for a network of that name and passphrase.
unfoldable pub connect_req : Bytes → Bytes → ConnectReq
connect_req ssid psk = record {
  ssid = cstr ssid;
  psk = cstr psk;
  security = if strlen psk == 0 then security_none else security_psk;
}

unfoldable pub disconnect_sta : Wifi → List Call
disconnect_sta w = if w.sta_iface == 0 then [] else wifi_disconnect ∷ []

unfoldable pub disable_sta_power_save : Wifi → List Call
disable_sta_power_save w = if w.sta_iface == 0 then [] else power_save_off ∷ []

-- What `connect_sta` does before its request: it returns, or it has the parameters.
pub data Guarded : Type 0 where
  returns : Ret → Guarded
  asks : ConnectReq → Guarded

unfoldable pub connect_guard : Wifi → Guarded
connect_guard w =
    if w.sta_iface == 0
    then returns enodev
    else if strlen w.sta_cfg.ssid == 0
    then returns ok
    else asks (connect_req w.sta_cfg.ssid w.sta_cfg.psk)

-- What it does when the request has returned.
unfoldable pub connect_answer : Ret → Wifi → Wifi × List Call
connect_answer ok w = (record w { sta_connect_requested = true }, disable_sta_power_save w)
connect_answer (error e) w = (record w { sta_connect_requested = false }, [])

-- `connect_sta`, for what the request returns.
unfoldable pub connect_sta : Ret → Wifi → Ret × Wifi × List Call
connect_sta ret w =
    let (after, calls) = connect_answer ret w in
    elim (connect_guard w) [
      | returns r ↦ (r, w, [])
      | asks req ↦ (ret, after, wifi_connect req ∷ calls)
    ]
