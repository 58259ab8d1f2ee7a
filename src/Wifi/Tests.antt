-- ===== src/Wifi/Tests.antt =====
-- A station whose first connection request is refused, up to the retry thread's own request.
use esp_nmea_bridge.Prelude.{◌+◌, ◌≡◌, ◌≤◌, ◌⊎◌, refl, true, false, [], ◌∷◌, none, some}
use esp_nmea_bridge.Prelude.CString.{strlen, cstr}
use esp_nmea_bridge.Config.{Sta, Ap, ok, error}
use esp_nmea_bridge.Wifi.{Net, Wifi, disconnect_result, wifi_event_handler, connection_over}
use esp_nmea_bridge.Wifi.Request.{connect_answer, connect_guard}
use esp_nmea_bridge.Wifi.Retry.{looping, settling, retry_step, wifi_boot}
use esp_nmea_bridge.Wifi.Start.{
  MacEnv, StartEnv, started, start_step, start_connect, captured, rotate_sta_mac,
}
use esp_nmea_bridge.Wifi.Start.Mac.{is_up_after, changes_up, StaysDown, rotate_sta_mac-restores}
use esp_nmea_bridge.Wifi.System.{Reaches, boots, starts, retries, hears}
use esp_nmea_bridge.Wifi.Due.{Quiet, begins, steps, hears, Trying, steps_left, retry-in_time}

abbrev home : Sta
home = record { enabled = true; rotate_mac = true; ssid = 104 ∷ 0 ∷ []; psk = 0 ∷ [] }

abbrev no_ap : Ap
no_ap = record { ssid = 0 ∷ []; psk = 0 ∷ [] }

abbrev mac : MacEnv
mac = record {
  mode = ok;
  link_addr = some (1 ∷ 2 ∷ 3 ∷ 4 ∷ 5 ∷ 6 ∷ []);
  random = 7 ∷ 8 ∷ 9 ∷ [];
  is_up = true;
  down = ok;
  up_again = ok;
}

abbrev env : StartEnv
env = record {
  sta = home;
  ap = no_ap;
  ap_iface = 1;
  sta_iface = 2;
  mac = mac;
  has_ap = false;
  ap_env = record { ip = none; netmask = none; has_netmask_set = true; dhcp = ok; enabled = ok };
  connect = error 5;
}

-- The station behind the refusal.
abbrev refused : Wifi
refused = record {
  ap_iface = 1;
  sta_iface = 2;
  sta_cfg = home;
  ap_cfg = no_ap;
  sta_connected = false;
  sta_has_addr = false;
  sta_ipv4_logged = false;
  sta_connect_requested = false;
  sta_retry_enabled = true;
  sta_retry_backoff_s = 5;
}

refused-Reaches : Reaches env (started (error 5)) looping refused
unfolding wifi_boot start_step captured start_connect connect_guard connect_answer retry_step strlen
    cstr
refused-Reaches = retries ok (retries ok (starts (starts (starts (starts (boots home no_ap))))))

no_net : Net
no_net = record { table = none; gateway = 0 }

refused-Quiet : Quiet refused 3 5500 settling refused
unfolding retry_step wifi_event_handler connection_over
refused-Quiet =
    steps ok (hears no_net disconnect_result 2 (steps ok (steps ok begins tt) tt) refl) tt

retry-in_time_example :
    (3 + steps_left settling ≡ 3) × ((settling ≡ settling) ⊎ Trying settling) × (5500 ≤ 60500)
retry-in_time_example = retry-in_time refused-Reaches refl refused-Quiet

rotate_sta_mac-restores_example :
    (changes_up (rotate_sta_mac mac refused) true ok ok ≡ false)
    × ((is_up_after (rotate_sta_mac mac refused) true ok ok ≡ true)
        ⊎ StaysDown mac (rotate_sta_mac mac refused))
rotate_sta_mac-restores_example = rotate_sta_mac-restores mac refused
