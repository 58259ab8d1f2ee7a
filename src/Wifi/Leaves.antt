-- ===== src/Wifi/Leaves.antt =====
-- The steps of src/wifi_manager.c that leave the captured configuration and `sta_retry_enabled`.
use esp_nmea_bridge.Prelude.{
  ℕ, ◌≡◌, refl, Bool, true, false, not, ◌&&◌, ◌==◌, ◌!=◌, if-either, option-either,
}
use esp_nmea_bridge.Config.{Ret, ok, error}
use esp_nmea_bridge.Wifi.{
  Net, Wifi, Event, connect_result, disconnect_result, ap_enable_result, ap_disable_result,
  ap_sta_connected, ap_sta_disconnected, ipv4_addr_add, ipv4_dhcp_bound, ipv4_dhcp_stop, failed,
  sta_dhcp_addr, mark_sta_ipv4_ready, connection_over, wifi_event_handler, ipv4_event_handler,
  wifi_manager_sta_ready,
}
use esp_nmea_bridge.Wifi.Request.{connect_answer}
use esp_nmea_bridge.Wifi.Retry.{longer}

-- A step that leaves the configuration and `sta_retry_enabled`.
pub record Leaves (w v : Wifi) : Type 0 where
  pub enabled : v.sta_retry_enabled ≡ w.sta_retry_enabled
  pub cfg : v.sta_cfg ≡ w.sta_cfg

pub leaves : {w : Wifi} → Leaves w w
leaves = record { enabled = refl; cfg = refl }

pub mark-Leaves : (net : Net) (w : Wifi) → Leaves w (mark_sta_ipv4_ready net w).1
unfolding mark_sta_ipv4_ready
mark-Leaves net w =
    option-either (λ (r : Bool × Wifi). Leaves w r.1) (sta_dhcp_addr net w) leaves
      (λ a. record { enabled = refl; cfg = refl })

pub over-Leaves : (w : Wifi) → Leaves w (connection_over w)
unfolding connection_over
over-Leaves w = record { enabled = refl; cfg = refl }

pub wifi_event-Leaves :
    (net : Net) (e : Event) (iface : ℕ) (w : Wifi) → Leaves w (wifi_event_handler net e iface w)
unfolding wifi_event_handler
wifi_event-Leaves net (connect_result status) iface w =
    if-either (Leaves w) (iface != w.sta_iface) (λ _. leaves)
      (λ _.
        if-either (Leaves w) (failed status) (λ _. over-Leaves w)
          (λ _.
            let m = mark-Leaves net (record w {
              sta_connected = true;
              sta_connect_requested = false;
              sta_retry_backoff_s = 5;
            }) in
            record { enabled = m.enabled; cfg = m.cfg }))
wifi_event-Leaves net disconnect_result iface w =
    if-either (Leaves w) (iface != w.sta_iface) (λ _. leaves) (λ _. over-Leaves w)
wifi_event-Leaves net ap_enable_result iface w = leaves
wifi_event-Leaves net ap_disable_result iface w = leaves
wifi_event-Leaves net ap_sta_connected iface w = leaves
wifi_event-Leaves net ap_sta_disconnected iface w = leaves
wifi_event-Leaves net ipv4_addr_add iface w = leaves
wifi_event-Leaves net ipv4_dhcp_bound iface w = leaves
wifi_event-Leaves net ipv4_dhcp_stop iface w = leaves

pub ipv4_event-Leaves :
    (net : Net) (e : Event) (iface : ℕ) (w : Wifi) → Leaves w (ipv4_event_handler net e iface w)
unfolding ipv4_event_handler
ipv4_event-Leaves net ipv4_addr_add iface w = mark-Leaves net w
ipv4_event-Leaves net ipv4_dhcp_bound iface w = mark-Leaves net w
ipv4_event-Leaves net ipv4_dhcp_stop iface w =
    if-either (Leaves w) (iface == w.sta_iface) (λ _. record { enabled = refl; cfg = refl })
      (λ _. leaves)
ipv4_event-Leaves net (connect_result status) iface w = leaves
ipv4_event-Leaves net disconnect_result iface w = leaves
ipv4_event-Leaves net ap_enable_result iface w = leaves
ipv4_event-Leaves net ap_disable_result iface w = leaves
ipv4_event-Leaves net ap_sta_connected iface w = leaves
ipv4_event-Leaves net ap_sta_disconnected iface w = leaves

pub sta_ready-Leaves : (net : Net) (w : Wifi) → Leaves w (wifi_manager_sta_ready net w).1
unfolding wifi_manager_sta_ready
sta_ready-Leaves net w =
    if-either (Leaves w) (w.sta_connected && not w.sta_has_addr) (λ _. mark-Leaves net w)
      (λ _. leaves)

pub answer-Leaves : (r : Ret) (w : Wifi) → Leaves w (connect_answer r w).0
unfolding connect_answer
answer-Leaves ok w = record { enabled = refl; cfg = refl }
answer-Leaves (error e) w = record { enabled = refl; cfg = refl }

pub longer-Leaves : (w : Wifi) → Leaves w (longer w)
unfolding longer
longer-Leaves w = record { enabled = refl; cfg = refl }
