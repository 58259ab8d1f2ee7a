-- ===== src/Wifi.antt =====
-- src/wifi_manager.c: the state of the station, the events that the network stack reports, and what
-- other modules ask. A pointer to an interface and an address are numbers, NULL and the unspecified
-- address being 0. The interface's address table, the gateway and the results of the requests are
-- arguments.
pub mod Request
pub mod Retry
pub mod Due
pub mod Gate
pub mod Leaves
pub mod Start
pub mod System
pub mod Backoff
mod Tests
use esp_nmea_bridge.Prelude.{
  ℕ, ◌+◌, ◌*◌, Bool, true, false, not, ◌&&◌, ◌||◌, List, [], ◌∷◌, Option, none, some, ltb, ◌==◌,
  ◌!=◌, if◌then◌else◌,
}
use esp_nmea_bridge.Prelude.CString.{Bytes, strlen}
use esp_nmea_bridge.Config.{Sta, Ap, Ret, ok, error}

-- An entry of the table `unicast`: `is_used`, whether `addr_type` is NET_ADDR_DHCP, the address.
pub record Unicast : Type 0 where
  pub is_used : Bool
  pub is_dhcp : Bool
  pub address : ℕ

-- What the stack holds for the station's interface: the table, if the interface has IPv4, and the
-- gateway.
pub record Net : Type 0 where
  pub table : Option (List Unicast)
  pub gateway : ℕ

-- The statics.
pub record Wifi : Type 0 where
  pub ap_iface : ℕ
  pub sta_iface : ℕ
  pub sta_cfg : Sta
  pub ap_cfg : Ap
  pub sta_connected : Bool
  pub sta_has_addr : Bool
  pub sta_ipv4_logged : Bool
  pub sta_connect_requested : Bool
  pub sta_retry_enabled : Bool
  pub sta_retry_backoff_s : ℕ

unfoldable pub dhcp_address : List Unicast → Option ℕ
dhcp_address [] = none
dhcp_address (u ∷ us) =
    let rest = dhcp_address us in
    if not u.is_used || not u.is_dhcp then rest else if u.address == 0 then rest else some u.address

unfoldable pub sta_dhcp_addr : Net → Wifi → Option ℕ
sta_dhcp_addr net w =
    if w.sta_iface == 0 then none else elim net.table [ none ↦ none | some us ↦ dhcp_address us ]

-- `mark_sta_ipv4_ready`; the gateway is only logged there.
unfoldable pub mark_sta_ipv4_ready : Net → Wifi → Bool × Wifi
mark_sta_ipv4_ready net w = elim (sta_dhcp_addr net w) [
  | none ↦ (false, w)
  | some addr ↦
      (true, record w { sta_connected = true; sta_has_addr = true; sta_ipv4_logged = true })
]

-- The events of WIFI_EVENT_MASK and IPV4_EVENT_MASK. A connection's result has the status of the
-- `struct wifi_status`, if there is one.
pub data Event : Type 0 where
  connect_result : Option ℕ → Event
  disconnect_result : Event
  ap_enable_result ap_disable_result ap_sta_connected ap_sta_disconnected : Event
  ipv4_addr_add ipv4_dhcp_bound ipv4_dhcp_stop : Event

abbrev pub failed : Option ℕ → Bool
failed none = false
failed (some status) = status != 0

-- The branches that end a connection.
unfoldable pub connection_over : Wifi → Wifi
connection_over w = record w {
  sta_connected = false;
  sta_has_addr = false;
  sta_ipv4_logged = false;
  sta_connect_requested = false;
}

unfoldable pub wifi_event_handler : Net → Event → ℕ → Wifi → Wifi
wifi_event_handler net (connect_result status) iface w =
    if iface != w.sta_iface
    then w
    else if failed status
    then connection_over w
    else (mark_sta_ipv4_ready net (record w {
      sta_connected = true;
      sta_connect_requested = false;
      sta_retry_backoff_s = 5;
    })).1
wifi_event_handler net disconnect_result iface w =
    if iface != w.sta_iface then w else connection_over w
wifi_event_handler net _ iface w = w

unfoldable pub ipv4_event_handler : Net → Event → ℕ → Wifi → Wifi
ipv4_event_handler net ipv4_addr_add iface w = (mark_sta_ipv4_ready net w).1
ipv4_event_handler net ipv4_dhcp_bound iface w = (mark_sta_ipv4_ready net w).1
ipv4_event_handler net ipv4_dhcp_stop iface w =
    if iface == w.sta_iface then record w { sta_has_addr = false; sta_ipv4_logged = false } else w
ipv4_event_handler net _ iface w = w

unfoldable pub wifi_manager_sta_ready : Net → Wifi → Bool × Wifi
wifi_manager_sta_ready net w =
    let after =
      if w.sta_connected && not w.sta_has_addr then (mark_sta_ipv4_ready net w).1 else w in
    (after.sta_connected && after.sta_has_addr, after)

-- `wifi_manager_get_sta_ipv4`, for the size of a buffer; the address stands for its text.
unfoldable pub wifi_manager_get_sta_ipv4 : Net → ℕ → Wifi → Option ℕ × Wifi
wifi_manager_get_sta_ipv4 net buf_len w =
    let (ready, after) = wifi_manager_sta_ready net w in
    if ltb buf_len 16
    then (none, w)
    else if not ready
    then (none, after)
    else (sta_dhcp_addr net after, after)

-- What NET_REQUEST_WIFI_IFACE_STATUS answers: its result, whether the state is
-- WIFI_STATE_COMPLETED, and the bits of the signal strength.
pub record IfaceStatus : Type 0 where
  pub ret : Ret
  pub is_completed : Bool
  pub rssi : ℕ

unfoldable pub rssi_of : IfaceStatus → Option ℕ
rssi_of status = elim status.ret [
  | ok ↦ if not status.is_completed then none else some status.rssi
  | error e ↦ none
]

unfoldable pub wifi_manager_get_sta_rssi : Net → IfaceStatus → Wifi → Option ℕ × Wifi
wifi_manager_get_sta_rssi net status w =
    let (ready, after) = wifi_manager_sta_ready net w in
    if w.sta_iface == 0
    then (none, w)
    else if not ready
    then (none, after)
    else (rssi_of status, after)

unfoldable pub wifi_manager_get_sta_gateway : Net → Wifi → Option ℕ × Wifi
wifi_manager_get_sta_gateway net w =
    let (ready, after) = wifi_manager_sta_ready net w in
    if not ready
    then (none, after)
    else (if net.gateway == 0 then none else some net.gateway, after)
