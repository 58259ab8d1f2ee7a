-- ===== src/Wifi/Start.antt =====
-- `wifi_manager_start` of src/wifi_manager.c and what it calls, with their requests in order. What
-- the network stack answers is an argument. The stages of `wifi_manager_start` end where its
-- connection request is on the way, since the event handlers and the retry thread run from then on.
pub mod Mac
use esp_nmea_bridge.Prelude.{
  ℕ, ◌+◌, Bool, true, false, not, ◌&&◌, ◌||◌, List, [], ◌∷◌, ◌++◌, Option, none, some, ◌==◌, ◌!=◌,
  if◌then◌else◌, bit_and, bit_or,
}
use esp_nmea_bridge.Prelude.Byte.{u8}
use esp_nmea_bridge.Config.{Sta, Ap, Ret, ok, error, einval}
use esp_nmea_bridge.Wifi.{Wifi}
use esp_nmea_bridge.Wifi.Request.{
  Call, set_gateway, add_address, set_netmask, dhcp_server_start, ap_enable, wifi_connect,
  set_sta_mode, iface_down, iface_up, set_mac_address, connect_req, disconnect_sta, connect_guard,
  connect_answer, returns, asks, Guarded, eio, enodev,
}

-- The answers of the requests for the access point: the addresses that are read from the build's
-- texts, whether the netmask can be set, and the results of the DHCP server and of the SoftAP.
pub record ApEnv : Type 0 where
  pub ip : Option (List ℕ)
  pub netmask : Option (List ℕ)
  pub has_netmask_set : Bool
  pub dhcp : Ret
  pub enabled : Ret

-- `pool_start.s4_addr[3] += 10`
abbrev pub pool_of : List ℕ → List ℕ
pool_of (a ∷ b ∷ c ∷ d ∷ _) = a ∷ b ∷ c ∷ u8 (d + 10) ∷ []
pool_of l = l

-- Whether `start_dhcp_server` can set the address, and what the server returns.
unfoldable pub dhcp_run : ApEnv → List ℕ → List ℕ → Ret × List Call
dhcp_run env addr netmask =
    if not env.has_netmask_set
    then (eio, set_gateway addr ∷ add_address addr ∷ set_netmask netmask ∷ [])
    else (
      env.dhcp,
      set_gateway addr
          ∷ add_address addr
          ∷ set_netmask netmask
          ∷ dhcp_server_start (pool_of addr)
          ∷ [],
    )

unfoldable pub start_dhcp_server : ApEnv → Ret × List Call
start_dhcp_server env = elim env.ip [
  | none ↦ (einval, [])
  | some addr ↦ elim env.netmask [ none ↦ (einval, []) | some netmask ↦ dhcp_run env addr netmask ]
]

abbrev after_dhcp : Ap → Ret → Ret × List Call → Ret × List Call
after_dhcp ap_cfg enabled (ok, calls) =
    (enabled, calls ++ ap_enable (connect_req ap_cfg.ssid ap_cfg.psk) ∷ [])
after_dhcp ap_cfg enabled (error e, calls) = (error e, calls)

unfoldable pub enable_ap : ApEnv → Wifi → Ret × List Call
enable_ap env w =
    if w.ap_iface == 0
    then (enodev, [])
    else after_dhcp w.ap_cfg env.enabled (start_dhcp_server env)

-- The answers of the requests for the station's address: the result of `esp_wifi_set_mode`, the link
-- address, three random bytes, whether the interface is up, and the results of taking it down and of
-- bringing it up again. The last and that of the change itself are only logged.
pub record MacEnv : Type 0 where
  pub mode : Ret
  pub link_addr : Option (List ℕ)
  pub random : List ℕ
  pub is_up : Bool
  pub down : Ret
  pub up_again : Ret

-- The address with its last three bytes random, locally administered and of one station.
unfoldable pub rotated_mac : List ℕ → List ℕ → List ℕ
rotated_mac (a ∷ b ∷ c ∷ _) random = bit_or (bit_and a 0xFC) 0x02 ∷ b ∷ c ∷ random
rotated_mac l random = l

abbrev pub is_mac : List ℕ → Bool
is_mac (_ ∷ _ ∷ _ ∷ _ ∷ _ ∷ _ ∷ []) = true
is_mac _ = false

-- From `was_up` to the end of `rotate_sta_mac`, for `was_up`, what `net_if_down` returns and the new
-- address.
unfoldable pub change_mac : Bool → Ret → List ℕ → List Call
change_mac false down mac = set_mac_address mac ∷ []
change_mac true ok mac = iface_down ∷ set_mac_address mac ∷ iface_up ∷ []
change_mac true (error e) mac = iface_down ∷ []

abbrev with_link_addr : MacEnv → Option (List ℕ) → List Call
with_link_addr env none = []
with_link_addr env (some addr) =
    if is_mac addr then change_mac env.is_up env.down (rotated_mac addr env.random) else []

abbrev with_mode : MacEnv → Ret → List Call
with_mode env ok = set_sta_mode ∷ with_link_addr env env.link_addr
with_mode env (error e) = set_sta_mode ∷ []

unfoldable pub rotate_sta_mac : MacEnv → Wifi → List Call
rotate_sta_mac env w =
    if not w.sta_cfg.enabled || not w.sta_cfg.rotate_mac || w.sta_iface == 0
    then []
    else with_mode env env.mode

-- What `wifi_manager_start` finds: the configuration, the interfaces, whether the build has an access
-- point, and the answers.
pub record StartEnv : Type 0 where
  pub sta : Sta
  pub ap : Ap
  pub ap_iface : ℕ
  pub sta_iface : ℕ
  pub mac : MacEnv
  pub has_ap : Bool
  pub ap_env : ApEnv
  pub connect : Ret

-- Where `wifi_manager_start` stands, with `ret` and what the connection request returned.
pub data StartPc : Type 0 where
  entering : StartPc
  pausing enabling started : Ret → StartPc
  connecting : Ret → Ret → StartPc

-- `ret` after `connect_sta`
abbrev pub merged : Ret → Ret → Ret
merged ok sta_ret = sta_ret
merged ret sta_ret = ret

unfoldable pub captured : StartEnv → Wifi → Wifi
captured env w = record w {
  sta_cfg = env.sta;
  ap_cfg = env.ap;
  ap_iface = env.ap_iface;
  sta_iface = env.sta_iface;
}

unfoldable pub start_connect : Ret → Ret → Wifi → Guarded → StartPc × Wifi × List Call
start_connect ret answer w (returns r) = (enabling (merged ret r), w, [])
start_connect ret answer w (asks req) = (connecting ret answer, w, wifi_connect req ∷ [])

-- `wifi_manager_start`, a stage.
unfoldable pub start_step : StartEnv → StartPc → Wifi → StartPc × Wifi × List Call
start_step env entering w =
    let here = captured env w in
    let (ret, ap_calls) = if env.has_ap then enable_ap env.ap_env here else (ok, []) in
    let calls = rotate_sta_mac env.mac here ++ ap_calls in
    if env.sta.enabled
    then (pausing ret, here, calls ++ disconnect_sta here)
    else (enabling ret, here, calls)
start_step env (pausing ret) w = start_connect ret env.connect w (connect_guard w)
start_step env (connecting ret answer) w =
    let (after, calls) = connect_answer answer w in (enabling (merged ret answer), after, calls)
start_step env (enabling ret) w = (started ret, record w { sta_retry_enabled = true }, [])
start_step env (started ret) w = (started ret, w, [])
