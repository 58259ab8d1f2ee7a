-- ===== src/Wifi/Backoff.antt =====
-- The back-off of the retry thread of src/wifi_manager.c at every state that the threads come to.
use esp_nmea_bridge.Prelude.{
  ℕ, ◌*◌, ◌%◌, ◌≡◌, ◌⊎◌, inl, refl, Bool, not, ◌&&◌, ◌||◌, List, ◌==◌, ◌!=◌, min, if-either,
  option-either, arith,
}
use esp_nmea_bridge.Prelude.CString.{strlen}
use esp_nmea_bridge.Config.{Ret, ok, error}
use esp_nmea_bridge.Wifi.{
  Net, Wifi, Event, connect_result, disconnect_result, ap_enable_result, ap_disable_result,
  ap_sta_connected, ap_sta_disconnected, ipv4_addr_add, ipv4_dhcp_bound, ipv4_dhcp_stop, failed,
  sta_dhcp_addr, mark_sta_ipv4_ready, connection_over, wifi_event_handler, ipv4_event_handler,
  wifi_manager_sta_ready,
}
use esp_nmea_bridge.Wifi.Request.{Call, connect_answer, connect_guard, Guarded, returns, asks}
use esp_nmea_bridge.Wifi.Retry.{
  RetryPc, starting, checking, looping, backing_off, disconnecting, settling, requested, finished,
  Step, longer, busy, settle, retry_step, wifi_boot,
}
use esp_nmea_bridge.Wifi.Start.{
  StartEnv, StartPc, entering, pausing, enabling, connecting, started, start_connect, start_step,
  captured,
}
use esp_nmea_bridge.Wifi.System.{
  Reaches, boots, starts, retries, hears, hears_ipv4, answers, writes, begins_again, backs_off,
}

-- The back-offs in seconds.
abbrev pub IsBackoff : ℕ → Type 0
IsBackoff n = (n ≡ 5) ⊎ (n ≡ 10) ⊎ (n ≡ 20) ⊎ (n ≡ 40) ⊎ (n ≡ 60)

record Spaced (w : Wifi) : Type 0 where
  backoff : IsBackoff w.sta_retry_backoff_s

mark-Spaced : (net : Net) (w : Wifi) → Spaced w → Spaced (mark_sta_ipv4_ready net w).1
unfolding mark_sta_ipv4_ready
mark-Spaced net w f =
    option-either (λ (r : Bool × Wifi). Spaced r.1) (sta_dhcp_addr net w) f
      (λ a. record { backoff = f.backoff })

over-Spaced : (w : Wifi) → Spaced w → Spaced (connection_over w)
unfolding connection_over
over-Spaced w f = record { backoff = f.backoff }

wifi_event-Spaced :
    (net : Net) (e : Event) (iface : ℕ) (w : Wifi)
    → Spaced w
    → Spaced (wifi_event_handler net e iface w)
unfolding wifi_event_handler
wifi_event-Spaced net (connect_result status) iface w f =
    if-either Spaced (iface != w.sta_iface) (λ _. f)
      (λ _.
        if-either Spaced (failed status) (λ _. over-Spaced w f)
          (λ _. mark-Spaced net _ (record { backoff = inl refl })))
wifi_event-Spaced net disconnect_result iface w f =
    if-either Spaced (iface != w.sta_iface) (λ _. f) (λ _. over-Spaced w f)
wifi_event-Spaced net ap_enable_result iface w f = f
wifi_event-Spaced net ap_disable_result iface w f = f
wifi_event-Spaced net ap_sta_connected iface w f = f
wifi_event-Spaced net ap_sta_disconnected iface w f = f
wifi_event-Spaced net ipv4_addr_add iface w f = f
wifi_event-Spaced net ipv4_dhcp_bound iface w f = f
wifi_event-Spaced net ipv4_dhcp_stop iface w f = f

ipv4_event-Spaced :
    (net : Net) (e : Event) (iface : ℕ) (w : Wifi)
    → Spaced w
    → Spaced (ipv4_event_handler net e iface w)
unfolding ipv4_event_handler
ipv4_event-Spaced net (connect_result status) iface w f = f
ipv4_event-Spaced net disconnect_result iface w f = f
ipv4_event-Spaced net ap_enable_result iface w f = f
ipv4_event-Spaced net ap_disable_result iface w f = f
ipv4_event-Spaced net ap_sta_connected iface w f = f
ipv4_event-Spaced net ap_sta_disconnected iface w f = f
ipv4_event-Spaced net ipv4_addr_add iface w f = mark-Spaced net w f
ipv4_event-Spaced net ipv4_dhcp_bound iface w f = mark-Spaced net w f
ipv4_event-Spaced net ipv4_dhcp_stop iface w f =
    if-either Spaced (iface == w.sta_iface) (λ _. record { backoff = f.backoff }) (λ _. f)

sta_ready-Spaced : (net : Net) (w : Wifi) → Spaced w → Spaced (wifi_manager_sta_ready net w).1
unfolding wifi_manager_sta_ready
sta_ready-Spaced net w f =
    if-either Spaced (w.sta_connected && not w.sta_has_addr) (λ _. mark-Spaced net w f) (λ _. f)

longer-IsBackoff : (n : ℕ) → IsBackoff n → IsBackoff (min (n * 2 % 4294967296) 60)
longer-IsBackoff n h = ground arith

longer-Spaced : (w : Wifi) → Spaced w → Spaced (longer w)
unfolding longer
longer-Spaced w f = record { backoff = longer-IsBackoff w.sta_retry_backoff_s f.backoff }

answer-Spaced : (r : Ret) (w : Wifi) → Spaced w → Spaced (connect_answer r w).0
unfolding connect_answer
answer-Spaced ok w f = record { backoff = f.backoff }
answer-Spaced (error e) w f = record { backoff = f.backoff }

abbrev Left : Step → Type 0
Left r = Spaced r.wifi

settle-Spaced : (ret : Ret) (w : Wifi) (g : Guarded) → Spaced w → Left (settle ret w g)
unfolding settle
settle-Spaced ret w (returns r) f = longer-Spaced w f
settle-Spaced ret w (asks req) f = f

retry-Spaced : (ret : Ret) (pc : RetryPc) (w : Wifi) → Spaced w → Left (retry_step ret pc w)
unfolding retry_step
retry-Spaced ret starting w f = if-either Left w.sta_retry_enabled (λ _. f) (λ _. f)
retry-Spaced ret checking w f =
    if-either Left (not w.sta_cfg.enabled || strlen w.sta_cfg.ssid == 0) (λ _. f) (λ _. f)
retry-Spaced ret looping w f = if-either Left (busy w) (λ _. f) (λ _. f)
retry-Spaced ret backing_off w f = if-either Left (busy w) (λ _. f) (λ _. f)
retry-Spaced ret disconnecting w f = f
retry-Spaced ret settling w f = settle-Spaced ret w (connect_guard w) f
retry-Spaced ret (requested r) w f = longer-Spaced _ (answer-Spaced r w f)
retry-Spaced ret finished w f = f

abbrev Stands : StartPc × Wifi × List Call → Type 0
Stands r = Spaced r.1

start_connect-Spaced :
    (ret answer : Ret) (w : Wifi) (g : Guarded) → Spaced w → Stands (start_connect ret answer w g)
unfolding start_connect
start_connect-Spaced ret answer w (returns r) f = f
start_connect-Spaced ret answer w (asks req) f = f

captured-Spaced : (env : StartEnv) (w : Wifi) → Spaced w → Spaced (captured env w)
unfolding captured
captured-Spaced env w f = record { backoff = f.backoff }

start-Spaced :
    (env : StartEnv) (here : StartPc) (w : Wifi) → Spaced w → Stands (start_step env here w)
unfolding start_step
start-Spaced env entering w f =
    let i = captured-Spaced env w f in if-either Stands env.sta.enabled (λ _. i) (λ _. i)
start-Spaced env (pausing ret) w f = start_connect-Spaced ret env.connect w (connect_guard w) f
start-Spaced env (connecting ret answer) w f = answer-Spaced answer w f
start-Spaced env (enabling ret) w f = record { backoff = f.backoff }
start-Spaced env (started ret) w f = f

Reaches-Spaced :
    {env : StartEnv} {here : StartPc} {pc : RetryPc} {w : Wifi} → Reaches env here pc w → Spaced w
unfolding wifi_boot
Reaches-Spaced (boots no_sta no_ap) = record { backoff = inl refl }
Reaches-Spaced (starts {here} {pc} {w} r) = start-Spaced _ here w (Reaches-Spaced r)
Reaches-Spaced (retries {here} {pc} {w} ret r) = retry-Spaced ret pc w (Reaches-Spaced r)
Reaches-Spaced (hears {here} {pc} {w} net e iface r) =
    wifi_event-Spaced net e iface w (Reaches-Spaced r)
Reaches-Spaced (hears_ipv4 {here} {pc} {w} net e iface r) =
    ipv4_event-Spaced net e iface w (Reaches-Spaced r)
Reaches-Spaced (answers {here} {pc} {w} net r) = sta_ready-Spaced net w (Reaches-Spaced r)
Reaches-Spaced (writes flags r) = record { backoff = (Reaches-Spaced r).backoff }
Reaches-Spaced (begins_again r) = record { backoff = inl refl }
Reaches-Spaced (backs_off {v = v} seen r) = record {
  backoff = (longer-Spaced v (Reaches-Spaced seen)).backoff;
}

-- At every state that the threads of the Wi-Fi manager come to, the back-off is 5, 10, 20, 40 or 60
-- seconds.
pub Reaches-IsBackoff :
    {env : StartEnv} {here : StartPc} {pc : RetryPc} {w : Wifi}
    → Reaches env here pc w
    → IsBackoff w.sta_retry_backoff_s
Reaches-IsBackoff r = (Reaches-Spaced r).backoff
