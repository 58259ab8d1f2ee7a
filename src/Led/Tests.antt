-- ===== src/Led/Tests.antt =====
-- The theorems at concrete states.
use esp_nmea_bridge.Prelude.{◌≡◌, refl, some, false, List, [], ◌∷◌, arith, if◌then◌else◌, ltb}
use esp_nmea_bridge.Led.{
  PolicyState, rgb, render, nmea_send_failed, nmea_error_red, base_state, connected, connecting,
  disconnected,
}
use esp_nmea_bridge.Led.Flash.{later, flash_shows, render-nmea_send_failed}
use esp_nmea_bridge.Led.Base.{
  from_second, render_connecting-pulse, SessionEvent, run_sessions, open_sessions,
  run_sessions-open,
}
use esp_nmea_bridge.Led.Base
use esp_nmea_bridge.Led.Driver.{StatusLed}
use esp_nmea_bridge.Prelude.{true}

abbrev quiet : PolicyState
quiet = record {
  active_tcp_nmea_sessions = 0;
  outbound_tcp_nmea_client_connecting = false;
  nmea_activity_flash_active = false;
  nmea_forwarded_flash_active = false;
  nmea_error_flash_active = false;
  nmea_activity_flash_until_ms = 0;
  nmea_forwarded_flash_until_ms = 0;
  nmea_error_flash_until_ms = 0;
}

-- The clock wraps during the flash.
render-nmea_send_failed_example :
    render (nmea_send_failed quiet 4294967290) (later 4294967290 50) ≡ (
      if flash_shows 50
      then rgb nmea_error_red 0 0
      else render (record quiet { nmea_error_flash_active = false }) (later 4294967290 50))
render-nmea_send_failed_example =
    render-nmea_send_failed quiet 4294967290 50 (omega arith) (omega arith)

abbrev one_left : List SessionEvent
one_left = Base.started ∷ Base.started ∷ Base.ended ∷ []

one_left-open : open_sessions 0 one_left ≡ some 1
unfolding open_sessions
one_left-open = refl

run_sessions-open_example :
    ((run_sessions quiet one_left).active_tcp_nmea_sessions ≡ 1)
    × (base_state (run_sessions quiet one_left) ≡ (
        if ltb 0 1
        then connected
        else if quiet.outbound_tcp_nmea_client_connecting
        then connecting
        else disconnected))
run_sessions-open_example = run_sessions-open one_left quiet one_left-open

abbrev led : StatusLed
led = record { is_running = true; started_ms = 0; state = quiet; wake = 0 }
