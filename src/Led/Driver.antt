-- ===== src/Led/Driver.antt =====
-- src/status_led.c: the entry points of the status LED, and the thread that shows its colour. The
-- uptime in milliseconds, an `int64_t`, is a number. Whether `led_strip_update_rgb` returns 0 is an
-- argument.
pub mod Delay
pub mod Rounds
use esp_nmea_bridge.Prelude.{
  ℕ, ◌+◌, ◌-◌, ◌*◌, suc, zero, Bool, true, false, not, ◌&&◌, ◌||◌, ltb, leb, ◌==◌, if◌then◌else◌,
}
use esp_nmea_bridge.Prelude.Byte.{u8, u32}
use esp_nmea_bridge.Led.{
  Rgb, rgb, PolicyState, render, tcp_nmea_session_started, tcp_nmea_session_ended,
  tcp_nmea_client_connecting, nmea_frame_received, nmea_frame_forwarded, nmea_send_failed,
}

abbrev pub retry_initial_ms : ℕ
retry_initial_ms = 1000

abbrev pub retry_max_ms : ℕ
retry_max_ms = 5000

-- The statics of status_led.c, with the count of `status_led_wake`.
pub record StatusLed : Type 0 where
  pub is_running : Bool
  pub started_ms : ℕ
  pub state : PolicyState
  pub wake : ℕ

-- `(uint32_t)(now_ms - status_led_started_ms)`, the uptime being no earlier than the start.
unfoldable pub elapsed_ms : StatusLed → ℕ → ℕ
elapsed_ms led now_ms = u32 (now_ms - led.started_ms)

unfoldable pub status_led_tcp_nmea_session_started : StatusLed → StatusLed
status_led_tcp_nmea_session_started led = record led { state = tcp_nmea_session_started led.state }

unfoldable pub status_led_tcp_nmea_session_ended : StatusLed → StatusLed
status_led_tcp_nmea_session_ended led = record led { state = tcp_nmea_session_ended led.state }

unfoldable pub status_led_tcp_nmea_client_connecting : StatusLed → Bool → StatusLed
status_led_tcp_nmea_client_connecting led is_connecting = record led {
  state = tcp_nmea_client_connecting led.state is_connecting;
}

unfoldable pub status_led_nmea_frame_received : StatusLed → ℕ → StatusLed
status_led_nmea_frame_received led now_ms = record led {
  state = nmea_frame_received led.state (elapsed_ms led now_ms);
  wake = 1;
}

unfoldable pub status_led_nmea_frame_forwarded : StatusLed → ℕ → StatusLed
status_led_nmea_frame_forwarded led now_ms = record led {
  state = nmea_frame_forwarded led.state (elapsed_ms led now_ms);
  wake = 1;
}

unfoldable pub status_led_nmea_send_failed : StatusLed → ℕ → StatusLed
status_led_nmea_send_failed led now_ms = record led {
  state = nmea_send_failed led.state (elapsed_ms led now_ms);
  wake = 1;
}

-- `status_led_start`, for whether the board has a strip and whether it is ready.
unfoldable pub status_led_start : Bool → Bool → StatusLed → ℕ → StatusLed
status_led_start has_strip is_ready led now_ms =
    if led.is_running
    then led
    else if not has_strip
    then led
    else if not is_ready
    then led
    else record led { started_ms = now_ms; is_running = true }

unfoldable pub status_led_rgb_equal : Rgb → Rgb → Bool
status_led_rgb_equal x y = x.r == y.r && x.g == y.g && x.b == y.b

-- The loop of `status_led_retry_delay_ms`, for `failed_attempts` and `delay_ms`.
unfoldable pub retry_loop : ℕ → ℕ → ℕ
retry_loop zero delay_ms = delay_ms
retry_loop (suc zero) delay_ms = delay_ms
retry_loop (suc (suc n)) delay_ms =
    let rest = retry_loop (suc n) (u32 (delay_ms * 2)) in
    if ltb delay_ms retry_max_ms then rest else delay_ms

unfoldable pub status_led_retry_delay_ms : ℕ → ℕ
status_led_retry_delay_ms failed_attempts =
    let delay_ms = retry_loop failed_attempts retry_initial_ms in
    if ltb retry_max_ms delay_ms then retry_max_ms else delay_ms

-- The local variables of `status_led_thread`.
pub record Driver : Type 0 where
  pub next_retry_ms : ℕ
  pub failed_attempts : ℕ
  pub has_applied_rgb : Bool
  pub applied_rgb : Rgb

abbrev pub driver_start : Driver
driver_start = record {
  next_retry_ms = 0;
  failed_attempts = 0;
  has_applied_rgb = false;
  applied_rgb = rgb 0 0 0;
}

-- The branch of an update that failed.
unfoldable pub after_failure : ℕ → Driver → Driver
after_failure now_ms d =
    let failed_attempts =
      if ltb d.failed_attempts 255 then u8 (d.failed_attempts + 1) else d.failed_attempts in
    record d {
      failed_attempts = failed_attempts;
      next_retry_ms = now_ms + status_led_retry_delay_ms failed_attempts;
    }

-- Whether a round of `status_led_thread` updates the strip.
unfoldable pub updates : ℕ → Rgb → Driver → Bool
updates now_ms rendered d =
    (not d.has_applied_rgb || not (status_led_rgb_equal rendered d.applied_rgb))
    && leb d.next_retry_ms now_ms

-- A round of the loop of `status_led_thread`, for whether the update succeeds.
unfoldable pub led_round : Bool → ℕ → StatusLed → Driver → Driver
led_round succeeds now_ms led d =
    let rendered = render led.state (elapsed_ms led now_ms) in
    if not (updates now_ms rendered d)
    then d
    else if succeeds
    then record {
      next_retry_ms = 0;
      failed_attempts = 0;
      has_applied_rgb = true;
      applied_rgb = rendered;
    }
    else after_failure now_ms d
