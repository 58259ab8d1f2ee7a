-- ===== src/Led/Driver/Rounds.antt =====
-- What the thread of src/status_led.c comes to: it shows the colour of the policy, or it waits for the
-- time of its next attempt, at most five seconds away.
use esp_nmea_bridge.Prelude.{ℕ, ◌+◌, ◌≡◌, ◌≤◌, Bool, true}
use esp_nmea_bridge.Led.{Rgb}
use esp_nmea_bridge.Led.Driver.{StatusLed, Driver, driver_start, status_led_rgb_equal, led_round}

-- The thread's variables after rounds at times that do not go back, the last at `last_ms`.
pub data Rounds : ℕ → Driver → Type 0 where
  begins : Rounds 0 driver_start
  goes_on :
      {last_ms : ℕ} {d : Driver} (succeeds : Bool) (now_ms : ℕ) (led : StatusLed)
      → Rounds last_ms d
      → last_ms ≤ now_ms
      → Rounds now_ms (led_round succeeds now_ms led d)

-- The next attempt is at most five seconds away.
abbrev Near : ℕ → Driver → Type 0
Near now_ms d = d.next_retry_ms ≤ now_ms + 5000

-- The strip shows the colour.
abbrev pub Shows : Rgb → Driver → Type 0
Shows colour d = (d.has_applied_rgb ≡ true) × (status_led_rgb_equal colour d.applied_rgb ≡ true)

-- Further rounds, whose updates succeed, at times that do not go back and for whatever the policy's
-- state is at each: from the time and the variables of the first index to those of the last.
pub data Succeeding (t0 : ℕ) (d0 : Driver) : ℕ → Driver → Type 0 where
  none_yet : Succeeding t0 d0 t0 d0
  succeeds_at :
      {last_ms : ℕ} {d : Driver} (now_ms : ℕ) (led : StatusLed)
      → Succeeding t0 d0 last_ms d
      → last_ms ≤ now_ms
      → Succeeding t0 d0 now_ms (led_round true now_ms led d)
