-- ===== src/Led/Driver/Delay.antt =====
-- The delays of src/status_led.c after updates that fail.
use esp_nmea_bridge.Prelude.{ℕ, suc, zero, ◌*◌, ◌^◌, ◌≡◌, ◌≤◌, refl, min, arith}
use esp_nmea_bridge.Led.Driver.{retry_loop, status_led_retry_delay_ms, retry_max_ms}

one_le_pow : (n : ℕ) → 1 ≤ 2 ^ n
one_le_pow zero = omega arith
one_le_pow (suc n) = omega (arith, one_le_pow n)

loop_stops : (n delay_ms : ℕ) → retry_max_ms ≤ delay_ms → retry_loop n delay_ms ≡ delay_ms
unfolding retry_loop
loop_stops zero d h = refl
loop_stops (suc zero) d h = refl
loop_stops (suc (suc n)) d h = ground arith

-- The delay is a second, twice as long after each further failure, and at most five seconds.
pub retry_delay_ms-doubles :
    (n : ℕ) → status_led_retry_delay_ms (suc n) ≡ min retry_max_ms (1000 * 2 ^ n)
unfolding status_led_retry_delay_ms retry_loop
retry_delay_ms-doubles zero = refl
retry_delay_ms-doubles (suc zero) = refl
retry_delay_ms-doubles (suc (suc zero)) = refl
retry_delay_ms-doubles (suc (suc (suc n))) =
    rw (loop_stops (suc n) 8000 (omega arith)) (omega (arith, one_le_pow n))
