-- ===== src/Led/Flash.antt =====
-- How long a flash of the status LED lasts, and which flash wins.
use esp_nmea_bridge.Prelude.{
  ℕ, ◌+◌, ◌<◌, ◌^◌, ◌≡◌, refl, Bool, true, false, arith, ltb, if◌then◌else◌,
}
use esp_nmea_bridge.Prelude.Byte.{u32}
use esp_nmea_bridge.Led.{
  rgb, PolicyState, flash_active_until, nmea_frame_received, nmea_frame_forwarded, nmea_send_failed,
  render, base_state, nmea_error_red, nmea_forwarded_white, nmea_activity_blue,
}

-- The clock has run `d` milliseconds past `now`, and wraps at 2 ^ 32.
abbrev pub later : ℕ → ℕ → ℕ
later now d = u32 (now + d)

-- What is left of `d` milliseconds after a lapse of whole wraps of the clock.
pub flash_active_until-eq :
    (now d : ℕ)
    → now < 2 ^ 32
    → d < 2 ^ 32
    → flash_active_until true (later now d) (u32 (now + 100))
      ≡ (if ltb d 100 then true else ltb (2 ^ 31 + 99) d)
unfolding flash_active_until
flash_active_until-eq now d hn hd = ground arith

-- Whether a flash shows `d` milliseconds after its event: for the first 100, and again from
-- 2 ^ 31 + 100 on, when the signed difference has changed its sign.
abbrev pub flash_shows : ℕ → Bool
flash_shows d = if ltb d 100 then true else ltb (2 ^ 31 + 99) d

flash_active_until-false : (now until : ℕ) → flash_active_until false now until ≡ false
unfolding flash_active_until
flash_active_until-false now until = refl

-- A failed send shows red exactly while its flash shows, whatever else the state holds; at any
-- other time the LED is what the state without that flash gives. `d` is the time since the event,
-- below 2 ^ 32 ms, and the clock may wrap in between.
pub render-nmea_send_failed :
    (s : PolicyState) (now d : ℕ)
    → now < 2 ^ 32
    → d < 2 ^ 32
    → render (nmea_send_failed s now) (later now d) ≡ (
        if flash_shows d
        then rgb nmea_error_red 0 0
        else render (record s { nmea_error_flash_active = false }) (later now d))
unfolding render nmea_send_failed base_state
render-nmea_send_failed s now d hn hd = ground (
  arith,
  flash_active_until-eq now d hn hd,
  flash_active_until-false (later now d) s.nmea_error_flash_until_ms,
)

-- A forwarded frame shows white exactly while its flash shows and no error flash does; otherwise
-- the LED is what the state without that flash gives.
pub render-nmea_frame_forwarded :
    (s : PolicyState) (now d : ℕ)
    → now < 2 ^ 32
    → d < 2 ^ 32
    → render (nmea_frame_forwarded s now) (later now d) ≡ (
        if flash_shows d
        then if flash_active_until s.nmea_error_flash_active
            (later now d)
            s.nmea_error_flash_until_ms
          then rgb nmea_error_red 0 0
          else rgb nmea_forwarded_white nmea_forwarded_white nmea_forwarded_white
        else render (record s { nmea_forwarded_flash_active = false }) (later now d))
unfolding render nmea_frame_forwarded base_state
render-nmea_frame_forwarded s now d hn hd = ground (
  arith,
  flash_active_until-eq now d hn hd,
  flash_active_until-false (later now d) s.nmea_forwarded_flash_until_ms,
)

-- A received frame shows blue exactly while its flash shows and neither an error flash nor a
-- forwarding flash does; otherwise the LED is what the state without that flash gives.
pub render-nmea_frame_received :
    (s : PolicyState) (now d : ℕ)
    → now < 2 ^ 32
    → d < 2 ^ 32
    → render (nmea_frame_received s now) (later now d) ≡ (
        if flash_shows d
        then if flash_active_until s.nmea_error_flash_active
            (later now d)
            s.nmea_error_flash_until_ms
          then rgb nmea_error_red 0 0
          else if flash_active_until s.nmea_forwarded_flash_active
              (later now d)
              s.nmea_forwarded_flash_until_ms
          then rgb nmea_forwarded_white nmea_forwarded_white nmea_forwarded_white
          else rgb 0 0 nmea_activity_blue
        else render (record s { nmea_activity_flash_active = false }) (later now d))
unfolding render nmea_frame_received base_state
render-nmea_frame_received s now d hn hd = ground (
  arith,
  flash_active_until-eq now d hn hd,
  flash_active_until-false (later now d) s.nmea_activity_flash_until_ms,
)
