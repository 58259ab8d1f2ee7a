-- ===== src/Config/Record/Tests.antt =====
-- The round trip of a station's record at concrete settings.
use esp_nmea_bridge.Prelude.{ℕ, ◌≡◌, refl, true, false, ◌∷◌, some, length, replicate}
use esp_nmea_bridge.Prelude.CString.{Bytes, cstr, strlen, terminated}
use esp_nmea_bridge.Config.{Sta}
use esp_nmea_bridge.Config.Valid.{text_valid, scan_text, lead_cont}
use esp_nmea_bridge.Config.Record.{sta_record_pack, sta_record_unpack, sta_record_len, bad_psk_len}
use esp_nmea_bridge.Config.Record.RoundTrip.{canonical, sta_record-round_trip}

abbrev blank : ℕ → Bytes
blank n = replicate n 0

-- An "e" with an acute accent, and bytes behind the terminator.
abbrev ssid : Bytes
ssid = 195 ∷ 169 ∷ 0 ∷ 7 ∷ blank 29

abbrev psk : Bytes
psk = 49 ∷ 50 ∷ 51 ∷ 52 ∷ 53 ∷ 54 ∷ 55 ∷ 56 ∷ blank 56

ssid-terminated : terminated ssid ≡ true
unfolding terminated cstr
ssid-terminated = refl

psk-terminated : terminated psk ≡ true
unfolding terminated cstr
psk-terminated = refl

ssid-text_valid : text_valid (cstr ssid) ≡ true
unfolding text_valid scan_text lead_cont cstr
ssid-text_valid = refl

psk-fits : bad_psk_len (strlen psk) ≡ false
unfolding strlen cstr
psk-fits = refl

abbrev sta : Sta
sta = record { enabled = true; rotate_mac = true; ssid = ssid; psk = psk }

sta_record-round_trip_example :
    (sta_record_unpack (sta_record_pack sta)
      ≡ some (record sta { ssid = canonical 33 sta.ssid; psk = canonical 64 sta.psk }))
    × (length (sta_record_pack sta) ≡ sta_record_len)
sta_record-round_trip_example =
    sta_record-round_trip sta refl refl ssid-terminated psk-terminated ssid-text_valid psk-fits
