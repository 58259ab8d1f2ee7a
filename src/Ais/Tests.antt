-- ===== src/Ais/Tests.antt =====
-- Sentences of tests/ais_mmsi_filter/src/main.c, and the theorems at them.
use Prim.Native.Char.{code}
use Prim.Native.String.{String}
use esp_nmea_bridge.Prelude.{◌≡◌, refl, ◌↔◌, true, [], ◌∷◌, ◌++◌, some, ◌==◌, arith}
use esp_nmea_bridge.Prelude.CString.{Bytes}
use esp_nmea_bridge.Ais.{
  Filter, init, should_drop, classify_fields, classify, checksum_is_valid, checksum_at,
  checksum_matches, xor_all, find_star, hex_value, split_fields, formatter_is_vdm, channel_value,
  parse_uint_field, parse_digits, decode_mmsi, decode_bits, ais_sixbit_value, advance,
  remember_sequence, sequence_matches,
}
use esp_nmea_bridge.Ais.Checksum.{Framed, checksum_is_valid_iff}
use esp_nmea_bridge.Ais.Payload.{armor_seven, header_bits, decode_mmsi-armor_seven}
use esp_nmea_bridge.Ais.Message.{message_parts, classify_parts, classify_parts-message}
use esp_nmea_bridge.Ais.Trace.{after, Confirmed, should_drop-Confirmed}

abbrev codes : String → Bytes
codes String.[] = []
codes (String.◌∷◌ c s) = code c ∷ codes s

abbrev crlf : Bytes
crlf = 13 ∷ 10 ∷ []

abbrev sentence : String → Bytes
sentence s = codes s ++ crlf

-- A position report of the own vessel.
abbrev own : Bytes
own = sentence "!AIVDM,1,1,,A,11mg=5@,0*64"

abbrev filter : Filter
filter = init 123456789

matching_dropped : (should_drop (after 123456789 []) own).0 ≡ true
unfolding after should_drop init classify_fields classify checksum_is_valid checksum_at
    checksum_matches xor_all find_star hex_value split_fields formatter_is_vdm channel_value
    parse_uint_field parse_digits decode_mmsi decode_bits ais_sixbit_value advance remember_sequence
    sequence_matches
matching_dropped = refl

should_drop-Confirmed_example : Confirmed 123456789 [] own
should_drop-Confirmed_example = should_drop-Confirmed 123456789 [] own matching_dropped

abbrev payload : Bytes
payload = codes "11mg=5@"

payload_mmsi : decode_mmsi payload ≡ some filter.own_mmsi
unfolding init decode_mmsi decode_bits ais_sixbit_value
payload_mmsi = refl

classify_parts-message_example :
    let (dropped, f') =
      classify_parts filter (message_parts 2 1 (49 ∷ []) 65 (payload ∷ [] ∷ [])) in
    (dropped ≡ true) × (f'.sequence.active ≡ (2 == 255))
classify_parts-message_example =
    classify_parts-message filter 2 (49 ∷ []) 65 payload ([] ∷ []) payload_mmsi refl (omega arith)
      (omega arith) (omega arith) (omega arith) (omega arith, tt)

checksum_is_valid_iff_example :
    (checksum_is_valid own ≡ some (codes "AIVDM,1,1,,A,11mg=5@,0"))
    ↔ Framed (codes "AIVDM,1,1,,A,11mg=5@,0") own
checksum_is_valid_iff_example = checksum_is_valid_iff own (codes "AIVDM,1,1,,A,11mg=5@,0")

decode_mmsi-armor_seven_example :
    decode_mmsi (armor_seven (header_bits 1 0 123456789 0) ++ []) ≡ some 123456789
decode_mmsi-armor_seven_example =
    decode_mmsi-armor_seven 1 0 123456789 0 [] (omega arith) (omega arith) (omega arith)
      (omega arith)
