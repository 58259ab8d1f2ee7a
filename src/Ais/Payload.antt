-- ===== src/Ais/Payload.antt =====
-- The armoured payload of an AIS message, and the number that its first characters hold.
use esp_nmea_bridge.Prelude.{
  ℕ, ◌+◌, ◌*◌, ◌/◌, ◌%◌, ◌^◌, ◌<◌, ◌≡◌, refl, ap, ◌∙◌, false, List, [], ◌∷◌, ◌++◌, some, arith, ltb,
  if◌then◌else◌, length,
}
use esp_nmea_bridge.Prelude.CString.{Bytes}
use esp_nmea_bridge.Ais.{ais_sixbit_value, decode_bits, decode_mmsi}

-- The character that an AIS sender writes for six bits (ITU-R M.1371).
unfoldable pub armor : ℕ → ℕ
armor v = if ltb v 40 then v + 48 else v + 56

pub ais_sixbit_value-armor : (v : ℕ) → v < 64 → ais_sixbit_value (armor v) ≡ some v
unfolding ais_sixbit_value armor
ais_sixbit_value-armor v h = ground arith

-- Six-bit groups, most significant first, and the number that they spell behind `bits`.
unfoldable pub armor_all : List ℕ → Bytes
armor_all [] = []
armor_all (d ∷ ds) = armor (d % 64) ∷ armor_all ds

horner : ℕ → List ℕ → ℕ
horner bits [] = bits
horner bits (d ∷ ds) = horner (bits * 64 + d % 64) ds

ais_sixbit_value-armor_digit : (d : ℕ) → ais_sixbit_value (armor (d % 64)) ≡ some (d % 64)
ais_sixbit_value-armor_digit d = ais_sixbit_value-armor (d % 64) (omega arith)

decode_bits-armor_all :
    (ds : List ℕ) (bits : ℕ) (rest : Bytes)
    → decode_bits (length ds) bits (armor_all ds ++ rest) ≡ some (horner bits ds)
unfolding decode_bits armor_all horner
decode_bits-armor_all [] bits rest = refl
decode_bits-armor_all (d ∷ ds) bits rest =
    rw (ais_sixbit_value-armor_digit d, decode_bits)
      (decode_bits-armor_all ds (bits * 64 + d % 64) rest)

-- The first 42 bits of a message as seven groups.
abbrev pub seven_groups : ℕ → List ℕ
seven_groups n = n / 64 ^ 6 ∷ n / 64 ^ 5 ∷ n / 64 ^ 4 ∷ n / 64 ^ 3 ∷ n / 64 ^ 2 ∷ n / 64 ∷ n ∷ []

unfoldable pub armor_seven : ℕ → Bytes
unfolding armor_all armor
armor_seven n = armor_all (seven_groups n)

decode_bits-armor_seven :
    (n : ℕ) (rest : Bytes)
    → n < 64 ^ 7
    → decode_bits 7 0 (armor_all (seven_groups n) ++ rest) ≡ some n
unfolding horner
decode_bits-armor_seven n rest h =
    decode_bits-armor_all (seven_groups n) 0 rest ∙ ap some (omega arith)

length-armor_seven :
    (n : ℕ) (rest : Bytes) → ltb (length (armor_all (seven_groups n) ++ rest)) 7 ≡ false
unfolding armor_all
length-armor_seven n rest = ground arith

-- A position report or any other AIS message starts with its type (6 bits), a repeat indicator (2)
-- and the sender's MMSI (30); `tail` is the next 4 bits.
unfoldable pub header_bits : ℕ → ℕ → ℕ → ℕ → ℕ
header_bits type repeat mmsi tail = type * 2 ^ 36 + repeat * 2 ^ 34 + mmsi * 2 ^ 4 + tail

decode_mmsi-eq :
    (n : ℕ) (rest : Bytes)
    → n < 64 ^ 7
    → decode_mmsi (armor_seven n ++ rest) ≡ some (n / 2 ^ 4 % 2 ^ 30)
decode_mmsi-eq n rest h =
    unfold decode_mmsi armor_seven in
    rw (length-armor_seven n rest, decode_bits-armor_seven n rest h, decode_mmsi)

-- Whatever message is armoured, the filter reads its sender's MMSI, for every type, repeat
-- indicator, 30-bit MMSI and payload behind it.
pub decode_mmsi-armor_seven :
    (type repeat mmsi tail : ℕ) (rest : Bytes)
    → type < 64
    → repeat < 4
    → mmsi < 2 ^ 30
    → tail < 16
    → decode_mmsi (armor_seven (header_bits type repeat mmsi tail) ++ rest) ≡ some mmsi
decode_mmsi-armor_seven type repeat mmsi tail rest ht hr hm hl =
    decode_mmsi-eq (header_bits type repeat mmsi tail) rest (unfold header_bits in omega arith)
    ∙ ap some (unfold header_bits in omega arith)
