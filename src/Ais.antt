-- ===== src/Ais.antt =====
-- src/ais_mmsi_filter.c and ais_mmsi_filter.h: which AIS sentences carry the bridge's own MMSI.
-- A frame is the list of its bytes, below 256 each; a `struct field_view` is the list of the bytes
-- that it shows. An output parameter beside a `bool` result is an `Option`.
pub mod Checksum
pub mod Fields
pub mod Payload
pub mod Multipart
pub mod Message
pub mod Trace
mod Tests
use esp_nmea_bridge.Prelude.{
  ℕ, zero, suc, ◌+◌, ◌-◌, ◌*◌, ◌/◌, ◌%◌, ◌^◌, Bool, true, false, ◌&&◌, ◌||◌, not, List, [], ◌∷◌,
  ◌++◌, Option, none, some, ltb, leb, ◌==◌, ◌!=◌, if◌then◌else◌, length, get_or, take, drop,
  bit_xor,
}
use esp_nmea_bridge.Prelude.Byte.{u8, u16}
use esp_nmea_bridge.Prelude.CString.{Bytes, cstr, strlen, bytes_eq}

abbrev pub seq_id_max_len : ℕ
seq_id_max_len = 8

-- `struct ais_mmsi_filter_sequence`; `sequence_id` is the stored text, without its terminator.
pub record Sequence : Type 0 where
  pub active : Bool
  pub total_fragments : ℕ
  pub next_fragment : ℕ
  pub sequence_id : Bytes
  pub channel : ℕ

-- `struct ais_mmsi_filter`
pub record Filter : Type 0 where
  pub own_mmsi : ℕ
  pub sequence : Sequence

-- `hex_value`; `none` is -1.
unfoldable pub hex_value : ℕ → Option ℕ
hex_value ch =
    if leb b'0' ch && leb ch b'9'
    then some (ch - b'0')
    else if leb b'A' ch && leb ch b'F'
    then some (ch - b'A' + 10)
    else if leb b'a' ch && leb ch b'f'
    then some (ch - b'a' + 10)
    else none

-- The loop of `checksum_is_valid` that looks for '*', on the bytes from `i` on.
unfoldable pub find_star : Bytes → ℕ → Option ℕ
find_star [] i = none
find_star (c ∷ cs) i = if c == b'*' then some i else find_star cs (i + 1)

-- The loop that computes `actual`, over the bytes given.
unfoldable pub xor_all : ℕ → Bytes → ℕ
xor_all acc [] = acc
xor_all acc (c ∷ cs) = xor_all (bit_xor acc c) cs

-- The end of `checksum_is_valid`, where `hi << 4 | lo` is a sum since `lo` has four bits, at the star's index and the two digits behind it.
unfoldable pub checksum_matches : Bytes → ℕ → Option ℕ → Option ℕ → Option Bytes
checksum_matches frame star (some hi) (some lo) =
    let body = take (star - 1) (drop 1 frame) in
    if xor_all 0 body != u8 (hi * 16 + lo) then none else some body
checksum_matches frame star _ _ = none

-- The part of `checksum_is_valid` behind the loop, at the star's index.
unfoldable pub checksum_at : Bytes → ℕ → Option Bytes
checksum_at frame star =
    if leb (length frame) (star + 2)
    then none
    else checksum_matches frame star (hex_value (get_or frame (star + 1) 0))
        (hex_value (get_or frame (star + 2) 0))

-- `checksum_is_valid`: the body, from index 1 up to the star.
unfoldable pub checksum_is_valid : Bytes → Option Bytes
checksum_is_valid frame =
    if ltb (length frame) 5 || (get_or frame 0 0 != b'!' && get_or frame 0 0 != b'$')
    then none
    else elim (find_star (drop 1 frame) 1) [ none ↦ none | some star ↦ checksum_at frame star ]

-- The loop of `split_fields`: `room` fields are still wanted, `field` is the text since the last
-- separator. `none` is `false`.
unfoldable pub split_fields : ℕ → Bytes → Bytes → Option (List Bytes)
split_fields zero field cs = some []
split_fields (suc room) field [] = elim room [ zero ↦ some (field ∷ []) | suc _ ↦ none ]
split_fields (suc room) field (c ∷ cs) = elim (c == b',') [
  | true ↦ elim (split_fields room [] cs) [ none ↦ none | some fs ↦ some (field ∷ fs) ]
  | false ↦ split_fields (suc room) (field ++ c ∷ []) cs
]

abbrev pub is_digit : ℕ → Bool
is_digit c = leb b'0' c && leb c b'9'

-- The loop of `parse_uint_field`.
unfoldable pub parse_digits : ℕ → Bytes → Option ℕ
parse_digits parsed [] = some parsed
parse_digits parsed (c ∷ cs) =
    let parsed' = u16 (parsed * 10 + (c - b'0')) in
    let rest = parse_digits parsed' cs in
    if not (is_digit c) then none else if ltb 255 parsed' then none else rest

unfoldable pub parse_uint_field : Bytes → Option ℕ
unfolding parse_digits
parse_uint_field field =
    if length field == 0 || ltb 3 (length field) then none else parse_digits 0 field

-- `none` is -1. The last test of the source cannot fail: the value is at most 63.
unfoldable pub ais_sixbit_value : ℕ → Option ℕ
ais_sixbit_value c =
    if ltb c 48 || ltb 119 c
    then none
    else let value = if ltb 40 (c - 48) then c - 48 - 8 else c - 48 in
      if ltb 63 value then none else some value

-- The loop of `decode_mmsi` over the first characters of the payload. `bits << 6 | value` is a sum,
-- since the value has six bits; seven characters have 42 bits, which a `uint64_t` holds.
unfoldable pub decode_bits : ℕ → ℕ → Bytes → Option ℕ
decode_bits zero bits cs = some bits
decode_bits (suc n) bits [] = none
decode_bits (suc n) bits (c ∷ cs) = elim (ais_sixbit_value c) [
  | none ↦ none
  | some v ↦ decode_bits n (bits * 64 + v) cs
]

unfoldable pub decode_mmsi : Bytes → Option ℕ
unfolding decode_bits ais_sixbit_value
decode_mmsi payload =
    if ltb (length payload) 7
    then none
    else elim (decode_bits 7 0 payload) [ none ↦ none | some bits ↦ some (bits / 2 ^ 4 % 2 ^ 30) ]

unfoldable pub formatter_is_vdm : Bytes → Bool
formatter_is_vdm f =
    length f == 5 && get_or f 2 0 == b'V' && get_or f 3 0 == b'D' && get_or f 4 0 == b'M'

unfoldable pub channel_value : Bytes → ℕ
channel_value f = if length f == 1 then get_or f 0 0 else 0

-- `strlen(..) == len && strncmp(.., len) == 0`: the stored text has no zero, so at equal lengths
-- `strncmp` compares every byte.
unfoldable pub sequence_matches : Sequence → Bytes → ℕ → ℕ → ℕ → Bool
sequence_matches s seq_id channel total fragment =
    s.active
    && s.total_fragments == total
    && s.next_fragment == fragment
    && s.channel == channel
    && length s.sequence_id == length seq_id
    && bytes_eq s.sequence_id seq_id

-- `sequence_id` is read as a C string, so it ends before a zero in the field.
unfoldable pub remember_sequence : Filter → Bytes → ℕ → ℕ → Filter
remember_sequence f seq_id channel total =
    if length seq_id == 0 || ltb seq_id_max_len (length seq_id) || ltb total 2
    then record f { sequence = record (f.sequence) { active = false } }
    else record f {
      sequence = record {
        active = true;
        total_fragments = total;
        next_fragment = 2;
        channel = channel;
        sequence_id = cstr seq_id;
      };
    }

-- `ais_mmsi_filter_init`
unfoldable pub init : ℕ → Filter
init own_mmsi = record {
  own_mmsi = own_mmsi;
  sequence = record {
    active = false;
    total_fragments = 0;
    next_fragment = 0;
    sequence_id = [];
    channel = 0;
  };
}

-- `filter->sequence.next_fragment++` in a `uint8_t`, and the end of the sequence.
unfoldable pub advance : Sequence → Sequence
advance s =
    let next = u8 (s.next_fragment + 1) in
    if ltb s.total_fragments next
    then record s { active = false; next_fragment = next }
    else record s { next_fragment = next }

-- The end of `ais_mmsi_filter_should_drop`, on the numbers that the two fields hold.
unfoldable pub classify : Filter → ℕ → ℕ → Bytes → ℕ → Bytes → Bool × Filter
classify f total fragment seq_id channel payload =
    if total == 0 || fragment == 0 || ltb total fragment
    then (false, f)
    else if ltb 1 fragment
    then if not (sequence_matches f.sequence seq_id channel total fragment)
      then (false, f)
      else (true, record f { sequence = advance f.sequence })
    else elim (decode_mmsi payload) [
      | none ↦ (false, f)
      | some mmsi ↦ if mmsi != f.own_mmsi then (false, f) else (
        true,
        if ltb 1 total
            then remember_sequence f seq_id channel total
            else record f { sequence = record (f.sequence) { active = false } },
      )
    ]

-- What the body's fields say: the numbers of the fields 1 and 2 where both are read.
unfoldable pub classify_fields : Filter → List Bytes → Bool × Filter
classify_fields f fields =
    if not (formatter_is_vdm (get_or fields 0 []))
    then (false, f)
    else elim (parse_uint_field (get_or fields 1 [])) [
      | none ↦ (false, f)
      | some total ↦ elim (parse_uint_field (get_or fields 2 [])) [
        | none ↦ (false, f)
        | some fragment ↦
            classify f total fragment (get_or fields 3 []) (channel_value (get_or fields 4 []))
              (get_or fields 5 [])
      ]
    ]

-- `ais_mmsi_filter_should_drop`, at pointers that are not null: whether the frame is dropped, and
-- the filter afterwards.
unfoldable pub should_drop : Filter → Bytes → Bool × Filter
should_drop f frame =
    if length frame == 0 || f.own_mmsi == 0 then (false, f) else elim (checksum_is_valid frame) [
      | none ↦ (false, f)
      | some body ↦ elim (split_fields 7 [] body) [
        | none ↦ (false, f)
        | some fields ↦ classify_fields f fields
      ]
    ]
