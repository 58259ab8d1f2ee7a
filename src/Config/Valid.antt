-- ===== src/Config/Valid.antt =====
-- The checks of bridge_config.h on texts: host address, text, hostname. A text is the bytes before
-- the terminating zero, and a read behind its end reads that zero.
use esp_nmea_bridge.Prelude.{
  ℕ, zero, suc, ◌+◌, ◌-◌, ◌*◌, Bool, true, false, not, ◌&&◌, ◌||◌, [], ◌∷◌, Option, none, some, ltb,
  leb, ◌==◌, ◌!=◌, if◌then◌else◌, length, get_or, bit_and,
}
use esp_nmea_bridge.Prelude.CString.{Bytes}
use esp_nmea_bridge.Config.{hostname_max}

abbrev pub is_digit : ℕ → Bool
is_digit c = leb b'0' c && leb c b'9'

-- The inner loop of `bridge_config_tcp_client_host_valid`: `room` is 4 - digits, and the result is
-- `value`, `digits` and the text behind.
unfoldable pub scan_digits : ℕ → ℕ → ℕ → Bytes → ℕ × ℕ × Bytes
scan_digits zero value digits s = (value, digits, s)
scan_digits (suc room) value digits [] = (value, digits, [])
scan_digits (suc room) value digits (c ∷ cs) =
    if is_digit c
    then scan_digits room (value * 10 + (c - b'0')) (digits + 1) cs
    else (value, digits, c ∷ cs)

-- A round of the outer loop up to `octets++`: the text behind one octet, or `none` for `false`.
unfoldable pub scan_octet : Bytes → Option Bytes
unfolding scan_digits
scan_octet host =
    let leading_zero = get_or host 0 0 == b'0' && is_digit (get_or host 1 0) in
    let (value, digits, rest) = scan_digits 4 0 0 host in
    if digits == 0 || ltb 3 digits || ltb 255 value || leading_zero then none else some rest

-- The end of a round, at the number of octets read, and the next round. Each round reads an octet
-- and the fourth is the last, so five rounds are enough.
unfoldable pub scan_octets : ℕ → ℕ → Bytes → Bool
scan_octets zero octets host = false
scan_octets (suc rounds) octets [] = octets == 4
scan_octets (suc rounds) octets (c ∷ cs) = elim (scan_octet (c ∷ cs)) [
  | none ↦ false
  | some [] ↦ scan_octets rounds (octets + 1) []
  | some (d ∷ ds) ↦
      if d == b'.'
      then if octets + 1 == 4 then false else scan_octets rounds (octets + 1) ds
      else false
]

-- `bridge_config_tcp_client_host_valid`, on the text of a pointer that is not null.
unfoldable pub tcp_client_host_valid : Bytes → Bool
unfolding scan_octets scan_octet
tcp_client_host_valid [] = true
tcp_client_host_valid (c ∷ cs) = scan_octets 5 0 (c ∷ cs)

-- The branches of `bridge_config_text_valid` on a lead byte and the byte behind it: the number of
-- continuation bytes, or `none` for `false`.
unfoldable pub lead_cont : ℕ → ℕ → Option ℕ
lead_cont lead next =
    if ltb lead 0x20
    then none
    else if ltb lead 0x80
    then some 0
    else if bit_and lead 0xE0 == 0xC0 && leb 0xC2 lead
    then some 1
    else if bit_and lead 0xF0 == 0xE0
    then if (lead == 0xE0 && bit_and next 0xE0 == 0x80)
        || (lead == 0xED && bit_and next 0xE0 == 0xA0)
      then none
      else some 2
    else if bit_and lead 0xF8 == 0xF0 && leb lead 0xF4
    then if (lead == 0xF0 && bit_and next 0xF0 == 0x80) || (lead == 0xF4 && ltb 0x8F next)
      then none
      else some 3
    else none

-- The loops of `bridge_config_text_valid`, with `cont` continuation bytes still wanted.
unfoldable pub scan_text : ℕ → Bytes → Bool
scan_text zero [] = true
scan_text (suc cont) [] = false
scan_text zero (c ∷ cs) = elim (lead_cont c (get_or cs 0 0)) [
  | none ↦ false
  | some cont ↦ scan_text cont cs
]
scan_text (suc cont) (c ∷ cs) = if bit_and c 0xC0 != 0x80 then false else scan_text cont cs

unfoldable pub text_valid : Bytes → Bool
text_valid s = scan_text 0 s

abbrev pub is_hostname_char : ℕ → Bool
is_hostname_char ch = (leb b'a' ch && leb ch b'z') || is_digit ch || ch == b'-'

-- The loop of `bridge_config_hostname_valid` from index `len` on.
unfoldable pub scan_hostname : ℕ → Bytes → Bool
scan_hostname len [] = true
scan_hostname len (ch ∷ cs) =
    if len == hostname_max
    then false
    else if not (is_hostname_char ch)
    then false
    else scan_hostname (len + 1) cs

-- `bridge_config_hostname_valid`, on the text of a pointer that is not null.
unfoldable pub hostname_valid : Bytes → Bool
unfolding scan_hostname
hostname_valid hostname =
    if length hostname == 0 || get_or hostname 0 0 == b'-'
    then false
    else if not (scan_hostname 0 hostname)
    then false
    else get_or hostname (length hostname - 1) 0 != b'-'
