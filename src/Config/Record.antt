-- ===== src/Config/Record.antt =====
-- The stored records of bridge_config.c: `*_record_pack` and `*_record_unpack`. A record is the list
-- of its bytes. Numbers lie in memory with the low byte first.
-- The setters pack only terminated arrays, whose texts fit their places in the record.
pub mod Texts
pub mod RoundTrip
mod Tests
use esp_nmea_bridge.Prelude.{
  ℕ, zero, suc, ◌+◌, ◌-◌, ◌*◌, ◌/◌, ◌%◌, ◌^◌, Bool, true, false, not, ◌&&◌, ◌||◌, List, [], ◌∷◌,
  ◌++◌, Option, none, some, ltb, leb, ◌==◌, ◌!=◌, if◌then◌else◌, length, get_or, take, drop,
  replicate,
}
use esp_nmea_bridge.Prelude.Byte.{u8}
use esp_nmea_bridge.Prelude.CString.{Bytes, cstr, strlen}
use esp_nmea_bridge.Config.{
  Ais, Sta, Ap, System, TcpClient, wifi_ssid_max, wifi_psk_min, wifi_psk_max, tcp_client_host_max,
  hostname_max,
}
use esp_nmea_bridge.Config.Valid.{tcp_client_host_valid, text_valid, hostname_valid}

-- A text in a zeroed place of `width` bytes.
unfoldable pub pad : ℕ → Bytes → Bytes
pad width text = text ++ replicate (width - length text) 0

-- `memcpy` of the first `n` bytes.
abbrev pub copy : ℕ → Bytes → Bytes
copy n source = take n source

abbrev pub flag_byte : Bool → ℕ
flag_byte b = if b then 1 else 0

-- `n` bytes of a number, the low byte first, and the number that such bytes hold.
unfoldable pub bytes_of : ℕ → ℕ → Bytes
bytes_of zero v = []
bytes_of (suc n) v = v % 256 ∷ bytes_of n (v / 256)

unfoldable pub number_of : Bytes → ℕ
number_of [] = 0
number_of (b ∷ bs) = b + 256 * number_of bs

abbrev pub ais_record_len : ℕ
ais_record_len = 5

unfoldable pub ais_record_pack : Ais → Bytes
ais_record_pack src = flag_byte src.filter_enabled ∷ bytes_of 4 src.own_mmsi

unfoldable pub ais_record_unpack : Bytes → Ais
ais_record_unpack r = record {
  filter_enabled = get_or r 0 0 != 0;
  own_mmsi = number_of (copy 4 (drop 1 r));
}

abbrev pub sta_record_ssid_off : ℕ
sta_record_ssid_off = 3

abbrev pub sta_record_psk_len_off : ℕ
sta_record_psk_len_off = 35

abbrev pub sta_record_psk_off : ℕ
sta_record_psk_off = 36

abbrev pub sta_record_len : ℕ
sta_record_len = 99

-- A text's length byte and its place of `width` bytes.
unfoldable pub pack_text : ℕ → Bytes → Bytes
unfolding pad strlen
pack_text width array = let n = u8 (strlen array) in n ∷ pad width (copy n array)

unfoldable pub sta_record_pack : Sta → Bytes
sta_record_pack src =
    flag_byte src.enabled
    ∷ flag_byte src.rotate_mac
    ∷ (pack_text wifi_ssid_max src.ssid ++ pack_text wifi_psk_max src.psk)

-- `psk_len != 0U && (psk_len < MIN || psk_len > MAX)`
abbrev pub bad_psk_len : ℕ → Bool
bad_psk_len n = n != 0 && (ltb n wifi_psk_min || ltb wifi_psk_max n)

-- A text of `n` bytes from `offset` on, in a zeroed array for `width` bytes and the terminator.
unfoldable pub unpack_text : ℕ → ℕ → ℕ → Bytes → Bytes
unfolding pad
unpack_text width n offset r = pad (width + 1) (copy n (drop offset r))

unfoldable pub sta_record_unpack : Bytes → Option Sta
sta_record_unpack r =
    let ssid_len = get_or r 2 0 in
    let psk_len = get_or r sta_record_psk_len_off 0 in
    if ltb wifi_ssid_max ssid_len || bad_psk_len psk_len
    then none
    else (let ssid = unpack_text wifi_ssid_max ssid_len sta_record_ssid_off r in
        let psk = unpack_text wifi_psk_max psk_len sta_record_psk_off r in
        if strlen ssid == ssid_len && strlen psk == psk_len && text_valid (cstr ssid)
        then some (record {
          enabled = get_or r 0 0 != 0;
          rotate_mac = get_or r 1 0 != 0;
          ssid = ssid;
          psk = psk;
        })
        else none)

abbrev pub ap_record_psk_len_off : ℕ
ap_record_psk_len_off = 33

abbrev pub ap_record_len : ℕ
ap_record_len = 97

unfoldable pub ap_record_pack : Ap → Bytes
ap_record_pack src = pack_text wifi_ssid_max src.ssid ++ pack_text wifi_psk_max src.psk

unfoldable pub ap_record_unpack : Bytes → Option Ap
ap_record_unpack r =
    let ssid_len = get_or r 0 0 in
    let psk_len = get_or r ap_record_psk_len_off 0 in
    if ssid_len == 0 || ltb wifi_ssid_max ssid_len || bad_psk_len psk_len
    then none
    else (let ssid = unpack_text wifi_ssid_max ssid_len 1 r in
        let psk = unpack_text wifi_psk_max psk_len (ap_record_psk_len_off + 1) r in
        if strlen ssid == ssid_len && strlen psk == psk_len && text_valid (cstr ssid)
        then some (record { ssid = ssid; psk = psk })
        else none)

abbrev pub sys_record_len : ℕ
sys_record_len = 33

unfoldable pub sys_record_pack : System → Bytes
sys_record_pack src = pack_text hostname_max src.hostname

unfoldable pub sys_record_unpack : Bytes → Option System
sys_record_unpack r =
    let hostname_len = get_or r 0 0 in
    if ltb hostname_max hostname_len
    then none
    else (let hostname = unpack_text hostname_max hostname_len 1 r in
        if strlen hostname == hostname_len && hostname_valid (cstr hostname)
        then some (record { hostname = hostname })
        else none)

abbrev pub tcp_record_port_off : ℕ
tcp_record_port_off = 17

abbrev pub tcp_record_len : ℕ
tcp_record_len = 19

unfoldable pub tcp_record_pack : TcpClient → Bytes
tcp_record_pack src =
    flag_byte src.enabled ∷ (pack_text tcp_client_host_max src.host ++ bytes_of 2 src.port)

unfoldable pub tcp_record_unpack : Bytes → Option TcpClient
tcp_record_unpack r =
    let host_len = get_or r 1 0 in
    if ltb tcp_client_host_max host_len
    then none
    else (let host = unpack_text tcp_client_host_max host_len 2 r in
        let port = number_of (copy 2 (drop tcp_record_port_off r)) in
        if tcp_client_host_valid (cstr host) && port != 0
        then some (record { enabled = get_or r 0 0 != 0; host = host; port = port })
        else none)
