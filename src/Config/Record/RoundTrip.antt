-- ===== src/Config/Record/RoundTrip.antt =====
-- Every accepted configuration is read back from its record.
use esp_nmea_bridge.Prelude.{
  ℕ, ◌^◌, ◌<◌, ◌≡◌, ◌≢◌, refl, true, false, [], ◌∷◌, some, length, arith, length-append,
}
use esp_nmea_bridge.Prelude.CString.{
  Bytes, cstr, strlen, terminated, cstr-NonZero, length-terminated,
}
use esp_nmea_bridge.Config.{Ais, Sta, Ap, System, TcpClient}
use esp_nmea_bridge.Config.Valid.{tcp_client_host_valid, text_valid, hostname_valid}
use esp_nmea_bridge.Config.Record.{
  pad, bytes_of, flag_byte, bad_psk_len, sta_record_pack, sta_record_unpack, ap_record_pack,
  ap_record_unpack, sys_record_pack, sys_record_unpack, tcp_record_pack, tcp_record_unpack,
  ais_record_pack, ais_record_unpack, sta_record_len, ap_record_len, sys_record_len, tcp_record_len,
}
use esp_nmea_bridge.Config.Record.Texts.{
  get_or-at, drop-at, length-pad, cstr-pad, pack_text-eq, unpack_text-at, unpack_text-behind,
  number_of-bytes_of,
}

-- The array with the same text and zeros behind it.
abbrev pub canonical : ℕ → Bytes → Bytes
canonical width array = pad width (cstr array)

-- A hostname that the setter accepts is unpacked from its record as it was, with zeros behind the
-- text, and the record has the length that the loader asks for.
pub sys_record-round_trip :
    (c : System)
    → length c.hostname ≡ 33
    → terminated c.hostname ≡ true
    → hostname_valid (cstr c.hostname) ≡ true
    → (sys_record_unpack (sys_record_pack c) ≡ some (record { hostname = canonical 33 c.hostname }))
      × (length (sys_record_pack c) ≡ sys_record_len)
unfolding sys_record_pack sys_record_unpack strlen
sys_record-round_trip c size term valid =
    let text = cstr c.hostname in
    let short = length-terminated c.hostname term in
    let nz = cstr-NonZero c.hostname in
    rw (pack_text-eq 32 c.hostname (omega arith) (omega arith)) (
      ground (
        arith,
        unpack_text-behind 32 32 [] (length text) text 1 refl,
        cstr-pad 33 text nz (omega arith),
      ),
      omega (arith, length-pad 32 text (omega arith)),
    )

-- An access point setting that the setter accepts is unpacked from its record as it was, with zeros
-- behind the texts, and the record has the length that the loader asks for.
pub ap_record-round_trip :
    (c : Ap)
    → length c.ssid ≡ 33
    → length c.psk ≡ 64
    → terminated c.ssid ≡ true
    → terminated c.psk ≡ true
    → text_valid (cstr c.ssid) ≡ true
    → length (cstr c.ssid) ≢ 0
    → bad_psk_len (strlen c.psk) ≡ false
    → (ap_record_unpack (ap_record_pack c)
        ≡ some (record { ssid = canonical 33 c.ssid; psk = canonical 64 c.psk }))
      × (length (ap_record_pack c) ≡ ap_record_len)
unfolding ap_record_pack ap_record_unpack strlen
ap_record-round_trip c size size' term term' valid some_ssid len_ok =
    let s = cstr c.ssid in
    let p = cstr c.psk in
    let short = length-terminated c.ssid term in
    let short' = length-terminated c.psk term' in
    let first = length s ∷ pad 32 s in
    let first_len : length first ≡ 33 = omega (arith, length-pad 32 s (omega arith)) in
    rw
      (
        pack_text-eq 32 c.ssid (omega arith) (omega arith),
        pack_text-eq 63 c.psk (omega arith) (omega arith),
      )
      (
        ground (
          arith,
          get_or-at first (length p) (pad 63 p) 33,
          first_len,
          unpack_text-at 32 32 (length s ∷ []) s (length p ∷ pad 63 p) 1 refl,
          unpack_text-behind 63 63 first (length p) p 34,
          cstr-pad 33 s (cstr-NonZero c.ssid) (omega arith),
          cstr-pad 64 p (cstr-NonZero c.psk) (omega arith),
        ),
        omega (
          arith,
          length-append first (length p ∷ pad 63 p),
          first_len,
          length-pad 63 p (omega arith),
        ),
      )

-- A station setting that the setter accepts is unpacked from its record as it was, with zeros behind
-- the texts, and the record has the length that the loader asks for.
pub sta_record-round_trip :
    (c : Sta)
    → length c.ssid ≡ 33
    → length c.psk ≡ 64
    → terminated c.ssid ≡ true
    → terminated c.psk ≡ true
    → text_valid (cstr c.ssid) ≡ true
    → bad_psk_len (strlen c.psk) ≡ false
    → (sta_record_unpack (sta_record_pack c)
        ≡ some (record c { ssid = canonical 33 c.ssid; psk = canonical 64 c.psk }))
      × (length (sta_record_pack c) ≡ sta_record_len)
unfolding sta_record_pack sta_record_unpack strlen
sta_record-round_trip c size size' term term' valid len_ok =
    let s = cstr c.ssid in
    let p = cstr c.psk in
    let a = flag_byte c.enabled in
    let b = flag_byte c.rotate_mac in
    let short = length-terminated c.ssid term in
    let short' = length-terminated c.psk term' in
    let first = a ∷ b ∷ length s ∷ pad 32 s in
    let first_len : length first ≡ 35 = omega (arith, length-pad 32 s (omega arith)) in
    rw
      (
        pack_text-eq 32 c.ssid (omega arith) (omega arith),
        pack_text-eq 63 c.psk (omega arith) (omega arith),
      )
      (
        ground (
          arith,
          get_or-at first (length p) (pad 63 p) 35,
          first_len,
          unpack_text-at 32 32 (a ∷ b ∷ length s ∷ []) s (length p ∷ pad 63 p) 3 refl,
          unpack_text-behind 63 63 first (length p) p 36,
          cstr-pad 33 s (cstr-NonZero c.ssid) (omega arith),
          cstr-pad 64 p (cstr-NonZero c.psk) (omega arith),
        ),
        omega (
          arith,
          length-append first (length p ∷ pad 63 p),
          first_len,
          length-pad 63 p (omega arith),
        ),
      )

-- A TCP client setting that the setter accepts is unpacked from its record as it was, with zeros
-- behind the host, and the record has the length that the loader asks for.
pub tcp_record-round_trip :
    (c : TcpClient)
    → length c.host ≡ 16
    → terminated c.host ≡ true
    → tcp_client_host_valid (cstr c.host) ≡ true
    → c.port ≢ 0
    → c.port < 2 ^ 16
    → (tcp_record_unpack (tcp_record_pack c) ≡ some (record c { host = canonical 16 c.host }))
      × (length (tcp_record_pack c) ≡ tcp_record_len)
unfolding tcp_record_pack tcp_record_unpack bytes_of
tcp_record-round_trip c size term valid nonzero small =
    let h = cstr c.host in
    let a = flag_byte c.enabled in
    let short = length-terminated c.host term in
    let first = a ∷ length h ∷ pad 15 h in
    let first_len : length first ≡ 17 = omega (arith, length-pad 15 h (omega arith)) in
    rw (pack_text-eq 15 c.host (omega arith) (omega arith)) (
      ground (
        arith,
        first_len,
        drop-at first (bytes_of 2 c.port) 17,
        unpack_text-at 15 15 (a ∷ length h ∷ []) h (bytes_of 2 c.port) 2 refl,
        cstr-pad 16 h (cstr-NonZero c.host) (omega arith),
        (number_of-bytes_of c.port).1 small,
      ),
      omega (arith, length-append first (bytes_of 2 c.port), first_len),
    )

-- An AIS setting with a 32-bit MMSI is unpacked from its record as it was.
pub ais_record-round_trip :
    (c : Ais) → c.own_mmsi < 2 ^ 32 → ais_record_unpack (ais_record_pack c) ≡ c
unfolding ais_record_pack ais_record_unpack bytes_of
ais_record-round_trip c small = ground (arith, (number_of-bytes_of c.own_mmsi).0 small)
