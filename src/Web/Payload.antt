-- ===== src/Web/Payload.antt =====
-- src/web_app.c: the object that `POST /api/config` takes, its checks, and what it asks for.
use Prim.Native.String.{String}
use esp_nmea_bridge.Prelude.{
  ℕ, ◌+◌, ◌-◌, ◌%◌, ◌^◌, Bool, true, false, not, ◌&&◌, ◌||◌, List, [], ◌∷◌, ◌++◌, Option, none,
  some, ltb, ◌==◌, if◌then◌else◌, length, get_or, drop,
}
use esp_nmea_bridge.Prelude.Byte.{u32}
use esp_nmea_bridge.Prelude.CString.{Bytes, cstr, strlen}
use esp_nmea_bridge.Config.{
  Ais, Sta, Ap, System, TcpClient, ais_mmsi_max, wifi_ssid_max, tcp_client_host_max, hostname_max,
}
use esp_nmea_bridge.Config.Valid.{tcp_client_host_valid, text_valid, hostname_valid}
use esp_nmea_bridge.Config.Record.{bad_psk_len}
use esp_nmea_bridge.Web.Reply.{Reply, reply, bad_request_400, field_error}

-- `int32_t`
pub data ℤ : Type 0 where
  pos negsuc : ℕ → ℤ

-- The cast to `uint32_t`.
unfoldable pub to_u32 : ℤ → ℕ
to_u32 (pos n) = u32 n
to_u32 (negsuc n) = 2 ^ 32 - 1 - u32 n

-- `struct config_payload` with the bits that `json_obj_parse` returns: a field that the object has
-- not is `none`. The texts are the arrays that hold them.
pub record Payload : Type 0 where
  pub ais_filter_enabled : Option Bool
  pub ais_own_mmsi : Option ℤ
  pub sta_enabled : Option Bool
  pub sta_ssid : Option Bytes
  pub sta_psk : Option Bytes
  pub sta_psk_clear : Option Bool
  pub sta_rotate_mac : Option Bool
  pub tcp_client_enabled : Option Bool
  pub tcp_client_host : Option Bytes
  pub tcp_client_port : Option ℤ
  pub ap_ssid : Option Bytes
  pub ap_psk : Option Bytes
  pub ap_psk_clear : Option Bool
  pub hostname : Option Bytes

abbrev pub given : {A : Type 0} → Option A → Bool
given none = false
given (some _) = true

-- The bit of a flag is set, and the flag with it.
abbrev pub given_true : Option Bool → Bool
given_true none = false
given_true (some flag) = flag

-- `fields & CONFIG_FIELDS_AIS` and its siblings.
unfoldable pub fields_ais : Payload → Bool
fields_ais p = given p.ais_filter_enabled || given p.ais_own_mmsi

unfoldable pub fields_sta : Payload → Bool
fields_sta p =
    given p.sta_enabled
    || given p.sta_ssid
    || given p.sta_psk
    || given p.sta_psk_clear
    || given p.sta_rotate_mac

unfoldable pub fields_tcp : Payload → Bool
fields_tcp p = given p.tcp_client_enabled || given p.tcp_client_host || given p.tcp_client_port

unfoldable pub fields_ap : Payload → Bool
fields_ap p = given p.ap_ssid || given p.ap_psk || given p.ap_psk_clear

-- `fields != 0`
unfoldable pub fields_any : Payload → Bool
fields_any p = fields_ais p || fields_sta p || fields_tcp p || fields_ap p || given p.hostname

-- `write_config_field_error`
abbrev pub refuse : String → String → Option Reply
refuse field message = some (reply bad_request_400 (field_error field message))

-- The checks of the fields, `none` where one passes.
unfoldable pub mmsi_error : Option ℤ → Option Reply
mmsi_error none = none
mmsi_error (some (negsuc _)) = refuse "ais_own_mmsi" "must be between 0 and 999999999"
mmsi_error (some (pos n)) =
    if ltb ais_mmsi_max (u32 n)
    then refuse "ais_own_mmsi" "must be between 0 and 999999999"
    else none

unfoldable pub ssid_error : String → Option Bytes → Option Reply
ssid_error field none = none
ssid_error field (some ssid) =
    if ltb (strlen ssid) 1 || ltb wifi_ssid_max (strlen ssid)
    then refuse field "must be 1 to 32 bytes"
    else if not (text_valid (cstr ssid))
    then refuse field "must be printable UTF-8"
    else none

unfoldable pub psk_error : String → Option Bytes → Option Reply
psk_error field none = none
psk_error field (some psk) =
    if bad_psk_len (strlen psk) then refuse field "must be 8 to 63 characters or blank" else none

-- `s[0] != '\0'`
abbrev pub is_text : Bytes → Bool
is_text s = not (get_or s 0 0 == 0)

unfoldable pub clear_error : String → Option Bool → Option Bytes → Option Reply
clear_error field clear none = none
clear_error field clear (some psk) =
    if given_true clear && is_text psk
    then refuse field "cannot be combined with a new password"
    else none

unfoldable pub hostname_error : Option Bytes → Option Reply
hostname_error none = none
hostname_error (some hostname) =
    if ltb hostname_max (strlen hostname) || not (hostname_valid (cstr hostname))
    then refuse "hostname" "must be 1 to 32 lowercase letters, digits, or inner hyphens"
    else none

unfoldable pub host_error : Option Bytes → Option Reply
host_error none = none
host_error (some host) =
    if ltb tcp_client_host_max (strlen host) || not (tcp_client_host_valid (cstr host))
    then refuse "tcp_client_host" "must be an IPv4 address or blank"
    else none

unfoldable pub port_error : Option ℤ → Option Reply
port_error none = none
port_error (some (negsuc _)) = refuse "tcp_client_port" "must be between 1 and 65535"
port_error (some (pos n)) =
    if ltb n 1 || ltb 65535 n then refuse "tcp_client_port" "must be between 1 and 65535" else none

unfoldable pub first_error : List (Option Reply) → Option Reply
first_error [] = none
first_error (none ∷ checks) = first_error checks
first_error (some r ∷ checks) = some r

-- "Validate every provided field before changing anything."
unfoldable pub validate : Payload → Option Reply
validate p = first_error (
    mmsi_error p.ais_own_mmsi
    ∷ ssid_error "sta_ssid" p.sta_ssid
    ∷ psk_error "sta_psk" p.sta_psk
    ∷ clear_error "sta_psk_clear" p.sta_psk_clear p.sta_psk
    ∷ ssid_error "ap_ssid" p.ap_ssid
    ∷ psk_error "ap_psk" p.ap_psk
    ∷ clear_error "ap_psk_clear" p.ap_psk_clear p.ap_psk
    ∷ hostname_error p.hostname
    ∷ host_error p.tcp_client_host
    ∷ port_error p.tcp_client_port
    ∷ [])

-- `strcpy` into an array that is long enough.
unfoldable pub strcpy : Bytes → Bytes → Bytes
strcpy dst src = cstr src ++ 0 ∷ drop (length (cstr src) + 1) dst

-- `dst[0] = '\0'`
unfoldable pub clear_text : Bytes → Bytes
clear_text dst = 0 ∷ drop 1 dst

unfoldable pub or_keep : {A : Type 0} → Option A → A → A
or_keep none now = now
or_keep (some next) now = next

unfoldable pub or_keep_text : Option Bytes → Bytes → Bytes
or_keep_text none now = now
or_keep_text (some next) now = strcpy now next

unfoldable pub merge_psk : Option Bool → Option Bytes → Bytes → Bytes
merge_psk clear none now = if given_true clear then clear_text now else now
merge_psk clear (some psk) now =
    if given_true clear then clear_text now else if is_text psk then strcpy now psk else now

unfoldable pub merge_sta : Payload → Sta → Sta
merge_sta p sta = record {
  enabled = or_keep p.sta_enabled sta.enabled;
  rotate_mac = or_keep p.sta_rotate_mac sta.rotate_mac;
  ssid = or_keep_text p.sta_ssid sta.ssid;
  psk = merge_psk p.sta_psk_clear p.sta_psk sta.psk;
}

-- "Enabling the station without any SSID would silently never connect."
unfoldable pub enable_error : Payload → Sta → Option Reply
enable_error p merged =
    if fields_sta p && given_true p.sta_enabled && not (is_text merged.ssid)
    then refuse "sta_ssid" "required when enabling station mode"
    else none

unfoldable pub merge_ap : Payload → Ap → Ap
merge_ap p ap = record {
  ssid = or_keep_text p.ap_ssid ap.ssid;
  psk = merge_psk p.ap_psk_clear p.ap_psk ap.psk;
}

unfoldable pub merge_system : Payload → System → System
merge_system p system_cfg = record { hostname = or_keep_text p.hostname system_cfg.hostname }

unfoldable pub merge_ais : Payload → Ais → Ais
merge_ais p ais = record {
  filter_enabled = or_keep p.ais_filter_enabled ais.filter_enabled;
  own_mmsi = elim p.ais_own_mmsi [ none ↦ ais.own_mmsi | some n ↦ to_u32 n ];
}

unfoldable pub merge_tcp : Payload → TcpClient → TcpClient
merge_tcp p tcp = record {
  enabled = or_keep p.tcp_client_enabled tcp.enabled;
  host = or_keep_text p.tcp_client_host tcp.host;
  port = elim p.tcp_client_port [ none ↦ tcp.port | some n ↦ to_u32 n % 2 ^ 16 ];
}
