-- ===== src/Web/Update/Refused.antt =====
-- src/web_app.c: every check of a configuration request refuses with 400.
use Prim.Native.String.{String}
use esp_nmea_bridge.Prelude.{
  ◌≡◌, refl, Bool, true, false, not, ◌||◌, Option, none, some, List, [], ◌∷◌, ltb, All,
  if◌then◌else◌,
}
use esp_nmea_bridge.Prelude.CString.{Bytes, strlen, cstr}
use esp_nmea_bridge.Config.Valid.{text_valid}
use esp_nmea_bridge.Config.{Sta, wifi_ssid_max}
use esp_nmea_bridge.Web.Reply.{Reply, bad_request_400}
use esp_nmea_bridge.Web.Payload.{
  ℤ, pos, negsuc, refuse, mmsi_error, ssid_error, psk_error, clear_error, hostname_error,
  host_error, port_error, first_error, Payload, validate, enable_error,
}

-- A check that refuses, does so with 400.
abbrev pub Refuses : Option Reply → Type 0
Refuses none = Unit
Refuses (some r) = r.status ≡ bad_request_400

if-Refuses :
    (b : Bool) (field message : String) (r : Option Reply)
    → Refuses r
    → Refuses (if b then refuse field message else r)
if-Refuses true field message r h = refl
if-Refuses false field message r h = h

first_error-Refuses :
    (checks : List (Option Reply)) → All Refuses checks → Refuses (first_error checks)
unfolding first_error
first_error-Refuses [] h = tt
first_error-Refuses (none ∷ checks) (_, h) = first_error-Refuses checks h
first_error-Refuses (some r ∷ checks) (h, _) = h

mmsi_error-Refuses : (n : Option ℤ) → Refuses (mmsi_error n)
unfolding mmsi_error
mmsi_error-Refuses none = tt
mmsi_error-Refuses (some (negsuc n)) = refl
mmsi_error-Refuses (some (pos n)) = if-Refuses _ _ _ none tt

ssid_error-Refuses : (field : String) (s : Option Bytes) → Refuses (ssid_error field s)
unfolding ssid_error
ssid_error-Refuses field none = tt
ssid_error-Refuses field (some s) =
    if-Refuses (ltb (strlen s) 1 || ltb wifi_ssid_max (strlen s)) field "must be 1 to 32 bytes"
      (if not (text_valid (cstr s)) then refuse field "must be printable UTF-8" else none)
      (if-Refuses (not (text_valid (cstr s))) field "must be printable UTF-8" none tt)

psk_error-Refuses : (field : String) (s : Option Bytes) → Refuses (psk_error field s)
unfolding psk_error
psk_error-Refuses field none = tt
psk_error-Refuses field (some s) = if-Refuses _ _ _ none tt

clear_error-Refuses :
    (field : String) (clear : Option Bool) (s : Option Bytes) → Refuses (clear_error field clear s)
unfolding clear_error
clear_error-Refuses field clear none = tt
clear_error-Refuses field clear (some s) = if-Refuses _ _ _ none tt

hostname_error-Refuses : (s : Option Bytes) → Refuses (hostname_error s)
unfolding hostname_error
hostname_error-Refuses none = tt
hostname_error-Refuses (some s) = if-Refuses _ _ _ none tt

host_error-Refuses : (s : Option Bytes) → Refuses (host_error s)
unfolding host_error
host_error-Refuses none = tt
host_error-Refuses (some s) = if-Refuses _ _ _ none tt

port_error-Refuses : (n : Option ℤ) → Refuses (port_error n)
unfolding port_error
port_error-Refuses none = tt
port_error-Refuses (some (negsuc n)) = refl
port_error-Refuses (some (pos n)) = if-Refuses _ _ _ none tt

pub validate-Refuses : (p : Payload) → Refuses (validate p)
unfolding validate
validate-Refuses p = first_error-Refuses _ (
  mmsi_error-Refuses p.ais_own_mmsi,
  (
    ssid_error-Refuses "sta_ssid" p.sta_ssid,
    (
      psk_error-Refuses "sta_psk" p.sta_psk,
      (
        clear_error-Refuses "sta_psk_clear" p.sta_psk_clear p.sta_psk,
        (
          ssid_error-Refuses "ap_ssid" p.ap_ssid,
          (
            psk_error-Refuses "ap_psk" p.ap_psk,
            (
              clear_error-Refuses "ap_psk_clear" p.ap_psk_clear p.ap_psk,
              (
                hostname_error-Refuses p.hostname,
                (host_error-Refuses p.tcp_client_host, (port_error-Refuses p.tcp_client_port, tt)),
              ),
            ),
          ),
        ),
      ),
    ),
  ),
)

pub enable_error-Refuses : (p : Payload) (merged : Sta) → Refuses (enable_error p merged)
unfolding enable_error
enable_error-Refuses p merged = if-Refuses _ _ _ none tt
