-- ===== src/Web/Update/Unchanged.antt =====
-- src/web_app.c: a setting that a request does not give stays, and is no change.
use esp_nmea_bridge.Prelude.{
  ℕ, ◌≡◌, refl, Bool, true, false, ◌||◌, Option, none, some, arith, bool_differs, ◌!=◌,
}
use esp_nmea_bridge.Prelude.CString.{Bytes, cstr, str_equal, bytes_eq_refl}
use esp_nmea_bridge.Config.{Ais, Sta, Ap, System, TcpClient}
use esp_nmea_bridge.Config.Set.{ais_changed, tcp_changed, sta_changed, ap_changed, system_changed}
use esp_nmea_bridge.Web.Payload.{
  Payload, given, fields_ais, fields_sta, fields_tcp, fields_ap, merge_sta, merge_ap, merge_system,
  merge_ais, merge_tcp, or_keep, or_keep_text, merge_psk,
}

differs_refl : (b : Bool) → bool_differs b b ≡ false
differs_refl true = refl
differs_refl false = refl

str_equal_refl : (s : Bytes) → str_equal s s ≡ true
unfolding str_equal
str_equal_refl s = bytes_eq_refl (cstr s)

ne_refl : (n : ℕ) → (n != n) ≡ false
ne_refl n = ground arith

pub ais_changed_refl : (a : Ais) → ais_changed a a ≡ false
unfolding ais_changed
ais_changed_refl a = rw (differs_refl a.filter_enabled, ne_refl a.own_mmsi) refl

pub tcp_changed_refl : (a : TcpClient) → tcp_changed a a ≡ false
unfolding tcp_changed
tcp_changed_refl a = rw (differs_refl a.enabled, ne_refl a.port, str_equal_refl a.host) refl

pub sta_changed_refl : (a : Sta) → sta_changed a a ≡ false
unfolding sta_changed
sta_changed_refl a =
    rw
      (
        differs_refl a.enabled,
        differs_refl a.rotate_mac,
        str_equal_refl a.ssid,
        str_equal_refl a.psk,
      )
      refl

pub ap_changed_refl : (a : Ap) → ap_changed a a ≡ false
unfolding ap_changed
ap_changed_refl a = rw (str_equal_refl a.ssid, str_equal_refl a.psk) refl

pub system_changed_refl : (a : System) → system_changed a a ≡ false
unfolding system_changed
system_changed_refl a = rw (str_equal_refl a.hostname) refl

-- What a request does not give stays.
or_keep-none : {A : Type 0} → (o : Option A) (now : A) → given o ≡ false → or_keep o now ≡ now
unfolding or_keep
or_keep-none none now h = refl
or_keep-none (some next) now h = cc

or_keep_text-none : (o : Option Bytes) (now : Bytes) → given o ≡ false → or_keep_text o now ≡ now
unfolding or_keep_text
or_keep_text-none none now h = refl
or_keep_text-none (some next) now h = cc

merge_psk-none :
    (clear : Option Bool) (psk : Option Bytes) (now : Bytes)
    → given clear ≡ false
    → given psk ≡ false
    → merge_psk clear psk now ≡ now
unfolding merge_psk
merge_psk-none none none now h k = refl
merge_psk-none (some b) psk now h k = cc
merge_psk-none none (some psk) now h k = cc

pub or_false : (a b : Bool) → (a || b) ≡ false → (a ≡ false) × (b ≡ false)
or_false true b h = cc
or_false false b h = (refl, h)

none_of : {A : Type 0} → (o : Option A) → given o ≡ false → o ≡ none
none_of none h = refl
none_of (some x) h = cc

pub keep_sta : (p : Payload) (a : Sta) → fields_sta p ≡ false → merge_sta p a ≡ a
unfolding fields_sta merge_sta
keep_sta p a h =
    let (h4, e5) = or_false _ _ h in
    let (h3, e4) = or_false _ _ h4 in
    let (h2, e3) = or_false _ _ h3 in
    let (e1, e2) = or_false _ _ h2 in
    rw
      (
        merge_sta,
        or_keep-none p.sta_enabled a.enabled e1,
        or_keep_text-none p.sta_ssid a.ssid e2,
        merge_psk-none p.sta_psk_clear p.sta_psk a.psk e4 e3,
        or_keep-none p.sta_rotate_mac a.rotate_mac e5,
      )
      refl

pub keep_ap : (p : Payload) (a : Ap) → fields_ap p ≡ false → merge_ap p a ≡ a
unfolding fields_ap merge_ap
keep_ap p a h =
    let (h2, e3) = or_false _ _ h in
    let (e1, e2) = or_false _ _ h2 in
    rw
      (
        merge_ap,
        or_keep_text-none p.ap_ssid a.ssid e1,
        merge_psk-none p.ap_psk_clear p.ap_psk a.psk e3 e2,
      )
      refl

pub keep_system : (p : Payload) (a : System) → given p.hostname ≡ false → merge_system p a ≡ a
unfolding merge_system
keep_system p a h = rw (or_keep_text-none p.hostname a.hostname h) refl

pub keep_ais : (p : Payload) (a : Ais) → fields_ais p ≡ false → merge_ais p a ≡ a
unfolding fields_ais merge_ais
keep_ais p a h =
    let (e1, e2) = or_false _ _ h in
    rw (merge_ais, or_keep-none p.ais_filter_enabled a.filter_enabled e1, none_of p.ais_own_mmsi e2)
      refl

pub keep_tcp : (p : Payload) (a : TcpClient) → fields_tcp p ≡ false → merge_tcp p a ≡ a
unfolding fields_tcp merge_tcp
keep_tcp p a h =
    let (h2, e3) = or_false _ _ h in
    let (e1, e2) = or_false _ _ h2 in
    rw
      (
        merge_tcp,
        or_keep-none p.tcp_client_enabled a.enabled e1,
        or_keep_text-none p.tcp_client_host a.host e2,
        none_of p.tcp_client_port e3,
      )
      refl
