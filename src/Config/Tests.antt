-- ===== src/Config/Tests.antt =====
-- A settings store and a key store, and the theorems at concrete settings.
use esp_nmea_bridge.Prelude.{
  ℕ, zero, suc, ◌≡◌, ◌≢◌, refl, sym, ◌∙◌, Bool, true, false, ◌&&◌, ◌||◌, [], ◌∷◌, Option, none,
  some, ◌==◌, if◌then◌else◌, replicate, arith, Bool-cases, inl, inr, &&-true, ==_iff, ==_refl, ap₂,
}
use esp_nmea_bridge.Prelude.CString.{
  Bytes, cstr, strlen, terminated, bytes_eq, bytes_eq_sound, bytes_eq_refl, str_equal,
}
use esp_nmea_bridge.Config.{Ais, Sta, Ap, System, TcpClient, Config, ok}
use esp_nmea_bridge.Config.Valid.{
  tcp_client_host_valid, text_valid, scan_digits, scan_octet, scan_octets, scan_text, lead_cont,
}
use esp_nmea_bridge.Config.Record.RoundTrip.{canonical}
use esp_nmea_bridge.Config.Store.{Settings, Key}
use esp_nmea_bridge.Config.Store
use esp_nmea_bridge.Config.Load.{settings_set}
use esp_nmea_bridge.Config.Set.{
  set_ais, set_tcp_client, set_sta, set_ap, set_system, save_and_commit, tcp_accepted, sta_accepted,
  tcp_changed, sta_changed,
}
use esp_nmea_bridge.Config.Set.Live.{set_tcp_client-live}
use esp_nmea_bridge.Config.Set.Reboot.{set_sta-reboot}
use esp_nmea_bridge.Config.Set.Failure.{KeepsOnError, setters-failed}

abbrev tag : Key → ℕ
tag Store.ais = 0
tag Store.sta = 1
tag Store.tcp = 2
tag Store.ap = 3
tag Store.sys = 4
tag (Store.other a) = 5

abbrev name : Key → Bytes
name (Store.other a) = a
name _ = []

abbrev key_of : ℕ → Bytes → Key
key_of zero a = Store.ais
key_of (suc zero) a = Store.sta
key_of (suc (suc zero)) a = Store.tcp
key_of (suc (suc (suc zero))) a = Store.ap
key_of (suc (suc (suc (suc zero)))) a = Store.sys
key_of _ a = Store.other a

key_of-tag : (k : Key) → key_of (tag k) (name k) ≡ k
key_of-tag Store.ais = refl
key_of-tag Store.sta = refl
key_of-tag Store.tcp = refl
key_of-tag Store.ap = refl
key_of-tag Store.sys = refl
key_of-tag (Store.other a) = refl

abbrev key_same : Key → Key → Bool
key_same k j = (tag k == tag j) && bytes_eq (name k) (name j)

key_same_refl : (k : Key) → key_same k k ≡ true
key_same_refl k = rw (==_refl (tag k), bytes_eq_refl (name k)) refl

key_same_sound : (k j : Key) → key_same k j ≡ true → k ≡ j
key_same_sound k j h =
    let (t, n) = &&-true _ _ h in
    sym (key_of-tag k) ∙ ap₂ key_of ((==_iff _ _).0 t) (bytes_eq_sound _ _ n) ∙ key_of-tag j

-- Every call succeeds.
abbrev pub Memory : Type 0
Memory = Key → Option Bytes

abbrev pub set_key : Memory → Key → Option Bytes → Memory
set_key s k v j = if key_same k j then v else s j

pub set_key-same : (s : Memory) (k : Key) (v : Option Bytes) → set_key s k v k ≡ v
set_key-same s k v = rw (key_same_refl k) refl

pub set_key-other : (s : Memory) (k j : Key) (v : Option Bytes) → k ≢ j → set_key s k v j ≡ s j
set_key-other s k j v d = elim (Bool-cases (key_same k j)) [
  | inl e ↦ absurd (d (key_same_sound k j e))
  | inr e ↦ rw e refl
]

abbrev pub memory : Settings Memory
memory = record {
  save_one = λ s k v. (ok, set_key s k (some v));
  delete = λ s k. (ok, set_key s k none);
  value = λ s k. s k;
  save_stores = λ s k v h. set_key-same s k (some v);
  save_others = λ s k j v h d. set_key-other s k j (some v) d;
  delete_removes = λ s k h. set_key-same s k none;
  delete_others = λ s k j h d. set_key-other s k j none d;
}

abbrev pub empty : Memory
empty k = none

abbrev pub blank : ℕ → Bytes
blank n = replicate n 0

abbrev pub config : Config
config = record {
  ais = record { filter_enabled = false; own_mmsi = 0 };
  sta = record { enabled = false; rotate_mac = false; ssid = blank 33; psk = blank 64 };
  ap = record { ssid = 97 ∷ blank 32; psk = blank 64 };
  system_cfg = record { hostname = 97 ∷ blank 32 };
  tcp_client = record { enabled = false; host = blank 16; port = 10110 };
  reboot_required = false;
  factory_reset_pending = false;
  listener = true;
}

abbrev next_sta : Sta
next_sta = record {
  enabled = true;
  rotate_mac = true;
  ssid = 98 ∷ 0 ∷ 7 ∷ blank 30;
  psk = blank 64;
}

abbrev next_ap : Ap
next_ap = record { ssid = 98 ∷ 0 ∷ 7 ∷ blank 30; psk = blank 64 }

abbrev next_system : System
next_system = record { hostname = 98 ∷ 45 ∷ 99 ∷ 0 ∷ 7 ∷ blank 28 }

-- "1.2.3.4"
abbrev next_tcp : TcpClient
next_tcp = record {
  enabled = true;
  host = 49 ∷ 46 ∷ 50 ∷ 46 ∷ 51 ∷ 46 ∷ 52 ∷ 0 ∷ 7 ∷ blank 7;
  port = 10110;
}

abbrev next_ais : Ais
next_ais = record { filter_enabled = true; own_mmsi = 123456789 }

sta-changed : (config.factory_reset_pending || sta_changed config.sta next_sta) ≡ true
unfolding sta_changed
sta-changed = refl

sta-ok : (set_sta memory config empty (some next_sta)).ret ≡ ok
unfolding set_sta sta_accepted sta_changed save_and_commit terminated cstr strlen str_equal bytes_eq
    text_valid scan_text lead_cont
sta-ok = refl

tcp-changed : (config.factory_reset_pending || tcp_changed config.tcp_client next_tcp) ≡ true
unfolding tcp_changed
tcp-changed = refl

tcp-ok : (set_tcp_client memory config empty (some next_tcp)).ret ≡ ok
unfolding set_tcp_client tcp_accepted tcp_changed save_and_commit terminated cstr strlen str_equal
    bytes_eq tcp_client_host_valid scan_octets scan_octet scan_digits
tcp-ok = refl

set_sta-reboot_example :
    let o = set_sta memory config empty (some next_sta) in
    (o.config ≡ record config { sta = next_sta; reboot_required = true })
    × ((settings_set config Key.sta (memory.value o.store Key.sta)).0 ≡ record config {
      sta = record next_sta { ssid = canonical 33 next_sta.ssid; psk = canonical 64 next_sta.psk };
    })
set_sta-reboot_example =
    set_sta-reboot memory config config empty next_sta refl refl sta-changed sta-ok

set_tcp_client-live_example :
    let o = set_tcp_client memory config empty (some next_tcp) in
    (o.config ≡ record config { tcp_client = next_tcp })
    × ((settings_set config Key.tcp (memory.value o.store Key.tcp)).0
        ≡ record config { tcp_client = record next_tcp { host = canonical 16 next_tcp.host } })
    × (o.notified ≡ (tcp_changed config.tcp_client next_tcp && config.listener))
set_tcp_client-live_example =
    set_tcp_client-live memory config config empty next_tcp refl (omega arith) tcp-changed tcp-ok

setters-failed_example :
    KeepsOnError config (set_sta memory config empty none)
    × KeepsOnError config (set_ap memory config empty (some next_ap))
    × KeepsOnError config (set_system memory config empty none)
    × KeepsOnError config (set_tcp_client memory config empty (some next_tcp))
    × KeepsOnError config (set_ais memory config empty none)
setters-failed_example =
    setters-failed memory config empty none (some next_ap) none (some next_tcp) none
