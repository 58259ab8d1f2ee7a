-- ===== src/Config.antt =====
-- src/bridge_config.c and bridge_config.h: the configuration, its checks, its stored records.
-- A `char` array is the list of all its bytes; where only its text matters, that is taken by `cstr`.
pub mod Valid
pub mod Record
pub mod Store
pub mod Set
pub mod Load
pub mod Reset
pub mod Tests
use esp_nmea_bridge.Prelude.{ℕ, Bool, ◌≡◌, ◌⊎◌, inl, inr, refl}
use esp_nmea_bridge.Prelude.CString.{Bytes}

abbrev pub ais_mmsi_max : ℕ
ais_mmsi_max = 999999999

abbrev pub wifi_ssid_max : ℕ
wifi_ssid_max = 32

abbrev pub wifi_psk_min : ℕ
wifi_psk_min = 8

abbrev pub wifi_psk_max : ℕ
wifi_psk_max = 63

abbrev pub tcp_client_host_max : ℕ
tcp_client_host_max = 15

abbrev pub hostname_max : ℕ
hostname_max = 32

-- `struct bridge_config_ais`
pub record Ais : Type 0 where
  pub filter_enabled : Bool
  pub own_mmsi : ℕ

-- `struct bridge_config_sta`
pub record Sta : Type 0 where
  pub enabled : Bool
  pub rotate_mac : Bool
  pub ssid : Bytes
  pub psk : Bytes

-- `struct bridge_config_ap`
pub record Ap : Type 0 where
  pub ssid : Bytes
  pub psk : Bytes

-- `struct bridge_config_system`
pub record System : Type 0 where
  pub hostname : Bytes

-- `struct bridge_config_tcp_client`
pub record TcpClient : Type 0 where
  pub enabled : Bool
  pub host : Bytes
  pub port : ℕ

-- The statics of bridge_config.c; `listener` says that one is set.
pub record Config : Type 0 where
  pub ais : Ais
  pub sta : Sta
  pub ap : Ap
  pub system_cfg : System
  pub tcp_client : TcpClient
  pub reboot_required : Bool
  pub factory_reset_pending : Bool
  pub listener : Bool

-- An `int` result: 0, or the negative of an error number (the numbers of Zephyr's C library).
pub data Ret : Type 0 where
  ok : Ret
  error : ℕ → Ret

pub Ret-cases : (r : Ret) → (r ≡ ok) ⊎ ((e : ℕ) × (r ≡ error e))
Ret-cases ok = inl refl
Ret-cases (error e) = inr (e, refl)

abbrev pub enoent : Ret
enoent = error 2

abbrev pub einval : Ret
einval = error 22

abbrev pub enametoolong : Ret
enametoolong = error 91

-- `bridge_config_set_listener` and `bridge_config_reboot_required`
unfoldable pub set_listener : Config → Bool → Config
set_listener c new_listener = record c { listener = new_listener }

unfoldable pub reboot_required : Config → Bool
reboot_required c = c.reboot_required

-- `bridge_config_get_ais`, `_get_tcp_client`, `_get_sta`, `_get_ap` and `_get_system`, with an `out`
-- that is not null
unfoldable pub get_ais : Config → Ais
get_ais c = c.ais

unfoldable pub get_tcp_client : Config → TcpClient
get_tcp_client c = c.tcp_client

unfoldable pub get_sta : Config → Sta
get_sta c = c.sta

unfoldable pub get_ap : Config → Ap
get_ap c = c.ap

unfoldable pub get_system : Config → System
get_system c = c.system_cfg
