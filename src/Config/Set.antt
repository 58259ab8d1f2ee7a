-- ===== src/Config/Set.antt =====
-- The setters of bridge_config.c. Each gives its result, the configuration, the settings store, and
-- whether the listener was called. The setters run on one thread, so no other write comes between
-- the two locked sections of a setter. A pointer that is null is `none`.
pub mod Persist
pub mod Reboot
pub mod Live
pub mod Failure
use esp_nmea_bridge.Prelude.{
  ℕ, ◌+◌, Bool, true, false, not, ◌&&◌, ◌||◌, List, [], ◌∷◌, Option, none, some, ltb, ◌==◌, ◌!=◌,
  if◌then◌else◌, bool_differs,
}
use esp_nmea_bridge.Prelude.CString.{Bytes, cstr, strlen, terminated, str_equal}
use esp_nmea_bridge.Config.{
  Ais, Sta, Ap, System, TcpClient, Config, Ret, ok, error, einval, ais_mmsi_max,
}
use esp_nmea_bridge.Config.Valid.{tcp_client_host_valid, text_valid, hostname_valid}
use esp_nmea_bridge.Config.Record.{
  ais_record_pack, sta_record_pack, ap_record_pack, sys_record_pack, tcp_record_pack, bad_psk_len,
}
use esp_nmea_bridge.Config.Store.{Settings, Key}
use esp_nmea_bridge.Config.Store

-- `ret`, the statics, the store, and whether the listener was called.
pub record Outcome (S : Type 0) : Type 0 where
  pub ret : Ret
  pub config : Config
  pub store : S
  pub notified : Bool

-- The guards of the setters: `true` where the value is accepted.
unfoldable pub ais_accepted : Ais → Bool
ais_accepted next = not (ltb ais_mmsi_max next.own_mmsi)

unfoldable pub tcp_accepted : TcpClient → Bool
tcp_accepted next =
    terminated next.host && tcp_client_host_valid (cstr next.host) && not (next.port == 0)

unfoldable pub sta_accepted : Sta → Bool
sta_accepted next =
    terminated next.ssid
    && terminated next.psk
    && text_valid (cstr next.ssid)
    && not (bad_psk_len (strlen next.psk))

unfoldable pub ap_accepted : Ap → Bool
ap_accepted next =
    terminated next.ssid
    && terminated next.psk
    && text_valid (cstr next.ssid)
    && not (strlen next.ssid == 0 || bad_psk_len (strlen next.psk))

unfoldable pub system_accepted : System → Bool
system_accepted next = terminated next.hostname && hostname_valid (cstr next.hostname)

-- `value_changed` of the setters.
unfoldable pub ais_changed : Ais → Ais → Bool
ais_changed now next =
    bool_differs now.filter_enabled next.filter_enabled || now.own_mmsi != next.own_mmsi

unfoldable pub tcp_changed : TcpClient → TcpClient → Bool
tcp_changed now next =
    bool_differs now.enabled next.enabled
    || now.port != next.port
    || not (str_equal now.host next.host)

unfoldable pub sta_changed : Sta → Sta → Bool
sta_changed now next =
    bool_differs now.enabled next.enabled
    || bool_differs now.rotate_mac next.rotate_mac
    || not (str_equal now.ssid next.ssid)
    || not (str_equal now.psk next.psk)

unfoldable pub ap_changed : Ap → Ap → Bool
ap_changed now next = not (str_equal now.ssid next.ssid) || not (str_equal now.psk next.psk)

unfoldable pub system_changed : System → System → Bool
system_changed now next = not (str_equal now.hostname next.hostname)

module _ {S : Type 0} (settings : Settings S) where
  open settings use {save_one}

  -- The common end of the setters, behind the guard: nothing to do, or save, and commit what was
  -- saved. `changed` is computed before, `commit` is the second locked section.
  unfoldable pub save_and_commit :
      Config → S → Bool → Key → Bytes → (Config → Config) → Bool → Outcome S
  save_and_commit c s changed key bytes commit notify =
      if not changed
      then record { ret = ok; config = c; store = s; notified = false }
      else (let (ret, s') = save_one s key bytes in
          elim ret [
            | error e ↦ record { ret = error e; config = c; store = s'; notified = false }
            | ok ↦ record {
              ret = ok;
              config = commit c;
              store = s';
              notified = notify && c.listener;
            }
          ])

  unfoldable pub rejected : Config → S → Outcome S
  rejected c s = record { ret = einval; config = c; store = s; notified = false }

  -- `bridge_config_set_ais`
  unfoldable pub set_ais : Config → S → Option Ais → Outcome S
  unfolding rejected
  set_ais c s none = rejected c s
  set_ais c s (some next) =
      let value_changed = ais_changed c.ais next in
      if not (ais_accepted next)
      then rejected c s
      else save_and_commit c s (c.factory_reset_pending || value_changed) Store.ais
          (ais_record_pack next) (λ d. record d { ais = next }) value_changed

  -- `bridge_config_set_tcp_client`
  unfoldable pub set_tcp_client : Config → S → Option TcpClient → Outcome S
  unfolding rejected
  set_tcp_client c s none = rejected c s
  set_tcp_client c s (some next) =
      let value_changed = tcp_changed c.tcp_client next in
      if not (tcp_accepted next)
      then rejected c s
      else save_and_commit c s (c.factory_reset_pending || value_changed) Store.tcp
          (tcp_record_pack next) (λ d. record d { tcp_client = next }) value_changed

  -- `bridge_config_set_sta`
  unfoldable pub set_sta : Config → S → Option Sta → Outcome S
  unfolding rejected
  set_sta c s none = rejected c s
  set_sta c s (some next) =
      if not (sta_accepted next)
      then rejected c s
      else save_and_commit c s (c.factory_reset_pending || sta_changed c.sta next) Store.sta
          (sta_record_pack next) (λ d. record d { sta = next; reboot_required = true }) false

  -- `bridge_config_set_ap`
  unfoldable pub set_ap : Config → S → Option Ap → Outcome S
  unfolding rejected
  set_ap c s none = rejected c s
  set_ap c s (some next) =
      if not (ap_accepted next)
      then rejected c s
      else save_and_commit c s (c.factory_reset_pending || ap_changed c.ap next) Store.ap
          (ap_record_pack next) (λ d. record d { ap = next; reboot_required = true }) false

  -- `bridge_config_set_system`
  unfoldable pub set_system : Config → S → Option System → Outcome S
  unfolding rejected
  set_system c s none = rejected c s
  set_system c s (some next) =
      if not (system_accepted next)
      then rejected c s
      else save_and_commit c s (c.factory_reset_pending || system_changed c.system_cfg next)
          Store.sys (sys_record_pack next)
          (λ d. record d { system_cfg = next; reboot_required = true }) false
