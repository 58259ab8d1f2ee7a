-- ===== src/Main.antt =====
-- src/main.c: the order of the start-up, and the listener that carries a change of the configuration to
-- the UART receiver and to the TCP client. What the parts' start functions return is an argument; the
-- parts themselves are in their own modules.
pub mod InStep
mod Tests
use esp_nmea_bridge.Prelude.{
  ℕ, ◌+◌, Bool, true, false, List, [], ◌∷◌, ◌++◌, Option, none, some, if◌then◌else◌,
}
use esp_nmea_bridge.Prelude.Byte.{u32}
use esp_nmea_bridge.Prelude.CString.{Bytes, cstr}
use esp_nmea_bridge.Config.{Ais, Sta, Ap, System, TcpClient, Config, Ret, ok, error, set_listener}
use esp_nmea_bridge.Config.Store.{Settings, Key}
use esp_nmea_bridge.Config.Load.{init}
use esp_nmea_bridge.Config.Set.{Outcome, set_ais, set_tcp_client, set_sta, set_ap, set_system}
use esp_nmea_bridge.Uart
use esp_nmea_bridge.Client.{client_changed}

-- The configuration and its store, the atomic that the UART receiver reads, and what the TCP client
-- keeps of the configuration.
pub record App (S : Type 0) : Type 0 where
  pub config : Config
  pub store : S
  pub own_mmsi : ℕ
  pub seen_cfg : Option TcpClient
  pub config_gen : ℕ

module _ {S : Type 0} where
  -- `tcp_nmea_client_config_changed`, as one step.
  unfoldable pub client_config_changed : App S → App S
  client_config_changed a = record a {
    seen_cfg = some a.config.tcp_client;
    config_gen =
        if client_changed a.seen_cfg a.config.tcp_client
        then u32 (a.config_gen + 1)
        else a.config_gen;
  }

  unfoldable pub bridge_config_changed : App S → App S
  bridge_config_changed a = client_config_changed (record a {
    own_mmsi = Uart.set_ais_config a.config.ais.filter_enabled a.config.ais.own_mmsi;
  })

  -- What a setter leaves: the statics and the store, and the call of the listener.
  unfoldable pub commit_outcome : App S → Outcome S → App S
  commit_outcome a o =
      let after = record a { config = o.config; store = o.store } in
      if o.notified then bridge_config_changed after else after

-- A call of a setter of bridge_config.c.
pub data Change : Type 0 where
  change_ais : Option Ais → Change
  change_tcp_client : Option TcpClient → Change
  change_sta : Option Sta → Change
  change_ap : Option Ap → Change
  change_system : Option System → Change

-- The parts that `main` starts, with the hostname that `apply_hostname` sets.
pub data Part : Type 0 where
  nmea_bridge bridge_config config_listener status_led uart wifi tcp_server tcp_client web_app :
      Part
  hostname : Bytes → Part

-- What `main` meets: the statics at boot, the results and the stored keys for `bridge_config_init`,
-- CONFIG_NET_HOSTNAME_DYNAMIC, and the result of `uart_nmea_start`.
pub record Boot (S : Type 0) : Type 0 where
  pub defaults : Config
  pub store : S
  pub subsys : Ret
  pub loaded : Ret
  pub entries : List (Key × Option Bytes)
  pub has_hostname : Bool
  pub uart : Ret

unfoldable pub apply_hostname : Bool → Config → List Part
apply_hostname has_hostname c =
    if has_hostname then hostname (cstr c.system_cfg.hostname) ∷ [] else []

-- The end of `main` behind `uart_nmea_start`, whose failure ends it; the later ones are only logged.
unfoldable pub start_parts : Ret → Ret × List Part
start_parts ok = (ok, uart ∷ wifi ∷ tcp_server ∷ tcp_client ∷ web_app ∷ [])
start_parts (error e) = (error e, uart ∷ [])

module _ {S : Type 0} where
  -- The configuration from `bridge_config_init` to the first `bridge_config_changed`.
  unfoldable pub configure : Boot S → App S
  configure b = bridge_config_changed (record {
    config = set_listener (init b.defaults b.subsys b.loaded b.entries).0 true;
    store = b.store;
    own_mmsi = 0;
    seen_cfg = none;
    config_gen = 0;
  })

  unfoldable pub main : Boot S → Ret × App S × List Part
  main b =
      let a = configure b in
      let (ret, parts) = start_parts b.uart in
      (
        ret,
        a,
        nmea_bridge ∷ bridge_config ∷ config_listener ∷ apply_hostname b.has_hostname a.config
            ++ status_led ∷ parts,
      )

module _ {S : Type 0} (settings : Settings S) where
  unfoldable pub setter : Change → Config → S → Outcome S
  setter (change_ais v) c s = set_ais settings c s v
  setter (change_tcp_client v) c s = set_tcp_client settings c s v
  setter (change_sta v) c s = set_sta settings c s v
  setter (change_ap v) c s = set_ap settings c s v
  setter (change_system v) c s = set_system settings c s v

  unfoldable pub apply_changes : App S → List Change → App S
  apply_changes a [] = a
  apply_changes a (ch ∷ chs) = apply_changes (commit_outcome a (setter ch a.config a.store)) chs
