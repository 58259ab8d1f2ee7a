-- ===== src/Wifi/System.antt =====
-- The states of src/wifi_manager.c: `wifi_manager_start` on the main thread, `sta_retry_thread`, the
-- handlers of the events and `wifi_manager_sta_ready`, each at any time. No lock is held, so that the
-- writes of two threads can fall between each other: the flags can also be written at any time, each
-- with any value, and the back-off with 5 or with what follows one that was read before.
use esp_nmea_bridge.Prelude.{ℕ, Bool}
use esp_nmea_bridge.Config.{Sta, Ap, Ret}
use esp_nmea_bridge.Wifi.{
  Net, Wifi, Event, wifi_event_handler, ipv4_event_handler, wifi_manager_sta_ready,
}
use esp_nmea_bridge.Wifi.Retry.{RetryPc, starting, retry_step, wifi_boot, longer}
use esp_nmea_bridge.Wifi.Start.{StartEnv, StartPc, entering, start_step}

-- What the four flags are written with: a write of one leaves the others as they are.
pub record Flags : Type 0 where
  pub connected : Bool
  pub has_addr : Bool
  pub ipv4_logged : Bool
  pub connect_requested : Bool

pub data Reaches (env : StartEnv) : StartPc → RetryPc → Wifi → Type 0 where
  boots : (no_sta : Sta) (no_ap : Ap) → Reaches env entering starting (wifi_boot no_sta no_ap)
  starts :
      {here : StartPc} {pc : RetryPc} {w : Wifi}
      → Reaches env here pc w
      → Reaches env (start_step env here w).0 pc (start_step env here w).1
  retries :
      {here : StartPc} {pc : RetryPc} {w : Wifi} (ret : Ret)
      → Reaches env here pc w
      → Reaches env here (retry_step ret pc w).pc (retry_step ret pc w).wifi
  hears :
      {here : StartPc} {pc : RetryPc} {w : Wifi} (net : Net) (e : Event) (iface : ℕ)
      → Reaches env here pc w
      → Reaches env here pc (wifi_event_handler net e iface w)
  hears_ipv4 :
      {here : StartPc} {pc : RetryPc} {w : Wifi} (net : Net) (e : Event) (iface : ℕ)
      → Reaches env here pc w
      → Reaches env here pc (ipv4_event_handler net e iface w)
  answers :
      {here : StartPc} {pc : RetryPc} {w : Wifi} (net : Net)
      → Reaches env here pc w
      → Reaches env here pc (wifi_manager_sta_ready net w).1
  writes :
      {here : StartPc} {pc : RetryPc} {w : Wifi} (flags : Flags)
      → Reaches env here pc w
      → Reaches env here pc (record w {
        sta_connected = flags.connected;
        sta_has_addr = flags.has_addr;
        sta_ipv4_logged = flags.ipv4_logged;
        sta_connect_requested = flags.connect_requested;
      })
  begins_again :
      {here : StartPc} {pc : RetryPc} {w : Wifi}
      → Reaches env here pc w
      → Reaches env here pc (record w { sta_retry_backoff_s = 5 })
  backs_off :
      {here' : StartPc} {pc' : RetryPc} {v : Wifi} {here : StartPc} {pc : RetryPc} {w : Wifi}
      → Reaches env here' pc' v
      → Reaches env here pc w
      → Reaches env here pc (record w { sta_retry_backoff_s = (longer v).sta_retry_backoff_s })
