-- ===== src/Wifi/Retry.antt =====
-- `sta_retry_thread` of src/wifi_manager.c. A step is what the thread does between two sleeps or
-- around the connection request, where the event handlers of another thread may come between; a
-- handler takes effect at once.
use esp_nmea_bridge.Prelude.{
  ℕ, ◌*◌, Bool, false, not, ◌||◌, List, [], ◌∷◌, ◌==◌, min, if◌then◌else◌,
}
use esp_nmea_bridge.Prelude.Byte.{u32}
use esp_nmea_bridge.Prelude.CString.{strlen}
use esp_nmea_bridge.Config.{Sta, Ap, Ret}
use esp_nmea_bridge.Wifi.{Wifi}
use esp_nmea_bridge.Wifi.Request.{
  Call, wifi_connect, disconnect_sta, connect_guard, connect_answer, returns, asks, Guarded,
}

-- Where `sta_retry_thread` stands: before each look at the flags, before the disconnection, before
-- the connection request, behind it with its result, and at the end.
pub data RetryPc : Type 0 where
  starting checking looping backing_off disconnecting settling : RetryPc
  requested : Ret → RetryPc
  finished : RetryPc

-- A step: where it comes to, the state, the calls, and how long it sleeps at its end.
pub record Step : Type 0 where
  pub pc : RetryPc
  pub wifi : Wifi
  pub calls : List Call
  pub sleep_ms : ℕ

abbrev goes : RetryPc → Wifi → ℕ → Step
goes pc w ms = record { pc = pc; wifi = w; calls = []; sleep_ms = ms }

-- `MIN(sta_retry_backoff_s * 2U, 60U)`
unfoldable pub longer : Wifi → Wifi
longer w = record w { sta_retry_backoff_s = min (u32 (w.sta_retry_backoff_s * 2)) 60 }

-- The station needs no connection request.
abbrev pub busy : Wifi → Bool
busy w = w.sta_connected || w.sta_connect_requested

unfoldable pub settle : Ret → Wifi → Guarded → Step
settle ret w (returns r) = goes looping (longer w) 0
settle ret w (asks req) = record {
  pc = requested ret;
  wifi = w;
  calls = wifi_connect req ∷ [];
  sleep_ms = 0;
}

-- `sta_retry_thread`, a step, for what a connection request returns.
unfoldable pub retry_step : Ret → RetryPc → Wifi → Step
retry_step ret starting w = if w.sta_retry_enabled then goes checking w 0 else goes starting w 1000
retry_step ret checking w =
    if not w.sta_cfg.enabled || strlen w.sta_cfg.ssid == 0
    then goes finished w 0
    else goes looping w 0
retry_step ret looping w =
    if busy w then goes looping w 1000 else goes backing_off w (w.sta_retry_backoff_s * 1000)
retry_step ret backing_off w = if busy w then goes looping w 0 else goes disconnecting w 0
retry_step ret disconnecting w = record {
  pc = settling;
  wifi = w;
  calls = disconnect_sta w;
  sleep_ms = 500;
}
retry_step ret settling w = settle ret w (connect_guard w)
retry_step ret (requested r) w =
    let (after, calls) = connect_answer r w in
    record { pc = looping; wifi = longer after; calls = calls; sleep_ms = 0 }
retry_step ret finished w = goes finished w 0

-- The state before `wifi_manager_start`.
unfoldable pub wifi_boot : Sta → Ap → Wifi
wifi_boot no_sta no_ap = record {
  ap_iface = 0;
  sta_iface = 0;
  sta_cfg = no_sta;
  ap_cfg = no_ap;
  sta_connected = false;
  sta_has_addr = false;
  sta_ipv4_logged = false;
  sta_connect_requested = false;
  sta_retry_enabled = false;
  sta_retry_backoff_s = 5;
}
