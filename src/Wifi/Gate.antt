-- ===== src/Wifi/Gate.antt =====
-- When the retry thread of src/wifi_manager.c makes connection requests, and for which network.
use esp_nmea_bridge.Prelude.{◌≡◌, Bool, true, false, List, [], ◌∷◌, ◌==◌}
use esp_nmea_bridge.Prelude.CString.{strlen}
use esp_nmea_bridge.Config.{Sta}
use esp_nmea_bridge.Wifi.{Wifi}
use esp_nmea_bridge.Wifi.Request.{Call, wifi_connect, connect_req}
use esp_nmea_bridge.Wifi.Retry.{RetryPc, starting, checking, finished, Step}
use esp_nmea_bridge.Wifi.Start.{StartEnv, StartPc, entering, started}
use esp_nmea_bridge.Wifi.Leaves.{Leaves}

-- What the retry thread has found, by its place.
abbrev Found : RetryPc → Bool → Sta → Type 0
Found starting enabled cfg = Unit
Found checking enabled cfg = enabled ≡ true
Found finished enabled cfg = enabled ≡ true
Found _ enabled cfg = (enabled ≡ true) × (cfg.enabled ≡ true) × ((strlen cfg.ssid == 0) ≡ false)

-- What `wifi_manager_start` has done, by its place.
abbrev Done : StartEnv → StartPc → Bool → Sta → Type 0
Done env entering enabled cfg = enabled ≡ false
Done env (started ret) enabled cfg = cfg ≡ env.sta
Done env _ enabled cfg = (enabled ≡ false) × (cfg ≡ env.sta)

record Gated (env : StartEnv) (here : StartPc) (pc : RetryPc) (w : Wifi) : Type 0 where
  found : Found pc w.sta_retry_enabled w.sta_cfg
  done : Done env here w.sta_retry_enabled w.sta_cfg

-- The step of the retry thread, with `Found` for where it comes to.
record Finds (w : Wifi) (r : Step) : Type 0 where
  found : Found r.pc r.wifi.sta_retry_enabled r.wifi.sta_cfg
  left : Leaves w r.wifi

abbrev Stands : StartEnv → RetryPc → StartPc × Wifi × List Call → Type 0
Stands env pc r = Gated env r.0 pc r.1

-- The calls for the network that the configuration names, without an interface or with one.
abbrev pub asked : Sta → Bool → List Call
asked cfg true = []
asked cfg false = wifi_connect (connect_req cfg.ssid cfg.psk) ∷ []
