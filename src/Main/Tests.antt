-- ===== src/Main/Tests.antt =====
-- The program at its start, and two changes of its configuration.
use esp_nmea_bridge.Prelude.{true, List, [], ◌∷◌, none, some}
use esp_nmea_bridge.Config.{ok}
use esp_nmea_bridge.Config.Tests.{Memory, memory, empty, config}
use esp_nmea_bridge.Main.{Boot, Change, change_ais, change_tcp_client, configure, apply_changes}
use esp_nmea_bridge.Main.InStep.{InStep, running-InStep}

abbrev boot : Boot Memory
boot = record {
  defaults = config;
  store = empty;
  subsys = ok;
  loaded = ok;
  entries = [];
  has_hostname = true;
  uart = ok;
}

abbrev changes_made : List Change
changes_made =
    change_ais (some (record { filter_enabled = true; own_mmsi = 211234560 }))
    ∷ change_tcp_client none
    ∷ change_tcp_client (some (record config.tcp_client { enabled = true }))
    ∷ []

running-InStep_example : InStep (apply_changes memory (configure boot) changes_made)
running-InStep_example = running-InStep memory boot changes_made
