-- ===== src/Telemetry/Tests.antt =====
-- The theorem at three calls, a second apart.
use esp_nmea_bridge.Prelude.{ℕ, ◌≡◌, ◌↔◌, none, false, List, [], ◌∷◌, ◌++◌, arith}
use esp_nmea_bridge.Telemetry.{telemetry_state, active, build_snapshot}
use esp_nmea_bridge.Telemetry.Window.{Call, Ordered, Recent, run, build_snapshot-active}

abbrev call : ℕ → ℕ → Call
call count now_ms = record {
  inputs = record {
    counters_in = record {
      uart_bytes_rx = 0;
      uart_frames_rx = 0;
      uart_overlong_frames = 0;
      uart_ais_self_mmsi_filtered = 0;
      bridge_frames_in = count;
      bridge_ingest_dropped_oldest = 0;
      bridge_sink_dropped_oldest = 0;
      bridge_publish_no_sinks = 0;
      bridge_publish_invalid = 0;
      bridge_publish_oversize = 0;
      tcp_nmea_active_sessions = 0;
      tcp_server_active_peers = 0;
      tcp_server_max_peers = 4;
    };
    sta_ready = false;
    sta_ipv4 = 0 ∷ [];
    sta_rssi_valid = false;
    sta_rssi_dbm = record { negative = false; magnitude = 0 };
  };
  now_ms = now_ms;
}

-- The count is 0 at first, and 1 from the second call on.
abbrev before : List Call
before = call 0 1000 ∷ call 1 2000 ∷ []

before-Ordered : Ordered 0 before 3000
unfolding Ordered
before-Ordered = (omega arith, (omega arith, omega arith))

build_snapshot-active_example :
    ((build_snapshot (run telemetry_state before) (call 1 3000).inputs 3000).1.input_state ≡ active)
    ↔ Recent none (before ++ call 1 3000 ∷ []) 3000
build_snapshot-active_example = build_snapshot-active before (call 1 3000) before-Ordered
