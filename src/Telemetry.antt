-- ===== src/Telemetry.antt =====
-- src/bridge_telemetry.c and bridge_telemetry.h: the state that the web pages and the log show.
-- Uptimes are not negative. `last_bridge_frame_ms` is `none` for INT64_MIN, and `now - last <= w`
-- on 64 bits is `now <= last + w` here.
pub mod Window
mod Tests
use esp_nmea_bridge.Prelude.{
  ℕ, ◌+◌, ◌-◌, Bool, true, false, not, ◌&&◌, ◌||◌, List, [], ◌∷◌, Option, none, some, ltb, leb,
  ◌==◌, ◌!=◌, if◌then◌else◌, take, ◌++◌, length, replicate,
}
use esp_nmea_bridge.Prelude.CString.{Bytes}
use esp_nmea_bridge.Uart.{Stats}
use esp_nmea_bridge.Bridge.{BridgeStats}

abbrev pub nmea_input_window_ms : ℕ
nmea_input_window_ms = 5000

abbrev pub ipv4_addr_str_len : ℕ
ipv4_addr_str_len = 16

-- `enum bridge_telemetry_nmea_connection_state`
pub data ConnectionState : Type 0 where
  disconnected connected : ConnectionState

-- `enum bridge_telemetry_nmea_input_state`
pub data InputState : Type 0 where
  idle active : InputState

-- `struct bridge_telemetry_counters`
pub record Counters : Type 0 where
  pub uart_bytes_rx : ℕ
  pub uart_frames_rx : ℕ
  pub uart_overlong_frames : ℕ
  pub uart_ais_self_mmsi_filtered : ℕ
  pub bridge_frames_in : ℕ
  pub bridge_ingest_dropped_oldest : ℕ
  pub bridge_sink_dropped_oldest : ℕ
  pub bridge_publish_no_sinks : ℕ
  pub bridge_publish_invalid : ℕ
  pub bridge_publish_oversize : ℕ
  pub tcp_nmea_active_sessions : ℕ
  pub tcp_server_active_peers : ℕ
  pub tcp_server_max_peers : ℕ

-- `struct bridge_telemetry_warnings`
pub record WarningFlags : Type 0 where
  pub data_quality : Bool
  pub frame_loss : Bool

-- An `int`, as its magnitude and whether it is negative.
pub record Dbm : Type 0 where
  pub negative : Bool
  pub magnitude : ℕ

-- `struct bridge_telemetry_inputs`; its counters are those of the snapshot, in the same order.
pub record Inputs : Type 0 where
  pub counters_in : Counters
  pub sta_ready : Bool
  pub sta_ipv4 : Bytes
  pub sta_rssi_valid : Bool
  pub sta_rssi_dbm : Dbm

-- `struct bridge_telemetry_snapshot`
pub record Snapshot : Type 0 where
  pub connection_state : ConnectionState
  pub input_state : InputState
  pub warnings : WarningFlags
  pub sta_ready : Bool
  pub sta_ipv4 : Bytes
  pub sta_rssi_valid : Bool
  pub sta_rssi_dbm : Dbm
  pub counters : Counters

-- What the other modules report to `collect_inputs`: the statistics of the receiver and the bridge,
-- the counts of sessions and peers, and the state of the station interface, where an address or a
-- signal strength that is not known is `none`.
pub record Sources : Type 0 where
  pub uart_stats : Stats
  pub bridge_stats : BridgeStats
  pub active_sessions : ℕ
  pub active_peers : ℕ
  pub max_peers : ℕ
  pub sta_ready : Bool
  pub sta_ipv4 : Option Bytes
  pub sta_rssi : Option Dbm

abbrev zero_dbm : Dbm
zero_dbm = record { negative = false; magnitude = 0 }

-- `collect_inputs`
unfoldable pub collect_inputs : Sources → Inputs
collect_inputs from = record {
  counters_in = record {
    uart_bytes_rx = from.uart_stats.bytes_rx;
    uart_frames_rx = from.uart_stats.frames_rx;
    uart_overlong_frames = from.uart_stats.overlong_frames;
    uart_ais_self_mmsi_filtered = from.uart_stats.ais_self_mmsi_filtered;
    bridge_frames_in = from.bridge_stats.frames_in;
    bridge_ingest_dropped_oldest = from.bridge_stats.ingest_dropped_oldest;
    bridge_sink_dropped_oldest = from.bridge_stats.sink_dropped_oldest;
    bridge_publish_no_sinks = from.bridge_stats.publish_no_sinks;
    bridge_publish_invalid = from.bridge_stats.publish_invalid;
    bridge_publish_oversize = from.bridge_stats.publish_oversize;
    tcp_nmea_active_sessions = from.active_sessions;
    tcp_server_active_peers = from.active_peers;
    tcp_server_max_peers = from.max_peers;
  };
  sta_ready = from.sta_ready;
  sta_ipv4 = elim (from.sta_ipv4) [ none ↦ replicate ipv4_addr_str_len 0 | some text ↦ text ];
  sta_rssi_valid = elim (from.sta_rssi) [ none ↦ false | some _ ↦ true ];
  sta_rssi_dbm = elim (from.sta_rssi) [ none ↦ zero_dbm | some rssi ↦ rssi ];
}

-- `struct bridge_telemetry_state`
pub record TelemetryState : Type 0 where
  pub last_bridge_frames_in : ℕ
  pub last_bridge_frame_ms : Option ℕ
  pub initialized : Bool

abbrev pub telemetry_state : TelemetryState
telemetry_state = record {
  last_bridge_frames_in = 0;
  last_bridge_frame_ms = some 0;
  initialized = false;
}

-- The first part of `bridge_telemetry_build_snapshot`: when did a frame come last.
unfoldable pub note_frames : TelemetryState → ℕ → ℕ → TelemetryState
note_frames state frames_in now_ms =
    if not state.initialized
    then record {
      last_bridge_frames_in = frames_in;
      last_bridge_frame_ms = if ltb 0 frames_in then some now_ms else none;
      initialized = true;
    }
    else if frames_in != state.last_bridge_frames_in
    then record state { last_bridge_frames_in = frames_in; last_bridge_frame_ms = some now_ms }
    else state

-- `input_state` of the snapshot.
unfoldable pub input_state_at : Option ℕ → ℕ → InputState
input_state_at none now_ms = idle
input_state_at (some last) now_ms =
    if leb now_ms (last + nmea_input_window_ms) then active else idle

-- `warnings` of the snapshot.
unfoldable pub warnings_of : Counters → WarningFlags
warnings_of c = record {
  data_quality =
      ltb 0 c.uart_overlong_frames
      || ltb 0 c.bridge_publish_invalid
      || ltb 0 c.bridge_publish_oversize;
  frame_loss = ltb 0 c.bridge_ingest_dropped_oldest || ltb 0 c.bridge_sink_dropped_oldest;
}

-- `bridge_telemetry_build_snapshot`, with pointers that are not null: the state and the snapshot.
unfoldable pub build_snapshot : TelemetryState → Inputs → ℕ → TelemetryState × Snapshot
build_snapshot state inputs now_ms =
    let c = inputs.counters_in in
    let state' = note_frames state c.bridge_frames_in now_ms in
    (
      state',
      record {
        connection_state = if ltb 0 c.tcp_nmea_active_sessions then connected else disconnected;
        input_state = input_state_at state'.last_bridge_frame_ms now_ms;
        warnings = warnings_of c;
        sta_ready = inputs.sta_ready;
        sta_ipv4 = take (ipv4_addr_str_len - 1) inputs.sta_ipv4 ++ 0 ∷ [];
        sta_rssi_valid = inputs.sta_rssi_valid;
        sta_rssi_dbm = inputs.sta_rssi_dbm;
        counters = c;
      },
    )

-- `bridge_telemetry_get_snapshot`
unfoldable pub get_snapshot : TelemetryState → Sources → ℕ → TelemetryState × Snapshot
get_snapshot state from now_ms = build_snapshot state (collect_inputs from) now_ms
