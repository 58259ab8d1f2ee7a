-- ===== src/Uart.antt =====
-- src/uart_nmea.c: framing of the received bytes into lines, behind the AIS filter.
-- `max` is CONFIG_ESP_NMEA_BRIDGE_NMEA_FRAME_MAX_LEN; the UART driver delivers the bytes.
pub mod Lines
pub mod Stream
mod Tests
use esp_nmea_bridge.Prelude.{
  ℕ, ◌+◌, ◌%◌, ◌^◌, Bool, true, false, List, [], ◌∷◌, ◌++◌, Option, none, some, ltb, ◌==◌,
  if◌then◌else◌, length,
}
use esp_nmea_bridge.Prelude.Byte.{u32}
use esp_nmea_bridge.Prelude.CString.{Bytes}
use esp_nmea_bridge.Ais
use esp_nmea_bridge.Ais.{Filter, should_drop}

-- `struct uart_nmea_stats`
pub record Stats : Type 0 where
  pub bytes_rx : ℕ
  pub frames_rx : ℕ
  pub overlong_frames : ℕ
  pub ais_self_mmsi_filtered : ℕ

-- The variables of `uart_rx_thread` and the statics that it owns; `frame` is the first `frame_len`
-- bytes of the buffer.
pub record Rx : Type 0 where
  pub frame : Bytes
  pub dropping_overlong : Bool
  pub applied_mmsi : ℕ
  pub ais_filter : Filter
  pub stats : Stats

abbrev pub newline : ℕ
newline = 10

-- `uart_nmea_set_ais_config`: the value that the atomic carries.
unfoldable pub set_ais_config : Bool → ℕ → ℕ
set_ais_config filter_enabled own_mmsi = if filter_enabled then own_mmsi else 0

-- `apply_ais_config_if_changed`, at the value read from the atomic.
unfoldable pub apply_ais_config_if_changed : Rx → ℕ → Rx
apply_ais_config_if_changed s mmsi =
    if mmsi == s.applied_mmsi
    then s
    else record s { applied_mmsi = mmsi; ais_filter = Ais.init mmsi }

-- A completed line: the filter sees it, and what it keeps goes to `nmea_bridge_publish_frame`.
unfoldable pub frame_done : Rx → Bytes → Rx × Option Bytes
frame_done s line =
    let (drop, filter) = should_drop s.ais_filter line in
    let counted = record (s.stats) { frames_rx = u32 (s.stats.frames_rx + 1) } in
    if drop
    then (
      record s {
        frame = [];
        ais_filter = filter;
        stats = record counted {
          ais_self_mmsi_filtered = u32 (counted.ais_self_mmsi_filtered + 1);
        };
      },
      none,
    )
    else (record s { frame = []; ais_filter = filter; stats = counted }, some line)

-- One byte: the body of the inner loop. The option is the frame that is published.
unfoldable pub rx_byte : ℕ → Rx → ℕ → Rx × Option Bytes
rx_byte max s ch =
    let seen = record s { stats = record (s.stats) { bytes_rx = u32 (s.stats.bytes_rx + 1) } } in
    if s.dropping_overlong
    then (
      if ch == newline then record seen { dropping_overlong = false; frame = [] } else seen,
      none,
    )
    else if ltb (length s.frame) max
    then (let grown = record seen { frame = s.frame ++ ch ∷ [] } in
        if ch == newline then frame_done grown grown.frame else (grown, none))
    else (
      record seen {
        frame = [];
        dropping_overlong = true;
        stats = record (seen.stats) { overlong_frames = u32 (s.stats.overlong_frames + 1) };
      },
      none,
    )

-- The inner loop over the bytes that are available: the state, and the frames published.
unfoldable pub rx_bytes : ℕ → Rx → Bytes → Rx × List Bytes
rx_bytes max s [] = (s, [])
rx_bytes max s (c ∷ cs) =
    let (s', out) = rx_byte max s c in
    let (s'', rest) = rx_bytes max s' cs in (s'', elim out [ none ↦ rest | some f ↦ f ∷ rest ])

-- The thread's state before its loop.
unfoldable pub start : Rx
start = record {
  frame = [];
  dropping_overlong = false;
  applied_mmsi = 0;
  ais_filter = Ais.init 0;
  stats = record { bytes_rx = 0; frames_rx = 0; overlong_frames = 0; ais_self_mmsi_filtered = 0 };
}
