-- ===== src/Uart/Tests.antt =====
-- The theorems at short lines and a buffer of 8 bytes.
use esp_nmea_bridge.Prelude.{◌≡◌, refl, [], ◌∷◌, ◌++◌, none, some, arith, false}
use esp_nmea_bridge.Prelude.CString.{Bytes}
use esp_nmea_bridge.Uart.{Rx, newline, rx_bytes}
use esp_nmea_bridge.Uart.Lines.{IsText, rx_line, rx_bytes-line}
use esp_nmea_bridge.Uart.Stream.{unlines, completed, kept, rx_bytes-unlines}

abbrev idle : Rx
idle = record {
  frame = [];
  dropping_overlong = false;
  applied_mmsi = 0;
  ais_filter = record {
    own_mmsi = 0;
    sequence = record {
      active = false;
      sequence_id = [];
      channel = 0;
      total_fragments = 0;
      next_fragment = 0;
    };
  };
  stats = record { bytes_rx = 0; frames_rx = 0; overlong_frames = 0; ais_self_mmsi_filtered = 0 };
}

abbrev short : Bytes
short = 36 ∷ 71 ∷ 13 ∷ []

abbrev long : Bytes
long = 36 ∷ 71 ∷ 71 ∷ 71 ∷ 71 ∷ 71 ∷ 71 ∷ 71 ∷ 71 ∷ 13 ∷ []

short-IsText : IsText short
short-IsText = (omega arith, (omega arith, (omega arith, tt)))

long-IsText : IsText long
long-IsText = omega arith

rx_bytes-line_example :
    rx_bytes 8 idle (short ++ newline ∷ [])
    ≡ (let (s', out) = rx_line 8 idle short in (s', elim out [ none ↦ [] | some f ↦ f ∷ [] ]))
rx_bytes-line_example = rx_bytes-line 8 short idle short-IsText refl (omega arith) (omega arith)

rx_bytes-unlines_example :
    (rx_bytes 8 idle (unlines (short ∷ long ∷ short ∷ []))).1
    ≡ kept idle.ais_filter (completed 8 idle.dropping_overlong (short ∷ long ∷ short ∷ []))
rx_bytes-unlines_example =
    rx_bytes-unlines 8 (short ∷ long ∷ short ∷ []) idle (omega arith)
      (short-IsText, (long-IsText, (short-IsText, tt))) refl (omega arith)
