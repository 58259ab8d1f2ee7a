-- ===== src/Uart/Stream.antt =====
-- The receiver on a whole stream of lines.
use esp_nmea_bridge.Prelude.{
  ℕ, ◌+◌, ◌%◌, ◌^◌, ◌<◌, ◌≡◌, refl, ◌∙◌, Bool, true, false, List, [], ◌∷◌, ◌++◌, Option, none, some,
  ltb, ◌==◌, if◌then◌else◌, length, arith,
}
use esp_nmea_bridge.Prelude.CString.{Bytes}
use esp_nmea_bridge.Ais.{Filter, should_drop}
use esp_nmea_bridge.Uart.{Rx, newline, frame_done, rx_bytes}
use esp_nmea_bridge.Uart.Lines.{AllText, rx_line, rx_bytes-line, rx_bytes-append}

-- Each text with its newline, one after the other.
unfoldable pub unlines : List Bytes → Bytes
unlines [] = []
unlines (l ∷ ls) = (l ++ newline ∷ []) ++ unlines ls

-- The lines that become frames: those that fit the buffer with their newline, but for a line behind
-- one whose text fills the buffer exactly. `skip` says that the first line is such a one.
unfoldable pub completed : ℕ → Bool → List Bytes → List Bytes
completed max skip [] = []
completed max true (l ∷ ls) = completed max false ls
completed max false (l ∷ ls) = elim (ltb (length l) max) [
  | true ↦ (l ++ newline ∷ []) ∷ completed max false ls
  | false ↦ completed max (length l == max) ls
]

-- The frames that a filter keeps, in order.
unfoldable pub kept : Filter → List Bytes → List Bytes
kept f [] = []
kept f (x ∷ xs) = let (drop, f') = should_drop f x in if drop then kept f' xs else x ∷ kept f' xs

frame_done-kept :
    (s : Rx) (line : Bytes) (rest : List Bytes)
    → elim (frame_done s line).1 [ none ↦ rest | some f ↦ f ∷ rest ]
      ≡ (if (should_drop s.ais_filter line).0 then rest else line ∷ rest)
unfolding frame_done
frame_done-kept s line rest = ground arith

frame_done-state :
    (s : Rx) (line : Bytes)
    → ((frame_done s line).0.frame ≡ [])
      × ((frame_done s line).0.dropping_overlong ≡ s.dropping_overlong)
      × ((frame_done s line).0.ais_filter ≡ (should_drop s.ais_filter line).1)
      × ((frame_done s line).0.stats.bytes_rx ≡ s.stats.bytes_rx)
unfolding frame_done
frame_done-state s line = ground arith

rx_line-state :
    (max : ℕ) (s : Rx) (l : Bytes)
    → s.frame ≡ []
    → ((rx_line max s l).0.frame ≡ []) × ((rx_line max s l).0.stats.bytes_rx < 2 ^ 32)
unfolding rx_line
rx_line-state max s l e = ground (
  arith,
  frame_done-state
      (record s {
        stats = record (s.stats) { bytes_rx = (s.stats.bytes_rx + (length l + 1)) % 2 ^ 32 };
      })
      (l ++ newline ∷ []),
)

-- What one line adds to the frames of the lines behind it.
rx_line-kept :
    (max : ℕ) (s : Rx) (l : Bytes) (ls : List Bytes)
    → s.frame ≡ []
    → (let (s', out) = rx_line max s l in
        let rest = kept s'.ais_filter (completed max s'.dropping_overlong ls) in
        elim out [ none ↦ rest | some f ↦ f ∷ rest ])
      ≡ kept s.ais_filter (completed max s.dropping_overlong (l ∷ ls))
unfolding rx_line completed kept frame_done
rx_line-kept max s l ls e = ground arith

out-append :
    (o : Option Bytes) (rest : List Bytes)
    → elim o [ none ↦ [] | some f ↦ f ∷ [] ] ++ rest ≡ elim o [ none ↦ rest | some f ↦ f ∷ rest ]
out-append none rest = refl
out-append (some f) rest = refl

-- Of a stream of whole lines, a receiver that is at the start of a line publishes exactly the
-- lines that fit the buffer with their newline, unchanged and in order, but for those that the AIS
-- filter drops and those behind a line whose text has exactly as many bytes as the buffer.
pub rx_bytes-unlines :
    (max : ℕ) (ls : List Bytes) (s : Rx)
    → 0 < max
    → AllText ls
    → s.frame ≡ []
    → s.stats.bytes_rx < 2 ^ 32
    → (rx_bytes max s (unlines ls)).1 ≡ kept s.ais_filter (completed max s.dropping_overlong ls)
unfolding unlines
rx_bytes-unlines max [] s pos t e b = unfold rx_bytes completed kept in refl
rx_bytes-unlines max (l ∷ ls) s pos (tl, t) e b =
    let (e', b') = rx_line-state max s l e in
    let s' = (rx_line max s l).0 in
    rw (rx_bytes-append, rx_bytes-line max l s tl e pos b, rx_bytes-unlines max ls s' pos t e' b')
      (out-append (rx_line max s l).1 _ ∙ rx_line-kept max s l ls e)
