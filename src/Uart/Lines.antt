-- ===== src/Uart/Lines.antt =====
-- The receiver on whole lines: which lines become frames, and how it finds the next line again.
use esp_nmea_bridge.Prelude.{
  ℕ, suc, ◌+◌, ◌^◌, ◌≤◌, ◌<◌, ◌≡◌, ◌≢◌, refl, true, false, List, [], ◌∷◌, ◌++◌, Option, none, some,
  ltb, ◌==◌, if◌then◌else◌, length, All, arith, append_assoc, append-nil, Bool-cases, inl, inr,
  length-append,
}
use esp_nmea_bridge.Prelude.Byte.{u32}
use esp_nmea_bridge.Prelude.CString.{Bytes}
use esp_nmea_bridge.Uart.{Rx, newline, frame_done, rx_byte, rx_bytes}

-- A line's text: no newline in it.
abbrev pub IsText : Bytes → Type 0
IsText = All (λ c. c ≢ newline)

abbrev pub AllText : List Bytes → Type 0
AllText = All IsText

-- `n` more bytes counted.
abbrev pub count_bytes : Rx → ℕ → Rx
count_bytes s n = record s { stats = record (s.stats) { bytes_rx = u32 (s.stats.bytes_rx + n) } }

abbrev pub count_overlong : Rx → Rx
count_overlong s = record s {
  stats = record (s.stats) { overlong_frames = u32 (s.stats.overlong_frames + 1) };
}

pub rx_bytes-append :
    (max : ℕ) (a b : Bytes) (s : Rx)
    → rx_bytes max s (a ++ b) ≡ (
        let (s', out) = rx_bytes max s a in
        let (s'', rest) = rx_bytes max s' b in (s'', out ++ rest))
unfolding rx_bytes
rx_bytes-append max [] b s = refl
rx_bytes-append max (c ∷ a) b s = ground (arith, rx_bytes-append max a b (rx_byte max s c).0)

count_bytes-add : (s : Rx) (n : ℕ) → count_bytes (count_bytes s 1) n ≡ count_bytes s (suc n)
count_bytes-add s n = ground arith

rx_byte-text :
    (max : ℕ) (s : Rx) (c : ℕ)
    → c ≢ newline
    → s.dropping_overlong ≡ false
    → length s.frame < max
    → rx_byte max s c ≡ (record (count_bytes s 1) { frame = s.frame ++ c ∷ [] }, none)
unfolding rx_byte
rx_byte-text max s c ne d l = ground arith

rx_byte-dropping :
    (max : ℕ) (s : Rx) (c : ℕ)
    → c ≢ newline
    → s.dropping_overlong ≡ true
    → rx_byte max s c ≡ (count_bytes s 1, none)
unfolding rx_byte
rx_byte-dropping max s c ne d = ground arith

-- The byte that finds the buffer full.
rx_byte-full :
    (max : ℕ) (s : Rx) (c : ℕ)
    → s.dropping_overlong ≡ false
    → max ≤ length s.frame
    → rx_byte max s c
      ≡ (record (count_overlong (count_bytes s 1)) { frame = []; dropping_overlong = true }, none)
unfolding rx_byte
rx_byte-full max s c d l = ground arith

-- A byte that completes nothing, and the bytes behind it.
rx_bytes-cons :
    (max : ℕ) (s : Rx) (c : ℕ) (cs : Bytes) {s' t t' : Rx} {out : List Bytes}
    → rx_byte max s c ≡ (s', none)
    → rx_bytes max s' cs ≡ (t, out)
    → t ≡ t'
    → rx_bytes max s (c ∷ cs) ≡ (t', out)
unfolding rx_bytes
rx_bytes-cons max s c cs p q e = ground arith

-- Text that fits the buffer is collected.
rx_bytes-text :
    (max : ℕ) (text : Bytes) (s : Rx)
    → IsText text
    → s.dropping_overlong ≡ false
    → length s.frame + length text ≤ max
    → s.stats.bytes_rx < 2 ^ 32
    → rx_bytes max s text ≡ (record (count_bytes s (length text)) { frame = s.frame ++ text }, [])
unfolding rx_bytes
rx_bytes-text max [] s t d l b = rw append-nil (ground arith)
rx_bytes-text max (c ∷ text) s (tc, t) d l b =
    let room = length-append s.frame (c ∷ []) in
    rx_bytes-cons max s c text (rx_byte-text max s c tc d (omega arith))
      (rx_bytes-text max text (record (count_bytes s 1) { frame = s.frame ++ c ∷ [] }) t d
        (omega arith) (omega arith))
      (rw append_assoc (ground arith))

-- Text behind an overlong line is skipped.
rx_bytes-dropping :
    (max : ℕ) (text : Bytes) (s : Rx)
    → IsText text
    → s.dropping_overlong ≡ true
    → s.stats.bytes_rx < 2 ^ 32
    → rx_bytes max s text ≡ (count_bytes s (length text), [])
unfolding rx_bytes
rx_bytes-dropping max [] s t d b = ground arith
rx_bytes-dropping max (c ∷ text) s (tc, t) d b =
    rx_bytes-cons max s c text (rx_byte-dropping max s c tc d)
      (rx_bytes-dropping max text (count_bytes s 1) t d (omega arith)) (ground arith)

-- Text that does not fit is dropped and counted once.
rx_bytes-overlong :
    (max : ℕ) (text : Bytes) (s : Rx)
    → IsText text
    → s.dropping_overlong ≡ false
    → max < length s.frame + length text
    → length s.frame ≤ max
    → s.stats.bytes_rx < 2 ^ 32
    → rx_bytes max s text ≡ (
      record (count_overlong (count_bytes s (length text))) {
        frame = [];
        dropping_overlong = true;
      },
      [],
    )
rx_bytes-overlong max [] s t d l fits b = absurd (omega arith)
rx_bytes-overlong max (c ∷ text) s (tc, t) d l fits b =
    elim (Bool-cases (ltb (length s.frame) max)) [
      | inl room ↦
          let grown = length-append s.frame (c ∷ []) in
          rx_bytes-cons max s c text (rx_byte-text max s c tc d (ground arith))
            (rx_bytes-overlong max text (record (count_bytes s 1) { frame = s.frame ++ c ∷ [] }) t d
              (omega arith) (ground arith) (omega arith))
            (ground arith)
      | inr full ↦
          rx_bytes-cons max s c text (rx_byte-full max s c d (ground arith))
            (rx_bytes-dropping max text
              (record (count_overlong (count_bytes s 1)) { frame = []; dropping_overlong = true }) t
              refl (omega arith))
            (ground arith)
    ]

-- What one line does to a receiver that is at the start of a line.
unfoldable pub rx_line : ℕ → Rx → Bytes → Rx × Option Bytes
rx_line max s text =
    let seen = count_bytes s (length text + 1) in
    if s.dropping_overlong
    then (record seen { dropping_overlong = false }, none)
    else if ltb (length text) max
    then frame_done seen (text ++ newline ∷ [])
    else (record (count_overlong seen) { dropping_overlong = length text == max }, none)

-- The text of a line, and its newline.
rx_bytes-ends :
    (max : ℕ) (s : Rx) (text : Bytes) {s' : Rx}
    → rx_bytes max s text ≡ (s', [])
    → rx_byte max s' newline ≡ rx_line max s text
    → rx_bytes max s (text ++ newline ∷ [])
      ≡ (let (s'', out) = rx_line max s text in (s'', elim out [ none ↦ [] | some f ↦ f ∷ [] ]))
unfolding rx_bytes
rx_bytes-ends max s text p q = rw (rx_bytes-append, p) (ground arith)

rx_byte-newline :
    (max : ℕ) (s : Rx) (text : Bytes)
    → s.frame ≡ []
    → s.dropping_overlong ≡ false
    → length text ≤ max
    → s.stats.bytes_rx < 2 ^ 32
    → rx_byte max (record (count_bytes s (length text)) { frame = s.frame ++ text }) newline
      ≡ rx_line max s text
unfolding rx_byte rx_line frame_done
rx_byte-newline max s text e d l b = rw e (ground arith)

-- A receiver at the start of a line takes the line as a whole. A line that fits the buffer with its
-- newline is one frame; a longer one is dropped and counted. If the newline itself is the byte that
-- does not fit, the receiver goes on dropping, through the whole next line.
pub rx_bytes-line :
    (max : ℕ) (text : Bytes) (s : Rx)
    → IsText text
    → s.frame ≡ []
    → 0 < max
    → s.stats.bytes_rx < 2 ^ 32
    → rx_bytes max s (text ++ newline ∷ [])
      ≡ (let (s', out) = rx_line max s text in (s', elim out [ none ↦ [] | some f ↦ f ∷ [] ]))
rx_bytes-line max text s t e pos b = elim (Bool-cases s.dropping_overlong) [
  | inl d ↦
      rx_bytes-ends max s text (rx_bytes-dropping max text s t d b)
        (unfold rx_byte rx_line in ground arith)
  | inr d ↦ elim (Bool-cases (ltb max (length text))) [
    | inl long ↦
        rx_bytes-ends max s text (rx_bytes-overlong max text s t d (ground arith) (ground arith) b)
          (unfold rx_byte rx_line in ground arith)
    | inr fits ↦
        rx_bytes-ends max s text (rx_bytes-text max text s t d (ground arith) b)
          (rx_byte-newline max s text e d (ground arith) b)
  ]
]
