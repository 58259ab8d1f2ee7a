-- ===== src/Web/Json.antt =====
-- src/web_app.c: `json_escape_string`, and the reading of a JSON string by RFC 8259.
use esp_nmea_bridge.Prelude.{
  ℕ, ◌+◌, ◌*◌, ◌≤◌, ◌<◌, ◌≡◌, refl, Bool, true, false, ◌||◌, [], ◌∷◌, ◌++◌, Option, none, some, ltb,
  leb, ◌==◌, if◌then◌else◌, length, arith, Bool-cases, Option-cases, inl, inr, length-append,
}
use mathlib.Core.Option
use esp_nmea_bridge.Prelude.CString.{Bytes, cstr}

-- The table of `json_escape_string`: the letter behind the backslash.
unfoldable pub escape_letter : ℕ → Option ℕ
escape_letter ch =
    if ch == 92
    then some 92
    else if ch == 34
    then some 34
    else if ch == 8
    then some b'b'
    else if ch == 12
    then some b'f'
    else if ch == 10
    then some b'n'
    else if ch == 13
    then some b'r'
    else if ch == 9
    then some b't'
    else none

-- The loop, with `out` bytes written: the bytes that it writes behind them.
unfoldable pub escape_from : ℕ → ℕ → Bytes → Bytes
escape_from dst_len out [] = []
escape_from dst_len out (ch ∷ src) = elim (ltb (out + 1) dst_len) [
  | false ↦ []
  | true ↦ elim (escape_letter ch) [
    | some letter ↦ elim (leb dst_len (out + 2)) [
      | true ↦ []
      | false ↦ 92 ∷ letter ∷ escape_from dst_len (out + 2) src
    ]
    | none ↦ elim (leb 0x20 ch) [
      | true ↦ ch ∷ escape_from dst_len (out + 1) src
      | false ↦ escape_from dst_len out src
    ]
  ]
]

-- `json_escape_string`, with a source that is not null: what it leaves in `dst`, up to and with the
-- terminating zero.
unfoldable pub json_escape_string : Bytes → ℕ → Bytes
json_escape_string src dst_len =
    if dst_len == 0 then [] else escape_from dst_len 0 (cstr src) ++ 0 ∷ []

pub escape_from-fits :
    (dst_len out : ℕ) (src : Bytes)
    → out + 1 ≤ dst_len
    → out + length (escape_from dst_len out src) + 1 ≤ dst_len
unfolding escape_from
escape_from-fits dst_len out [] h = omega arith
escape_from-fits dst_len out (ch ∷ src) h = elim (Bool-cases (ltb (out + 1) dst_len)) [
  | inr a ↦ rw (escape_from, a) (omega arith)
  | inl a ↦ elim (Option-cases (escape_letter ch)) [
    | inr (letter, e) ↦ elim (Bool-cases (leb dst_len (out + 2))) [
      | inl b ↦ rw (escape_from, a, e, b) (omega arith)
      | inr b ↦
          let room : out + 2 + 1 ≤ dst_len = ground arith in
          let ih = escape_from-fits dst_len (out + 2) src room in
          rw (escape_from, a, e, b) (omega arith)
    ]
    | inl e ↦ elim (Bool-cases (leb 0x20 ch)) [
      | inl b ↦
          let room : out + 1 + 1 ≤ dst_len = ground arith in
          let ih = escape_from-fits dst_len (out + 1) src room in
          rw (escape_from, a, e, b) (omega arith)
      | inr b ↦ rw (escape_from, a, e, b) (escape_from-fits dst_len out src h)
    ]
  ]
]

-- The character that a letter behind a backslash stands for, of those that have one letter.
unfoldable pub unescape_letter : ℕ → Option ℕ
unescape_letter letter =
    if letter == 92
    then some 92
    else if letter == 34
    then some 34
    else if letter == b'b'
    then some 8
    else if letter == b'f'
    then some 12
    else if letter == b'n'
    then some 10
    else if letter == b'r'
    then some 13
    else if letter == b't'
    then some 9
    else none

-- The text that the inside of a JSON string stands for, behind a backslash or not; a quote or a
-- control character does not stand inside a string.
unfoldable pub unescape : Bool → Bytes → Option Bytes
unescape false [] = some []
unescape true [] = none
unescape true (letter ∷ cs) = elim (unescape_letter letter) [
  | none ↦ none
  | some ch ↦ Option.map (λ s. ch ∷ s) (unescape false cs)
]
unescape false (ch ∷ cs) = elim (ch == 92) [
  | true ↦ unescape true cs
  | false ↦ elim (ch == 34 || ltb ch 0x20) [
    | true ↦ none
    | false ↦ Option.map (λ s. ch ∷ s) (unescape false cs)
  ]
]

-- The characters that JSON can hold without a number, by RFC 8259: those that are no control
-- characters, and backspace, tab, line feed, form feed and carriage return.
unfoldable pub has_form : ℕ → Bool
has_form ch = leb 32 ch || ch == 8 || ch == 9 || ch == 10 || ch == 12 || ch == 13

unfoldable pub representable : Bytes → Bytes
representable [] = []
representable (ch ∷ src) = elim (has_form ch) [
  | true ↦ ch ∷ representable src
  | false ↦ representable src
]

letter-has_form : (ch letter : ℕ) → escape_letter ch ≡ some letter → has_form ch ≡ true
unfolding escape_letter has_form
letter-has_form ch letter h = ground arith

plain-has_form : (ch : ℕ) → leb 32 ch ≡ true → has_form ch ≡ true
unfolding has_form
plain-has_form ch h = ground arith

control-has_form : (ch : ℕ) → escape_letter ch ≡ none → leb 32 ch ≡ false → has_form ch ≡ false
unfolding escape_letter has_form
control-has_form ch h b = ground arith

unescape_letter-escape_letter :
    (ch letter : ℕ) → escape_letter ch ≡ some letter → unescape_letter letter ≡ some ch
unfolding escape_letter unescape_letter
unescape_letter-escape_letter ch letter h = ground arith

plain :
    (ch : ℕ)
    → escape_letter ch ≡ none
    → leb 0x20 ch ≡ true
    → ((ch == 92) ≡ false) × ((ch == 34 || ltb ch 0x20) ≡ false)
unfolding escape_letter
plain ch h b = ground arith

unescape_letter-step :
    (ch letter : ℕ) (rest s : Bytes)
    → escape_letter ch ≡ some letter
    → unescape false rest ≡ some s
    → unescape false (92 ∷ letter ∷ rest) ≡ some (ch ∷ s)
unfolding unescape
unescape_letter-step ch letter rest s e h =
    rw (unescape, unescape_letter-escape_letter ch letter e, h) refl

unescape_plain :
    (ch : ℕ) (rest s : Bytes)
    → escape_letter ch ≡ none
    → leb 0x20 ch ≡ true
    → unescape false rest ≡ some s
    → unescape false (ch ∷ rest) ≡ some (ch ∷ s)
unfolding unescape
unescape_plain ch rest s e b h = let (p, q) = plain ch e b in rw (unescape, p, q, h) refl

escape_from-unescape :
    (dst_len out : ℕ) (src : Bytes)
    → out + 2 * length src + 1 ≤ dst_len
    → unescape false (escape_from dst_len out src) ≡ some (representable src)
unfolding escape_from representable unescape
escape_from-unescape dst_len out [] h = refl
escape_from-unescape dst_len out (ch ∷ src) h =
    let a : ltb (out + 1) dst_len ≡ true = ground arith in
    elim (Option-cases (escape_letter ch)) [
      | inr (letter, e) ↦
          let b : leb dst_len (out + 2) ≡ false = ground arith in
          let ih = escape_from-unescape dst_len (out + 2) src (omega arith) in
          rw (escape_from, representable, a, e, b, letter-has_form ch letter e)
            (unescape_letter-step ch letter (escape_from dst_len (out + 2) src) _ e ih)
      | inl e ↦ elim (Bool-cases (leb 0x20 ch)) [
        | inl b ↦
            let ih = escape_from-unescape dst_len (out + 1) src (omega arith) in
            rw (escape_from, representable, a, e, b, plain-has_form ch b)
              (unescape_plain ch (escape_from dst_len (out + 1) src) _ e b ih)
        | inr b ↦
            rw (escape_from, representable, a, e, b, control-has_form ch e b)
              (escape_from-unescape dst_len out src (omega arith))
      ]
    ]

-- `json_escape_string`, for any text and any buffer that is not empty, writes no more bytes than the
-- buffer has, and the last of them is the terminating zero.
pub json_escape_string-fits :
    (src : Bytes) (dst_len : ℕ)
    → 0 < dst_len
    → (length (json_escape_string src dst_len) ≤ dst_len)
      × ((written : Bytes) × (json_escape_string src dst_len ≡ written ++ 0 ∷ []))
unfolding json_escape_string
json_escape_string-fits src dst_len h =
    let z : (dst_len == 0) ≡ false = ground arith in
    let fits = escape_from-fits dst_len 0 (cstr src) (omega arith) in
    (
      rw (json_escape_string, z)
          (omega (arith, length-append (escape_from dst_len 0 (cstr src)) (0 ∷ []))),
      (escape_from dst_len 0 (cstr src), rw (json_escape_string, z) refl),
    )

-- With two bytes in the buffer for each byte of the text and one more, a JSON reader reads what
-- `json_escape_string` wrote before the terminating zero as the text without the control characters
-- other than backspace, tab, line feed, form feed and carriage return: no quote or backslash of the
-- text ends or changes the string.
pub json_escape_string-round_trip :
    (src : Bytes) (dst_len : ℕ)
    → 2 * length (cstr src) + 1 ≤ dst_len
    → (written : Bytes) × (json_escape_string src dst_len ≡ written ++ 0 ∷ [])
      × (unescape false written ≡ some (representable (cstr src)))
unfolding json_escape_string
json_escape_string-round_trip src dst_len room =
    let z : (dst_len == 0) ≡ false = ground arith in
    (
      escape_from dst_len 0 (cstr src),
      rw (json_escape_string, z) refl,
      escape_from-unescape dst_len 0 (cstr src) (omega arith),
    )
