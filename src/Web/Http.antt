-- ===== src/Web/Http.antt =====
-- src/web_app.c: reading a request. A text is the list of its bytes up to the terminating zero.
-- A `size_t` has 32 bits.
pub mod Length
pub mod Read
use esp_nmea_bridge.Prelude.{
  ℕ, zero, suc, ◌+◌, ◌-◌, ◌*◌, ◌/◌, ◌^◌, Bool, true, false, not, ◌&&◌, ◌||◌, List, [], ◌∷◌, ◌++◌,
  Option, none, some, ltb, leb, ◌==◌, if◌then◌else◌, length, get_or, take, drop,
}
use mathlib.Core.Option
use esp_nmea_bridge.Prelude.CString.{Bytes, cstr, bytes_eq}
use esp_nmea_bridge.Prelude.Text.{codes}

-- An `int` result with a value: 0, or the negative of an error number.
pub data Result (A : Type 0) : Type 0 where
  value : A → Result A
  failure : ℕ → Result A

abbrev pub einval : ℕ
einval = 22

abbrev pub enotconn : ℕ
enotconn = 128

abbrev pub eoverflow : ℕ
eoverflow = 139

abbrev pub size_max : ℕ
size_max = 4294967295

-- `struct http_request`; the lengths are those of the lists, and `body_offset` is where `body`
-- points to in the buffer.
pub record HttpRequest : Type 0 where
  pub method : Bytes
  pub path : Bytes
  pub content_length : ℕ
  pub has_content_length : Bool
  pub body_offset : ℕ
  pub body : Bytes

-- `memchr` and `strchr`: the bytes before the first `c`, and those behind it.
unfoldable pub split_at : ℕ → Bytes → Option (Bytes × Bytes)
split_at c [] = none
split_at c (x ∷ xs) =
    if x == c then some ([], xs) else Option.map (λ r. (x ∷ r.0, r.1)) (split_at c xs)

unfoldable pub token_equals : Bytes → Bytes → Bool
token_equals token expected = bytes_eq token expected

abbrev pub lower : ℕ → ℕ
lower c = if leb b'A' c && leb c b'Z' then c - b'A' + b'a' else c

unfoldable pub header_name_equals : Bytes → Bytes → Bool
header_name_equals [] [] = true
header_name_equals (got ∷ gs) (want ∷ ws) = (lower got == lower want) && header_name_equals gs ws
header_name_equals _ _ = false

-- `request[i .. i + 3]` is "\r\n\r\n".
unfoldable pub blank_line_at : Bytes → Bool
blank_line_at s =
    get_or s 0 0 == 13 && get_or s 1 0 == 10 && get_or s 2 0 == 13 && get_or s 3 0 == 10

-- The index that `find_header_end` points to.
unfoldable pub find_header_end : Bytes → Option ℕ
find_header_end [] = none
find_header_end (c ∷ cs) =
    if blank_line_at (c ∷ cs) then some 0 else Option.map suc (find_header_end cs)

abbrev pub is_blank : ℕ → Bool
is_blank c = c == b' ' || c == 9

abbrev pub is_digit : ℕ → Bool
is_digit c = leb b'0' c && leb c b'9'

unfoldable pub skip_blanks : Bytes → Bytes
skip_blanks [] = []
skip_blanks (c ∷ cs) = if is_blank c then skip_blanks cs else c ∷ cs

-- The loop over the digits: `parsed`, `saw_digit` and the text behind them.
unfoldable pub scan_length : ℕ → Bool → Bytes → Result (ℕ × Bool × Bytes)
scan_length parsed saw_digit [] = value (parsed, saw_digit, [])
scan_length parsed saw_digit (c ∷ cs) =
    let rest = scan_length (parsed * 10 + (c - b'0')) true cs in
    if is_digit c
    then if ltb ((size_max - (c - b'0')) / 10) parsed then failure eoverflow else rest
    else value (parsed, saw_digit, c ∷ cs)

unfoldable pub parse_content_length : Bytes → Result ℕ
parse_content_length text = elim (scan_length 0 false (skip_blanks text)) [
  | failure e ↦ failure e
  | value (parsed, saw_digit, rest) ↦
      if not saw_digit || not (length (skip_blanks rest) == 0) then failure einval else value parsed
]

-- The texts before each "\r\n", as `strstr` finds them one after the other.
unfoldable pub crlf_lines : Bytes → Bytes → List Bytes
crlf_lines line [] = []
crlf_lines line (c ∷ []) = []
crlf_lines line (c ∷ d ∷ cs) = elim (c == 13 && d == 10) [
  | true ↦ line ∷ crlf_lines [] cs
  | false ↦ crlf_lines (line ++ c ∷ []) (d ∷ cs)
]

-- The loop of `parse_http_request` over the header lines; an empty line ends it.
unfoldable pub parse_headers : List Bytes → HttpRequest → Result HttpRequest
parse_headers [] parsed = value parsed
parse_headers ([] ∷ lines) parsed = value parsed
parse_headers ((c ∷ cs) ∷ lines) parsed = elim (split_at b':' (c ∷ cs)) [
  | none ↦ parse_headers lines parsed
  | some (name, text) ↦ elim (header_name_equals name (codes "Content-Length")) [
    | false ↦ parse_headers lines parsed
    | true ↦ elim (parse_content_length text) [
      | failure e ↦ failure e
      | value n ↦
          parse_headers lines (record parsed { content_length = n; has_content_length = true })
    ]
  ]
]

-- `parse_http_request`: the header is the text that `request` holds, cut at `header_len - 2`, and
-- the body is what was received behind it.
unfoldable pub parse_http_request : ℕ → Bytes → Bytes → Result HttpRequest
parse_http_request header_len header body = elim (crlf_lines [] header) [
  | [] ↦ failure einval
  | line ∷ lines ↦ elim (split_at b' ' line) [
    | none ↦ failure einval
    | some (method, rest) ↦ elim (split_at b' ' rest) [
      | none ↦ failure einval
      | some (path, _) ↦ parse_headers lines (record {
        method = method;
        path = path;
        content_length = 0;
        has_content_length = false;
        body_offset = header_len;
        body = body;
      })
    ]
  ]
]

-- What a call of `web_recv` answers: an error with EINTR, another error or the peer's end, or bytes.
pub data Answer : Type 0 where
  interrupted : Answer
  ended : Answer
  got : Bytes → Answer

-- The loop of `read_http_request`, at the bytes received so far; `none` while it waits for more
-- answers. A socket hands out at most as many bytes as are asked for, and at least one.
unfoldable pub read_http_request :
    ℕ → Bytes → List Answer → Option (Result HttpRequest × List Answer)
read_http_request request_size received [] = none
read_http_request request_size received (interrupted ∷ as') =
    read_http_request request_size received as'
read_http_request request_size received (ended ∷ as') = some (failure enotconn, as')
read_http_request request_size received (got chunk ∷ as') =
    let request = received ++ chunk in
    elim (find_header_end request) [
      | some i ↦
          some
            (parse_http_request (i + 4) (cstr (take (i + 2) request)) (drop (i + 4) request), as')
      | none ↦ elim (length request == request_size) [
        | true ↦ some (failure eoverflow, as')
        | false ↦ read_http_request request_size request as'
      ]
    ]
