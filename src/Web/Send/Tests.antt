-- ===== src/Web/Send/Tests.antt =====
-- An answer of three bytes, interrupted once.
use esp_nmea_bridge.Prelude.{
  ℕ, suc, zero, ◌+◌, ◌%◌, ◌≡◌, List, [], ◌∷◌, ◌++◌, some, concat, arith, replicate,
}
use esp_nmea_bridge.Prelude.CString.{Bytes}
use esp_nmea_bridge.Web.Reply.{ok_200}
use esp_nmea_bridge.Web.Send.{
  SendAnswer, took, interrupted, Sent, plain, header_pieces, write_text_response,
}
use esp_nmea_bridge.Web.Send.Whole.{Plain, Whole, write_text_response-Whole}

-- `%zu` of a number below ten.
abbrev one_digit : ℕ → Bytes
one_digit n = (48 + n % 10) ∷ []

abbrev body : Bytes
body = 111 ∷ 107 ∷ 10 ∷ []

abbrev byte_by_byte : ℕ → List SendAnswer
byte_by_byte n = interrupted ∷ replicate n (took 0)

byte_by_byte-Plain : (n : ℕ) → Plain (replicate n (took 0))
byte_by_byte-Plain zero = tt
byte_by_byte-Plain (suc n) = byte_by_byte-Plain n

write_text_response-Whole_example :
    (r : Sent) × (write_text_response one_digit ok_200 plain body (byte_by_byte 194) ≡ some r)
    × Whole (concat (header_pieces one_digit ok_200 plain 3) ++ body) r
write_text_response-Whole_example =
    write_text_response-Whole one_digit ok_200 plain body (byte_by_byte 194) (omega arith)
      (byte_by_byte-Plain 194) (omega arith)
