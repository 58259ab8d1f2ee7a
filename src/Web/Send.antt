-- ===== src/Web/Send.antt =====
-- src/web_app.c: `send_all`, the header of a response, and a text response. `print_u` is what
-- `snprintk` writes for `%zu`; what `web_send` answers is a list, and `none` says that the function
-- still waits at its end.
pub mod Whole
mod Tests
use esp_nmea_bridge.Prelude.{
  ℕ, suc, zero, ◌+◌, ◌<◌, List, [], ◌∷◌, ◌++◌, Option, none, some, ltb, if◌then◌else◌, length, take,
  drop, concat,
}
use mathlib.Core.Option
use esp_nmea_bridge.Prelude.CString.{Bytes}
use esp_nmea_bridge.Prelude.Text.{codes}
use esp_nmea_bridge.Config.{Ret, ok, error}
use esp_nmea_bridge.Web.Reply.{
  Status, ok_200, bad_request_400, forbidden_403, not_found_404, method_not_allowed_405,
  length_required_411, too_large_413, internal_error_500,
}

-- What `web_send` answers: that it took so many bytes and one more, EINTR, or that it took none, with
-- the value of `errno`.
pub data SendAnswer : Type 0 where
  took : ℕ → SendAnswer
  interrupted : SendAnswer
  refused : ℕ → SendAnswer

-- `-errno`
abbrev pub minus_errno : ℕ → Ret
minus_errno zero = ok
minus_errno (suc e) = error (suc e)

-- The result, the bytes that were sent, and the answers that are left.
abbrev pub Sent : Type 0
Sent = Ret × Bytes × List SendAnswer

-- `send_all`, for the bytes behind `sent_total`.
unfoldable pub send_all : Bytes → List SendAnswer → Option Sent
send_all [] answers = some (ok, [], answers)
send_all (c ∷ cs) [] = none
send_all (c ∷ cs) (interrupted ∷ answers) = send_all (c ∷ cs) answers
send_all (c ∷ cs) (refused e ∷ answers) = some (minus_errno e, [], answers)
send_all (c ∷ cs) (took n ∷ answers) =
    Option.map (λ r. (r.0, c ∷ take n cs ++ r.1, r.2)) (send_all (drop n cs) answers)

-- The texts of the status lines.
unfoldable pub status_text : Status → Bytes
status_text ok_200 = codes "200 OK"
status_text bad_request_400 = codes "400 Bad Request"
status_text forbidden_403 = codes "403 Forbidden"
status_text not_found_404 = codes "404 Not Found"
status_text method_not_allowed_405 = codes "405 Method Not Allowed"
status_text length_required_411 = codes "411 Length Required"
status_text too_large_413 = codes "413 Payload Too Large"
status_text internal_error_500 = codes "500 Internal Server Error"

pub data ContentType : Type 0 where
  html css plain javascript json : ContentType

unfoldable pub content_type_text : ContentType → Bytes
content_type_text html = codes "text/html; charset=utf-8"
content_type_text css = codes "text/css; charset=utf-8"
content_type_text plain = codes "text/plain; charset=utf-8"
content_type_text javascript = codes "application/javascript"
content_type_text json = codes "application/json"

-- The size of `header`.
abbrev pub header_size : ℕ
header_size = 192

-- A function that ran to its end with `ok` goes on.
abbrev pub and_then : Option Sent → (List SendAnswer → Option Sent) → Option Sent
and_then none next = none
and_then (some (error e, wire, answers)) next = some (error e, wire, answers)
and_then (some (ok, wire, answers)) next = Option.map (λ r. (r.0, wire ++ r.1, r.2)) (next answers)

module _ (print_u : ℕ → Bytes) where
  unfoldable pub header_pieces : Status → ContentType → ℕ → List Bytes
  header_pieces status content_type content_len =
      codes "HTTP/1.1 "
      ∷ status_text status
      ∷ codes "\r\nContent-Type: "
      ∷ content_type_text content_type
      ∷ codes "\r\nContent-Length: "
      ∷ print_u content_len
      ∷ codes "\r\nConnection: close\r\nCache-Control: no-store\r\n\r\n"
      ∷ []

  -- `write_response_header`: `header_len` is the length of the whole text. Where that is not below the
  -- size of `header`, `send_all` would read behind the array, which has no value.
  unfoldable pub write_response_header : Status → ContentType → ℕ → List SendAnswer → Option Sent
  write_response_header status content_type content_len answers =
      let header = concat (header_pieces status content_type content_len) in
      if ltb (length header) header_size then send_all header answers else none

  unfoldable pub write_text_response : Status → ContentType → Bytes → List SendAnswer → Option Sent
  write_text_response status content_type body answers =
      and_then (write_response_header status content_type (length body) answers)
        (λ left. send_all body left)
