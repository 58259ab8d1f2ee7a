-- ===== src/Web/Reply.antt =====
-- src/web_app.c: the responses. Writing one to the socket changes nothing in the program, so a
-- response is what is handed to `write_text_response` and the functions that call it.
use Prim.Native.String.{String}
use esp_nmea_bridge.Prelude.{ℕ}
use esp_nmea_bridge.Config.{Config}

-- The status lines.
pub data Status : Type 0 where
  ok_200 bad_request_400 forbidden_403 not_found_404 method_not_allowed_405 : Status
  length_required_411 too_large_413 internal_error_500 : Status

-- What is sent: a plain text, the two kinds of JSON errors, the answers of success, and the data
-- that the pages and the API show.
pub data Body : Type 0 where
  text : String → Body
  ota_error : String → Body
  field_error : String → String → Body
  ota_success ok_json status_json status_error : Body
  config_json : Config → Body
  asset : ℕ → Body

pub record Reply : Type 0 where
  pub status : Status
  pub body : Body

abbrev pub reply : Status → Body → Reply
reply status body = record { status = status; body = body }
