-- ===== src/Web/Tests.antt =====
-- Requests to a server in memory, and the theorems at them.
use esp_nmea_bridge.Prelude.{
  ◌+◌, ◌*◌, ◌≤◌, ◌≡◌, ◌↔◌, refl, Bool, true, false, List, [], ◌∷◌, ◌++◌, none, some, arith, length,
}
use esp_nmea_bridge.Prelude.CString.{Bytes, cstr, terminated, bytes_eq}
use esp_nmea_bridge.Prelude.Text.{codes}
use esp_nmea_bridge.Config.{ok}
use esp_nmea_bridge.Config.Valid.{
  text_valid, hostname_valid, tcp_client_host_valid, scan_text, lead_cont, scan_hostname,
}
use esp_nmea_bridge.Config.Store.{Settings}
use esp_nmea_bridge.Config.Reset.{ResetKey, KeyStore}
use esp_nmea_bridge.Config.Reset.Tests
use esp_nmea_bridge.Config.Set.{ais_accepted}
use esp_nmea_bridge.Config.Tests.{Memory, set_key, set_key-same, set_key-other, empty, config}
use esp_nmea_bridge.Ota.{
  Ota, boot, init_once, begin, begin_locked, prepare, validate_upload_size,
  configured_limit_or_slot_size, write, write_locked, finish, finish_locked, flush_and_request,
  is_uploading, schedule_reboot, pending_reboot,
}
use esp_nmea_bridge.Ota.Invariant.{IsValid, Agrees}
use esp_nmea_bridge.Ota.Tests.{memory}
use esp_nmea_bridge.Web.Http.{
  HttpRequest, Answer, got, interrupted, value, find_header_end, blank_line_at, read_http_request,
  parse_http_request, parse_content_length, parse_headers, crlf_lines, split_at, token_equals,
  header_name_equals, skip_blanks, scan_length,
}
use esp_nmea_bridge.Web.Http.Read.{stream, Lasts, ReadAs, read_http_request-ReadAs}
use esp_nmea_bridge.Web.Http.Length.{Spells, parse_content_length_iff}
use esp_nmea_bridge.Web.Reply.{reply, ok_200, ota_success}
use esp_nmea_bridge.Web.Upload.{
  handle_ota_upload, receive_upload, upload_loop, count_uploaded, write_ota_body_chunk,
  conclude_upload,
}
use esp_nmea_bridge.Web.Upload.Outcome.{Settled, handle_ota_upload-Settled}
use esp_nmea_bridge.Web.Json.{
  json_escape_string, unescape, representable, json_escape_string-round_trip,
}
use esp_nmea_bridge.Web.Payload.{
  Payload, fields_ais, fields_any, validate, first_error, mmsi_error, ssid_error, psk_error,
  clear_error, hostname_error, host_error, port_error, enable_error, merge_sta, fields_sta,
}
use esp_nmea_bridge.Web.Update.Applied.{Applied, update-Applied}
use esp_nmea_bridge.Web.Update.{
  Server, handle_config_update, answer_body, update, read_remaining_body, receive_body,
}
use esp_nmea_bridge.Web.Update.Merge.{WellFormed}
use esp_nmea_bridge.Web.Update.Checked.{Answered, handle_config_update-Answered}
use esp_nmea_bridge.Web.Client.{App, Call, handle_client, dispatch, handle_post}
use esp_nmea_bridge.Web.Client.Safe.{handle_client-WellFormed}

-- The text `a"b`, into a buffer of seven bytes.
abbrev quoted : Bytes
quoted = 97 ∷ 34 ∷ 98 ∷ []

quoted_room : 2 * length (cstr quoted) + 1 ≤ 7
unfolding cstr
quoted_room = omega arith

json_escape_string-round_trip_example :
    (written : Bytes) × (json_escape_string quoted 7 ≡ written ++ 0 ∷ [])
    × (unescape false written ≡ some (representable (cstr quoted)))
json_escape_string-round_trip_example = json_escape_string-round_trip quoted 7 quoted_room

parse_content_length_iff_example :
    (parse_content_length (codes " 12") ≡ value 12) ↔ Spells (codes " 12") 12
parse_content_length_iff_example = parse_content_length_iff (codes " 12") 12

-- "G / \r\n\r\n" in two pieces.
abbrev pieces : List Answer
pieces = got (71 ∷ 32 ∷ 47 ∷ 32 ∷ 13 ∷ []) ∷ interrupted ∷ got (10 ∷ 13 ∷ 10 ∷ 120 ∷ []) ∷ []

pieces-Lasts : Lasts pieces
unfolding Lasts
pieces-Lasts = (omega arith, (omega arith, tt))

pieces-found : find_header_end (stream pieces) ≡ some 4
unfolding find_header_end stream blank_line_at
pieces-found = refl

pieces-fit : length (stream pieces) ≤ 1536
unfolding stream
pieces-fit = omega arith

read_http_request-ReadAs_example : ReadAs 4 (stream pieces) (read_http_request 1536 [] pieces)
read_http_request-ReadAs_example =
    read_http_request-ReadAs 1536 pieces 4 pieces-Lasts pieces-found pieces-fit

-- An upload of three bytes, one of them in the request.
abbrev request : HttpRequest
request = record {
  method = codes "POST";
  path = codes "/api/ota/upload";
  content_length = 3;
  has_content_length = true;
  body_offset = 60;
  body = 1 ∷ [];
}

abbrev chunks : List Answer
chunks = got (2 ∷ []) ∷ interrupted ∷ got (3 ∷ []) ∷ []

abbrev installed_ota : Ota (Bytes × Bool)
installed_ota = record {
  initialized = true;
  status = record {
    enabled = true;
    state = pending_reboot;
    expected_bytes = 3;
    uploaded_bytes = 3;
    max_upload_bytes = 1000;
    slot = 1;
    is_confirmed = true;
    last_error = none;
  };
  flash = (1 ∷ 2 ∷ 3 ∷ [], true);
  reboot_scheduled = true;
}

upload-runs :
    handle_ota_upload memory 0 true request (boot (9 ∷ [], false)) chunks
    ≡ some (reply ok_200 ota_success, installed_ota, [])
unfolding handle_ota_upload receive_upload upload_loop count_uploaded write_ota_body_chunk
    conclude_upload boot init_once begin begin_locked prepare validate_upload_size
    configured_limit_or_slot_size write write_locked finish finish_locked flush_and_request
    is_uploading schedule_reboot
upload-runs = refl

boot-IsValid : IsValid memory 0 (boot (9 ∷ [], false))
unfolding IsValid boot Agrees
boot-IsValid = tt

handle_ota_upload-Settled_example :
    Settled memory 3
      (request.body ++ stream chunks)
      (boot (9 ∷ [], false))
      (reply ok_200 ota_success)
      installed_ota
      (stream [])
handle_ota_upload-Settled_example =
    handle_ota_upload-Settled memory 0 true request (boot (9 ∷ [], false)) installed_ota chunks []
      (reply ok_200 ota_success) (omega arith) (omega arith) (omega arith, (omega arith, tt))
      boot-IsValid upload-runs

-- A store for the settings and for the names of the stored keys.
abbrev Both : Type 0
Both = Memory × List ResetKey

abbrev settings : Settings Both
settings = record {
  save_one = λ s k v. (ok, (set_key s.0 k (some v), s.1));
  delete = λ s k. (ok, (set_key s.0 k none, s.1));
  value = λ s k. s.0 k;
  save_stores = λ s k v h. set_key-same s.0 k (some v);
  save_others = λ s k j v h d. set_key-other s.0 k j (some v) d;
  delete_removes = λ s k h. set_key-same s.0 k none;
  delete_others = λ s k j h d. set_key-other s.0 k j none d;
}

abbrev keys : KeyStore Both
keys = record {
  keys = λ s. s.1;
  seen = λ s. s.1;
  seen_stored = λ s. Tests.All-is_stored s.1;
  delete = λ s n. (ok, (s.0, Tests.delete_name s.1 n));
  delete_removes = λ s k h. Tests.delete_name-without s.1 k;
}

abbrev server : Server Both
server = record { config = config; store = (empty, []); notified = 0 }

server-WellFormed : WellFormed server.config
unfolding ais_accepted terminated cstr text_valid scan_text lead_cont hostname_valid scan_hostname
    tcp_client_host_valid
server-WellFormed = record {
  mmsi = refl;
  host = record { size = refl; ends = refl; says = refl };
  port = refl;
  sta_ssid = record { size = refl; ends = refl; says = refl };
  sta_psk = record { size = refl; ends = refl; says = refl };
  ap_ssid = record { size = refl; ends = refl; says = (refl, omega arith) };
  ap_psk = record { size = refl; ends = refl; says = refl };
  hostname = record { size = refl; ends = refl; says = refl };
}

-- The object {"ais_filter_enabled":true}.
abbrev payload : Payload
payload = record {
  ais_filter_enabled = some true;
  ais_own_mmsi = none;
  sta_enabled = none;
  sta_ssid = none;
  sta_psk = none;
  sta_psk_clear = none;
  sta_rotate_mac = none;
  tcp_client_enabled = none;
  tcp_client_host = none;
  tcp_client_port = none;
  ap_ssid = none;
  ap_psk = none;
  ap_psk_clear = none;
  hostname = none;
}

abbrev saved : Server Both
saved = (update settings payload server).1

saved-runs :
    handle_config_update settings (λ body. some payload) 1536 request server chunks
    ≡ some ((update settings payload server).0, saved, [])
unfolding handle_config_update answer_body read_remaining_body receive_body fields_any fields_ais
saved-runs = refl

handle_config_update-Answered_example :
    Answered settings server (update settings payload server).0 saved
handle_config_update-Answered_example =
    handle_config_update-Answered settings (λ body. some payload) 1536 request server saved chunks
      [] (update settings payload server).0 server-WellFormed saved-runs

abbrev app : App Both (Bytes × Bool)
app = record { server = server; ota = boot (9 ∷ [], false); reboot_requested = false }

abbrev call : Call
call = record {
  json_obj_parse = λ body. some payload;
  upload_allowed = true;
  timeout_set = true;
  status_fits = true;
  status_sent = true;
}

-- "POST /api/config HTTP/1.1", with a body of one byte.
abbrev posted : List Answer
posted =
    got (
      codes "POST /api/config HTTP/1.1"
      ++ 13 ∷ 10 ∷ codes "Content-Length: 1"
      ++ 13 ∷ 10 ∷ 13 ∷ 10 ∷ 120 ∷ [])
    ∷ []

app-runs :
    handle_client settings keys 25 memory 0 call app posted
    ≡ some ((update settings payload server).0, record app { server = saved }, [])
unfolding handle_client dispatch handle_post read_http_request find_header_end blank_line_at cstr
    parse_http_request parse_content_length parse_headers crlf_lines split_at token_equals bytes_eq
    header_name_equals skip_blanks scan_length handle_config_update answer_body read_remaining_body
    receive_body fields_any fields_ais
app-runs = refl

handle_client-WellFormed_example : WellFormed saved.config
handle_client-WellFormed_example =
    handle_client-WellFormed settings keys 25 memory 0 call app (record app { server = saved })
      posted [] (update settings payload server).0 server-WellFormed app-runs

payload-checked : validate payload ≡ none
unfolding validate first_error mmsi_error ssid_error psk_error clear_error hostname_error host_error
    port_error
payload-checked = refl

payload-enables : enable_error payload (merge_sta payload server.config.sta) ≡ none
unfolding enable_error fields_sta
payload-enables = refl

update-Applied_example :
    Applied settings (λ s k v. refl) payload server.config (update settings payload server)
update-Applied_example =
    update-Applied settings (λ s k v. refl) payload server server-WellFormed payload-checked
      payload-enables
