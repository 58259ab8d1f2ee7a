-- ===== src/Web/Update.antt =====
-- src/web_app.c: `POST /api/config`, which changes the configuration from a JSON object.
pub mod Merge
pub mod Accepted
pub mod Refused
pub mod Setters
pub mod Checked
pub mod Unchanged
pub mod Parts
pub mod Fields
pub mod Applied
use Prim.Native.String.{String}
use esp_nmea_bridge.Prelude.{
  ℕ, ◌+◌, ◌-◌, ◌%◌, ◌^◌, Bool, true, false, not, ◌&&◌, ◌||◌, List, [], ◌∷◌, ◌++◌, Option, none,
  some, ltb, leb, ◌==◌, if◌then◌else◌, length, get_or, drop, take,
}
use esp_nmea_bridge.Prelude.Byte.{u32}
use esp_nmea_bridge.Prelude.CString.{Bytes, cstr, strlen}
use esp_nmea_bridge.Config.{
  Ais, Sta, Ap, System, TcpClient, Config, ok, error, ais_mmsi_max, wifi_ssid_max,
  tcp_client_host_max, hostname_max, get_ais, get_sta, get_ap, get_system, get_tcp_client,
}
use esp_nmea_bridge.Config.Valid.{tcp_client_host_valid, text_valid, hostname_valid}
use esp_nmea_bridge.Config.Record.{bad_psk_len}
use esp_nmea_bridge.Config.Store.{Settings}
use esp_nmea_bridge.Config.Set.{Outcome, set_ais, set_tcp_client, set_sta, set_ap, set_system}
use esp_nmea_bridge.Web.Http.{HttpRequest, Answer, interrupted, ended, got}
use esp_nmea_bridge.Web.Reply.{
  Reply, reply, ok_200, bad_request_400, too_large_413, internal_error_500, field_error,
  config_json,
}
use esp_nmea_bridge.Web.Payload.{
  Payload, given, fields_ais, fields_sta, fields_tcp, fields_ap, fields_any, validate, merge_sta,
  enable_error, merge_ap, merge_system, merge_ais, merge_tcp,
}

abbrev pub config_body_max : ℕ
config_body_max = 768

-- The configuration, the settings store, and how often the listener was called.
pub record Server (S : Type 0) : Type 0 where
  pub config : Config
  pub store : S
  pub notified : ℕ

-- The loop of `read_remaining_body`: the body, or `none` for an error; `none` while it waits.
unfoldable pub receive_body : ℕ → Bytes → List Answer → Option (Option Bytes × List Answer)
receive_body content_length body [] =
    if ltb (length body) content_length then none else some (some body, [])
receive_body content_length body (interrupted ∷ as') = elim (ltb (length body) content_length) [
  | false ↦ some (some body, interrupted ∷ as')
  | true ↦ receive_body content_length body as'
]
receive_body content_length body (ended ∷ as') =
    if ltb (length body) content_length then some (none, as') else some (some body, ended ∷ as')
receive_body content_length body (got chunk ∷ as') = elim (ltb (length body) content_length) [
  | false ↦ some (some body, got chunk ∷ as')
  | true ↦ receive_body content_length (body ++ chunk) as'
]

unfoldable pub read_remaining_body :
    ℕ → HttpRequest → List Answer → Option (Option Bytes × List Answer)
read_remaining_body request_size parsed as' =
    if leb (request_size - parsed.body_offset) parsed.content_length
    then some (none, as')
    else receive_body parsed.content_length parsed.body as'

module _ {S : Type 0} (settings : Settings S) where
  unfoldable pub after_setter : Outcome S → Server S → Server S
  after_setter o server = record {
    config = o.config;
    store = o.store;
    notified = if o.notified then server.notified + 1 else server.notified;
  }

  -- `if (wanted && set(..) != 0) { reply with 500; return; }`
  unfoldable pub save_if :
      Bool → Outcome S → String → Server S → (Server S → Reply × Server S) → Reply × Server S
  save_if false o message server next = next server
  save_if true o message server next = elim o.ret [
    | ok ↦ next (after_setter o server)
    | error e ↦ (reply internal_error_500 (field_error "body" message), after_setter o server)
  ]

  -- The five saves, in their order; the station, the access point and the system are those merged
  -- before the first.
  unfoldable pub save_all : Payload → Sta → Ap → System → Server S → Reply × Server S
  save_all p sta ap system_cfg s0 =
      save_if (fields_ais p)
        (set_ais settings s0.config s0.store (some (merge_ais p (get_ais s0.config))))
        "saving AIS configuration failed" s0
        (λ s1.
          save_if (fields_tcp p)
            (set_tcp_client settings s1.config s1.store
              (some (merge_tcp p (get_tcp_client s1.config))))
            "saving TCP client configuration failed" s1
            (λ s2.
              save_if (fields_sta p) (set_sta settings s2.config s2.store (some sta))
                "saving WiFi configuration failed" s2
                (λ s3.
                  save_if (fields_ap p) (set_ap settings s3.config s3.store (some ap))
                    "saving access point configuration failed" s3
                    (λ s4.
                      save_if (given p.hostname)
                        (set_system settings s4.config s4.store (some system_cfg))
                        "saving system configuration failed" s4
                        (λ s5. (reply ok_200 (config_json s5.config), s5))))))

  -- The part behind the parser.
  unfoldable pub update : Payload → Server S → Reply × Server S
  update p server =
      let sta = merge_sta p (get_sta server.config) in
      let ap = merge_ap p (get_ap server.config) in
      let system_cfg = merge_system p (get_system server.config) in
      elim (validate p) [
        | some r ↦ (r, server)
        | none ↦ elim (enable_error p sta) [
          | some r ↦ (r, server)
          | none ↦ save_all p sta ap system_cfg server
        ]
      ]

  -- The part behind `read_remaining_body`; `json_obj_parse` gives `none` for a negative result.
  unfoldable pub answer_body :
      (Bytes → Option Payload)
      → HttpRequest
      → Server S
      → Option (Option Bytes × List Answer)
      → Option (Reply × Server S × List Answer)
  answer_body json_obj_parse parsed server none = none
  answer_body json_obj_parse parsed server (some (none, rest)) =
      some (reply bad_request_400 (field_error "body" "body ended early"), server, rest)
  answer_body json_obj_parse parsed server (some (some body, rest)) =
      elim (json_obj_parse (take parsed.content_length body)) [
        | none ↦ some (reply bad_request_400 (field_error "body" "invalid JSON"), server, rest)
        | some p ↦
            if not (fields_any p)
            then some (
              reply bad_request_400 (field_error "body" "no recognised configuration fields"),
              server,
              rest,
            )
            else (let (answer, server') = update p server in some (answer, server', rest))
      ]

  -- `handle_config_update`
  unfoldable pub handle_config_update :
      (Bytes → Option Payload)
      → ℕ
      → HttpRequest
      → Server S
      → List Answer
      → Option (Reply × Server S × List Answer)
  handle_config_update json_obj_parse request_size parsed server as' =
      let received = read_remaining_body request_size parsed as' in
      let answered = answer_body json_obj_parse parsed server received in
      if not parsed.has_content_length
      then some (reply bad_request_400 (field_error "body" "Content-Length required"), server, as')
      else if ltb config_body_max parsed.content_length
      then some (reply too_large_413 (field_error "body" "payload too large"), server, as')
      else if ltb parsed.content_length (length parsed.body)
      then some
          (reply bad_request_400 (field_error "body" "body exceeds Content-Length"), server, as')
      else answered
