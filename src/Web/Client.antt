-- ===== src/Web/Client.antt =====
-- src/web_app.c: one connection, from the request to the reply.
pub mod Safe
use Prim.Native.String.{String}
use esp_nmea_bridge.Prelude.{
  ℕ, Bool, true, false, not, ◌&&◌, List, [], ◌∷◌, Option, none, some, if◌then◌else◌, ◌+◌,
}
use mathlib.Core.Option
use esp_nmea_bridge.Prelude.CString.{Bytes}
use esp_nmea_bridge.Prelude.Text.{codes}
use esp_nmea_bridge.Config.{Ret, ok, error}
use esp_nmea_bridge.Config.Store.{Settings}
use esp_nmea_bridge.Config.Reset.{KeyStore, factory_reset}
use esp_nmea_bridge.Ota.{Ota, init_once, self_check}
use esp_nmea_bridge.Ota.Flash.{FlashImg}
use esp_nmea_bridge.Web.Http.{
  HttpRequest, Answer, Result, value, failure, token_equals, read_http_request,
}
use esp_nmea_bridge.Web.Reply.{
  Reply, reply, ok_200, bad_request_400, not_found_404, method_not_allowed_405, internal_error_500,
  text, field_error, status_error, ok_json, status_json, config_json, asset,
}
use esp_nmea_bridge.Web.Payload.{Payload}
use esp_nmea_bridge.Web.Upload.{handle_ota_upload}
use esp_nmea_bridge.Web.Update.{Server, handle_config_update}

abbrev pub rx_buf_size : ℕ
rx_buf_size = 1536

-- The paths of `assets`.
abbrev pub asset_paths : List Bytes
asset_paths = codes "/" ∷ codes "/index.html" ∷ codes "/app.js" ∷ codes "/style.css" ∷ []

-- `find_asset`: the index of the asset.
unfoldable pub find_path : ℕ → List Bytes → Bytes → Option ℕ
find_path i [] path = none
find_path i (p ∷ paths) path = if token_equals path p then some i else find_path (i + 1) paths path

unfoldable pub find_asset : Bytes → Option ℕ
find_asset path = find_path 0 asset_paths path

-- What a request can change: the configuration with its store, the OTA runtime, and whether a
-- reboot was requested.
pub record App (S F : Type 0) : Type 0 where
  pub server : Server S
  pub ota : Ota F
  pub reboot_requested : Bool

-- What the code asks of the rest of the system on one connection: `json_obj_parse`,
-- `ota_upload_allowed`, whether the receive timeout could be set, whether the status fits its
-- buffer, and whether the response was sent.
pub record Call : Type 0 where
  pub json_obj_parse : Bytes → Option Payload
  pub upload_allowed : Bool
  pub timeout_set : Bool
  pub status_fits : Bool
  pub status_sent : Bool

module _ {S F : Type 0} (settings : Settings S) (keys : KeyStore S) (name_max : ℕ)
    (img : FlashImg F) (max_configured : ℕ) (call : Call) where
  -- `write_status_json`, with CONFIG_ESP_NMEA_BRIDGE_OTA_UPDATE_ENABLE.
  unfoldable pub write_status_json : App S F → Reply × App S F
  write_status_json app =
      let read = init_once img max_configured app.ota in
      if not call.status_fits
      then (reply internal_error_500 status_error, record app { ota = read })
      else (
        reply ok_200 status_json,
        record app { ota = if call.status_sent then self_check img max_configured read else read },
      )

  unfoldable pub handle_config_reset : App S F → Option (Reply × App S F)
  handle_config_reset app = elim (factory_reset keys name_max app.server.config app.server.store) [
    | none ↦ none
    | some (ret, config, store) ↦
        let app' = record app { server = record app.server { config = config; store = store } } in
        elim ret [
          | error e ↦
              some (reply internal_error_500 (field_error "body" "factory reset failed"), app')
          | ok ↦ some (reply ok_200 (config_json config), app')
        ]
  ]

  unfoldable pub handle_reboot : App S F → Reply × App S F
  handle_reboot app = (reply ok_200 ok_json, record app { reboot_requested = true })

  abbrev pub not_found : App S F → List Answer → Option (Reply × App S F × List Answer)
  not_found app as' = some (reply not_found_404 (text "not found\n"), app, as')

  -- The branch of GET.
  unfoldable pub handle_get :
      HttpRequest → App S F → List Answer → Option (Reply × App S F × List Answer)
  handle_get parsed app as' =
      let (status, app') = write_status_json app in
      if token_equals parsed.path (codes "/api/status")
      then some (status, app', as')
      else if token_equals parsed.path (codes "/api/config")
      then some (reply ok_200 (config_json app.server.config), app, as')
      else elim (find_asset parsed.path) [
        | some i ↦ some (reply ok_200 (asset i), app, as')
        | none ↦ not_found app as'
      ]

  -- The branch of POST.
  unfoldable pub handle_post :
      HttpRequest → App S F → List Answer → Option (Reply × App S F × List Answer)
  handle_post parsed app as' =
      if token_equals parsed.path (codes "/api/ota/upload")
      then Option.map (λ r. (r.0, record app { ota = r.1 }, r.2))
          (handle_ota_upload img max_configured call.upload_allowed parsed app.ota as')
      else if token_equals parsed.path (codes "/api/config")
      then Option.map (λ r. (r.0, record app { server = r.1 }, r.2))
          (handle_config_update settings call.json_obj_parse rx_buf_size parsed app.server as')
      else if token_equals parsed.path (codes "/api/config/reset")
      then Option.map (λ r. (r.0, r.1, as')) (handle_config_reset app)
      else if token_equals parsed.path (codes "/api/reboot")
      then some ((handle_reboot app).0, (handle_reboot app).1, as')
      else not_found app as'

  -- The part of `handle_client` behind the reading of the request.
  unfoldable pub dispatch :
      Result HttpRequest → App S F → List Answer → Option (Reply × App S F × List Answer)
  dispatch (failure e) app as' = some (reply bad_request_400 (text "bad request\n"), app, as')
  dispatch (value parsed) app as' =
      let got = handle_get parsed app as' in
      let posted = handle_post parsed app as' in
      if token_equals parsed.method (codes "GET")
      then got
      else if token_equals parsed.method (codes "POST")
      then posted
      else some (reply method_not_allowed_405 (text "method not allowed\n"), app, as')

  unfoldable pub handle_client : App S F → List Answer → Option (Reply × App S F × List Answer)
  handle_client app as' =
      if not call.timeout_set
      then some (reply internal_error_500 (text "configuring receive timeout failed\n"), app, as')
      else elim (read_http_request rx_buf_size [] as') [
        | none ↦ none
        | some (parsed, rest) ↦ dispatch parsed app rest
      ]
