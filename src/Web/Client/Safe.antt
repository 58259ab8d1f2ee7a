-- ===== src/Web/Client/Safe.antt =====
-- src/web_app.c: what no request can do.
use esp_nmea_bridge.Prelude.{
  ℕ, ◌≡◌, sym, true, false, List, [], Option, none, some, subst, Bool-cases, Option-cases, inl, inr,
  ◌==◌, length, ◌<◌,
}
use mathlib.Core.Option
use esp_nmea_bridge.Prelude.Text.{codes}
use esp_nmea_bridge.Config.{Config, Ret-cases}
use esp_nmea_bridge.Config.Set.{ais_accepted}
use esp_nmea_bridge.Config.Record.{bad_psk_len}
use esp_nmea_bridge.Config.Valid.{text_valid, hostname_valid, tcp_client_host_valid}
use esp_nmea_bridge.Config.Store.{Settings}
use esp_nmea_bridge.Config.Reset.{KeyStore}
use esp_nmea_bridge.Config.Reset.Complete.{SameSettings, factory_reset_complete}
use esp_nmea_bridge.Ota.{Ota}
use esp_nmea_bridge.Ota.Flash.{FlashImg}
use esp_nmea_bridge.Web.Http.{
  HttpRequest, Answer, Result, value, failure, token_equals, read_http_request,
}
use esp_nmea_bridge.Web.Reply.{Reply}
use esp_nmea_bridge.Web.Update.{Server}
use esp_nmea_bridge.Web.Update.Merge.{WellFormed, Holds}
use esp_nmea_bridge.Web.Update.Checked.{Answered, refused, applied, Answers, handle-Answers}
use esp_nmea_bridge.Web.Client.{
  App, Call, rx_buf_size, find_asset, write_status_json, handle_config_reset, handle_reboot,
  handle_get, handle_post, dispatch, handle_client,
}

module _ {S F : Type 0} (settings : Settings S) (keys : KeyStore S) (name_max : ℕ)
    (img : FlashImg F) (max_configured : ℕ) (call : Call) where
  SameSettings-WellFormed :
      (c c' : Config) → SameSettings keys name_max c c' → WellFormed c → WellFormed c'
  unfolding SameSettings
  SameSettings-WellFormed c c' (ais, (sta, (ap', (system_cfg, tcp_client)))) wf = record {
    mmsi = subst (λ x. ais_accepted x ≡ true) (sym ais) wf.mmsi;
    host =
        subst (λ x. Holds 16 (λ s. tcp_client_host_valid s ≡ true) x.host) (sym tcp_client) wf.host;
    port = subst (λ x. (x.port == 0) ≡ false) (sym tcp_client) wf.port;
    sta_ssid = subst (λ x. Holds 33 (λ s. text_valid s ≡ true) x.ssid) (sym sta) wf.sta_ssid;
    sta_psk =
        subst (λ x. Holds 64 (λ s. bad_psk_len (length s) ≡ false) x.psk) (sym sta) wf.sta_psk;
    ap_ssid =
        subst (λ x. Holds 33 (λ s. (text_valid s ≡ true) × (0 < length s)) x.ssid) (sym ap')
          wf.ap_ssid;
    ap_psk = subst (λ x. Holds 64 (λ s. bad_psk_len (length s) ≡ false) x.psk) (sym ap') wf.ap_psk;
    hostname =
        subst (λ x. Holds 33 (λ s. hostname_valid s ≡ true) x.hostname) (sym system_cfg)
          wf.hostname;
  }

  -- The configuration behind a reply is well formed.
  abbrev Keeps : Option (Reply × App S F × List Answer) → Type 0
  Keeps none = Unit
  Keeps (some (r, app, rest)) = WellFormed app.server.config

  Answered-WellFormed :
      (server : Server S) (r : Reply) (server' : Server S)
      → WellFormed server.config
      → Answered settings server r server'
      → WellFormed server'.config
  Answered-WellFormed server r server' wf (refused status e) =
      subst (λ x. WellFormed x.config) (sym e) wf
  Answered-WellFormed server r server' wf (applied status wf' reliable) = wf'

  update-Keeps :
      (app : App S F) (r : Option (Reply × Server S × List Answer))
      → WellFormed app.server.config
      → Answers settings app.server r
      → Keeps (Option.map (λ x. (x.0, record app { server = x.1 }, x.2)) r)
  update-Keeps app none wf a = tt
  update-Keeps app (some (r, server', rest)) wf a = Answered-WellFormed app.server r server' wf a

  upload-Keeps :
      (app : App S F) (r : Option (Reply × Ota F × List Answer))
      → WellFormed app.server.config
      → Keeps (Option.map (λ x. (x.0, record app { ota = x.1 }, x.2)) r)
  upload-Keeps app none wf = tt
  upload-Keeps app (some (r, o, rest)) wf = wf

  reset-Keeps :
      (app : App S F) (as' : List Answer)
      → WellFormed app.server.config
      → Keeps (
          Option.map
            (λ x. (x.0, x.1, as'))
            (handle_config_reset settings keys name_max img max_configured call app))
  unfolding handle_config_reset
  reset-Keeps app as' wf =
      let (ret, c', s', (e, (_, same))) =
        factory_reset_complete keys name_max app.server.config app.server.store in
      let wf' = SameSettings-WellFormed app.server.config c' same wf in
      elim (Ret-cases ret) [
        | inl e' ↦ rw (handle_config_reset, e, e') wf'
        | inr (x, e') ↦ rw (handle_config_reset, e, e') wf'
      ]

  get-Keeps :
      (parsed : HttpRequest) (app : App S F) (as' : List Answer)
      → WellFormed app.server.config
      → Keeps (handle_get settings keys name_max img max_configured call parsed app as')
  unfolding handle_get write_status_json
  get-Keeps parsed app as' wf = elim (Bool-cases (token_equals parsed.path (codes "/api/status"))) [
    | inl a ↦ elim (Bool-cases call.status_fits) [
      | inl f ↦ rw (handle_get, write_status_json, a, f) wf
      | inr f ↦ rw (handle_get, write_status_json, a, f) wf
    ]
    | inr a ↦ elim (Bool-cases (token_equals parsed.path (codes "/api/config"))) [
      | inl b ↦ rw (handle_get, a, b) wf
      | inr b ↦ elim (Option-cases (find_asset parsed.path)) [
        | inl e ↦ rw (handle_get, a, b, e) wf
        | inr (i, e) ↦ rw (handle_get, a, b, e) wf
      ]
    ]
  ]

  post-Keeps :
      (parsed : HttpRequest) (app : App S F) (as' : List Answer)
      → WellFormed app.server.config
      → Keeps (handle_post settings keys name_max img max_configured call parsed app as')
  unfolding handle_post handle_reboot
  post-Keeps parsed app as' wf =
      elim (Bool-cases (token_equals parsed.path (codes "/api/ota/upload"))) [
        | inl a ↦ rw (handle_post, a) (upload-Keeps app _ wf)
        | inr a ↦ elim (Bool-cases (token_equals parsed.path (codes "/api/config"))) [
          | inl b ↦
              rw (handle_post, a, b)
                (update-Keeps app _ wf (
                  handle-Answers settings call.json_obj_parse rx_buf_size parsed app.server as' wf))
          | inr b ↦ elim (Bool-cases (token_equals parsed.path (codes "/api/config/reset"))) [
            | inl c ↦ rw (handle_post, a, b, c) (reset-Keeps app as' wf)
            | inr c ↦ elim (Bool-cases (token_equals parsed.path (codes "/api/reboot"))) [
              | inl d ↦ rw (handle_post, a, b, c, d) wf
              | inr d ↦ rw (handle_post, a, b, c, d) wf
            ]
          ]
        ]
      ]

  dispatch-Keeps :
      (parsed : Result HttpRequest) (app : App S F) (as' : List Answer)
      → WellFormed app.server.config
      → Keeps (dispatch settings keys name_max img max_configured call parsed app as')
  unfolding dispatch
  dispatch-Keeps (failure e) app as' wf = wf
  dispatch-Keeps (value parsed) app as' wf =
      elim (Bool-cases (token_equals parsed.method (codes "GET"))) [
        | inl a ↦ rw (dispatch, a) (get-Keeps parsed app as' wf)
        | inr a ↦ elim (Bool-cases (token_equals parsed.method (codes "POST"))) [
          | inl b ↦ rw (dispatch, a, b) (post-Keeps parsed app as' wf)
          | inr b ↦ rw (dispatch, a, b) wf
        ]
      ]

  client-Keeps :
      (app : App S F) (as' : List Answer)
      → WellFormed app.server.config
      → Keeps (handle_client settings keys name_max img max_configured call app as')
  unfolding handle_client
  client-Keeps app as' wf = elim (Bool-cases call.timeout_set) [
    | inr t ↦ rw (handle_client, t) wf
    | inl t ↦ elim (Option-cases (read_http_request rx_buf_size [] as')) [
      | inl e ↦ rw (handle_client, t, e) tt
      | inr ((parsed, rest), e) ↦ rw (handle_client, t, e) (dispatch-Keeps parsed app rest wf)
    ]
  ]

  -- Whatever a client sends, to whichever path, and whatever the parser, the flash, the settings
  -- store and the network answer: a configuration in memory that is well formed (every value one
  -- that its setter accepts, every text terminated within its array) is well formed when
  -- `handle_client` replies.
  pub handle_client-WellFormed :
      (app app' : App S F) (as' rest : List Answer) (r : Reply)
      → WellFormed app.server.config
      → handle_client settings keys name_max img max_configured call app as' ≡ some (r, app', rest)
      → WellFormed app'.server.config
  handle_client-WellFormed app app' as' rest r wf h = subst Keeps h (client-Keeps app as' wf)
