-- ===== src/Web/Upload.antt =====
-- src/web_app.c: `handle_ota_upload`, which drives the OTA module with what the socket hands out.
pub mod Loop
pub mod Outcome
use esp_nmea_bridge.Prelude.{
  ℕ, ◌+◌, Bool, true, false, not, List, [], ◌∷◌, Option, none, some, ltb, ◌==◌, if◌then◌else◌,
  length,
}
use esp_nmea_bridge.Prelude.Byte.{u32}
use esp_nmea_bridge.Prelude.CString.{Bytes}
use esp_nmea_bridge.Prelude.Text.{codes}
use esp_nmea_bridge.Config.{Ret, ok, error}
use esp_nmea_bridge.Ota.{Ota, begin, write, finish, abort, schedule_reboot}
use esp_nmea_bridge.Ota.Flash.{FlashImg}
use esp_nmea_bridge.Web.Http.{HttpRequest, Answer, interrupted, ended, got}
use esp_nmea_bridge.Web.Reply.{
  Reply, reply, ota_error, ota_success, ok_200, bad_request_400, forbidden_403, length_required_411,
  too_large_413, internal_error_500,
}

-- How the loop over the body ends: all is sent, the connection ended, or a write failed.
pub data End : Type 0 where
  sent closed : End
  failed : ℕ → End

module _ {F : Type 0} (img : FlashImg F) (max_configured : ℕ) where
  unfoldable pub write_ota_body_chunk : Bytes → Ota F → Ret × Ota F
  write_ota_body_chunk chunk o =
      if length chunk == 0 then (ok, o) else write img max_configured chunk o

  -- `*uploaded += len`, where the write succeeded.
  unfoldable pub count_uploaded : Ret → ℕ → Bytes → ℕ
  count_uploaded ok uploaded chunk = u32 (uploaded + length chunk)
  count_uploaded (error e) uploaded chunk = uploaded

  -- The loop over the body: how it ends, and what is left; `none` while it waits for more answers.
  unfoldable pub upload_loop :
      ℕ → Ret → ℕ → Ota F → List Answer → Option (End × Ota F × List Answer)
  upload_loop content_length (error e) uploaded o as' = some (failed e, o, as')
  upload_loop content_length ok uploaded o [] =
      if ltb uploaded content_length then none else some (sent, o, [])
  upload_loop content_length ok uploaded o (interrupted ∷ as') =
      elim (ltb uploaded content_length) [
        | false ↦ some (sent, o, interrupted ∷ as')
        | true ↦ upload_loop content_length ok uploaded o as'
      ]
  upload_loop content_length ok uploaded o (ended ∷ as') =
      if ltb uploaded content_length then some (closed, o, as') else some (sent, o, ended ∷ as')
  upload_loop content_length ok uploaded o (got chunk ∷ as') = elim (ltb uploaded content_length) [
    | false ↦ some (sent, o, got chunk ∷ as')
    | true ↦
        let (ret, o') = write_ota_body_chunk chunk o in
        upload_loop content_length ret (count_uploaded ret uploaded chunk) o' as'
  ]

  -- The part behind the loop, for each of its ends.
  unfoldable pub conclude_upload : End → Ota F → Reply × Ota F
  conclude_upload closed o = (
    reply bad_request_400 (ota_error "upload ended early"),
    abort img max_configured (some (codes "OTA upload connection closed early")) o,
  )
  conclude_upload (failed e) o = (
    reply internal_error_500 (ota_error "writing OTA image failed"),
    abort img max_configured (some (codes "OTA image write failed")) o,
  )
  conclude_upload sent o =
      let (ret, o') = finish img max_configured o in
      elim ret [
        | error e ↦ (
          reply internal_error_500 (ota_error "finishing OTA image failed"),
          abort img max_configured (some (codes "OTA image finish failed")) o',
        )
        | ok ↦ (reply ok_200 ota_success, schedule_reboot img max_configured o')
      ]

  -- The part behind `ota_update_begin`.
  unfoldable pub receive_upload :
      HttpRequest → Ota F → List Answer → Option (Reply × Ota F × List Answer)
  receive_upload request o as' =
      let (ret, o') = write_ota_body_chunk request.body o in
      elim (upload_loop request.content_length ret (count_uploaded ret 0 request.body) o' as') [
        | none ↦ none
        | some (how, o'', rest) ↦
            let (answer, p) = conclude_upload how o'' in some (answer, p, rest)
      ]

  -- `handle_ota_upload`; `allowed` is `ota_upload_allowed()`.
  unfoldable pub handle_ota_upload :
      Bool → HttpRequest → Ota F → List Answer → Option (Reply × Ota F × List Answer)
  handle_ota_upload allowed request o as' =
      let (ret, o') = begin img max_configured request.content_length o in
      let received = receive_upload request o' as' in
      if not allowed
      then some (reply forbidden_403 (ota_error "OTA uploads are disabled"), o, as')
      else if not request.has_content_length
      then some (reply length_required_411 (ota_error "Content-Length required"), o, as')
      else if ltb request.content_length (length request.body)
      then some (reply bad_request_400 (ota_error "body exceeds Content-Length"), o, as')
      else elim ret [
        | error e ↦ some (
          reply (if e == 27 then too_large_413 else bad_request_400)
              (ota_error "invalid OTA upload size"),
          o',
          as',
        )
        | ok ↦ received
      ]
