-- ===== src/Ota.antt =====
-- src/ota_update.c and ota_update.h, with CONFIG_ESP_NMEA_BRIDGE_OTA_UPDATE_ENABLE: the upload of a
-- firmware image and its confirmation. A function of the source holds `lock`, and is one step.
-- `max_configured` is CONFIG_ESP_NMEA_BRIDGE_OTA_MAX_UPLOAD_BYTES; a `size_t` has 32 bits. The text
-- that `snprintk` writes to `last_error` is the pair of its arguments; `none` is the empty text.
pub mod Flash
pub mod Invariant
pub mod Transfer
pub mod Reboot
pub mod Disabled
pub mod Tests
use esp_nmea_bridge.Prelude.{
  ℕ, ◌+◌, Bool, true, false, not, ◌&&◌, Option, none, some, ltb, ◌==◌, ◌!=◌, if◌then◌else◌, length,
  [],
}
use esp_nmea_bridge.Prelude.Byte.{u32}
use esp_nmea_bridge.Prelude.CString.{Bytes}
use esp_nmea_bridge.Config.{Ret, ok, error, einval}
use Flash.{FlashImg}

abbrev pub efbig : Ret
efbig = error 27

abbrev pub ealready : Ret
ealready = error 120

abbrev pub emsgsize : Ret
emsgsize = error 122

abbrev pub ecanceled : Ret
ecanceled = error 140

-- `enum ota_update_state`
pub data State : Type 0 where
  disabled ready uploading pending_reboot confirmed error_state : State

-- The texts that `set_error_locked` is given; `given` is the caller's of `ota_update_abort`.
pub data Reason : Type 0 where
  opening_failed invalid_size erasing_failed initializing_failed : Reason
  exceeded_length writing_failed ended_early flushing_failed : Reason
  requesting_failed aborted confirming_failed : Reason
  given : Bytes → Reason

-- `struct ota_update_status`
pub record Status : Type 0 where
  pub enabled : Bool
  pub state : State
  pub expected_bytes : ℕ
  pub uploaded_bytes : ℕ
  pub max_upload_bytes : ℕ
  pub slot : ℕ
  pub is_confirmed : Bool
  pub last_error : Option (Reason × Ret)

-- `ota_runtime`, and the flash behind it; `reboot_scheduled` is that of `reboot_work`.
pub record Ota (F : Type 0) : Type 0 where
  pub initialized : Bool
  pub status : Status
  pub flash : F
  pub reboot_scheduled : Bool

-- The zeroed statics.
unfoldable pub boot : {F : Type 0} → F → Ota F
boot f = record {
  initialized = false;
  status = record {
    enabled = false;
    state = disabled;
    expected_bytes = 0;
    uploaded_bytes = 0;
    max_upload_bytes = 0;
    slot = 0;
    is_confirmed = false;
    last_error = none;
  };
  flash = f;
  reboot_scheduled = false;
}

-- `ota_update_validate_upload_size`
unfoldable pub validate_upload_size : ℕ → ℕ → Ret
validate_upload_size content_length max_upload_bytes =
    if content_length == 0
    then einval
    else if ltb 0 max_upload_bytes && ltb max_upload_bytes content_length
    then efbig
    else ok

unfoldable pub set_error_locked : {F : Type 0} → Reason → Ret → Ota F → Ota F
set_error_locked reason err o = record o {
  status = record o.status { state = error_state; last_error = some (reason, err) };
}

unfoldable pub is_uploading : State → Bool
is_uploading uploading = true
is_uploading _ = false

module _ {F : Type 0} (img : FlashImg F) (max_configured : ℕ) where
  -- The area is not null here: the slot was opened.
  unfoldable pub configured_limit_or_slot_size : F → ℕ → ℕ
  configured_limit_or_slot_size f slot =
      if ltb 0 max_configured then max_configured else img.fa_size f slot

  unfoldable pub init_once : Ota F → Ota F
  init_once o = if o.initialized then o else record o {
    initialized = true;
    status = record o.status {
      enabled = true;
      state = if img.is_img_confirmed o.flash then confirmed else ready;
      is_confirmed = img.is_img_confirmed o.flash;
      slot = img.upload_slot o.flash;
    };
  }

  -- `ota_update_get_status`, with a status that is not null
  unfoldable pub get_status : Ota F → Status × Ota F
  get_status o = ((init_once o).status, init_once o)

  -- The calls of `ota_update_begin` that touch the flash, behind its size check, in their order.
  unfoldable pub prepare : ℕ → ℕ → Ota F → Ret × Ota F
  prepare content_length slot o =
      let (erased, f) = img.erase_img_bank o.flash slot in
      let (started, g) = img.init_id f slot in
      elim erased [
        | error e ↦ (error e, set_error_locked erasing_failed (error e) (record o { flash = f }))
        | ok ↦ elim started [
          | error e ↦
              (error e, set_error_locked initializing_failed (error e) (record o { flash = g }))
          | ok ↦ (
            ok,
            record o {
              flash = g;
              status = record o.status {
                enabled = true;
                state = uploading;
                expected_bytes = content_length;
                uploaded_bytes = 0;
                slot = slot;
                last_error = none;
              };
            },
          )
        ]
      ]

  -- `ota_update_begin` of a runtime that is initialized
  unfoldable pub begin_locked : ℕ → Ota F → Ret × Ota F
  begin_locked content_length o =
      let slot = img.upload_slot o.flash in
      let limit = configured_limit_or_slot_size o.flash slot in
      let p = record o { status = record o.status { max_upload_bytes = limit } } in
      elim (img.area_open o.flash slot) [
        | error e ↦ (error e, set_error_locked opening_failed (error e) o)
        | ok ↦ elim (validate_upload_size content_length limit) [
          | error e ↦ (error e, set_error_locked invalid_size (error e) p)
          | ok ↦ prepare content_length slot p
        ]
      ]

  unfoldable pub begin : ℕ → Ota F → Ret × Ota F
  begin content_length o = begin_locked content_length (init_once o)

  -- `ota_update_write`, with data that is not null, of a runtime that is initialized
  unfoldable pub write_locked : Bytes → Ota F → Ret × Ota F
  write_locked image o =
      let total = u32 (o.status.uploaded_bytes + length image) in
      let (ret, f) = img.buffered_write o.flash image false in
      if not (is_uploading o.status.state)
      then (ealready, o)
      else if ltb o.status.expected_bytes total
      then (efbig, set_error_locked exceeded_length efbig o)
      else elim ret [
        | error e ↦ (error e, set_error_locked writing_failed (error e) (record o { flash = f }))
        | ok ↦ (ok, record o { flash = f; status = record o.status { uploaded_bytes = total } })
      ]

  unfoldable pub write : Bytes → Ota F → Ret × Ota F
  write image o = write_locked image (init_once o)

  -- The calls of `ota_update_finish` behind its guards.
  unfoldable pub flush_and_request : Ota F → Ret × Ota F
  flush_and_request o =
      let (flushed, f) = img.buffered_write o.flash [] true in
      let (requested, g) = img.request_upgrade f in
      elim flushed [
        | error e ↦ (error e, set_error_locked flushing_failed (error e) (record o { flash = f }))
        | ok ↦ elim requested [
          | error e ↦
              (error e, set_error_locked requesting_failed (error e) (record o { flash = g }))
          | ok ↦ (
            ok,
            record o {
              flash = g;
              status = record o.status { state = pending_reboot; last_error = none };
            },
          )
        ]
      ]

  -- `ota_update_finish` of a runtime that is initialized
  unfoldable pub finish_locked : Ota F → Ret × Ota F
  finish_locked o =
      if not (is_uploading o.status.state)
      then (ealready, o)
      else if o.status.uploaded_bytes != o.status.expected_bytes
      then (emsgsize, set_error_locked ended_early emsgsize o)
      else flush_and_request o

  unfoldable pub finish : Ota F → Ret × Ota F
  finish o = finish_locked (init_once o)

  -- `ota_update_schedule_reboot`
  unfoldable pub schedule_reboot : Ota F → Ota F
  schedule_reboot o = record (init_once o) { reboot_scheduled = true }

  -- `ota_update_abort`
  unfoldable pub abort : Option Bytes → Ota F → Ota F
  abort none o = set_error_locked aborted ecanceled (init_once o)
  abort (some reason) o = set_error_locked (given reason) ecanceled (init_once o)

  -- `ota_update_self_check_web_reachable` of a runtime that is initialized
  unfoldable pub confirm_locked : Ota F → Ota F
  confirm_locked o =
      let (ret, f) = img.write_img_confirmed o.flash in
      if img.is_img_confirmed o.flash
      then record o { status = record o.status { is_confirmed = true; state = confirmed } }
      else elim ret [
        | error e ↦ set_error_locked confirming_failed (error e) (record o { flash = f })
        | ok ↦ record o {
          flash = f;
          status = record o.status { is_confirmed = true; state = confirmed; last_error = none };
        }
      ]

  unfoldable pub self_check : Ota F → Ota F
  self_check o = confirm_locked (init_once o)
