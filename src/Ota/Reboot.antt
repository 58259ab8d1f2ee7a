-- ===== src/Ota/Reboot.antt =====
-- src/ota_update.c: which calls touch the reboot, and which leave the error state.
use esp_nmea_bridge.Prelude.{
  ℕ, ◌≡◌, ◌≢◌, refl, ◌∙◌, true, false, Option, none, some, [], inl, inr, length, ltb, ◌!=◌,
  Bool-cases, ◌+◌,
}
use esp_nmea_bridge.Prelude.CString.{Bytes}
use esp_nmea_bridge.Prelude.Byte.{u32}
use esp_nmea_bridge.Config.{ok, Ret-cases}
use esp_nmea_bridge.Ota.{
  Ota, error_state, validate_upload_size, set_error_locked, is_uploading, init_once, prepare,
  begin_locked, begin, write_locked, write, flush_and_request, finish_locked, finish,
  schedule_reboot, abort, configured_limit_or_slot_size,
}
use esp_nmea_bridge.Ota.Flash.{FlashImg}

module _ {F : Type 0} (img : FlashImg F) (max_configured : ℕ) where
  init_once-reboot :
      (o : Ota F) → (init_once img max_configured o).reboot_scheduled ≡ o.reboot_scheduled
  unfolding init_once
  init_once-reboot o = elim (Bool-cases o.initialized) [
    | inl e ↦ rw (init_once, e) refl
    | inr e ↦ rw (init_once, e) refl
  ]

  prepare-reboot :
      (n slot : ℕ) (o : Ota F)
      → (prepare img max_configured n slot o).1.reboot_scheduled ≡ o.reboot_scheduled
  unfolding prepare set_error_locked
  prepare-reboot n slot o = elim (Ret-cases (img.erase_img_bank o.flash slot).0) [
    | inr (x, e) ↦ rw (prepare, e) refl
    | inl e ↦ elim (Ret-cases (img.init_id (img.erase_img_bank o.flash slot).1 slot).0) [
      | inr (x, e') ↦ rw (prepare, e, e') refl
      | inl e' ↦ rw (prepare, e, e') refl
    ]
  ]

  pub begin-reboot :
      (n : ℕ) (o : Ota F) → (begin img max_configured n o).1.reboot_scheduled ≡ o.reboot_scheduled
  unfolding begin begin_locked set_error_locked
  begin-reboot n o =
      let p = init_once img max_configured o in
      let slot = img.upload_slot p.flash in
      let limit = configured_limit_or_slot_size img max_configured p.flash slot in
      elim (Ret-cases (img.area_open p.flash slot)) [
        | inr (x, e) ↦ rw (begin_locked, e) (init_once-reboot o)
        | inl e ↦ elim (Ret-cases (validate_upload_size n limit)) [
          | inr (x, e') ↦ rw (begin_locked, e, e') (init_once-reboot o)
          | inl e' ↦ rw (begin_locked, e, e') (prepare-reboot n slot _ ∙ init_once-reboot o)
        ]
      ]

  write_locked-reboot :
      (d : Bytes) (o : Ota F)
      → (write_locked img max_configured d o).1.reboot_scheduled ≡ o.reboot_scheduled
  unfolding write_locked set_error_locked
  write_locked-reboot d o = elim (Bool-cases (is_uploading o.status.state)) [
    | inr s ↦ rw (write_locked, s) refl
    | inl s ↦
        elim (Bool-cases (ltb o.status.expected_bytes (u32 (o.status.uploaded_bytes + length d)))) [
          | inl b ↦ rw (write_locked, s, b) refl
          | inr b ↦ elim (Ret-cases (img.buffered_write o.flash d false).0) [
            | inr (x, r) ↦ rw (write_locked, s, b, r) refl
            | inl r ↦ rw (write_locked, s, b, r) refl
          ]
        ]
  ]

  pub write-reboot :
      (d : Bytes) (o : Ota F)
      → (write img max_configured d o).1.reboot_scheduled ≡ o.reboot_scheduled
  unfolding write
  write-reboot d o = write_locked-reboot d _ ∙ init_once-reboot o

  finish_locked_keeps :
      (o : Ota F)
      → ((finish_locked img max_configured o).1.reboot_scheduled ≡ o.reboot_scheduled)
        × ((finish_locked img max_configured o).1.initialized ≡ o.initialized)
  unfolding finish_locked flush_and_request set_error_locked
  finish_locked_keeps o = elim (Bool-cases (is_uploading o.status.state)) [
    | inr s ↦ rw (finish_locked, s) (refl, refl)
    | inl s ↦ elim (Bool-cases (o.status.uploaded_bytes != o.status.expected_bytes)) [
      | inl b ↦ rw (finish_locked, s, b) (refl, refl)
      | inr b ↦ elim (Ret-cases (img.buffered_write o.flash [] true).0) [
        | inr (x, r) ↦ rw (finish_locked, s, b, flush_and_request, r) (refl, refl)
        | inl r ↦ elim (Ret-cases (img.request_upgrade (img.buffered_write o.flash [] true).1).0) [
          | inr (x, r') ↦ rw (finish_locked, s, b, flush_and_request, r, r') (refl, refl)
          | inl r' ↦ rw (finish_locked, s, b, flush_and_request, r, r') (refl, refl)
        ]
      ]
    ]
  ]

  pub finish-reboot :
      (o : Ota F) → (finish img max_configured o).1.reboot_scheduled ≡ o.reboot_scheduled
  unfolding finish
  finish-reboot o = (finish_locked_keeps _).0 ∙ init_once-reboot o

  -- The runtime stays set up.
  pub finish_initialized :
      (o : Ota F) → o.initialized ≡ true → (finish img max_configured o).1.initialized ≡ true
  unfolding finish init_once
  finish_initialized o e = (finish_locked_keeps _).1 ∙ rw (init_once, e) refl

  pub schedule_reboot_set_up :
      (o : Ota F)
      → o.initialized ≡ true
      → schedule_reboot img max_configured o ≡ record o { reboot_scheduled = true }
  unfolding schedule_reboot init_once
  schedule_reboot_set_up o e = rw (init_once, e) refl

  pub abort-reboot :
      (reason : Option Bytes) (o : Ota F)
      → (abort img max_configured reason o).reboot_scheduled ≡ o.reboot_scheduled
  unfolding abort set_error_locked
  abort-reboot none o = init_once-reboot o
  abort-reboot (some reason) o = init_once-reboot o

  pub abort-error_state :
      (reason : Option Bytes) (o : Ota F)
      → (abort img max_configured reason o).status.state ≡ error_state
  unfolding abort set_error_locked
  abort-error_state none o = refl
  abort-error_state (some reason) o = refl

  prepare-error_state :
      (n slot : ℕ) (o : Ota F)
      → (prepare img max_configured n slot o).0 ≢ ok
      → (prepare img max_configured n slot o).1.status.state ≡ error_state
  unfolding prepare set_error_locked
  prepare-error_state n slot o = elim (Ret-cases (img.erase_img_bank o.flash slot).0) [
    | inr (x, e) ↦ rw (prepare, e) (λ _. refl)
    | inl e ↦ elim (Ret-cases (img.init_id (img.erase_img_bank o.flash slot).1 slot).0) [
      | inr (x, e') ↦ rw (prepare, e, e') (λ _. refl)
      | inl e' ↦ rw (prepare, e, e') (λ bad. absurd (bad refl))
    ]
  ]

  pub begin-error_state :
      (n : ℕ) (o : Ota F)
      → (begin img max_configured n o).0 ≢ ok
      → (begin img max_configured n o).1.status.state ≡ error_state
  unfolding begin begin_locked set_error_locked
  begin-error_state n o =
      let p = init_once img max_configured o in
      let slot = img.upload_slot p.flash in
      let limit = configured_limit_or_slot_size img max_configured p.flash slot in
      elim (Ret-cases (img.area_open p.flash slot)) [
        | inr (x, e) ↦ rw (begin_locked, e) (λ _. refl)
        | inl e ↦ elim (Ret-cases (validate_upload_size n limit)) [
          | inr (x, e') ↦ rw (begin_locked, e, e') (λ _. refl)
          | inl e' ↦ rw (begin_locked, e, e') (prepare-error_state n slot _)
        ]
      ]
