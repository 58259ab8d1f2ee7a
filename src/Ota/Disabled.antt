-- ===== src/Ota/Disabled.antt =====
-- src/ota_update.c without CONFIG_ESP_NMEA_BRIDGE_OTA_UPDATE_ENABLE, and the names of the states.
use esp_nmea_bridge.Prelude.{ℕ, ◌≡◌, refl, true, false, List, [], ◌∷◌, if◌then◌else◌, if-either}
use esp_nmea_bridge.Prelude.CString.{Bytes}
use esp_nmea_bridge.Prelude.Text.{codes}
use esp_nmea_bridge.Config.{Ret, error}
use esp_nmea_bridge.Ota.{
  Ota, State, disabled, ready, uploading, pending_reboot, confirmed, error_state,
}

abbrev pub enotsup : Ret
enotsup = error 134

-- `ota_update_state_name`, for the values of the enum.
unfoldable pub state_name : State → Bytes
state_name disabled = codes "disabled"
state_name ready = codes "ready"
state_name uploading = codes "uploading"
state_name pending_reboot = codes "pending_reboot"
state_name confirmed = codes "confirmed"
state_name error_state = codes "error"

module _ {F : Type 0} where
  -- `init_once`
  unfoldable pub init_disabled : Ota F → Ota F
  init_disabled o = if o.initialized then o else record o {
    initialized = true;
    status = record (o.status) { enabled = false; state = disabled; is_confirmed = true };
  }

  -- The functions behind `init_once`: those with a result refuse, the others do nothing.
  unfoldable pub begin_disabled : ℕ → Ota F → Ret × Ota F
  begin_disabled content_length o = (enotsup, init_disabled o)

  unfoldable pub write_disabled : Bytes → Ota F → Ret × Ota F
  write_disabled image o = (enotsup, init_disabled o)

  unfoldable pub finish_disabled : Ota F → Ret × Ota F
  finish_disabled o = (enotsup, init_disabled o)

  unfoldable pub schedule_reboot_disabled : Ota F → Ota F
  schedule_reboot_disabled o = init_disabled o

  unfoldable pub abort_disabled : Ota F → Ota F
  abort_disabled o = init_disabled o

  unfoldable pub self_check_disabled : Ota F → Ota F
  self_check_disabled o = init_disabled o

-- A call of the interface.
pub data Call : Type 0 where
  call_begin : ℕ → Call
  call_write : Bytes → Call
  call_finish call_schedule_reboot call_abort call_self_check : Call

module _ {F : Type 0} where
  unfoldable pub run_disabled : List Call → Ota F → Ota F
  run_disabled [] o = o
  run_disabled (call_begin n ∷ calls) o = run_disabled calls (begin_disabled n o).1
  run_disabled (call_write image ∷ calls) o = run_disabled calls (write_disabled image o).1
  run_disabled (call_finish ∷ calls) o = run_disabled calls (finish_disabled o).1
  run_disabled (call_schedule_reboot ∷ calls) o = run_disabled calls (schedule_reboot_disabled o)
  run_disabled (call_abort ∷ calls) o = run_disabled calls (abort_disabled o)
  run_disabled (call_self_check ∷ calls) o = run_disabled calls (self_check_disabled o)

  -- The flash and the reboot are as they were, and an initialized runtime says that it is disabled.
  pub record Inert (f : F) (o : Ota F) : Type 0 where
    pub flash : o.flash ≡ f
    pub reboot : o.reboot_scheduled ≡ false
    pub off : o.initialized ≡ true → o.status.state ≡ disabled

  init_disabled-Inert : (f : F) (o : Ota F) → Inert f o → Inert f (init_disabled o)
  unfolding init_disabled
  init_disabled-Inert f o i =
      if-either (Inert f) o.initialized (λ _. i)
        (λ _. record { flash = i.flash; reboot = i.reboot; off = λ _. refl })

  -- However the interface is called, the disabled build leaves the flash as it is and schedules no
  -- reboot.
  pub run_disabled-Inert :
      (f : F) (calls : List Call) (o : Ota F) → Inert f o → Inert f (run_disabled calls o)
  unfolding run_disabled begin_disabled write_disabled finish_disabled schedule_reboot_disabled
      abort_disabled self_check_disabled
  run_disabled-Inert f [] o i = i
  run_disabled-Inert f (call_begin n ∷ calls) o i =
      run_disabled-Inert f calls (init_disabled o) (init_disabled-Inert f o i)
  run_disabled-Inert f (call_write image ∷ calls) o i =
      run_disabled-Inert f calls (init_disabled o) (init_disabled-Inert f o i)
  run_disabled-Inert f (call_finish ∷ calls) o i =
      run_disabled-Inert f calls (init_disabled o) (init_disabled-Inert f o i)
  run_disabled-Inert f (call_schedule_reboot ∷ calls) o i =
      run_disabled-Inert f calls (init_disabled o) (init_disabled-Inert f o i)
  run_disabled-Inert f (call_abort ∷ calls) o i =
      run_disabled-Inert f calls (init_disabled o) (init_disabled-Inert f o i)
  run_disabled-Inert f (call_self_check ∷ calls) o i =
      run_disabled-Inert f calls (init_disabled o) (init_disabled-Inert f o i)
