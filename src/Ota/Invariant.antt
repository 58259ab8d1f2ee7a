-- ===== src/Ota/Invariant.antt =====
-- src/ota_update.c: what holds of the runtime between any two calls.
use esp_nmea_bridge.Prelude.{
  ℕ, ◌+◌, ◌^◌, ◌≤◌, ◌<◌, ◌≡◌, ◌⊎◌, refl, ap, sym, ◌∙◌, Bool, true, false, Option, none, some, List,
  [], ◌∷◌, inl, inr, length, arith, ltb, ◌!=◌, Bool-cases, length-append, subst,
}
use esp_nmea_bridge.Prelude.CString.{Bytes}
use esp_nmea_bridge.Prelude.Byte.{u32}
use esp_nmea_bridge.Config.{ok, Ret-cases}
use esp_nmea_bridge.Ota.{
  State, disabled, ready, uploading, pending_reboot, confirmed, error_state, Ota, boot,
  validate_upload_size, set_error_locked, is_uploading, init_once, prepare, begin_locked, begin,
  write_locked, write, flush_and_request, finish_locked, finish, schedule_reboot, abort,
  confirm_locked, self_check, configured_limit_or_slot_size,
}
use esp_nmea_bridge.Ota.Flash.{FlashImg}

-- The calls of the other components: the web server, and the check that it was reached.
pub data Call : Type 0 where
  begins : (n : ℕ) → n < 2 ^ 31 → Call
  writes : (image : Bytes) → length image < 2 ^ 31 → Call
  finishes schedules checks : Call
  aborts : Option Bytes → Call

-- In a state, with `n` bytes in the slot, `u` counted and `e` expected.
unfoldable pub Agrees : State → ℕ → ℕ → ℕ → Type 0
Agrees uploading n u e = (n ≡ u) × ((u ≤ e) × (e < 2 ^ 31))
Agrees pending_reboot n u e = n ≡ e
Agrees _ n u e = Unit

not_ltb : (a b : ℕ) → ltb a b ≡ false → b ≤ a
not_ltb a b h = ground arith

pub equal_of : (a b : ℕ) → (a != b) ≡ false → a ≡ b
equal_of a b h = ground arith

module _ {F : Type 0} (img : FlashImg F) (max_configured : ℕ) where
  unfoldable pub IsValid : Ota F → Type 0
  IsValid o =
      Agrees o.status.state (length (img.written o.flash)) o.status.uploaded_bytes
        o.status.expected_bytes

  unfoldable pub step : Call → Ota F → Ota F
  step (begins n _) o = (begin img max_configured n o).1
  step (writes d _) o = (write img max_configured d o).1
  step finishes o = (finish img max_configured o).1
  step schedules o = schedule_reboot img max_configured o
  step checks o = self_check img max_configured o
  step (aborts reason) o = abort img max_configured reason o

  unfoldable pub run_calls : List Call → Ota F → Ota F
  run_calls [] o = o
  run_calls (call ∷ calls) o = run_calls calls (step call o)

  pub init_once-IsValid : (o : Ota F) → IsValid o → IsValid (init_once img max_configured o)
  unfolding IsValid init_once Agrees
  init_once-IsValid o v = elim (Bool-cases o.initialized) [
    | inl e ↦ rw (init_once, e) v
    | inr e ↦ elim (Bool-cases (img.is_img_confirmed o.flash)) [
      | inl c ↦ rw (init_once, e, c) tt
      | inr c ↦ rw (init_once, e, c) tt
    ]
  ]

  prepare-IsValid :
      (n slot : ℕ) → n < 2 ^ 31 → (o : Ota F) → IsValid (prepare img max_configured n slot o).1
  unfolding IsValid prepare set_error_locked Agrees
  prepare-IsValid n slot small o = elim (Ret-cases (img.erase_img_bank o.flash slot).0) [
    | inr (x, e) ↦ rw (prepare, e) tt
    | inl e ↦ elim (Ret-cases (img.init_id (img.erase_img_bank o.flash slot).1 slot).0) [
      | inr (x, e') ↦ rw (prepare, e, e') tt
      | inl e' ↦
          rw (prepare, e, e')
            (
              ap length (img.init_empties (img.erase_img_bank o.flash slot).1 slot e'),
              (omega arith, small),
            )
    ]
  ]

  begin_locked-IsValid :
      (n : ℕ) → n < 2 ^ 31 → (o : Ota F) → IsValid (begin_locked img max_configured n o).1
  unfolding IsValid begin_locked set_error_locked Agrees
  begin_locked-IsValid n small o =
      let slot = img.upload_slot o.flash in
      let limit = configured_limit_or_slot_size img max_configured o.flash slot in
      elim (Ret-cases (img.area_open o.flash slot)) [
        | inr (x, e) ↦ rw (begin_locked, e) tt
        | inl e ↦ elim (Ret-cases (validate_upload_size n limit)) [
          | inr (x, e') ↦ rw (begin_locked, e, e') tt
          | inl e' ↦ rw (begin_locked, e, e') (prepare-IsValid n slot small _)
        ]
      ]

  pub State-cases : (s : State) → (s ≡ uploading) ⊎ (is_uploading s ≡ false)
  unfolding is_uploading
  State-cases disabled = inr refl
  State-cases ready = inr refl
  State-cases uploading = inl refl
  State-cases pending_reboot = inr refl
  State-cases confirmed = inr refl
  State-cases error_state = inr refl

  pub IsValid-uploading :
      (o : Ota F)
      → IsValid o
      → o.status.state ≡ uploading
      → (length (img.written o.flash) ≡ o.status.uploaded_bytes)
        × ((o.status.uploaded_bytes ≤ o.status.expected_bytes) × (o.status.expected_bytes < 2 ^ 31))
  unfolding IsValid Agrees
  IsValid-uploading o v e =
      subst
        (λ s.
          Agrees s (length (img.written o.flash)) o.status.uploaded_bytes o.status.expected_bytes)
        e v

  -- A write that reports success.
  pub length-written :
      (f : F) (d : Bytes) (flush : Bool)
      → (img.buffered_write f d flush).0 ≡ ok
      → length (img.written (img.buffered_write f d flush).1) ≡ length (img.written f) + length d
  length-written f d flush r =
      ap length (img.write_appends f d flush r) ∙ length-append (img.written f) d

  write_locked-IsValid :
      (d : Bytes)
      → length d < 2 ^ 31
      → (o : Ota F) → IsValid o
      → IsValid (write_locked img max_configured d o).1
  unfolding IsValid write_locked set_error_locked Agrees is_uploading
  write_locked-IsValid d small o v = elim (State-cases o.status.state) [
    | inr e ↦ rw (write_locked, e) v
    | inl e ↦
        let (n, (u, m)) = IsValid-uploading o v e in
        elim (Bool-cases (ltb o.status.expected_bytes (u32 (o.status.uploaded_bytes + length d)))) [
          | inl b ↦ rw (write_locked, e, b) tt
          | inr b ↦ elim (Ret-cases (img.buffered_write o.flash d false).0) [
            | inr (x, r) ↦ rw (write_locked, e, b, r) tt
            | inl r ↦
                let total : u32 (o.status.uploaded_bytes + length d)
                    ≡ o.status.uploaded_bytes + length d =
                  omega arith in
                rw (write_locked, e, b, r, e)
                  (
                    length-written o.flash d false r ∙ ap (λ k. k + length d) n ∙ sym total,
                    (not_ltb _ _ b, m),
                  )
          ]
        ]
  ]

  finish_locked-IsValid : (o : Ota F) → IsValid o → IsValid (finish_locked img max_configured o).1
  unfolding IsValid finish_locked flush_and_request set_error_locked Agrees is_uploading
  finish_locked-IsValid o v = elim (State-cases o.status.state) [
    | inr e ↦ rw (finish_locked, e) v
    | inl e ↦
        let (n, (u, m)) = IsValid-uploading o v e in
        elim (Bool-cases (o.status.uploaded_bytes != o.status.expected_bytes)) [
          | inl b ↦ rw (finish_locked, e, b) tt
          | inr b ↦ elim (Ret-cases (img.buffered_write o.flash [] true).0) [
            | inr (x, r) ↦ rw (finish_locked, e, b, flush_and_request, r) tt
            | inl r ↦
                elim (Ret-cases (img.request_upgrade (img.buffered_write o.flash [] true).1).0) [
                  | inr (x, r') ↦ rw (finish_locked, e, b, flush_and_request, r, r') tt
                  | inl r' ↦
                      rw (finish_locked, e, b, flush_and_request, r, r')
                        (ap length (img.upgrade_keeps _ r')
                          ∙ length-written o.flash [] true r
                          ∙ omega arith
                          ∙ n
                          ∙ equal_of _ _ b)
                ]
          ]
        ]
  ]

  confirm_locked-IsValid : (o : Ota F) → IsValid (confirm_locked img max_configured o)
  unfolding IsValid confirm_locked set_error_locked Agrees
  confirm_locked-IsValid o = elim (Bool-cases (img.is_img_confirmed o.flash)) [
    | inl e ↦ rw (confirm_locked, e) tt
    | inr e ↦ elim (Ret-cases (img.write_img_confirmed o.flash).0) [
      | inl r ↦ rw (confirm_locked, e, r) tt
      | inr (x, r) ↦ rw (confirm_locked, e, r) tt
    ]
  ]

  schedule_reboot-IsValid : (o : Ota F) → IsValid o → IsValid (schedule_reboot img max_configured o)
  unfolding schedule_reboot IsValid
  schedule_reboot-IsValid o v = init_once-IsValid o v

  abort-IsValid : (reason : Option Bytes) (o : Ota F) → IsValid (abort img max_configured reason o)
  unfolding abort IsValid Agrees set_error_locked
  abort-IsValid none o = tt
  abort-IsValid (some reason) o = tt

  pub step-IsValid : (call : Call) (o : Ota F) → IsValid o → IsValid (step call o)
  unfolding step begin write finish schedule_reboot abort self_check set_error_locked
  step-IsValid (begins n small) o v = begin_locked-IsValid n small (init_once img max_configured o)
  step-IsValid (writes d small) o v = write_locked-IsValid d small _ (init_once-IsValid o v)
  step-IsValid finishes o v = finish_locked-IsValid _ (init_once-IsValid o v)
  step-IsValid schedules o v = schedule_reboot-IsValid o v
  step-IsValid checks o v = confirm_locked-IsValid (init_once img max_configured o)
  step-IsValid (aborts reason) o v = abort-IsValid reason o

  run_from-IsValid : (calls : List Call) (o : Ota F) → IsValid o → IsValid (run_calls calls o)
  unfolding run_calls
  run_from-IsValid [] o v = v
  run_from-IsValid (call ∷ calls) o v = run_from-IsValid calls (step call o) (step-IsValid call o v)

  -- Between any two calls after a start, whatever they were and whatever the flash answered: in the
  -- uploading state the slot holds as many bytes as are counted, and at most as many as are
  -- expected; in the state that waits for the reboot it holds exactly the expected number. The
  -- sizes that the calls are given are below 2 ^ 31.
  pub run_calls-IsValid : (calls : List Call) (f : F) → IsValid (run_calls calls (boot f))
  unfolding boot IsValid Agrees
  run_calls-IsValid calls f = run_from-IsValid calls (boot f) tt
