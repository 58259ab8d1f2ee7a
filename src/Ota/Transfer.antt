-- ===== src/Ota/Transfer.antt =====
-- src/ota_update.c: an upload from its start to the request of the reboot.
use esp_nmea_bridge.Prelude.{
  ℕ, ◌+◌, ◌≡◌, refl, ap, sym, ◌∙◌, true, false, List, [], ◌∷◌, inl, inr, length, ltb, ◌!=◌,
  Bool-cases, ◌++◌, append-nil, append_assoc, concat, subst, ◌≢◌,
}
use esp_nmea_bridge.Prelude.CString.{Bytes}
use esp_nmea_bridge.Prelude.Byte.{u32}
use esp_nmea_bridge.Config.{Ret, ok, error, Ret-cases}
use esp_nmea_bridge.Ota.{
  uploading, pending_reboot, Ota, validate_upload_size, is_uploading, init_once, prepare,
  begin_locked, begin, write_locked, write, flush_and_request, finish_locked, finish,
  configured_limit_or_slot_size,
}
use esp_nmea_bridge.Ota.Flash.{FlashImg}
use esp_nmea_bridge.Ota.Invariant.{equal_of}

pub error≢ok : {e : ℕ} → error e ≢ ok
error≢ok h = subst (λ r. elim r [ ok ↦ ⊥ | error _ ↦ Unit ]) h tt

module _ {F : Type 0} (img : FlashImg F) (max_configured : ℕ) where
  -- The writes of an upload, up to the first that fails.
  unfoldable pub write_all : List Bytes → Ota F → Ret × Ota F
  write_all [] o = (ok, o)
  write_all (d ∷ ds) o =
      let (ret, o') = write img max_configured d o in
      let rest = write_all ds o' in elim ret [ error e ↦ (error e, o') | ok ↦ rest ]

  unfoldable pub transfer : ℕ → List Bytes → Ota F → Ret × Ota F
  transfer n ds o =
      let (begun, p) = begin img max_configured n o in
      let (sent, q) = write_all ds p in
      let last = finish img max_configured q in
      elim begun [ error e ↦ (error e, p) | ok ↦ elim sent [ error e ↦ (error e, q) | ok ↦ last ] ]

  -- An upload of `n` bytes that has taken `image`.
  pub record Open (n : ℕ) (image : Bytes) (o : Ota F) : Type 0 where
    pub is_open : o.status.state ≡ uploading
    pub is_set_up : o.initialized ≡ true
    pub holds : img.written o.flash ≡ image
    pub expects : o.status.expected_bytes ≡ n

  initialized_init : (o : Ota F) → (init_once img max_configured o).initialized ≡ true
  unfolding init_once
  initialized_init o = elim (Bool-cases o.initialized) [
    | inl e ↦ rw (init_once, e) refl
    | inr e ↦ rw (init_once, e) refl
  ]

  init_again : (o : Ota F) → o.initialized ≡ true → init_once img max_configured o ≡ o
  unfolding init_once
  init_again o e = rw (init_once, e) refl

  prepare-Open :
      (n slot : ℕ) (o : Ota F)
      → o.initialized ≡ true
      → (prepare img max_configured n slot o).0 ≡ ok
      → Open n [] (prepare img max_configured n slot o).1
  unfolding prepare
  prepare-Open n slot o i = elim (Ret-cases (img.erase_img_bank o.flash slot).0) [
    | inr (x, e) ↦ rw (prepare, e) (λ h. absurd (error≢ok h))
    | inl e ↦ elim (Ret-cases (img.init_id (img.erase_img_bank o.flash slot).1 slot).0) [
      | inr (x, e') ↦ rw (prepare, e, e') (λ h. absurd (error≢ok h))
      | inl e' ↦
          rw (prepare, e, e')
            (λ _. record {
              is_open = refl;
              is_set_up = i;
              holds = img.init_empties _ slot e';
              expects = refl;
            })
    ]
  ]

  pub begin-Open :
      (n : ℕ) (o : Ota F)
      → (begin img max_configured n o).0 ≡ ok
      → Open n [] (begin img max_configured n o).1
  unfolding begin begin_locked
  begin-Open n o =
      let p = init_once img max_configured o in
      let slot = img.upload_slot p.flash in
      let limit = configured_limit_or_slot_size img max_configured p.flash slot in
      elim (Ret-cases (img.area_open p.flash slot)) [
        | inr (x, e) ↦ rw (begin_locked, e) (λ h. absurd (error≢ok h))
        | inl e ↦ elim (Ret-cases (validate_upload_size n limit)) [
          | inr (x, e') ↦ rw (begin_locked, e, e') (λ h. absurd (error≢ok h))
          | inl e' ↦ rw (begin_locked, e, e') (prepare-Open n slot _ (initialized_init o))
        ]
      ]

  write_locked-Open :
      (n : ℕ) (image d : Bytes) (o : Ota F)
      → Open n image o
      → (write_locked img max_configured d o).0 ≡ ok
      → Open n (image ++ d) (write_locked img max_configured d o).1
  unfolding write_locked is_uploading
  write_locked-Open n image d o v =
      elim (Bool-cases (ltb o.status.expected_bytes (u32 (o.status.uploaded_bytes + length d)))) [
        | inl b ↦ rw (write_locked, v.is_open, b) (λ h. absurd (error≢ok h))
        | inr b ↦ elim (Ret-cases (img.buffered_write o.flash d false).0) [
          | inr (x, r) ↦ rw (write_locked, v.is_open, b, r) (λ h. absurd (error≢ok h))
          | inl r ↦
              rw (write_locked, v.is_open, b, r)
                (λ _. record {
                  is_open = v.is_open;
                  is_set_up = v.is_set_up;
                  holds = img.write_appends o.flash d false r ∙ ap (λ w. w ++ d) v.holds;
                  expects = v.expects;
                })
        ]
      ]

  pub write-Open :
      (n : ℕ) (image d : Bytes) (o : Ota F)
      → Open n image o
      → (write img max_configured d o).0 ≡ ok
      → Open n (image ++ d) (write img max_configured d o).1
  unfolding write
  write-Open n image d o v =
      subst
        (λ p.
          (write_locked img max_configured d p).0 ≡ ok
          → Open n (image ++ d) (write_locked img max_configured d p).1)
        (sym (init_again o v.is_set_up)) (write_locked-Open n image d o v)

  write_all-Open :
      (n : ℕ) (image : Bytes) (ds : List Bytes) (o : Ota F)
      → Open n image o
      → (write_all ds o).0 ≡ ok
      → Open n (image ++ concat ds) (write_all ds o).1
  unfolding write_all
  write_all-Open n image [] o v = rw (append-nil image) (λ _. v)
  write_all-Open n image (d ∷ ds) o v = elim (Ret-cases (write img max_configured d o).0) [
    | inr (x, r) ↦ rw (write_all, r) (λ h. absurd (error≢ok h))
    | inl r ↦
        rw (write_all, r, ← append_assoc image d (concat ds))
          (write_all-Open n (image ++ d) ds _ (write-Open n image d o v r))
  ]

  -- What a finished upload leaves.
  unfoldable pub Finished : ℕ → Bytes → Ota F → Type 0
  Finished n image o =
      (o.status.state ≡ pending_reboot)
      × ((img.written o.flash ≡ image) × (o.status.uploaded_bytes ≡ n))
      × (img.is_upgrade_requested o.flash ≡ true)

  finish_locked-Finished :
      (n : ℕ) (image : Bytes) (o : Ota F)
      → Open n image o
      → (finish_locked img max_configured o).0 ≡ ok
      → Finished n image (finish_locked img max_configured o).1
  unfolding finish_locked flush_and_request is_uploading Finished
  finish_locked-Finished n image o v =
      let flushed = img.buffered_write o.flash [] true in
      elim (Bool-cases (o.status.uploaded_bytes != o.status.expected_bytes)) [
        | inl b ↦ rw (finish_locked, v.is_open, b) (λ h. absurd (error≢ok h))
        | inr b ↦ elim (Ret-cases flushed.0) [
          | inr (x, r) ↦
              rw (finish_locked, v.is_open, b, flush_and_request, r) (λ h. absurd (error≢ok h))
          | inl r ↦ elim (Ret-cases (img.request_upgrade flushed.1).0) [
            | inr (x, r') ↦
                rw (finish_locked, v.is_open, b, flush_and_request, r, r')
                  (λ h. absurd (error≢ok h))
            | inl r' ↦
                rw (finish_locked, v.is_open, b, flush_and_request, r, r')
                  (λ _. (
                    refl,
                    (
                      img.upgrade_keeps _ r'
                          ∙ img.write_appends o.flash [] true r
                          ∙ append-nil (img.written o.flash)
                          ∙ v.holds,
                      equal_of _ _ b ∙ v.expects,
                    ),
                    img.upgrade_requests _ r',
                  ))
          ]
        ]
      ]

  pub finish-Finished :
      (n : ℕ) (image : Bytes) (o : Ota F)
      → Open n image o
      → (finish img max_configured o).0 ≡ ok
      → Finished n image (finish img max_configured o).1
  unfolding finish
  finish-Finished n image o v =
      subst
        (λ p.
          (finish_locked img max_configured p).0 ≡ ok
          → Finished n image (finish_locked img max_configured p).1)
        (sym (init_again o v.is_set_up)) (finish_locked-Finished n image o v)

  -- An upload whose calls all report success, whatever came before it and however the image was
  -- cut into pieces: the slot holds the pieces in their order and nothing else, the counted number
  -- of bytes is the announced one, the state waits for the reboot, and the boot loader is asked for
  -- the image.
  pub transfer-image :
      (n : ℕ) (ds : List Bytes) (o : Ota F)
      → (transfer n ds o).0 ≡ ok
      → Finished n (concat ds) (transfer n ds o).1
  unfolding transfer
  transfer-image n ds o =
      let p = (begin img max_configured n o).1 in
      elim (Ret-cases (begin img max_configured n o).0) [
        | inr (x, e) ↦ rw (transfer, e) (λ h. absurd (error≢ok h))
        | inl e ↦ elim (Ret-cases (write_all ds p).0) [
          | inr (x, e') ↦ rw (transfer, e, e') (λ h. absurd (error≢ok h))
          | inl e' ↦
              rw (transfer, e, e')
                (finish-Finished n (concat ds) _ (write_all-Open n [] ds p (begin-Open n o e) e'))
        ]
      ]
