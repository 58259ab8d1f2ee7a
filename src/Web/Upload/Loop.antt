-- ===== src/Web/Upload/Loop.antt =====
-- src/web_app.c: the loop over the body of an upload.
use esp_nmea_bridge.Prelude.{
  ℕ, ◌+◌, ◌^◌, ◌≤◌, ◌<◌, ◌≡◌, ◌≢◌, refl, ap, ◌∙◌, true, false, Option, none, some, List, [], ◌∷◌,
  inl, inr, length, arith, ltb, ◌==◌, Bool-cases, ◌++◌, length-append, append-nil, append_assoc,
}
use esp_nmea_bridge.Prelude.CString.{Bytes}
use esp_nmea_bridge.Prelude.Byte.{u32}
use esp_nmea_bridge.Config.{Ret, ok, error}
use esp_nmea_bridge.Ota.{Ota, write}
use esp_nmea_bridge.Ota.Flash.{FlashImg}
use esp_nmea_bridge.Ota.Invariant.{IsValid, IsValid-uploading, step-IsValid, step}
use esp_nmea_bridge.Ota.Invariant
use esp_nmea_bridge.Ota.Transfer.{Open, write-Open}
use esp_nmea_bridge.Ota.Reboot.{write-reboot}
use esp_nmea_bridge.Web.Http.{Answer, interrupted, ended, got}
use esp_nmea_bridge.Web.Http.Read.{stream}
use esp_nmea_bridge.Web.Upload.{
  End, sent, closed, failed, write_ota_body_chunk, count_uploaded, upload_loop,
}

-- No call hands out 2 ^ 31 bytes.
abbrev pub Bounded : List Answer → Type 0
Bounded [] = Unit
Bounded (got chunk ∷ as') = (length chunk < 2 ^ 31) × Bounded as'
Bounded (_ ∷ as') = Bounded as'

module _ {F : Type 0} (img : FlashImg F) (max_configured n : ℕ) (small : n < 2 ^ 31) where
  -- An upload of `n` bytes that took `image`, with `uploaded` counted.
  pub record Progress (image : Bytes) (o : Ota F) (uploaded : ℕ) : Type 0 where
    pub opened : Open img max_configured n image o
    pub valid : IsValid img max_configured o
    pub counted : uploaded ≡ length image

  pub Progress-le :
      (image : Bytes) (o : Ota F) (uploaded : ℕ) → Progress image o uploaded → length image ≤ n
  Progress-le image o uploaded p =
      let (a, (b, c)) = IsValid-uploading img max_configured o p.valid p.opened.is_open in
      let e = ap length p.opened.holds in let x = p.opened.expects in omega arith

  nil_of_length : (s : Bytes) → (length s == 0) ≡ true → s ≡ []
  nil_of_length [] h = refl
  nil_of_length (x ∷ s) h = ground arith

  write-Progress :
      (image d : Bytes) (o : Ota F) (uploaded : ℕ)
      → length d < 2 ^ 31
      → Progress image o uploaded
      → (write img max_configured d o).0 ≡ ok
      → Progress (image ++ d) (write img max_configured d o).1 (u32 (uploaded + length d))
  unfolding step
  write-Progress image d o uploaded lt p e =
      let opened = write-Open img max_configured n image d o p.opened e in
      let valid = step-IsValid img max_configured (Invariant.writes d lt) o p.valid in
      let le =
        Progress-le (image ++ d) (write img max_configured d o).1 (length (image ++ d))
          (record { opened = opened; valid = valid; counted = refl }) in
      record {
        opened = opened;
        valid = valid;
        counted = omega (arith, length-append image d, p.counted);
      }

  nil-Progress :
      (image d : Bytes) (o : Ota F) (uploaded : ℕ)
      → Progress image o uploaded
      → d ≡ []
      → Progress (image ++ d) o (u32 (uploaded + length d))
  nil-Progress image d o uploaded p e =
      let le = Progress-le image o uploaded p in
      let same : u32 (uploaded + 0) ≡ uploaded = omega (arith, p.counted) in
      rw e (rw (append-nil image, same) p)

  pub chunk-Progress :
      (image d : Bytes) (o : Ota F) (uploaded : ℕ)
      → length d < 2 ^ 31
      → Progress image o uploaded
      → (write_ota_body_chunk img max_configured d o).0 ≡ ok
      → Progress
          (image ++ d)
          (write_ota_body_chunk img max_configured d o).1
          (u32 (uploaded + length d))
  unfolding write_ota_body_chunk
  chunk-Progress image d o uploaded lt p = elim (Bool-cases (length d == 0)) [
    | inr e ↦ rw (write_ota_body_chunk, e) (write-Progress image d o uploaded lt p)
    | inl e ↦
        rw (write_ota_body_chunk, e) (λ _. nil-Progress image d o uploaded p (nil_of_length d e))
  ]

  pub chunk-reboot :
      (d : Bytes) (o : Ota F)
      → (write_ota_body_chunk img max_configured d o).1.reboot_scheduled ≡ o.reboot_scheduled
  unfolding write_ota_body_chunk
  chunk-reboot d o = elim (Bool-cases (length d == 0)) [
    | inl e ↦ rw (write_ota_body_chunk, e) refl
    | inr e ↦ rw (write_ota_body_chunk, e) (write-reboot img max_configured d o)
  ]

  -- What the loop leaves when the body is complete.
  pub record Sent (image : Bytes) (as' : List Answer) (o : Ota F) (rest : List Answer)
      : Type 0 where
    pub all_of_it : Bytes
    pub uploaded : ℕ
    pub progress : Progress all_of_it o uploaded
    pub complete : n ≤ length all_of_it
    pub splits : all_of_it ++ stream rest ≡ image ++ stream as'

  -- The loop took bytes when it ended as it should, and never touches the reboot.
  pub record Looped (image : Bytes) (as' : List Answer) (o : Ota F) (how : End) (o' : Ota F)
      (rest : List Answer) : Type 0 where
    pub took : how ≡ sent → Sent image as' o' rest
    pub keeps : o'.reboot_scheduled ≡ o.reboot_scheduled

  -- What the loop gives, unless it still waits.
  abbrev pub Loops : Bytes → List Answer → Ota F → Option (End × Ota F × List Answer) → Type 0
  Loops image as' o none = Unit
  Loops image as' o (some (how, o', rest)) = Looped image as' o how o' rest

  done_now :
      (image : Bytes) (as' : List Answer) (o : Ota F) (uploaded : ℕ)
      → Progress image o uploaded
      → ltb uploaded n ≡ false
      → Looped image as' o sent o as'
  done_now image as' o uploaded p e = record {
    took = λ _. record {
      all_of_it = image;
      uploaded = uploaded;
      progress = p;
      complete = let c = p.counted in ground arith;
      splits = refl;
    };
    keeps = refl;
  }

  not_sent :
      (image : Bytes) (as' : List Answer) (o : Ota F) (how : End) (rest : List Answer)
      → how ≢ sent
      → Looped image as' o how o rest
  not_sent image as' o how rest h = record { took = λ e. absurd (h e); keeps = refl }

  -- A chunk that was taken before the rest of the loop.
  after_chunk :
      (image d : Bytes) (as' : List Answer) (o p : Ota F)
      → p.reboot_scheduled ≡ o.reboot_scheduled
      → (r : Option (End × Ota F × List Answer)) → Loops (image ++ d) as' p r
      → Loops image (got d ∷ as') o r
  unfolding stream
  after_chunk image d as' o p same none l = tt
  after_chunk image d as' o p same (some (how, o', rest)) l = record {
    took = λ e.
        let s = l.took e in
        record {
          all_of_it = s.all_of_it;
          uploaded = s.uploaded;
          progress = s.progress;
          complete = s.complete;
          splits = s.splits ∙ append_assoc image d (stream as');
        };
    keeps = l.keeps ∙ same;
  }

  after_wait :
      (image : Bytes) (as' : List Answer) (o : Ota F) (r : Option (End × Ota F × List Answer))
      → Loops image as' o r
      → Loops image (interrupted ∷ as') o r
  unfolding stream
  after_wait image as' o none l = tt
  after_wait image as' o (some (how, o', rest)) l = record {
    took = λ e.
        let s = l.took e in
        record {
          all_of_it = s.all_of_it;
          uploaded = s.uploaded;
          progress = s.progress;
          complete = s.complete;
          splits = s.splits;
        };
    keeps = l.keeps;
  }

  pub upload_loop-Loops :
      (as' : List Answer) (ret : Ret) (image : Bytes) (o : Ota F) (uploaded : ℕ)
      → (ret ≡ ok → Progress image o uploaded)
      → Bounded as'
      → Loops image as' o (upload_loop img max_configured n ret uploaded o as')
  unfolding upload_loop count_uploaded
  upload_loop-Loops as' (error e) image o uploaded p b =
      not_sent image as' o (failed e) as' (λ h. cc)
  upload_loop-Loops [] ok image o uploaded p b = elim (Bool-cases (ltb uploaded n)) [
    | inl e ↦ rw (upload_loop, e) tt
    | inr e ↦ rw (upload_loop, e) (done_now image [] o uploaded (p refl) e)
  ]
  upload_loop-Loops (interrupted ∷ as') ok image o uploaded p b =
      elim (Bool-cases (ltb uploaded n)) [
        | inl e ↦
            rw (upload_loop, e)
              (after_wait image as' o _ (upload_loop-Loops as' ok image o uploaded p b))
        | inr e ↦ rw (upload_loop, e) (done_now image (interrupted ∷ as') o uploaded (p refl) e)
      ]
  upload_loop-Loops (ended ∷ as') ok image o uploaded p b = elim (Bool-cases (ltb uploaded n)) [
    | inl e ↦ rw (upload_loop, e) (not_sent image (ended ∷ as') o closed as' (λ h. cc))
    | inr e ↦ rw (upload_loop, e) (done_now image (ended ∷ as') o uploaded (p refl) e)
  ]
  upload_loop-Loops (got d ∷ as') ok image o uploaded p b = elim (Bool-cases (ltb uploaded n)) [
    | inr e ↦ rw (upload_loop, e) (done_now image (got d ∷ as') o uploaded (p refl) e)
    | inl e ↦
        rw (upload_loop, e)
          (after_chunk image d as' o (write_ota_body_chunk img max_configured d o).1
            (chunk-reboot d o) _
            (upload_loop-Loops as' (write_ota_body_chunk img max_configured d o).0 (image ++ d)
              (write_ota_body_chunk img max_configured d o).1
              (count_uploaded img max_configured (write_ota_body_chunk img max_configured d o).0
                uploaded d)
              (λ w. rw (count_uploaded, w) (chunk-Progress image d o uploaded b.0 (p refl) w)) b.1))
  ]
