-- ===== src/Web/Upload/Outcome.antt =====
-- src/web_app.c: what an upload leaves behind, for every way in which it can go.
use esp_nmea_bridge.Prelude.{
  ℕ, ◌^◌, ◌<◌, ◌≡◌, ◌≢◌, ◌⊎◌, refl, ap, sym, ◌∙◌, Bool, true, false, Option, none, some, List, [],
  inl, inr, length, arith, ltb, ◌==◌, Bool-cases, ◌++◌, subst, if◌then◌else◌,
}
use esp_nmea_bridge.Prelude.CString.{Bytes}
use esp_nmea_bridge.Config.{ok, Ret-cases}
use esp_nmea_bridge.Ota.{pending_reboot, error_state, Ota, begin, finish, abort}
use esp_nmea_bridge.Ota.Flash.{FlashImg}
use esp_nmea_bridge.Ota.Invariant.{IsValid, IsValid-uploading, step-IsValid, step}
use esp_nmea_bridge.Ota.Invariant
use esp_nmea_bridge.Ota.Transfer.{Open, Finished, begin-Open, finish-Finished, error≢ok}
use esp_nmea_bridge.Ota.Reboot.{
  begin-reboot, finish-reboot, abort-reboot, abort-error_state, begin-error_state,
  finish_initialized, schedule_reboot_set_up,
}
use esp_nmea_bridge.Web.Http.{HttpRequest, Answer}
use esp_nmea_bridge.Web.Http.Read.{stream}
use esp_nmea_bridge.Web.Reply.{Reply, ok_200, too_large_413, bad_request_400}
use esp_nmea_bridge.Web.Upload.{
  End, sent, closed, failed, write_ota_body_chunk, count_uploaded, conclude_upload, receive_upload,
  handle_ota_upload,
}
use esp_nmea_bridge.Web.Upload.Loop.{
  Bounded, Progress, Progress-le, chunk-Progress, chunk-reboot, Sent, Loops, upload_loop-Loops,
}

module _ {F : Type 0} (img : FlashImg F) (n : ℕ) where
  -- What a reply of 200 stands for, and what any other reply stands for.
  pub data Settled (body : Bytes) (o : Ota F) (r : Reply) (o' : Ota F) (rest : Bytes) : Type 0 where
    installed :
        r.status ≡ ok_200
        → o'.status.state ≡ pending_reboot
        → img.written o'.flash ++ rest ≡ body
        → length (img.written o'.flash) ≡ n
        → img.is_upgrade_requested o'.flash ≡ true
        → o'.reboot_scheduled ≡ true
        → Settled body o r o' rest
    refused :
        r.status ≢ ok_200
        → (o' ≡ o) ⊎ (o'.status.state ≡ error_state)
        → o'.reboot_scheduled ≡ o.reboot_scheduled
        → Settled body o r o' rest

  -- The result of an upload, unless it still waits for an answer.
  abbrev pub Settles : Bytes → Ota F → Option (Reply × Ota F × List Answer) → Type 0
  Settles body o none = Unit
  Settles body o (some (r, o', rest)) = Settled body o r o' (stream rest)

module _ {F : Type 0} (img : FlashImg F) (max_configured n : ℕ) (small : n < 2 ^ 31) where
  abort-Settled :
      (body rest : Bytes) (o p : Ota F) (reason : Option Bytes) (r : Reply)
      → r.status ≢ ok_200
      → p.reboot_scheduled ≡ o.reboot_scheduled
      → Settled img n body o r (abort img max_configured reason p) rest
  abort-Settled body rest o p reason r bad same =
      refused bad (inr (abort-error_state img max_configured reason p))
        (abort-reboot img max_configured reason p ∙ same)

  finish-Settled :
      (body : Bytes) (as' : List Answer) (o p : Ota F) (rest : List Answer)
      → Sent img max_configured n small body as' p rest
      → p.reboot_scheduled ≡ o.reboot_scheduled
      → Settled img n
          (body ++ stream as')
          o
          (conclude_upload img max_configured sent p).0
          (conclude_upload img max_configured sent p).1
          (stream rest)
  unfolding conclude_upload Finished
  finish-Settled body as' o p rest s same = elim (Ret-cases (finish img max_configured p).0) [
    | inr (x, e) ↦
        rw (conclude_upload, e)
          (abort-Settled (body ++ stream as') (stream rest) o (finish img max_configured p).1 _ _
            (λ h. cc) (finish-reboot img max_configured p ∙ same))
    | inl e ↦
        let q = (finish img max_configured p).1 in
        let set_up = finish_initialized img max_configured p s.progress.opened.is_set_up in
        let scheduled = schedule_reboot_set_up img max_configured q set_up in
        let (waits, (holds, _), asked) =
          finish-Finished img max_configured n s.all_of_it p s.progress.opened e in
        let le = Progress-le img max_configured n small s.all_of_it p s.uploaded s.progress in
        let ge = s.complete in
        rw (conclude_upload, e, scheduled)
          (installed refl waits (ap (λ w. w ++ stream rest) holds ∙ s.splits)
            (ap length holds ∙ omega arith) asked refl)
  ]

  conclude-Settled :
      (how : End) (body : Bytes) (as' : List Answer) (o p : Ota F) (rest : List Answer)
      → (how ≡ sent → Sent img max_configured n small body as' p rest)
      → p.reboot_scheduled ≡ o.reboot_scheduled
      → Settled img n
          (body ++ stream as')
          o
          (conclude_upload img max_configured how p).0
          (conclude_upload img max_configured how p).1
          (stream rest)
  unfolding conclude_upload
  conclude-Settled sent body as' o p rest l same = finish-Settled body as' o p rest (l refl) same
  conclude-Settled closed body as' o p rest l same =
      abort-Settled (body ++ stream as') (stream rest) o p _ _ (λ h. cc) same
  conclude-Settled (failed e) body as' o p rest l same =
      abort-Settled (body ++ stream as') (stream rest) o p _ _ (λ h. cc) same

  conclude_loop :
      (body : Bytes) (as' : List Answer) (o p : Ota F)
      → p.reboot_scheduled ≡ o.reboot_scheduled
      → (looped : Option (End × Ota F × List Answer))
      → Loops img max_configured n small body as' p looped
      → Settles img n (body ++ stream as') o (elim looped [
        | none ↦ none
        | some (how, q, rest) ↦
            let (answer, q') = conclude_upload img max_configured how q in some (answer, q', rest)
      ])
  conclude_loop body as' o p same none l = tt
  conclude_loop body as' o p same (some (how, q, rest)) l =
      conclude-Settled how body as' o q rest l.took (l.keeps ∙ same)

  receive-Settles :
      (request : HttpRequest) (o p : Ota F) (as' : List Answer)
      → request.content_length ≡ n
      → length request.body < 2 ^ 31
      → Bounded as'
      → Progress img max_configured n small [] p 0
      → p.reboot_scheduled ≡ o.reboot_scheduled
      → Settles img n
          (request.body ++ stream as')
          o
          (receive_upload img max_configured request p as')
  unfolding receive_upload count_uploaded
  receive-Settles request o p as' size lt b start same =
      let ret = (write_ota_body_chunk img max_configured request.body p).0 in
      let q = (write_ota_body_chunk img max_configured request.body p).1 in
      rw size (
        conclude_loop request.body as' o q
          (chunk-reboot img max_configured n small request.body p ∙ same) _
          (upload_loop-Loops img max_configured n small as' ret request.body q
            (count_uploaded img max_configured ret 0 request.body)
            (λ w.
              rw (count_uploaded, w)
                (chunk-Progress img max_configured n small [] request.body p 0 lt start w))
            b))

  size_reply : (b : Bool) → (if b then too_large_413 else bad_request_400) ≢ ok_200
  size_reply true h = cc
  size_reply false h = cc

  begin-Progress :
      (k : ℕ) (o : Ota F)
      → k ≡ n
      → IsValid img max_configured o
      → (begin img max_configured k o).0 ≡ ok
      → Progress img max_configured n small [] (begin img max_configured k o).1 0
  unfolding step
  begin-Progress k o size v r = record {
    opened =
        subst (λ m. Open img max_configured m [] (begin img max_configured k o).1) size
          (begin-Open img max_configured k o r);
    valid =
        step-IsValid img max_configured
          (Invariant.begins k (subst (λ m. m < 2 ^ 31) (sym size) small)) o v;
    counted = refl;
  }

  handle-Settles :
      (allowed : Bool) (request : HttpRequest) (o : Ota F) (as' : List Answer)
      → request.content_length ≡ n
      → length request.body < 2 ^ 31
      → Bounded as'
      → IsValid img max_configured o
      → Settles img n
          (request.body ++ stream as')
          o
          (handle_ota_upload img max_configured allowed request o as')
  unfolding handle_ota_upload
  handle-Settles allowed request o as' size lt b v = elim (Bool-cases allowed) [
    | inr e ↦ rw e (refused (λ h. cc) (inl refl) refl)
    | inl e ↦ elim (Bool-cases request.has_content_length) [
      | inr e' ↦ rw (e, e') (refused (λ h. cc) (inl refl) refl)
      | inl e' ↦ elim (Bool-cases (ltb request.content_length (length request.body))) [
        | inl x ↦ rw (e, e', x) (refused (λ h. cc) (inl refl) refl)
        | inr x ↦ elim (Ret-cases (begin img max_configured request.content_length o).0) [
          | inr (c, r) ↦
              rw (handle_ota_upload, e, e', x, r)
                (refused (size_reply (c == 27))
                  (inr (
                    begin-error_state img max_configured request.content_length o
                      (λ h. error≢ok (sym r ∙ h))))
                  (begin-reboot img max_configured request.content_length o))
          | inl r ↦
              rw (handle_ota_upload, e, e', x, r)
                (receive-Settles request o (begin img max_configured request.content_length o).1 as'
                  size lt b (begin-Progress request.content_length o size v r)
                  (begin-reboot img max_configured request.content_length o))
        ]
      ]
    ]
  ]

module _ {F : Type 0} (img : FlashImg F) (max_configured : ℕ) where
  -- What `handle_ota_upload` leaves when it replies, for an upload of less than 2 ^ 31 bytes in any
  -- pieces, of a runtime between two calls, whatever the flash and the network answer. A reply of
  -- 200: the slot holds as many bytes as the request announced, which are those of the request's
  -- body and of the network in their order, what is left over is still to be read, the boot
  -- loader is asked for the image, and the reboot is scheduled. Any other reply: the runtime is as before or in its
  -- error state, and no reboot was scheduled.
  pub handle_ota_upload-Settled :
      (allowed : Bool) (request : HttpRequest) (o o' : Ota F) (as' rest : List Answer) (r : Reply)
      → request.content_length < 2 ^ 31
      → length request.body < 2 ^ 31
      → Bounded as'
      → IsValid img max_configured o
      → handle_ota_upload img max_configured allowed request o as' ≡ some (r, o', rest)
      → Settled img request.content_length (request.body ++ stream as') o r o' (stream rest)
  handle_ota_upload-Settled allowed request o o' as' rest r small lt b v h =
      subst (λ x. Settles img request.content_length (request.body ++ stream as') o x) h
        (handle-Settles img max_configured request.content_length small allowed request o as' refl
          lt b v)
