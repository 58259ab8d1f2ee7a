-- ===== src/Web/Update/Checked.antt =====
-- src/web_app.c: what a configuration request leaves behind, whatever it holds.
use Prim.Native.String.{String}
use esp_nmea_bridge.Prelude.{
  ℕ, ◌≡◌, ◌⊎◌, refl, Bool, true, false, Option, none, some, List, take, ltb, length, Bool-cases,
  Option-cases, inl, inr, subst,
}
use esp_nmea_bridge.Prelude.CString.{Bytes}
use esp_nmea_bridge.Config.{
  Config, ok, Ret-cases, get_ais, get_sta, get_ap, get_system, get_tcp_client,
}
use esp_nmea_bridge.Config.Store.{Settings, Key}
use esp_nmea_bridge.Config.Set.{
  Outcome, save_and_commit, set_ais, set_tcp_client, set_sta, set_ap, set_system,
}
use esp_nmea_bridge.Web.Http.{HttpRequest, Answer}
use esp_nmea_bridge.Web.Reply.{Reply, ok_200, internal_error_500, bad_request_400, too_large_413}
use esp_nmea_bridge.Web.Payload.{
  Payload, fields_any, validate, merge_sta, enable_error, merge_ap, merge_system,
}
use esp_nmea_bridge.Web.Update.{
  Server, read_remaining_body, after_setter, save_if, save_all, update, answer_body,
  handle_config_update, config_body_max,
}
use esp_nmea_bridge.Web.Update.Merge.{WellFormed, Checks, validate-Checks}
use esp_nmea_bridge.Web.Update.Accepted.{
  merged_mmsi, sta-accepted, ap-accepted, system-accepted, tcp-accepted,
}
use esp_nmea_bridge.Web.Update.Refused.{Refuses, validate-Refuses, enable_error-Refuses}
use esp_nmea_bridge.Web.Update.Setters.{
  ais-WellFormed, sta-WellFormed, tcp-WellFormed, ap-WellFormed, system-WellFormed,
}

module _ {S : Type 0} (settings : Settings S) where
  -- Every save succeeds.
  abbrev pub Reliable : Type 0
  Reliable = (s : S) (k : Key) (v : Bytes) → (settings.save_one s k v).0 ≡ ok

  pub save_and_commit-ok :
      Reliable
      → (c : Config) (s : S) (changed : Bool) (key : Key) (bytes : Bytes) (commit : Config → Config)
        (notify : Bool)
      → (save_and_commit settings c s changed key bytes commit notify).ret ≡ ok
  unfolding save_and_commit
  save_and_commit-ok reliable c s false key bytes commit notify = refl
  save_and_commit-ok reliable c s true key bytes commit notify = rw (reliable s key bytes) refl

  -- The server stays well formed, and without a failed save the request is answered with 200.
  abbrev Fine : Reply × Server S → Type 0
  Fine (r, server) =
      WellFormed server.config
      × (Reliable → r.status ≡ ok_200)
      × ((r.status ≡ ok_200) ⊎ (r.status ≡ internal_error_500))

  save_if-Fine :
      (wanted : Bool) (o : Outcome S) (message : String) (server : Server S)
      (next : Server S → Reply × Server S)
      → WellFormed o.config
      → (Reliable → o.ret ≡ ok)
      → WellFormed server.config
      → ((s : Server S) → WellFormed s.config → Fine (next s))
      → Fine (save_if settings wanted o message server next)
  unfolding save_if after_setter
  save_if-Fine false o message server next wf' r wf f = f server wf
  save_if-Fine true o message server next wf' r wf f = elim (Ret-cases o.ret) [
    | inl e ↦ rw (save_if, e) (f (after_setter settings o server) wf')
    | inr (x, e) ↦ rw (save_if, e) (wf', λ reliable. cc (rw e at r reliable), inr refl)
  ]

  save_all-Fine :
      (p : Payload) (s0 : Server S)
      → Checks p
      → WellFormed s0.config
      → Fine (
          save_all settings p
            (merge_sta p s0.config.sta)
            (merge_ap p s0.config.ap)
            (merge_system p s0.config.system_cfg)
            s0)
  unfolding save_all set_ais set_tcp_client set_sta set_ap set_system get_ais get_tcp_client
  save_all-Fine p s0 checks wf0 =
      let c = s0.config in
      save_if-Fine _ _ _ s0 _ (ais-WellFormed settings p checks c wf0 c s0.store wf0)
        (λ reliable. rw (merged_mmsi p checks c wf0) (save_and_commit-ok reliable _ _ _ _ _ _ _))
        wf0
        (λ s1 wf1.
          save_if-Fine _ _ _ s1 _ (tcp-WellFormed settings p checks c wf0 s1.config s1.store wf1)
            (λ reliable.
              rw (tcp-accepted p checks s1.config wf1) (save_and_commit-ok reliable _ _ _ _ _ _ _))
            wf1
            (λ s2 wf2.
              save_if-Fine _ _ _ s2 _
                (sta-WellFormed settings p checks c wf0 s2.config s2.store wf2)
                (λ reliable.
                  rw (sta-accepted p checks c wf0) (save_and_commit-ok reliable _ _ _ _ _ _ _))
                wf2
                (λ s3 wf3.
                  save_if-Fine _ _ _ s3 _
                    (ap-WellFormed settings p checks c wf0 s3.config s3.store wf3)
                    (λ reliable.
                      rw (ap-accepted p checks c wf0) (save_and_commit-ok reliable _ _ _ _ _ _ _))
                    wf3
                    (λ s4 wf4.
                      save_if-Fine _ _ _ s4 _
                        (system-WellFormed settings p checks c wf0 s4.config s4.store wf4)
                        (λ reliable.
                          rw (system-accepted p checks c wf0)
                            (save_and_commit-ok reliable _ _ _ _ _ _ _))
                        wf4 (λ s5 wf5. (wf5, λ _. refl, inl refl))))))

  -- A request is refused and changes nothing, or it is carried out.
  pub data Answered (server : Server S) (r : Reply) (server' : Server S) : Type 0 where
    refused :
        (r.status ≡ bad_request_400) ⊎ (r.status ≡ too_large_413)
        → server' ≡ server
        → Answered server r server'
    applied :
        (r.status ≡ ok_200) ⊎ (r.status ≡ internal_error_500)
        → WellFormed server'.config
        → (Reliable → r.status ≡ ok_200)
        → Answered server r server'

  of_Fine : (server : Server S) (r : Reply × Server S) → Fine r → Answered server r.0 r.1
  of_Fine server (r, server') (wf, reliable, status) = applied status wf reliable

  update-Answered :
      (p : Payload) (server : Server S)
      → WellFormed server.config
      → Answered server (update settings p server).0 (update settings p server).1
  unfolding update get_sta get_ap get_system
  update-Answered p server wf = elim (Option-cases (validate p)) [
    | inr (r, e) ↦ rw (update, e) (refused (inl (subst Refuses e (validate-Refuses p))) refl)
    | inl e ↦ elim (Option-cases (enable_error p (merge_sta p server.config.sta))) [
      | inr (r, e') ↦
          rw (update, e, e')
            (refused
              (inl (subst Refuses e' (enable_error-Refuses p (merge_sta p server.config.sta))))
              refl)
      | inl e' ↦
          rw (update, e, e') (of_Fine server _ (save_all-Fine p server (validate-Checks p e) wf))
    ]
  ]

  -- The result of a request, unless it still waits for an answer.
  abbrev pub Answers : Server S → Option (Reply × Server S × List Answer) → Type 0
  Answers server none = Unit
  Answers server (some (r, server', rest)) = Answered server r server'

  body-Answers :
      (json_obj_parse : Bytes → Option Payload) (parsed : HttpRequest) (server : Server S)
      (received : Option (Option Bytes × List Answer))
      → WellFormed server.config
      → Answers server (answer_body settings json_obj_parse parsed server received)
  unfolding answer_body
  body-Answers json_obj_parse parsed server none wf = tt
  body-Answers json_obj_parse parsed server (some (none, rest)) wf = refused (inl refl) refl
  body-Answers json_obj_parse parsed server (some (some body, rest)) wf =
      elim (Option-cases (json_obj_parse (take parsed.content_length body))) [
        | inl e ↦ rw (answer_body, e) (refused (inl refl) refl)
        | inr (p, e) ↦ elim (Bool-cases (fields_any p)) [
          | inr f ↦ rw (answer_body, e, f) (refused (inl refl) refl)
          | inl f ↦ rw (answer_body, e, f) (update-Answered p server wf)
        ]
      ]

  pub handle-Answers :
      (json_obj_parse : Bytes → Option Payload) (request_size : ℕ) (parsed : HttpRequest)
      (server : Server S) (as' : List Answer)
      → WellFormed server.config
      → Answers server (handle_config_update settings json_obj_parse request_size parsed server as')
  unfolding handle_config_update read_remaining_body answer_body
  handle-Answers json_obj_parse request_size parsed server as' wf =
      elim (Bool-cases parsed.has_content_length) [
        | inr a ↦ rw (handle_config_update, a) (refused (inl refl) refl)
        | inl a ↦ elim (Bool-cases (ltb config_body_max parsed.content_length)) [
          | inl b ↦ rw (handle_config_update, a, b) (refused (inr refl) refl)
          | inr b ↦ elim (Bool-cases (ltb parsed.content_length (length parsed.body))) [
            | inl c ↦ rw (handle_config_update, a, b, c) (refused (inl refl) refl)
            | inr c ↦
                rw (handle_config_update, a, b, c)
                  (body-Answers json_obj_parse parsed server
                    (read_remaining_body request_size parsed as') wf)
          ]
        ]
      ]

  -- `handle_config_update` with a configuration in memory that is well formed, whatever the request,
  -- the parser, the network and the settings store do, when it replies: either it replies with 400
  -- or 413 and has changed neither the configuration nor the store and called no listener, or it
  -- replies with 200 or 500, the configuration is well formed again, and the reply is 200 unless
  -- a save failed.
  pub handle_config_update-Answered :
      (json_obj_parse : Bytes → Option Payload) (request_size : ℕ) (parsed : HttpRequest)
      (server server' : Server S) (as' rest : List Answer) (r : Reply)
      → WellFormed server.config
      → handle_config_update settings json_obj_parse request_size parsed server as'
        ≡ some (r, server', rest)
      → Answered server r server'
  handle_config_update-Answered json_obj_parse request_size parsed server server' as' rest r wf h =
      subst (Answers server) h (handle-Answers json_obj_parse request_size parsed server as' wf)
