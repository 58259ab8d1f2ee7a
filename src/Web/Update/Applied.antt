-- ===== src/Web/Update/Applied.antt =====
-- src/web_app.c: a configuration request that is carried out, with a store whose saves succeed.
use esp_nmea_bridge.Prelude.{◌≡◌, refl, Bool, true, false, none}
use Prim.Native.String.{String}
use esp_nmea_bridge.Config.{Config, ok, get_ais, get_sta, get_ap, get_system, get_tcp_client}
use esp_nmea_bridge.Config.Store.{Settings}
use esp_nmea_bridge.Config.Set.{Outcome}
use esp_nmea_bridge.Web.Payload.{Payload, validate, merge_sta, enable_error, merge_ap, merge_system}
use esp_nmea_bridge.Web.Reply.{Reply, ok_200, config_json}
use esp_nmea_bridge.Web.Update.{Server, after_setter, save_if, save_all, update}
use esp_nmea_bridge.Web.Update.Merge.{WellFormed, Checks, validate-Checks}
use esp_nmea_bridge.Web.Update.Setters.{
  ais-WellFormed, sta-WellFormed, tcp-WellFormed, ap-WellFormed, system-WellFormed,
}
use esp_nmea_bridge.Web.Update.Checked.{Reliable}
use esp_nmea_bridge.Web.Update.Fields.{Fields, Parts-Fields}
use esp_nmea_bridge.Web.Update.Parts.{
  Parts, set_ais-ok, set_ais-done, set_tcp_client-ok, set_tcp_client-done, set_sta-ok, set_sta-done,
  set_ap-ok, set_ap-done, set_system-ok, set_system-done, ais-skipped, tcp-skipped, sta-skipped,
  ap-skipped, system-skipped,
}

module _ {S : Type 0} (settings : Settings S) (reliable : Reliable settings) where
  save_if-next :
      (wanted : Bool) (o : Outcome S) (message : String) (server : Server S)
      (next : Server S → Reply × Server S) (P : Config → Type 0) (Q : Reply × Server S → Type 0)
      → o.ret ≡ ok
      → P o.config
      → (wanted ≡ false → P server.config)
      → ((s : Server S) → P s.config → Q (next s))
      → Q (save_if settings wanted o message server next)
  unfolding save_if after_setter
  save_if-next false o message server next P Q r done skipped f = f server (skipped refl)
  save_if-next true o message server next P Q r done skipped f =
      rw (save_if, r) (f (after_setter settings o server) done)

  -- A reply of 200, with the new configuration, whose fields are as the request asks.
  pub record Applied (p : Payload) (c : Config) (r : Reply × Server S) : Type 0 where
    pub status : r.0.status ≡ ok_200
    pub fields : Fields p c r.1.config
    pub shown : r.0.body ≡ config_json r.1.config

  save_all-Applied :
      (p : Payload) (s0 : Server S)
      → Checks p
      → WellFormed s0.config
      → Applied p s0.config (
          save_all settings p
            (merge_sta p s0.config.sta)
            (merge_ap p s0.config.ap)
            (merge_system p s0.config.system_cfg)
            s0)
  unfolding save_all get_ais get_tcp_client
  save_all-Applied p s0 checks wf =
      let c = s0.config in
      let start : Parts p c false false false false false c = record {
        ais = refl;
        tcp = refl;
        sta = refl;
        ap = refl;
        system = refl;
      } in
      save_if-next _ _ _ s0 _ (λ d. WellFormed d × Parts p c true false false false false d)
        (Applied p c) (set_ais-ok settings reliable p checks c wf c wf s0.store)
        (
          ais-WellFormed settings p checks c wf c s0.store wf,
          set_ais-done settings reliable p checks c wf c wf s0.store start,
        )
        (λ e. (wf, ais-skipped settings reliable p checks c wf c wf start e))
        (λ s1 (wf1, st1).
          save_if-next _ _ _ s1 _ (λ d. WellFormed d × Parts p c true true false false false d)
            (Applied p c) (set_tcp_client-ok settings reliable p checks c wf s1.config wf1 s1.store)
            (
              tcp-WellFormed settings p checks c wf s1.config s1.store wf1,
              set_tcp_client-done settings reliable p checks c wf s1.config wf1 s1.store st1,
            )
            (λ e. (wf1, tcp-skipped settings reliable p checks c wf s1.config wf1 st1 e))
            (λ s2 (wf2, st2).
              save_if-next _ _ _ s2 _ (λ d. WellFormed d × Parts p c true true true false false d)
                (Applied p c) (set_sta-ok settings reliable p checks c wf s2.config wf2 s2.store)
                (
                  sta-WellFormed settings p checks c wf s2.config s2.store wf2,
                  set_sta-done settings reliable p checks c wf s2.config wf2 s2.store st2,
                )
                (λ e. (wf2, sta-skipped settings reliable p checks c wf s2.config wf2 st2 e))
                (λ s3 (wf3, st3).
                  save_if-next _ _ _ s3 _
                    (λ d. WellFormed d × Parts p c true true true true false d) (Applied p c)
                    (set_ap-ok settings reliable p checks c wf s3.config wf3 s3.store)
                    (
                      ap-WellFormed settings p checks c wf s3.config s3.store wf3,
                      set_ap-done settings reliable p checks c wf s3.config wf3 s3.store st3,
                    )
                    (λ e. (wf3, ap-skipped settings reliable p checks c wf s3.config wf3 st3 e))
                    (λ s4 (wf4, st4).
                      save_if-next _ _ _ s4 _
                        (λ d. WellFormed d × Parts p c true true true true true d) (Applied p c)
                        (set_system-ok settings reliable p checks c wf s4.config wf4 s4.store)
                        (
                          system-WellFormed settings p checks c wf s4.config s4.store wf4,
                          set_system-done settings reliable p checks c wf s4.config wf4 s4.store
                              st4,
                        )
                        (λ e.
                          (wf4, system-skipped settings reliable p checks c wf s4.config wf4 st4 e))
                        (λ s5 (wf5, st5). record {
                          status = refl;
                          fields = Parts-Fields p c s5.config checks st5;
                          shown = refl;
                        })))))

  -- With a settings store whose saves succeed and a well-formed configuration, a request whose
  -- fields pass their checks, and that does not enable the station without a network name, is
  -- answered with 200 and the new configuration. In memory each flag and number that the request
  -- names is then the one named, each text reads as the one named, a passphrase reads as the one named
  -- unless that is blank, and is blank where the request clears it; each setting that the request does
  -- not name is as before, a text as it reads.
  pub update-Applied :
      (p : Payload) (server : Server S)
      → WellFormed server.config
      → validate p ≡ none
      → enable_error p (merge_sta p server.config.sta) ≡ none
      → Applied p server.config (update settings p server)
  unfolding update get_sta get_ap get_system
  update-Applied p server wf e e' =
      rw (update, e, e') (save_all-Applied p server (validate-Checks p e) wf)
