-- ===== src/Web/Update/Parts.antt =====
-- src/web_app.c: the parts of a configuration, one setter after the other.
use esp_nmea_bridge.Prelude.{◌≡◌, sym, Bool, true, false, some, subst}
use esp_nmea_bridge.Prelude.CString.{Bytes}
use esp_nmea_bridge.Config.{Config, ok}
use esp_nmea_bridge.Config.Store.{Settings, Key}
use esp_nmea_bridge.Config.Set.{
  Outcome, set_ais, set_tcp_client, set_sta, set_ap, set_system, ais_changed, tcp_changed,
  sta_changed, ap_changed, system_changed,
}
use esp_nmea_bridge.Config.Set.Persist.{Saved, same, failed, stored}
use esp_nmea_bridge.Web.Payload.{
  Payload, given, fields_ais, fields_sta, fields_tcp, fields_ap, merge_sta, merge_ap, merge_system,
  merge_ais, merge_tcp,
}
use esp_nmea_bridge.Config.Set.Reboot.{set_sta-Saved, set_ap-Saved, set_system-Saved}
use esp_nmea_bridge.Config.Set.Live.{set_tcp_client-Saved, set_ais-Saved}
use esp_nmea_bridge.Web.Update.Merge.{WellFormed, Checks}
use esp_nmea_bridge.Web.Update.Accepted.{
  merged_mmsi, sta-accepted, ap-accepted, system-accepted, tcp-accepted,
}
use esp_nmea_bridge.Web.Update.Checked.{Reliable, save_and_commit-ok}
use esp_nmea_bridge.Web.Update.Unchanged.{
  ais_changed_refl, tcp_changed_refl, sta_changed_refl, ap_changed_refl, system_changed_refl,
  keep_sta, keep_ap, keep_system, keep_ais, keep_tcp, or_false,
}

-- A part of the configuration: as the request asks, or still as it was.
abbrev pub Part : {A : Type 0} → (A → A → Bool) → Bool → A → A → A → Type 0
Part changed true now next old = changed now next ≡ false
Part changed false now next old = now ≡ old

-- A part that is as it was, and that the request does not change.
part_done :
    {A : Type 0}
    → (changed : A → A → Bool) (now next old : A) → ((a : A) → changed a a ≡ false)
    → next ≡ old
    → now ≡ old
    → changed now next ≡ false
part_done changed now next old f e e' = rw (e, e') (f old)

-- The configuration `d` on the way from `c` to what `p` asks for: which parts are done.
pub record Parts (p : Payload) (c : Config) (b1 b2 b3 b4 b5 : Bool) (d : Config) : Type 0 where
  pub ais : Part ais_changed b1 d.ais (merge_ais p c.ais) c.ais
  pub tcp : Part tcp_changed b2 d.tcp_client (merge_tcp p c.tcp_client) c.tcp_client
  pub sta : Part sta_changed b3 d.sta (merge_sta p c.sta) c.sta
  pub ap : Part ap_changed b4 d.ap (merge_ap p c.ap) c.ap
  pub system : Part system_changed b5 d.system_cfg (merge_system p c.system_cfg) c.system_cfg

module _ {S : Type 0} (settings : Settings S) (reliable : Reliable settings) where
  -- A setter that reports success had nothing to change, or has committed.
  Saved-done :
      {c : Config} {s : S} {changed : Bool} {key : Key} {bytes : Bytes} {c' : Config}
      {notify : Bool} {o : Outcome S}
      → Saved settings c s changed key bytes c' notify o
      → o.ret ≡ ok
      → (P : Config → Type 0) → (changed ≡ false → P c)
      → P c'
      → P o.config
  Saved-done (same ch e) r P pc pc' = subst (λ x. P x.config) (sym e) (pc ch)
  Saved-done (failed n e h t) r P pc pc' = absurd (cc)
  Saved-done (stored ch h e k t) r P pc pc' = subst P (sym e) pc'

  module _ (p : Payload) (checks : Checks p) (c : Config) (wf : WellFormed c) (d : Config)
      (well : WellFormed d) where
    pub set_ais-ok : (s : S) → (set_ais settings d s (some (merge_ais p d.ais))).ret ≡ ok
    unfolding set_ais
    set_ais-ok s =
        rw (merged_mmsi p checks d well) (save_and_commit-ok settings reliable _ _ _ _ _ _ _)

    pub set_ais-done :
        (s : S)
        → Parts p c false false false false false d
        → Parts p c true false false false false
            (set_ais settings d s (some (merge_ais p d.ais))).config
    set_ais-done s st =
        Saved-done (set_ais-Saved settings d s (merge_ais p d.ais) (merged_mmsi p checks d well))
          (set_ais-ok s) (Parts p c true false false false false)
          (λ e. record {
            ais = subst (λ x. ais_changed d.ais (merge_ais p x) ≡ false) st.ais (or_false _ _ e).1;
            tcp = st.tcp;
            sta = st.sta;
            ap = st.ap;
            system = st.system;
          })
          (record {
            ais =
                subst (λ x. ais_changed (merge_ais p d.ais) (merge_ais p x) ≡ false) st.ais
                  (ais_changed_refl (merge_ais p d.ais));
            tcp = st.tcp;
            sta = st.sta;
            ap = st.ap;
            system = st.system;
          })

    pub ais-skipped :
        Parts p c false false false false false d
        → fields_ais p ≡ false
        → Parts p c true false false false false d
    ais-skipped st h = record {
      ais =
          part_done ais_changed d.ais (merge_ais p c.ais) c.ais ais_changed_refl
            (keep_ais p c.ais h) st.ais;
      tcp = st.tcp;
      sta = st.sta;
      ap = st.ap;
      system = st.system;
    }

    pub set_tcp_client-ok :
        (s : S) → (set_tcp_client settings d s (some (merge_tcp p d.tcp_client))).ret ≡ ok
    unfolding set_tcp_client
    set_tcp_client-ok s =
        rw (tcp-accepted p checks d well) (save_and_commit-ok settings reliable _ _ _ _ _ _ _)

    pub set_tcp_client-done :
        (s : S)
        → Parts p c true false false false false d
        → Parts p c true true false false false
            (set_tcp_client settings d s (some (merge_tcp p d.tcp_client))).config
    set_tcp_client-done s st =
        Saved-done
          (set_tcp_client-Saved settings d s (merge_tcp p d.tcp_client)
            (tcp-accepted p checks d well))
          (set_tcp_client-ok s) (Parts p c true true false false false)
          (λ e. record {
            tcp =
                subst (λ x. tcp_changed d.tcp_client (merge_tcp p x) ≡ false) st.tcp
                  (or_false _ _ e).1;
            ais = st.ais;
            sta = st.sta;
            ap = st.ap;
            system = st.system;
          })
          (record {
            tcp =
                subst (λ x. tcp_changed (merge_tcp p d.tcp_client) (merge_tcp p x) ≡ false) st.tcp
                  (tcp_changed_refl (merge_tcp p d.tcp_client));
            ais = st.ais;
            sta = st.sta;
            ap = st.ap;
            system = st.system;
          })

    pub tcp-skipped :
        Parts p c true false false false false d
        → fields_tcp p ≡ false
        → Parts p c true true false false false d
    tcp-skipped st h = record {
      tcp =
          part_done tcp_changed d.tcp_client (merge_tcp p c.tcp_client) c.tcp_client
            tcp_changed_refl (keep_tcp p c.tcp_client h) st.tcp;
      ais = st.ais;
      sta = st.sta;
      ap = st.ap;
      system = st.system;
    }

    pub set_sta-ok : (s : S) → (set_sta settings d s (some (merge_sta p c.sta))).ret ≡ ok
    unfolding set_sta
    set_sta-ok s =
        rw (sta-accepted p checks c wf) (save_and_commit-ok settings reliable _ _ _ _ _ _ _)

    pub set_sta-done :
        (s : S)
        → Parts p c true true false false false d
        → Parts p c true true true false false
            (set_sta settings d s (some (merge_sta p c.sta))).config
    set_sta-done s st =
        Saved-done (set_sta-Saved settings d s (merge_sta p c.sta) (sta-accepted p checks c wf))
          (set_sta-ok s) (Parts p c true true true false false)
          (λ e. record {
            sta = (or_false _ _ e).1;
            ais = st.ais;
            tcp = st.tcp;
            ap = st.ap;
            system = st.system;
          })
          (record {
            sta = sta_changed_refl (merge_sta p c.sta);
            ais = st.ais;
            tcp = st.tcp;
            ap = st.ap;
            system = st.system;
          })

    pub sta-skipped :
        Parts p c true true false false false d
        → fields_sta p ≡ false
        → Parts p c true true true false false d
    sta-skipped st h = record {
      sta =
          part_done sta_changed d.sta (merge_sta p c.sta) c.sta sta_changed_refl
            (keep_sta p c.sta h) st.sta;
      ais = st.ais;
      tcp = st.tcp;
      ap = st.ap;
      system = st.system;
    }

    pub set_ap-ok : (s : S) → (set_ap settings d s (some (merge_ap p c.ap))).ret ≡ ok
    unfolding set_ap
    set_ap-ok s =
        rw (ap-accepted p checks c wf) (save_and_commit-ok settings reliable _ _ _ _ _ _ _)

    pub set_ap-done :
        (s : S)
        → Parts p c true true true false false d
        → Parts p c true true true true false (set_ap settings d s (some (merge_ap p c.ap))).config
    set_ap-done s st =
        Saved-done (set_ap-Saved settings d s (merge_ap p c.ap) (ap-accepted p checks c wf))
          (set_ap-ok s) (Parts p c true true true true false)
          (λ e. record {
            ap = (or_false _ _ e).1;
            ais = st.ais;
            tcp = st.tcp;
            sta = st.sta;
            system = st.system;
          })
          (record {
            ap = ap_changed_refl (merge_ap p c.ap);
            ais = st.ais;
            tcp = st.tcp;
            sta = st.sta;
            system = st.system;
          })

    pub ap-skipped :
        Parts p c true true true false false d
        → fields_ap p ≡ false
        → Parts p c true true true true false d
    ap-skipped st h = record {
      ap =
          part_done ap_changed d.ap (merge_ap p c.ap) c.ap ap_changed_refl (keep_ap p c.ap h) st.ap;
      ais = st.ais;
      tcp = st.tcp;
      sta = st.sta;
      system = st.system;
    }

    pub set_system-ok :
        (s : S) → (set_system settings d s (some (merge_system p c.system_cfg))).ret ≡ ok
    unfolding set_system
    set_system-ok s =
        rw (system-accepted p checks c wf) (save_and_commit-ok settings reliable _ _ _ _ _ _ _)

    pub set_system-done :
        (s : S)
        → Parts p c true true true true false d
        → Parts p c true true true true true
            (set_system settings d s (some (merge_system p c.system_cfg))).config
    set_system-done s st =
        Saved-done
          (set_system-Saved settings d s (merge_system p c.system_cfg)
            (system-accepted p checks c wf))
          (set_system-ok s) (Parts p c true true true true true)
          (λ e. record {
            system = (or_false _ _ e).1;
            ais = st.ais;
            tcp = st.tcp;
            sta = st.sta;
            ap = st.ap;
          })
          (record {
            system = system_changed_refl (merge_system p c.system_cfg);
            ais = st.ais;
            tcp = st.tcp;
            sta = st.sta;
            ap = st.ap;
          })

    pub system-skipped :
        Parts p c true true true true false d
        → given p.hostname ≡ false
        → Parts p c true true true true true d
    system-skipped st h = record {
      system =
          part_done system_changed d.system_cfg (merge_system p c.system_cfg) c.system_cfg
            system_changed_refl (keep_system p c.system_cfg h) st.system;
      ais = st.ais;
      tcp = st.tcp;
      sta = st.sta;
      ap = st.ap;
    }
