-- ===== src/Web/Update/Setters.antt =====
-- src/web_app.c: the setters keep a configuration well formed that a checked request changes.
use esp_nmea_bridge.Prelude.{sym, Bool, some, subst}
use esp_nmea_bridge.Prelude.CString.{Bytes}
use esp_nmea_bridge.Config.{Config, get_ais, get_tcp_client}
use esp_nmea_bridge.Config.Store.{Settings, Key}
use esp_nmea_bridge.Config.Set.{Outcome, set_ais, set_tcp_client, set_sta, set_ap, set_system}
use esp_nmea_bridge.Config.Set.Persist.{Saved, same, failed, stored}
use esp_nmea_bridge.Config.Set.Reboot.{set_sta-Saved, set_ap-Saved, set_system-Saved}
use esp_nmea_bridge.Config.Set.Live.{set_tcp_client-Saved, set_ais-Saved}
use esp_nmea_bridge.Web.Payload.{Payload, merge_sta, merge_ap, merge_system, merge_ais, merge_tcp}
use esp_nmea_bridge.Web.Update.Merge.{WellFormed, Checks}
use esp_nmea_bridge.Web.Update.Accepted.{
  merged_sta_ssid, merged_sta_psk, merged_ap_ssid, merged_ap_psk, merged_hostname, merged_host,
  merged_port, merged_mmsi, sta-accepted, ap-accepted, system-accepted, tcp-accepted,
}

module _ {S : Type 0} (settings : Settings S) where
  -- A setter that accepts leaves the configuration or the one it was asked for.
  Saved-config :
      {c : Config} {s : S} {changed : Bool} {key : Key} {bytes : Bytes} {c' : Config}
      {notify : Bool} {o : Outcome S}
      → Saved settings c s changed key bytes c' notify o
      → (P : Config → Type 0) → P c
      → P c'
      → P o.config
  Saved-config (same ch e) P pc pc' = subst (λ x. P x.config) (sym e) pc
  Saved-config (failed n r e t) P pc pc' = subst P (sym e) pc
  Saved-config (stored ch r e h t) P pc pc' = subst P (sym e) pc'

  module _ (p : Payload) (checks : Checks p) (c : Config) (wf : WellFormed c) (d : Config) (s : S)
      (wf' : WellFormed d) where
    pub ais-WellFormed : WellFormed (set_ais settings d s (some (merge_ais p (get_ais d)))).config
    unfolding get_ais
    ais-WellFormed =
        let next = merge_ais p (get_ais d) in
        let accepted = merged_mmsi p checks d wf' in
        Saved-config (set_ais-Saved settings d s next accepted) WellFormed wf' (record {
          mmsi = accepted;
          host = wf'.host;
          port = wf'.port;
          sta_ssid = wf'.sta_ssid;
          sta_psk = wf'.sta_psk;
          ap_ssid = wf'.ap_ssid;
          ap_psk = wf'.ap_psk;
          hostname = wf'.hostname;
        })

    pub sta-WellFormed : WellFormed (set_sta settings d s (some (merge_sta p c.sta))).config
    sta-WellFormed =
        Saved-config (set_sta-Saved settings d s (merge_sta p c.sta) (sta-accepted p checks c wf))
          WellFormed wf'
          (record {
            mmsi = wf'.mmsi;
            host = wf'.host;
            port = wf'.port;
            sta_ssid = merged_sta_ssid p checks c wf;
            sta_psk = merged_sta_psk p checks c wf;
            ap_ssid = wf'.ap_ssid;
            ap_psk = wf'.ap_psk;
            hostname = wf'.hostname;
          })

    pub tcp-WellFormed :
        WellFormed (set_tcp_client settings d s (some (merge_tcp p (get_tcp_client d)))).config
    unfolding get_tcp_client
    tcp-WellFormed =
        Saved-config
          (set_tcp_client-Saved settings d s (merge_tcp p (get_tcp_client d))
            (tcp-accepted p checks d wf'))
          WellFormed wf'
          (record {
            mmsi = wf'.mmsi;
            host = merged_host p checks d wf';
            port = merged_port p checks d wf';
            sta_ssid = wf'.sta_ssid;
            sta_psk = wf'.sta_psk;
            ap_ssid = wf'.ap_ssid;
            ap_psk = wf'.ap_psk;
            hostname = wf'.hostname;
          })

    pub ap-WellFormed : WellFormed (set_ap settings d s (some (merge_ap p c.ap))).config
    ap-WellFormed =
        Saved-config (set_ap-Saved settings d s (merge_ap p c.ap) (ap-accepted p checks c wf))
          WellFormed wf'
          (record {
            mmsi = wf'.mmsi;
            host = wf'.host;
            port = wf'.port;
            sta_ssid = wf'.sta_ssid;
            sta_psk = wf'.sta_psk;
            ap_ssid = merged_ap_ssid p checks c wf;
            ap_psk = merged_ap_psk p checks c wf;
            hostname = wf'.hostname;
          })

    pub system-WellFormed :
        WellFormed (set_system settings d s (some (merge_system p c.system_cfg))).config
    system-WellFormed =
        Saved-config
          (set_system-Saved settings d s (merge_system p c.system_cfg)
            (system-accepted p checks c wf))
          WellFormed wf'
          (record {
            mmsi = wf'.mmsi;
            host = wf'.host;
            port = wf'.port;
            sta_ssid = wf'.sta_ssid;
            sta_psk = wf'.sta_psk;
            ap_ssid = wf'.ap_ssid;
            ap_psk = wf'.ap_psk;
            hostname = merged_hostname p checks c wf;
          })
