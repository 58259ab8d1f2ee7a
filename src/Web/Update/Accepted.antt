-- ===== src/Web/Update/Accepted.antt =====
-- src/web_app.c: what a checked request asks of an accepted configuration is accepted.
use esp_nmea_bridge.Prelude.{
  ◌%◌, ◌^◌, ◌<◌, ◌≡◌, refl, true, false, not, Option, none, some, arith, ltb, ◌==◌, length,
}
use esp_nmea_bridge.Prelude.CString.{cstr, strlen}
use esp_nmea_bridge.Config.{Config, ais_mmsi_max}
use esp_nmea_bridge.Config.Valid.{text_valid, hostname_valid, tcp_client_host_valid}
use esp_nmea_bridge.Config.Record.{bad_psk_len}
use esp_nmea_bridge.Config.Set.{
  ais_accepted, tcp_accepted, sta_accepted, ap_accepted, system_accepted,
}
use esp_nmea_bridge.Web.Payload.{
  ℤ, Payload, to_u32, mmsi_error, port_error, merge_sta, merge_ap, merge_system, merge_ais,
  merge_tcp,
}
use esp_nmea_bridge.Web.Update.Merge.{
  Holds, WellFormed, Checks, mmsi_error-facts, ssid_error-facts, hostname_error-facts,
  host_error-facts, port_error-facts, or_keep_text-Holds, merge_psk-Holds,
}

module _ (p : Payload) (checks : Checks p) (c : Config) (wf : WellFormed c) where
  pub merged_sta_ssid : Holds 33 (λ s. text_valid s ≡ true) (merge_sta p c.sta).ssid
  unfolding merge_sta
  merged_sta_ssid = or_keep_text-Holds 33 _ p.sta_ssid c.sta.ssid wf.sta_ssid (λ s e.
      let (lt, (valid, _)) = ssid_error-facts "sta_ssid" s (rw⁻¹ e checks.sta_name) in (lt, valid))

  pub merged_sta_psk : Holds 64 (λ s. bad_psk_len (length s) ≡ false) (merge_sta p c.sta).psk
  unfolding merge_sta
  merged_sta_psk =
      merge_psk-Holds "sta_psk" p.sta_psk_clear p.sta_psk c.sta.psk wf.sta_psk checks.sta_key

  pub merged_ap_ssid : Holds 33 (λ s. (text_valid s ≡ true) × (0 < length s)) (merge_ap p c.ap).ssid
  unfolding merge_ap strlen
  merged_ap_ssid =
      or_keep_text-Holds 33 _ p.ap_ssid c.ap.ssid wf.ap_ssid
        (λ s e. ssid_error-facts "ap_ssid" s (rw⁻¹ e checks.ap_name))

  pub merged_ap_psk : Holds 64 (λ s. bad_psk_len (length s) ≡ false) (merge_ap p c.ap).psk
  unfolding merge_ap
  merged_ap_psk = merge_psk-Holds "ap_psk" p.ap_psk_clear p.ap_psk c.ap.psk wf.ap_psk checks.ap_key

  pub merged_hostname :
      Holds 33 (λ s. hostname_valid s ≡ true) (merge_system p c.system_cfg).hostname
  unfolding merge_system
  merged_hostname =
      or_keep_text-Holds 33 _ p.hostname c.system_cfg.hostname wf.hostname
        (λ s e. hostname_error-facts s (rw⁻¹ e checks.name))

  pub merged_host : Holds 16 (λ s. tcp_client_host_valid s ≡ true) (merge_tcp p c.tcp_client).host
  unfolding merge_tcp
  merged_host =
      or_keep_text-Holds 16 _ p.tcp_client_host c.tcp_client.host wf.host
        (λ s e. host_error-facts s (rw⁻¹ e checks.peer))

  pub merged_port : ((merge_tcp p c.tcp_client).port == 0) ≡ false
  unfolding merge_tcp
  merged_port = by_case p.tcp_client_port checks.peer_port
    where
      by_case :
          (n : Option ℤ)
          → port_error n ≡ none
          → ((elim n [ none ↦ c.tcp_client.port | some k ↦ to_u32 k % 2 ^ 16 ]) == 0) ≡ false
      by_case none h = wf.port
      by_case (some n) h = port_error-facts n h

  pub merged_mmsi : ais_accepted (merge_ais p c.ais) ≡ true
  unfolding merge_ais ais_accepted
  merged_mmsi = by_case p.ais_own_mmsi checks.own_mmsi
    where
      by_case :
          (n : Option ℤ)
          → mmsi_error n ≡ none
          → not (ltb ais_mmsi_max (elim n [ none ↦ c.ais.own_mmsi | some k ↦ to_u32 k ])) ≡ true
      by_case none h = wf.mmsi
      by_case (some n) h = let le = mmsi_error-facts n h in ground arith

  pub sta-accepted : sta_accepted (merge_sta p c.sta) ≡ true
  unfolding sta_accepted strlen
  sta-accepted =
      rw (merged_sta_ssid.ends, merged_sta_psk.ends, merged_sta_ssid.says, merged_sta_psk.says) refl

  pub ap-accepted : ap_accepted (merge_ap p c.ap) ≡ true
  unfolding ap_accepted strlen
  ap-accepted =
      let positive = merged_ap_ssid.says.1 in
      let named : (length (cstr (merge_ap p c.ap).ssid) == 0) ≡ false = ground arith in
      rw (merged_ap_ssid.ends, merged_ap_psk.ends, merged_ap_ssid.says.0, merged_ap_psk.says, named)
        refl

  pub system-accepted : system_accepted (merge_system p c.system_cfg) ≡ true
  unfolding system_accepted
  system-accepted = rw (merged_hostname.ends, merged_hostname.says) refl

  pub tcp-accepted : tcp_accepted (merge_tcp p c.tcp_client) ≡ true
  unfolding tcp_accepted
  tcp-accepted = rw (merged_host.ends, merged_host.says, merged_port) refl
