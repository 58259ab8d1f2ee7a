-- ===== src/Config/Set/Reboot.antt =====
-- What a successful setter leaves for the next boot.
use esp_nmea_bridge.Prelude.{◌≡◌, ◌≢◌, true, false, ◌||◌, inl, inr, some, length, arith, Bool-cases}
use esp_nmea_bridge.Prelude.CString.{cstr, strlen, terminated}
use esp_nmea_bridge.Config.{Sta, Ap, System, Config, ok}
use esp_nmea_bridge.Config.Valid.{text_valid, hostname_valid}
use esp_nmea_bridge.Config.Record.{sta_record_pack, ap_record_pack, sys_record_pack, bad_psk_len}
use esp_nmea_bridge.Config.Record.RoundTrip.{
  canonical, sta_record-round_trip, ap_record-round_trip, sys_record-round_trip,
}
use esp_nmea_bridge.Config.Store.{Settings, Key}
use esp_nmea_bridge.Config.Store
use esp_nmea_bridge.Config.Load.Stored.{load_sta, load_ap, load_sys}
use esp_nmea_bridge.Config.Load.{settings_set}
use esp_nmea_bridge.Config.Set.Persist.{Saved, save_and_commit-Saved, Saved-stored}
use esp_nmea_bridge.Config.Set.{
  set_sta, set_ap, set_system, sta_accepted, ap_accepted, system_accepted, sta_changed, ap_changed,
  system_changed,
}

sta_accepted-facts :
    (next : Sta)
    → sta_accepted next ≡ true
    → (terminated next.ssid ≡ true)
      × (terminated next.psk ≡ true)
      × (text_valid (cstr next.ssid) ≡ true)
      × (bad_psk_len (strlen next.psk) ≡ false)
unfolding sta_accepted
sta_accepted-facts next a = ground arith

ap_accepted-facts :
    (next : Ap)
    → ap_accepted next ≡ true
    → (terminated next.ssid ≡ true)
      × (terminated next.psk ≡ true)
      × (text_valid (cstr next.ssid) ≡ true)
      × (length (cstr next.ssid) ≢ 0)
      × (bad_psk_len (strlen next.psk) ≡ false)
unfolding ap_accepted strlen
ap_accepted-facts next a = ground arith

system_accepted-facts :
    (next : System)
    → system_accepted next ≡ true
    → (terminated next.hostname ≡ true) × (hostname_valid (cstr next.hostname) ≡ true)
unfolding system_accepted
system_accepted-facts next a = ground arith

module _ {S : Type 0} (settings : Settings S) where
  pub set_sta-Saved :
      (c : Config) (s : S) (next : Sta)
      → sta_accepted next ≡ true
      → Saved settings c s
          (c.factory_reset_pending || sta_changed c.sta next)
          Store.sta
          (sta_record_pack next)
          (record c { sta = next; reboot_required = true })
          false
          (set_sta settings c s (some next))
  unfolding set_sta
  set_sta-Saved c s next a = rw a (
      save_and_commit-Saved settings c s (c.factory_reset_pending || sta_changed c.sta next)
        Store.sta (sta_record_pack next) (λ d. record d { sta = next; reboot_required = true })
        false)

  pub set_sta-accepted :
      (c : Config) (s : S) (next : Sta)
      → (set_sta settings c s (some next)).ret ≡ ok
      → sta_accepted next ≡ true
  unfolding set_sta
  set_sta-accepted c s next r = elim (Bool-cases (sta_accepted next)) [
    | inl a ↦ a
    | inr a ↦ cc (rw a at r)
  ]

  -- A station setting that `bridge_config_set_sta` reports as saved, and that changed something or
  -- follows a factory reset, is in effect in memory, asks for a reboot, and is what the next boot
  -- loads from the store over whatever defaults, with zeros behind its texts.
  pub set_sta-reboot :
      (boot c : Config) (s : S) (next : Sta)
      → length next.ssid ≡ 33
      → length next.psk ≡ 64
      → (c.factory_reset_pending || sta_changed c.sta next) ≡ true
      → (set_sta settings c s (some next)).ret ≡ ok
      → let o = set_sta settings c s (some next) in
        (o.config ≡ record c { sta = next; reboot_required = true })
        × ((settings_set boot Key.sta (settings.value o.store Key.sta)).0 ≡ record boot {
          sta = record next { ssid = canonical 33 next.ssid; psk = canonical 64 next.psk };
        })
  set_sta-reboot boot c s next size size' ch r =
      let a = set_sta-accepted c s next r in
      let facts = sta_accepted-facts next a in
      let (now, held, _) = Saved-stored settings (set_sta-Saved c s next a) r ch in
      let (back, len) = sta_record-round_trip next size size' facts.0 facts.1 facts.2 facts.3 in
      (now, rw held (load_sta boot (sta_record_pack next) len back))

  pub set_ap-Saved :
      (c : Config) (s : S) (next : Ap)
      → ap_accepted next ≡ true
      → Saved settings c s
          (c.factory_reset_pending || ap_changed c.ap next)
          Store.ap
          (ap_record_pack next)
          (record c { ap = next; reboot_required = true })
          false
          (set_ap settings c s (some next))
  unfolding set_ap
  set_ap-Saved c s next a = rw a (
      save_and_commit-Saved settings c s (c.factory_reset_pending || ap_changed c.ap next) Store.ap
        (ap_record_pack next) (λ d. record d { ap = next; reboot_required = true }) false)

  pub set_ap-accepted :
      (c : Config) (s : S) (next : Ap)
      → (set_ap settings c s (some next)).ret ≡ ok
      → ap_accepted next ≡ true
  unfolding set_ap
  set_ap-accepted c s next r = elim (Bool-cases (ap_accepted next)) [
    | inl a ↦ a
    | inr a ↦ cc (rw a at r)
  ]

  -- An access point setting that `bridge_config_set_ap` reports as saved, and that changed something
  -- or follows a factory reset, is in effect in memory, asks for a reboot, and is what the next boot
  -- loads from the store over whatever defaults, with zeros behind its texts.
  pub set_ap-reboot :
      (boot c : Config) (s : S) (next : Ap)
      → length next.ssid ≡ 33
      → length next.psk ≡ 64
      → (c.factory_reset_pending || ap_changed c.ap next) ≡ true
      → (set_ap settings c s (some next)).ret ≡ ok
      → let o = set_ap settings c s (some next) in
        (o.config ≡ record c { ap = next; reboot_required = true })
        × ((settings_set boot Key.ap (settings.value o.store Key.ap)).0 ≡ record boot {
          ap = record { ssid = canonical 33 next.ssid; psk = canonical 64 next.psk };
        })
  set_ap-reboot boot c s next size size' ch r =
      let a = set_ap-accepted c s next r in
      let facts = ap_accepted-facts next a in
      let (now, held, _) = Saved-stored settings (set_ap-Saved c s next a) r ch in
      let (back, len) =
        ap_record-round_trip next size size' facts.0 facts.1 facts.2 facts.3 facts.4 in
      (now, rw held (load_ap boot (ap_record_pack next) len back))

  pub set_system-Saved :
      (c : Config) (s : S) (next : System)
      → system_accepted next ≡ true
      → Saved settings c s
          (c.factory_reset_pending || system_changed c.system_cfg next)
          Store.sys
          (sys_record_pack next)
          (record c { system_cfg = next; reboot_required = true })
          false
          (set_system settings c s (some next))
  unfolding set_system
  set_system-Saved c s next a = rw a (
      save_and_commit-Saved settings c s
        (c.factory_reset_pending || system_changed c.system_cfg next) Store.sys
        (sys_record_pack next) (λ d. record d { system_cfg = next; reboot_required = true }) false)

  pub set_system-accepted :
      (c : Config) (s : S) (next : System)
      → (set_system settings c s (some next)).ret ≡ ok
      → system_accepted next ≡ true
  unfolding set_system
  set_system-accepted c s next r = elim (Bool-cases (system_accepted next)) [
    | inl a ↦ a
    | inr a ↦ cc (rw a at r)
  ]

  -- A hostname that `bridge_config_set_system` reports as saved, and that changed something or
  -- follows a factory reset, is in effect in memory, asks for a reboot, and is what the next boot
  -- loads from the store over whatever defaults, with zeros behind its text.
  pub set_system-reboot :
      (boot c : Config) (s : S) (next : System)
      → length next.hostname ≡ 33
      → (c.factory_reset_pending || system_changed c.system_cfg next) ≡ true
      → (set_system settings c s (some next)).ret ≡ ok
      → let o = set_system settings c s (some next) in
        (o.config ≡ record c { system_cfg = next; reboot_required = true })
        × ((settings_set boot Key.sys (settings.value o.store Key.sys)).0
            ≡ record boot { system_cfg = record { hostname = canonical 33 next.hostname } })
  set_system-reboot boot c s next size ch r =
      let a = set_system-accepted c s next r in
      let facts = system_accepted-facts next a in
      let (now, held, _) = Saved-stored settings (set_system-Saved c s next a) r ch in
      let (back, len) = sys_record-round_trip next size facts.0 facts.1 in
      (now, rw held (load_sys boot (sys_record_pack next) len back))
