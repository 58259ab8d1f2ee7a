-- ===== src/Config/Set/Live.antt =====
-- What a successful setter of the live settings leaves, in memory, in the store and to the listener.
use esp_nmea_bridge.Prelude.{
  ◌^◌, ◌≤◌, ◌<◌, ◌≡◌, ◌≢◌, refl, true, ◌&&◌, ◌||◌, inl, inr, some, length, arith, Bool-cases,
}
use esp_nmea_bridge.Prelude.CString.{cstr, terminated}
use esp_nmea_bridge.Config.{Ais, TcpClient, Config, ok, ais_mmsi_max}
use esp_nmea_bridge.Config.Valid.{tcp_client_host_valid}
use esp_nmea_bridge.Config.Record.{ais_record_pack, tcp_record_pack, bytes_of, ais_record_len}
use esp_nmea_bridge.Config.Record.RoundTrip.{
  canonical, tcp_record-round_trip, ais_record-round_trip,
}
use esp_nmea_bridge.Config.Store.{Settings, Key}
use esp_nmea_bridge.Config.Store
use esp_nmea_bridge.Config.Load.Stored.{load_tcp, load_ais}
use esp_nmea_bridge.Config.Load.{settings_set}
use esp_nmea_bridge.Config.Set.Persist.{Saved, save_and_commit-Saved, Saved-stored}
use esp_nmea_bridge.Config.Set.{
  set_ais, set_tcp_client, ais_accepted, tcp_accepted, ais_changed, tcp_changed,
}

tcp_accepted-facts :
    (next : TcpClient)
    → tcp_accepted next ≡ true
    → (terminated next.host ≡ true)
      × (tcp_client_host_valid (cstr next.host) ≡ true)
      × (next.port ≢ 0)
unfolding tcp_accepted
tcp_accepted-facts next a = ground arith

ais_accepted-le : (next : Ais) → ais_accepted next ≡ true → next.own_mmsi ≤ ais_mmsi_max
unfolding ais_accepted
ais_accepted-le next a = ground arith

length-ais_record_pack : (c : Ais) → length (ais_record_pack c) ≡ ais_record_len
unfolding ais_record_pack bytes_of
length-ais_record_pack c = refl

module _ {S : Type 0} (settings : Settings S) where
  pub set_tcp_client-Saved :
      (c : Config) (s : S) (next : TcpClient)
      → tcp_accepted next ≡ true
      → Saved settings c s
          (c.factory_reset_pending || tcp_changed c.tcp_client next)
          Store.tcp
          (tcp_record_pack next)
          (record c { tcp_client = next })
          (tcp_changed c.tcp_client next)
          (set_tcp_client settings c s (some next))
  unfolding set_tcp_client
  set_tcp_client-Saved c s next a = rw a (
      save_and_commit-Saved settings c s (c.factory_reset_pending || tcp_changed c.tcp_client next)
        Store.tcp (tcp_record_pack next) (λ d. record d { tcp_client = next })
        (tcp_changed c.tcp_client next))

  pub set_tcp_client-accepted :
      (c : Config) (s : S) (next : TcpClient)
      → (set_tcp_client settings c s (some next)).ret ≡ ok
      → tcp_accepted next ≡ true
  unfolding set_tcp_client
  set_tcp_client-accepted c s next r = elim (Bool-cases (tcp_accepted next)) [
    | inl a ↦ a
    | inr a ↦ cc (rw a at r)
  ]

  -- A TCP client setting that `bridge_config_set_tcp_client` reports as saved, and that changed
  -- something or follows a factory reset, is in effect at once and is what the next boot loads,
  -- with zeros behind the host; the listener, if one is set, is called exactly when the setting
  -- differs from the one in memory.
  pub set_tcp_client-live :
      (boot c : Config) (s : S) (next : TcpClient)
      → length next.host ≡ 16
      → next.port < 2 ^ 16
      → (c.factory_reset_pending || tcp_changed c.tcp_client next) ≡ true
      → (set_tcp_client settings c s (some next)).ret ≡ ok
      → let o = set_tcp_client settings c s (some next) in
        (o.config ≡ record c { tcp_client = next })
        × ((settings_set boot Key.tcp (settings.value o.store Key.tcp)).0
            ≡ record boot { tcp_client = record next { host = canonical 16 next.host } })
        × (o.notified ≡ (tcp_changed c.tcp_client next && c.listener))
  set_tcp_client-live boot c s next size small ch r =
      let a = set_tcp_client-accepted c s next r in
      let facts = tcp_accepted-facts next a in
      let (now, held, told) = Saved-stored settings (set_tcp_client-Saved c s next a) r ch in
      let (back, len) = tcp_record-round_trip next size facts.0 facts.1 facts.2 small in
      (now, rw held (load_tcp boot (tcp_record_pack next) len back), told)

  pub set_ais-Saved :
      (c : Config) (s : S) (next : Ais)
      → ais_accepted next ≡ true
      → Saved settings c s
          (c.factory_reset_pending || ais_changed c.ais next)
          Store.ais
          (ais_record_pack next)
          (record c { ais = next })
          (ais_changed c.ais next)
          (set_ais settings c s (some next))
  unfolding set_ais
  set_ais-Saved c s next a = rw a (
      save_and_commit-Saved settings c s (c.factory_reset_pending || ais_changed c.ais next)
        Store.ais (ais_record_pack next) (λ d. record d { ais = next }) (ais_changed c.ais next))

  pub set_ais-accepted :
      (c : Config) (s : S) (next : Ais)
      → (set_ais settings c s (some next)).ret ≡ ok
      → ais_accepted next ≡ true
  unfolding set_ais
  set_ais-accepted c s next r = elim (Bool-cases (ais_accepted next)) [
    | inl a ↦ a
    | inr a ↦ cc (rw a at r)
  ]

  -- An AIS setting that `bridge_config_set_ais` reports as saved, and that changed something or
  -- follows a factory reset, is in effect at once and is what the next boot loads; the listener, if
  -- one is set, is called exactly when the setting differs from the one in memory.
  pub set_ais-live :
      (boot c : Config) (s : S) (next : Ais)
      → (c.factory_reset_pending || ais_changed c.ais next) ≡ true
      → (set_ais settings c s (some next)).ret ≡ ok
      → let o = set_ais settings c s (some next) in
        (o.config ≡ record c { ais = next })
        × ((settings_set boot Key.ais (settings.value o.store Key.ais)).0
            ≡ record boot { ais = next })
        × (o.notified ≡ (ais_changed c.ais next && c.listener))
  set_ais-live boot c s next ch r =
      let a = set_ais-accepted c s next r in
      let small = ais_accepted-le next a in
      let (now, held, told) = Saved-stored settings (set_ais-Saved c s next a) r ch in
      (
        now,
        rw held (
            load_ais boot (ais_record_pack next) (length-ais_record_pack next)
              (ais_record-round_trip next (omega arith)) small),
        told,
      )
