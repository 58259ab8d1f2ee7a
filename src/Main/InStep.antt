-- ===== src/Main/InStep.antt =====
-- What src/main.c keeps in step: the UART receiver and the TCP client with the configuration.
use esp_nmea_bridge.Prelude.{
  ℕ, ◌≡◌, ◌⊎◌, inl, inr, refl, Bool, true, false, not, ◌&&◌, ◌||◌, List, [], ◌∷◌, none, some,
  if◌then◌else◌, if-either, Bool-cases, arith, ap, sym, ◌∙◌, subst,
}
use esp_nmea_bridge.Prelude.CString.{Bytes, cstr, str_equal, bytes_eq_sound}
use esp_nmea_bridge.Config.{Ais, TcpClient, Config, Ret-cases, set_listener}
use esp_nmea_bridge.Config.Store.{Settings, Key}
use esp_nmea_bridge.Config.Store
use esp_nmea_bridge.Config.Set.{
  Outcome, set_ais, set_tcp_client, set_sta, set_ap, set_system, save_and_commit, rejected,
  ais_changed, tcp_changed, sta_changed, ap_changed, system_changed, ais_accepted, tcp_accepted,
  sta_accepted, ap_accepted, system_accepted,
}
use esp_nmea_bridge.Config.Record.{
  ais_record_pack, sta_record_pack, ap_record_pack, sys_record_pack, tcp_record_pack,
}
use esp_nmea_bridge.Uart
use esp_nmea_bridge.Main.{
  App, client_config_changed, bridge_config_changed, commit_outcome, Change, change_ais,
  change_tcp_client, change_sta, change_ap, change_system, Boot, configure, setter, apply_changes,
}

-- The value of the atomic for a configuration.
abbrev pub mmsi_of : Ais → ℕ
mmsi_of c = Uart.set_ais_config c.filter_enabled c.own_mmsi

-- Two configurations of the TCP client that differ in nothing it reads.
pub record SameClient (a b : TcpClient) : Type 0 where
  pub enabled : a.enabled ≡ b.enabled
  pub port : a.port ≡ b.port
  pub host : cstr a.host ≡ cstr b.host

-- The UART receiver and the TCP client have been told of the configuration.
pub record InStep {S : Type 0} (a : App S) : Type 0 where
  pub mmsi : a.own_mmsi ≡ mmsi_of a.config.ais
  pub client : (seen : TcpClient) × (a.seen_cfg ≡ some seen) × SameClient seen a.config.tcp_client
  pub listens : a.config.listener ≡ true

-- A configuration with nothing to tell.
record Unmoved (c d : Config) : Type 0 where
  mmsi : mmsi_of d.ais ≡ mmsi_of c.ais
  client : SameClient c.tcp_client d.tcp_client

same_client : {a : TcpClient} → SameClient a a
same_client = record { enabled = refl; port = refl; host = refl }

SameClient-trans : {a b c : TcpClient} → SameClient a b → SameClient b c → SameClient a c
SameClient-trans h k = record {
  enabled = h.enabled ∙ k.enabled;
  port = h.port ∙ k.port;
  host = h.host ∙ k.host;
}

tcp_unchanged : (now next : TcpClient) → tcp_changed now next ≡ false → SameClient now next
unfolding tcp_changed str_equal
tcp_unchanged now next h = record {
  enabled = ground (arith, h);
  port = ground (arith, h);
  host = bytes_eq_sound (cstr now.host) (cstr next.host) (ground (arith, h));
}

ais_unchanged : (now next : Ais) → ais_changed now next ≡ false → mmsi_of next ≡ mmsi_of now
unfolding ais_changed Uart.set_ais_config
ais_unchanged now next h = ground (arith, h)

-- A setter tells the listener, or there is nothing to tell.
record Tells {S : Type 0} (c : Config) (o : Outcome S) : Type 0 where
  listens : o.config.listener ≡ c.listener
  tells : (o.notified ≡ true) ⊎ Unmoved c o.config

still : {S : Type 0} {c : Config} {o : Outcome S} → o.config ≡ c → Tells c o
still {c = c} e = record {
  listens = ap (λ d. d.listener) e;
  tells = inr (record {
    mmsi = ap (λ d. mmsi_of d.ais) e;
    client = subst (λ d. SameClient c.tcp_client d.tcp_client) (sym e) same_client;
  });
}

ais-moves :
    (c : Config) (next : Ais)
    → c.listener ≡ true
    → ((ais_changed c.ais next && c.listener) ≡ true) ⊎ Unmoved c (record c { ais = next })
ais-moves c next h = elim (Bool-cases (ais_changed c.ais next)) [
  | inl e ↦ inl (ground (arith, e, h))
  | inr e ↦ inr (record { mmsi = ais_unchanged c.ais next e; client = same_client })
]

tcp-moves :
    (c : Config) (next : TcpClient)
    → c.listener ≡ true
    → ((tcp_changed c.tcp_client next && c.listener) ≡ true)
      ⊎ Unmoved c (record c { tcp_client = next })
tcp-moves c next h = elim (Bool-cases (tcp_changed c.tcp_client next)) [
  | inl e ↦ inl (ground (arith, e, h))
  | inr e ↦ inr (record { mmsi = refl; client = tcp_unchanged c.tcp_client next e })
]

module _ {S : Type 0} (settings : Settings S) where
  rejected-Tells : (c : Config) (s : S) → Tells c (rejected settings c s)
  unfolding rejected
  rejected-Tells c s = still refl

  save_and_commit-Tells :
      (c : Config) (s : S) (changed : Bool) (key : Key) (bytes : Bytes) (commit : Config → Config)
      (notify : Bool)
      → (commit c).listener ≡ c.listener
      → ((notify && c.listener) ≡ true) ⊎ Unmoved c (commit c)
      → Tells c (save_and_commit settings c s changed key bytes commit notify)
  unfolding save_and_commit
  save_and_commit-Tells c s false key bytes commit notify l t = still refl
  save_and_commit-Tells c s true key bytes commit notify l t =
      elim (Ret-cases (settings.save_one s key bytes).0) [
        | inl e ↦ rw e (record { listens = l; tells = t })
        | inr (n, e) ↦ rw e (still refl)
      ]

  guarded-Tells :
      (c : Config) (s : S) (accepted changed : Bool) (key : Key) (bytes : Bytes)
      (commit : Config → Config) (notify : Bool)
      → (commit c).listener ≡ c.listener
      → ((notify && c.listener) ≡ true) ⊎ Unmoved c (commit c)
      → Tells c (
          if not accepted
          then rejected settings c s
          else save_and_commit settings c s changed key bytes commit notify)
  guarded-Tells c s true changed key bytes commit notify l t =
      save_and_commit-Tells c s changed key bytes commit notify l t
  guarded-Tells c s false changed key bytes commit notify l t = rejected-Tells c s

  setter-Tells :
      (ch : Change) (c : Config) (s : S) → c.listener ≡ true → Tells c (setter settings ch c s)
  unfolding setter set_ais set_tcp_client set_sta set_ap set_system
  setter-Tells (change_ais none) c s h = rejected-Tells c s
  setter-Tells (change_ais (some next)) c s h =
      guarded-Tells c s (ais_accepted next) (c.factory_reset_pending || ais_changed c.ais next)
        Store.ais (ais_record_pack next) (λ d. record d { ais = next }) (ais_changed c.ais next)
        refl (ais-moves c next h)
  setter-Tells (change_tcp_client none) c s h = rejected-Tells c s
  setter-Tells (change_tcp_client (some next)) c s h =
      guarded-Tells c s (tcp_accepted next)
        (c.factory_reset_pending || tcp_changed c.tcp_client next) Store.tcp (tcp_record_pack next)
        (λ d. record d { tcp_client = next }) (tcp_changed c.tcp_client next) refl
        (tcp-moves c next h)
  setter-Tells (change_sta none) c s h = rejected-Tells c s
  setter-Tells (change_sta (some next)) c s h =
      guarded-Tells c s (sta_accepted next) (c.factory_reset_pending || sta_changed c.sta next)
        Store.sta (sta_record_pack next) (λ d. record d { sta = next; reboot_required = true })
        false refl (inr (record { mmsi = refl; client = same_client }))
  setter-Tells (change_ap none) c s h = rejected-Tells c s
  setter-Tells (change_ap (some next)) c s h =
      guarded-Tells c s (ap_accepted next) (c.factory_reset_pending || ap_changed c.ap next)
        Store.ap (ap_record_pack next) (λ d. record d { ap = next; reboot_required = true }) false
        refl (inr (record { mmsi = refl; client = same_client }))
  setter-Tells (change_system none) c s h = rejected-Tells c s
  setter-Tells (change_system (some next)) c s h =
      guarded-Tells c s (system_accepted next)
        (c.factory_reset_pending || system_changed c.system_cfg next) Store.sys
        (sys_record_pack next) (λ d. record d { system_cfg = next; reboot_required = true }) false
        refl (inr (record { mmsi = refl; client = same_client }))

changed-InStep :
    {S : Type 0} (a : App S) → a.config.listener ≡ true → InStep (bridge_config_changed a)
unfolding bridge_config_changed client_config_changed
changed-InStep a h = record {
  mmsi = refl;
  client = (a.config.tcp_client, refl, same_client);
  listens = h;
}

commit-InStep :
    {S : Type 0} (a : App S) (o : Outcome S)
    → InStep a
    → Tells a.config o
    → InStep (commit_outcome a o)
unfolding commit_outcome
commit-InStep a o i t =
    if-either InStep o.notified (λ _. changed-InStep _ (t.listens ∙ i.listens))
      (λ n. elim t.tells [
        | inl e ↦ cc
        | inr u ↦ record {
          mmsi = i.mmsi ∙ sym u.mmsi;
          client = (i.client.0, i.client.1, SameClient-trans i.client.2 u.client);
          listens = t.listens ∙ i.listens;
        }
      ])

apply_changes-InStep :
    {S : Type 0} (settings : Settings S) (chs : List Change) (a : App S)
    → InStep a
    → InStep (apply_changes settings a chs)
unfolding apply_changes
apply_changes-InStep settings [] a i = i
apply_changes-InStep settings (ch ∷ chs) a i =
    apply_changes-InStep settings chs (commit_outcome a (setter settings ch a.config a.store))
      (commit-InStep a _ i (setter-Tells settings ch a.config a.store i.listens))

-- From the start-up on, after any calls of the setters, the value that the UART receiver reads is the
-- one of the present configuration, and the configuration the TCP client was last told of agrees with
-- the present one in all that the client reads.
pub running-InStep :
    {S : Type 0} (settings : Settings S) (b : Boot S) (chs : List Change)
    → InStep (apply_changes settings (configure b) chs)
unfolding configure set_listener
running-InStep settings b chs =
    apply_changes-InStep settings chs (configure b) (changed-InStep _ refl)
