-- ===== src/Config/Set/Failure.antt =====
-- A setter that reports an error.
use esp_nmea_bridge.Prelude.{◌≡◌, ◌≢◌, ◌⊎◌, refl, false, Option, some, none, Bool-cases, inl, inr}
use esp_nmea_bridge.Config.{Ais, Sta, Ap, System, TcpClient, Config, Ret, ok, error}
use esp_nmea_bridge.Config.Store.{Settings}
use esp_nmea_bridge.Config.Set.Persist.{Saved-unchanged}
use esp_nmea_bridge.Config.Set.Reboot.{set_sta-Saved, set_ap-Saved, set_system-Saved}
use esp_nmea_bridge.Config.Set.Live.{set_tcp_client-Saved, set_ais-Saved}
use esp_nmea_bridge.Config.Set.{
  Outcome, set_ais, set_tcp_client, set_sta, set_ap, set_system, ais_accepted, tcp_accepted,
  sta_accepted, ap_accepted, system_accepted,
}

-- An error leaves the configuration alone and calls nobody.
abbrev pub KeepsOnError : {S : Type 0} → Config → Outcome S → Type 0
KeepsOnError c o = (o.ret ≡ ok) ⊎ ((o.config ≡ c) × (o.notified ≡ false))

-- Either the result is `ok`, or what follows from its being none.
or_ok : {P : Type 0} (r : Ret) → (r ≢ ok → P) → (r ≡ ok) ⊎ P
or_ok ok f = inl refl
or_ok (error e) f = inr (f (λ h. cc))

module _ {S : Type 0} (settings : Settings S) (c : Config) (s : S) where
  sta-failed : (next : Option Sta) → KeepsOnError c (set_sta settings c s next)
  unfolding set_sta
  sta-failed none = inr (refl, refl)
  sta-failed (some next) = elim (Bool-cases (sta_accepted next)) [
    | inl a ↦
        or_ok (set_sta settings c s (some next)).ret
          (Saved-unchanged settings (set_sta-Saved settings c s next a))
    | inr a ↦ rw a (inr (refl, refl))
  ]

  ap-failed : (next : Option Ap) → KeepsOnError c (set_ap settings c s next)
  unfolding set_ap
  ap-failed none = inr (refl, refl)
  ap-failed (some next) = elim (Bool-cases (ap_accepted next)) [
    | inl a ↦
        or_ok (set_ap settings c s (some next)).ret
          (Saved-unchanged settings (set_ap-Saved settings c s next a))
    | inr a ↦ rw a (inr (refl, refl))
  ]

  system-failed : (next : Option System) → KeepsOnError c (set_system settings c s next)
  unfolding set_system
  system-failed none = inr (refl, refl)
  system-failed (some next) = elim (Bool-cases (system_accepted next)) [
    | inl a ↦
        or_ok (set_system settings c s (some next)).ret
          (Saved-unchanged settings (set_system-Saved settings c s next a))
    | inr a ↦ rw a (inr (refl, refl))
  ]

  tcp-failed : (next : Option TcpClient) → KeepsOnError c (set_tcp_client settings c s next)
  unfolding set_tcp_client
  tcp-failed none = inr (refl, refl)
  tcp-failed (some next) = elim (Bool-cases (tcp_accepted next)) [
    | inl a ↦
        or_ok (set_tcp_client settings c s (some next)).ret
          (Saved-unchanged settings (set_tcp_client-Saved settings c s next a))
    | inr a ↦ rw a (inr (refl, refl))
  ]

  ais-failed : (next : Option Ais) → KeepsOnError c (set_ais settings c s next)
  unfolding set_ais
  ais-failed none = inr (refl, refl)
  ais-failed (some next) = elim (Bool-cases (ais_accepted next)) [
    | inl a ↦
        or_ok (set_ais settings c s (some next)).ret
          (Saved-unchanged settings (set_ais-Saved settings c s next a))
    | inr a ↦ rw a (inr (refl, refl))
  ]

  -- Whatever the five setters are given and the settings subsystem answers: a setter returns
  -- success, or it leaves the configuration in memory as it was and does not call the listener.
  pub setters-failed :
      (sta : Option Sta) (ap : Option Ap) (system : Option System) (tcp : Option TcpClient)
      (ais : Option Ais)
      → KeepsOnError c (set_sta settings c s sta)
        × KeepsOnError c (set_ap settings c s ap)
        × KeepsOnError c (set_system settings c s system)
        × KeepsOnError c (set_tcp_client settings c s tcp)
        × KeepsOnError c (set_ais settings c s ais)
  setters-failed sta ap system tcp ais =
      (sta-failed sta, ap-failed ap, system-failed system, tcp-failed tcp, ais-failed ais)
