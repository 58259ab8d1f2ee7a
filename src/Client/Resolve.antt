-- ===== src/Client/Resolve.antt =====
-- `resolve_host` of src/tcp_nmea_client.c: the address that the client connects to. `pton` is
-- `net_addr_pton`.
use esp_nmea_bridge.Prelude.{
  ℕ, ◌≡◌, ◌⊎◌, inl, inr, refl, subst, true, false, not, Option, none, some, ◌==◌, ◌!=◌,
  if◌then◌else◌, if-either, Bool-cases, &&-true, get_or,
}
use esp_nmea_bridge.Prelude.CString.{Bytes, cstr}
use esp_nmea_bridge.Config.{TcpClient}
use esp_nmea_bridge.Wifi.{Net, Wifi, wifi_manager_sta_ready, wifi_manager_get_sta_gateway}

unfoldable pub resolve_host : (Bytes → Option ℕ) → Net → TcpClient → Wifi → Option ℕ × Wifi
resolve_host pton net cfg w =
    let (ready, after) = wifi_manager_sta_ready net w in
    if get_or cfg.host 0 0 != 0
    then (if not ready then none else pton (cstr cfg.host), after)
    else wifi_manager_get_sta_gateway net w

-- An answer with an address needs the station connected with an address of its own.
abbrev Ready : Option ℕ × Wifi → Type 0
Ready (none, w) = Unit
Ready (some a, w) = (w.sta_connected ≡ true) × (w.sta_has_addr ≡ true)

-- The configured host's address, or, without a host, the gateway.
abbrev pub Chosen : (Bytes → Option ℕ) → Net → TcpClient → ℕ → Type 0
Chosen pton net cfg a =
    (((get_or cfg.host 0 0 != 0) ≡ true) × (pton (cstr cfg.host) ≡ some a))
    ⊎ (((get_or cfg.host 0 0 != 0) ≡ false) × (a ≡ net.gateway) × ((a == 0) ≡ false))

abbrev From : (Bytes → Option ℕ) → Net → TcpClient → Option ℕ → Type 0
From pton net cfg none = Unit
From pton net cfg (some a) = Chosen pton net cfg a

abbrev Good : (Bytes → Option ℕ) → Net → TcpClient → Option ℕ × Wifi → Type 0
Good pton net cfg r = Ready r × From pton net cfg r.0

ready-true :
    (net : Net) (w : Wifi)
    → (wifi_manager_sta_ready net w).0 ≡ true
    → ((wifi_manager_sta_ready net w).1.sta_connected ≡ true)
      × ((wifi_manager_sta_ready net w).1.sta_has_addr ≡ true)
unfolding wifi_manager_sta_ready
ready-true net w h = &&-true _ _ h

host-Good :
    (pton : Bytes → Option ℕ) (net : Net) (cfg : TcpClient) (w : Wifi) (o : Option ℕ)
    → (get_or cfg.host 0 0 != 0) ≡ true
    → pton (cstr cfg.host) ≡ o
    → (w.sta_connected ≡ true) × (w.sta_has_addr ≡ true)
    → Good pton net cfg (o, w)
host-Good pton net cfg w none n e r = (tt, tt)
host-Good pton net cfg w (some a) n e r = (r, inl (n, e))

resolve_host-Good :
    (pton : Bytes → Option ℕ) (net : Net) (cfg : TcpClient) (w : Wifi)
    → Good pton net cfg (resolve_host pton net cfg w)
unfolding resolve_host wifi_manager_get_sta_gateway
resolve_host-Good pton net cfg w =
    let after = (wifi_manager_sta_ready net w).1 in
    elim (Bool-cases (wifi_manager_sta_ready net w).0) [
      | inl e ↦
          let r = ready-true net w e in
          rw e (
            if-either (Good pton net cfg) (get_or cfg.host 0 0 != 0)
              (λ n. host-Good pton net cfg after (pton (cstr cfg.host)) n refl r)
              (λ n.
                if-either (λ (o : Option ℕ). Good pton net cfg (o, after)) (net.gateway == 0)
                  (λ _. (tt, tt)) (λ g. (r, inr (n, refl, g)))))
      | inr e ↦
          rw e (
            if-either (Good pton net cfg) (get_or cfg.host 0 0 != 0) (λ _. (tt, tt))
              (λ _. (tt, tt)))
    ]

-- When `resolve_host` gives an address, the station is connected and has an address of its own, and
-- what it gives is the address of the configured host, or, when no host is configured, the gateway of
-- the station's network, which is then not the unspecified address.
pub resolve_host-ready :
    (pton : Bytes → Option ℕ) (net : Net) (cfg : TcpClient) (w : Wifi) (a : ℕ)
    → (resolve_host pton net cfg w).0 ≡ some a
    → ((resolve_host pton net cfg w).1.sta_connected ≡ true)
      × ((resolve_host pton net cfg w).1.sta_has_addr ≡ true)
      × Chosen pton net cfg a
resolve_host-ready pton net cfg w a h =
    let g =
      subst (λ o. Good pton net cfg (o, (resolve_host pton net cfg w).1)) h
        (resolve_host-Good pton net cfg w) in
    (g.0.0, g.0.1, g.1)
