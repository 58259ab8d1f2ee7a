-- ===== src/Web/ConfigJson.antt =====
-- `write_config_json` of src/web_app.c: the configuration as the API shows it. `print_u` is what
-- `snprintk` writes for `%u`: the decimal digits, no more than the number has.
mod Tests
use esp_nmea_bridge.Prelude.{
  ℕ, suc, zero, ◌+◌, ◌^◌, ◌≡◌, ◌≤◌, ◌<◌, refl, Bool, true, false, not, List, [], ◌∷◌, ◌++◌, ◌==◌,
  ◌!=◌, if◌then◌else◌, length, get_or, take, concat, length-append, arith, ap, ap₂, Bool-cases, inl,
  inr,
}
use esp_nmea_bridge.Prelude.CString.{Bytes, cstr, strlen}
use esp_nmea_bridge.Prelude.Text.{codes}
use esp_nmea_bridge.Config.{Config, Sta, Ap, ais_mmsi_max}
use esp_nmea_bridge.Web.Json.{json_escape_string, escape_from, escape_from-fits}

-- The size of `body`.
abbrev pub config_json_size : ℕ
config_json_size = 640

unfoldable pub flag : Bool → Bytes
flag b = if b then codes "true" else codes "false"

-- `ssid_json` and `ap_ssid_json`
unfoldable pub ssid_json : Bytes → Bytes
ssid_json ssid = cstr (json_escape_string ssid 65)

-- `psk[0] != '\0'`
unfoldable pub psk_set : Bytes → Bool
psk_set psk = get_or psk 0 0 != 0

module _ (print_u : ℕ → Bytes) where
  -- The pieces of the format with their values, all of them.
  unfoldable pub config_pieces : Config → List Bytes
  config_pieces c =
      codes "{\"ais_filter_enabled\":"
      ∷ flag c.ais.filter_enabled
      ∷ codes ",\"ais_own_mmsi\":"
      ∷ print_u c.ais.own_mmsi
      ∷ codes ",\"sta_enabled\":"
      ∷ flag c.sta.enabled
      ∷ codes ",\"sta_ssid\":\""
      ∷ ssid_json c.sta.ssid
      ∷ codes "\",\"sta_psk_set\":"
      ∷ flag (psk_set c.sta.psk)
      ∷ codes ",\"sta_rotate_mac\":"
      ∷ flag c.sta.rotate_mac
      ∷ codes ",\"ap_ssid\":\""
      ∷ ssid_json c.ap.ssid
      ∷ codes "\",\"ap_psk_set\":"
      ∷ flag (psk_set c.ap.psk)
      ∷ codes ",\"hostname\":\""
      ∷ cstr c.system_cfg.hostname
      ∷ codes "\",\"tcp_client_enabled\":"
      ∷ flag c.tcp_client.enabled
      ∷ codes ",\"tcp_client_host\":\""
      ∷ cstr c.tcp_client.host
      ∷ codes "\",\"tcp_client_port\":"
      ∷ print_u c.tcp_client.port
      ∷ codes ",\"reboot_required\":"
      ∷ flag c.reboot_required
      ∷ codes "}"
      ∷ []

  -- What `snprintk` leaves of them in `body`.
  unfoldable pub write_config_json : Config → Bytes
  write_config_json c = take 639 (concat (config_pieces c))

-- Keys with their values, and the end, of at most the given lengths.
data AtMost : List Bytes → List ℕ → Type 0 where
  end : {p : Bytes} {j : ℕ} → length p ≤ j → AtMost (p ∷ []) (j ∷ [])
  key :
      {p v : Bytes} {j k : ℕ} {ps : List Bytes} {ks : List ℕ}
      → length p ≤ j
      → length v ≤ k
      → AtMost ps ks
      → AtMost (p ∷ v ∷ ps) (j ∷ k ∷ ks)

abbrev sum : List ℕ → ℕ
sum [] = 0
sum (k ∷ ks) = k + sum ks

length-concat : {ps : List Bytes} {ks : List ℕ} → AtMost ps ks → length (concat ps) ≤ sum ks
length-concat (end {p} h) = omega (arith, length-append p [])
length-concat (key {p} {v} {ps = ps} a b t) =
    omega (arith, length-append p (v ++ concat ps), length-append v (concat ps), length-concat t)

take-all : (n : ℕ) (s : Bytes) → length s ≤ n → take n s ≡ s
take-all zero [] h = refl
take-all zero (c ∷ s) h = absurd (omega (arith, h))
take-all (suc n) [] h = refl
take-all (suc n) (c ∷ s) h = ap (λ t. c ∷ t) (take-all n s (omega (arith, h)))

length-flag : (b : Bool) → length (flag b) ≤ 5
unfolding flag
length-flag true = omega arith
length-flag false = omega arith

cstr-before : (s : Bytes) → length (cstr (s ++ 0 ∷ [])) ≤ length s
unfolding cstr
cstr-before [] = omega arith
cstr-before (c ∷ s) = ground (arith, cstr-before s)

length-ssid_json : (ssid : Bytes) → length (ssid_json ssid) ≤ 64
unfolding ssid_json json_escape_string
length-ssid_json ssid = omega (
  arith,
  cstr-before (escape_from 65 0 (cstr ssid)),
  escape_from-fits 65 0 (cstr ssid) (omega arith),
)

-- `snprintk` cuts nothing off: when `%u` writes no more digits than a number has, the identity has at
-- most nine digits, the port is an `uint16_t`, and the hostname and the host fit their arrays, what
-- `write_config_json` sends is the whole object, whatever the two network names are.
pub write_config_json-whole :
    (print_u : ℕ → Bytes)
    → ((n k : ℕ) → 0 < k → n < 10 ^ k → length (print_u n) ≤ k)
    → (c : Config) → c.ais.own_mmsi ≤ ais_mmsi_max
    → c.tcp_client.port < 2 ^ 16
    → strlen c.system_cfg.hostname ≤ 32
    → strlen c.tcp_client.host ≤ 15
    → write_config_json print_u c ≡ concat (config_pieces print_u c)
unfolding write_config_json config_pieces strlen
write_config_json-whole print_u digits c m p hn ht =
    let fits : AtMost (config_pieces print_u c) (
        22 ∷ 5 ∷ 16 ∷ 9 ∷ 15 ∷ 5 ∷ 13 ∷ 64 ∷ 16 ∷ 5 ∷ 18 ∷ 5 ∷ 12 ∷ 64 ∷ 15 ∷ 5 ∷ 13 ∷ 32 ∷ 23 ∷ 5
        ∷ 20 ∷ 15 ∷ 20 ∷ 5 ∷ 19 ∷ 5 ∷ 1 ∷ []) =
      key (omega arith) (length-flag c.ais.filter_enabled) (
        key (omega arith) (digits c.ais.own_mmsi 9 (omega arith) (omega (arith, m))) (
          key (omega arith) (length-flag c.sta.enabled) (
            key (omega arith) (length-ssid_json c.sta.ssid) (
              key (omega arith) (length-flag (psk_set c.sta.psk)) (
                key (omega arith) (length-flag c.sta.rotate_mac) (
                  key (omega arith) (length-ssid_json c.ap.ssid) (
                    key (omega arith) (length-flag (psk_set c.ap.psk)) (
                      key (omega arith) hn (
                        key (omega arith) (length-flag c.tcp_client.enabled) (
                          key (omega arith) ht (
                            key (omega arith)
                              (digits c.tcp_client.port 5 (omega arith) (omega (arith, p)))
                              (key (omega arith) (length-flag c.reboot_required)
                                (end (omega arith)))))))))))))) in
    take-all 639 _ (omega (arith, length-concat fits))

-- The answer shows nothing of the two passphrases but whether each is set: other passphrases that are
-- set in the same way give the same bytes.
pub write_config_json-hides_psk :
    (print_u : ℕ → Bytes) (c : Config) (sta_psk ap_psk : Bytes)
    → psk_set sta_psk ≡ psk_set c.sta.psk
    → psk_set ap_psk ≡ psk_set c.ap.psk
    → write_config_json print_u
        (record c { sta = record (c.sta) { psk = sta_psk }; ap = record (c.ap) { psk = ap_psk } })
      ≡ write_config_json print_u c
unfolding write_config_json config_pieces
write_config_json-hides_psk print_u c sta_psk ap_psk h k = rw (h, k) refl
