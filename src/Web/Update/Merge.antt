-- ===== src/Web/Update/Merge.antt =====
-- src/web_app.c: a checked request merged into accepted settings gives accepted settings.
use Prim.Native.String.{String}
use esp_nmea_bridge.Prelude.{
  ℕ, zero, suc, ◌+◌, ◌%◌, ◌^◌, ◌≤◌, ◌<◌, ◌≡◌, refl, Bool, true, false, Option, none, some, List, [],
  ◌∷◌, ◌++◌, arith, ◌==◌, length, drop, Bool-cases, inl, inr, length-append,
}
use esp_nmea_bridge.Prelude.CString.{Bytes, cstr, strlen, terminated, cstr-append, cstr-NonZero}
use esp_nmea_bridge.Config.{Config}
use esp_nmea_bridge.Config.Valid.{text_valid, hostname_valid, tcp_client_host_valid}
use esp_nmea_bridge.Config.Record.{bad_psk_len}
use esp_nmea_bridge.Config.Set.{ais_accepted}
use esp_nmea_bridge.Web.Reply.{Reply}
use esp_nmea_bridge.Web.Payload.{
  ℤ, Payload, pos, negsuc, to_u32, given_true, is_text, mmsi_error, ssid_error, psk_error,
  hostname_error, host_error, port_error, first_error, validate, strcpy, clear_text, or_keep_text,
  merge_psk,
}

-- An array of `w` bytes that holds a text with the property `P`.
pub record Holds (w : ℕ) (P : Bytes → Type 0) (s : Bytes) : Type 0 where
  pub size : length s ≡ w
  pub ends : terminated s ≡ true
  pub says : P (cstr s)

terminated-append : (s t : Bytes) → terminated (s ++ 0 ∷ t) ≡ true
unfolding terminated
terminated-append [] t = refl
terminated-append (c ∷ cs) t = ground (arith, terminated-append cs t)

length-drop : (n : ℕ) (s : Bytes) → n ≤ length s → n + length (drop n s) ≡ length s
length-drop zero s h = omega arith
length-drop (suc n) [] h = absurd (omega arith)
length-drop (suc n) (x ∷ s) h = omega (arith, length-drop n s (omega arith))

strcpy-Holds :
    (w : ℕ) (P : Bytes → Type 0) (dst src : Bytes)
    → length dst ≡ w
    → strlen src < w
    → P (cstr src)
    → Holds w P (strcpy dst src)
unfolding strcpy strlen
strcpy-Holds w P dst src size lt p = record {
  size = omega (
    arith,
    length-append (cstr src) (0 ∷ drop (length (cstr src) + 1) dst),
    length-drop (length (cstr src) + 1) dst (omega arith),
  );
  ends = terminated-append (cstr src) _;
  says = rw (cstr-append (cstr src) (drop (length (cstr src) + 1) dst) (cstr-NonZero src)) p;
}

clear_text-Holds :
    (w : ℕ) (P : Bytes → Type 0) (dst : Bytes)
    → length dst ≡ w
    → 0 < w
    → P []
    → Holds w P (clear_text dst)
unfolding clear_text terminated cstr
clear_text-Holds w P [] size lt p = absurd (omega arith)
clear_text-Holds w P (x ∷ dst) size lt p = record { size = size; ends = refl; says = p }

-- What the checks establish.
first_error-none :
    (check : Option Reply) (checks : List (Option Reply))
    → first_error (check ∷ checks) ≡ none
    → (check ≡ none) × (first_error checks ≡ none)
unfolding first_error
first_error-none none checks h = (refl, h)
first_error-none (some r) checks h = cc

pub mmsi_error-facts : (n : ℤ) → mmsi_error (some n) ≡ none → to_u32 n ≤ 999999999
unfolding mmsi_error to_u32
mmsi_error-facts (pos n) h = ground arith
mmsi_error-facts (negsuc n) h = cc

pub ssid_error-facts :
    (field : String) (s : Bytes)
    → ssid_error field (some s) ≡ none
    → (strlen s < 33) × ((text_valid (cstr s) ≡ true) × (0 < strlen s))
unfolding ssid_error
ssid_error-facts field s h = ground arith

psk_error-facts :
    (field : String) (s : Bytes) → psk_error field (some s) ≡ none → bad_psk_len (strlen s) ≡ false
unfolding psk_error
psk_error-facts field s h = elim (Bool-cases (bad_psk_len (strlen s))) [
  | inl e ↦ cc (rw e at h)
  | inr e ↦ e
]

pub hostname_error-facts :
    (s : Bytes)
    → hostname_error (some s) ≡ none
    → (strlen s < 33) × (hostname_valid (cstr s) ≡ true)
unfolding hostname_error
hostname_error-facts s h = ground arith

pub host_error-facts :
    (s : Bytes)
    → host_error (some s) ≡ none
    → (strlen s < 16) × (tcp_client_host_valid (cstr s) ≡ true)
unfolding host_error
host_error-facts s h = ground arith

pub port_error-facts : (n : ℤ) → port_error (some n) ≡ none → (to_u32 n % 2 ^ 16 == 0) ≡ false
unfolding port_error to_u32
port_error-facts (pos n) h = ground arith
port_error-facts (negsuc n) h = cc

-- What a configuration in memory always is.
pub record WellFormed (c : Config) : Type 0 where
  pub mmsi : ais_accepted c.ais ≡ true
  pub host : Holds 16 (λ s. tcp_client_host_valid s ≡ true) c.tcp_client.host
  pub port : (c.tcp_client.port == 0) ≡ false
  pub sta_ssid : Holds 33 (λ s. text_valid s ≡ true) c.sta.ssid
  pub sta_psk : Holds 64 (λ s. bad_psk_len (length s) ≡ false) c.sta.psk
  pub ap_ssid : Holds 33 (λ s. (text_valid s ≡ true) × (0 < length s)) c.ap.ssid
  pub ap_psk : Holds 64 (λ s. bad_psk_len (length s) ≡ false) c.ap.psk
  pub hostname : Holds 33 (λ s. hostname_valid s ≡ true) c.system_cfg.hostname

pub or_keep_text-Holds :
    (w : ℕ) (P : Bytes → Type 0) (next : Option Bytes) (now : Bytes)
    → Holds w P now
    → ((s : Bytes) → next ≡ some s → (strlen s < w) × P (cstr s))
    → Holds w P (or_keep_text next now)
unfolding or_keep_text
or_keep_text-Holds w P none now h f = h
or_keep_text-Holds w P (some s) now h f =
    let (lt, p) = f s refl in strcpy-Holds w P now s h.size lt p

psk_small : (n : ℕ) → bad_psk_len n ≡ false → n < 64
psk_small n h = ground arith

pub merge_psk-Holds :
    (field : String) (clear : Option Bool) (psk : Option Bytes) (now : Bytes)
    → Holds 64 (λ s. bad_psk_len (length s) ≡ false) now
    → psk_error field psk ≡ none
    → Holds 64 (λ s. bad_psk_len (length s) ≡ false) (merge_psk clear psk now)
unfolding merge_psk strlen
merge_psk-Holds field clear none now h e = elim (Bool-cases (given_true clear)) [
  | inl g ↦ rw g (clear_text-Holds 64 _ now h.size (omega arith) refl)
  | inr g ↦ rw g h
]
merge_psk-Holds field clear (some s) now h e =
    let fine = psk_error-facts field s e in
    elim (Bool-cases (given_true clear)) [
      | inl g ↦ rw g (clear_text-Holds 64 _ now h.size (omega arith) refl)
      | inr g ↦ elim (Bool-cases (is_text s)) [
        | inr t ↦ rw (g, t) h
        | inl t ↦ rw (g, t) (strcpy-Holds 64 _ now s h.size (psk_small (strlen s) fine) fine)
      ]
    ]

-- The checks of a payload passed.
pub record Checks (p : Payload) : Type 0 where
  pub own_mmsi : mmsi_error p.ais_own_mmsi ≡ none
  pub sta_name : ssid_error "sta_ssid" p.sta_ssid ≡ none
  pub sta_key : psk_error "sta_psk" p.sta_psk ≡ none
  pub ap_name : ssid_error "ap_ssid" p.ap_ssid ≡ none
  pub ap_key : psk_error "ap_psk" p.ap_psk ≡ none
  pub name : hostname_error p.hostname ≡ none
  pub peer : host_error p.tcp_client_host ≡ none
  pub peer_port : port_error p.tcp_client_port ≡ none

pub validate-Checks : (p : Payload) → validate p ≡ none → Checks p
unfolding validate
validate-Checks p h =
    let (a, h1) = first_error-none _ _ h in
    let (b, h2) = first_error-none _ _ h1 in
    let (c, h3) = first_error-none _ _ h2 in
    let (_, h4) = first_error-none _ _ h3 in
    let (d, h5) = first_error-none _ _ h4 in
    let (e, h6) = first_error-none _ _ h5 in
    let (_, h7) = first_error-none _ _ h6 in
    let (f, h8) = first_error-none _ _ h7 in
    let (g, h9) = first_error-none _ _ h8 in
    let (i, _) = first_error-none _ _ h9 in
    record {
      own_mmsi = a;
      sta_name = b;
      sta_key = c;
      ap_name = d;
      ap_key = e;
      name = f;
      peer = g;
      peer_port = i;
    }
