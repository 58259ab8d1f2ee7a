-- ===== src/Web/Update/Fields.antt =====
-- src/web_app.c: what each field of a configuration request asks of the configuration.
use esp_nmea_bridge.Prelude.{
  ℕ, ◌+◌, ◌%◌, ◌^◌, ◌≡◌, ◌≢◌, ◌⊎◌, refl, ◌∙◌, Bool, true, false, not, ◌||◌, ◌!=◌, bool_differs,
  Option, none, some, [], ◌∷◌, arith, inl, inr, drop, length,
}
use esp_nmea_bridge.Prelude.CString.{
  Bytes, cstr, str_equal, bytes_eq_sound, cstr-append, cstr-NonZero,
}
use esp_nmea_bridge.Config.{Config}
use esp_nmea_bridge.Config.Set.{ais_changed, tcp_changed, sta_changed, ap_changed, system_changed}
use esp_nmea_bridge.Web.Payload.{
  ℤ, pos, negsuc, Payload, given_true, is_text, mmsi_error, port_error, to_u32, strcpy, clear_text,
  or_keep, or_keep_text, merge_psk, merge_sta, merge_ap, merge_system, merge_ais, merge_tcp,
}
use esp_nmea_bridge.Web.Update.Merge.{Checks}
use esp_nmea_bridge.Web.Update.Parts.{Parts}

-- The setting `next` is the flag that the request names, or as it was.
unfoldable pub Flag : Option Bool → Bool → Bool → Type 0
Flag none now next = next ≡ now
Flag (some b) now next = next ≡ b

-- The setting `next` is the number that the request names, in 32 bits, or as it was.
unfoldable pub Number : Option ℤ → ℕ → ℕ → Type 0
Number none now next = next ≡ now
Number (some (pos n)) now next = next ≡ n % 2 ^ 32
Number (some (negsuc n)) now next = ⊥

-- The array `next` holds the text that the request names, or the one that it held.
unfoldable pub Text : Option Bytes → Bytes → Bytes → Type 0
Text none now next = cstr next ≡ cstr now
Text (some s) now next = cstr next ≡ cstr s

-- The array `next` holds no passphrase when the request clears it, else the one that the request
-- names, and as it was when that is blank or not named.
unfoldable pub Passphrase : Option Bool → Option Bytes → Bytes → Bytes → Type 0
Passphrase (some true) psk now next = cstr next ≡ []
Passphrase _ none now next = cstr next ≡ cstr now
Passphrase _ (some psk) now next =
    ((cstr psk ≢ []) × (cstr next ≡ cstr psk)) ⊎ ((cstr psk ≡ []) × (cstr next ≡ cstr now))

-- The configuration `d` is `c` with the fields of the request.
pub record Fields (p : Payload) (c d : Config) : Type 0 where
  pub ais_filter_enabled : Flag p.ais_filter_enabled c.ais.filter_enabled d.ais.filter_enabled
  pub ais_own_mmsi : Number p.ais_own_mmsi c.ais.own_mmsi d.ais.own_mmsi
  pub sta_enabled : Flag p.sta_enabled c.sta.enabled d.sta.enabled
  pub sta_rotate_mac : Flag p.sta_rotate_mac c.sta.rotate_mac d.sta.rotate_mac
  pub sta_ssid : Text p.sta_ssid c.sta.ssid d.sta.ssid
  pub sta_psk : Passphrase p.sta_psk_clear p.sta_psk c.sta.psk d.sta.psk
  pub ap_ssid : Text p.ap_ssid c.ap.ssid d.ap.ssid
  pub ap_psk : Passphrase p.ap_psk_clear p.ap_psk c.ap.psk d.ap.psk
  pub hostname : Text p.hostname c.system_cfg.hostname d.system_cfg.hostname
  pub tcp_client_enabled : Flag p.tcp_client_enabled c.tcp_client.enabled d.tcp_client.enabled
  pub tcp_client_host : Text p.tcp_client_host c.tcp_client.host d.tcp_client.host
  pub tcp_client_port : Number p.tcp_client_port c.tcp_client.port d.tcp_client.port

same_flag : (a b : Bool) → bool_differs a b ≡ false → a ≡ b
same_flag true true h = refl
same_flag false false h = refl
same_flag true false h = cc
same_flag false true h = cc

same_text : (a b : Bytes) → not (str_equal a b) ≡ false → cstr a ≡ cstr b
unfolding str_equal
same_text a b h = bytes_eq_sound (cstr a) (cstr b) (ground (arith, h))

same_number : (a b : ℕ) → (a != b) ≡ false → a ≡ b
same_number a b h = ground arith

or_false : (a b : Bool) → (a || b) ≡ false → (a ≡ false) × (b ≡ false)
or_false a b h = ground arith

or_keep-Flag : (o : Option Bool) (now next : Bool) → next ≡ or_keep o now → Flag o now next
unfolding or_keep Flag
or_keep-Flag none now next h = h
or_keep-Flag (some b) now next h = h

cstr-strcpy : (dst src : Bytes) → cstr (strcpy dst src) ≡ cstr src
unfolding strcpy
cstr-strcpy dst src = cstr-append (cstr src) (drop (length (cstr src) + 1) dst) (cstr-NonZero src)

cstr-clear_text : (dst : Bytes) → cstr (clear_text dst) ≡ []
unfolding clear_text cstr
cstr-clear_text dst = refl

or_keep_text-Text :
    (o : Option Bytes) (now next : Bytes) → cstr next ≡ cstr (or_keep_text o now) → Text o now next
unfolding or_keep_text Text
or_keep_text-Text none now next h = h
or_keep_text-Text (some s) now next h = h ∙ cstr-strcpy now s

is_text-cstr :
    (s : Bytes) → ((is_text s ≡ true) × (cstr s ≢ [])) ⊎ ((is_text s ≡ false) × (cstr s ≡ []))
unfolding cstr
is_text-cstr [] = inr (refl, refl)
is_text-cstr (c ∷ cs) = ground arith

named_psk-Passphrase :
    (clear : Option Bool) (s now next : Bytes)
    → given_true clear ≡ false
    → cstr next ≡ cstr (merge_psk clear (some s) now)
    → ((cstr s ≢ []) × (cstr next ≡ cstr s)) ⊎ ((cstr s ≡ []) × (cstr next ≡ cstr now))
unfolding merge_psk
named_psk-Passphrase clear s now next g h = elim (is_text-cstr s) [
  | inl (t, some_text) ↦ inl (some_text, (rw (g, t) at h) ∙ cstr-strcpy now s)
  | inr (t, no_text) ↦ inr (no_text, (rw (g, t) at h))
]

merge_psk-Passphrase :
    (clear : Option Bool) (o : Option Bytes) (now next : Bytes)
    → cstr next ≡ cstr (merge_psk clear o now)
    → Passphrase clear o now next
unfolding merge_psk Passphrase
merge_psk-Passphrase (some true) none now next h = h ∙ cstr-clear_text now
merge_psk-Passphrase (some true) (some s) now next h = h ∙ cstr-clear_text now
merge_psk-Passphrase (some false) none now next h = h
merge_psk-Passphrase none none now next h = h
merge_psk-Passphrase (some false) (some s) now next h =
    named_psk-Passphrase (some false) s now next refl h
merge_psk-Passphrase none (some s) now next h = named_psk-Passphrase none s now next refl h

own_mmsi-Number :
    (o : Option ℤ) (now next : ℕ)
    → mmsi_error o ≡ none
    → next ≡ elim o [ none ↦ now | some n ↦ to_u32 n ]
    → Number o now next
unfolding Number to_u32 mmsi_error
own_mmsi-Number none now next e h = h
own_mmsi-Number (some (pos n)) now next e h = h
own_mmsi-Number (some (negsuc n)) now next e h = cc

port-Number :
    (o : Option ℤ) (now next : ℕ)
    → port_error o ≡ none
    → next ≡ elim o [ none ↦ now | some n ↦ to_u32 n % 2 ^ 16 ]
    → Number o now next
unfolding Number to_u32 port_error
port-Number none now next e h = h
port-Number (some (pos n)) now next e h = ground arith
port-Number (some (negsuc n)) now next e h = cc

-- Five settings that their setters do not tell from the merged ones.
pub Parts-Fields :
    (p : Payload) (c d : Config) → Checks p → Parts p c true true true true true d → Fields p c d
unfolding ais_changed tcp_changed sta_changed ap_changed system_changed merge_ais merge_tcp
    merge_sta merge_ap merge_system
Parts-Fields p c d checks parts =
    let (filter, mmsi) = or_false _ _ parts.ais in
    let (tcp_rest, host) = or_false _ _ parts.tcp in
    let (tcp_enabled, port) = or_false _ _ tcp_rest in
    let (sta_rest, sta_psk) = or_false _ _ parts.sta in
    let (sta_flags, sta_ssid) = or_false _ _ sta_rest in
    let (sta_enabled, rotate) = or_false _ _ sta_flags in
    let (ap_ssid, ap_psk) = or_false _ _ parts.ap in
    record {
      ais_filter_enabled = or_keep-Flag _ _ _ (same_flag _ _ filter);
      ais_own_mmsi = own_mmsi-Number _ _ _ checks.own_mmsi (same_number _ _ mmsi);
      sta_enabled = or_keep-Flag _ _ _ (same_flag _ _ sta_enabled);
      sta_rotate_mac = or_keep-Flag _ _ _ (same_flag _ _ rotate);
      sta_ssid = or_keep_text-Text _ _ _ (same_text _ _ sta_ssid);
      sta_psk = merge_psk-Passphrase _ _ _ _ (same_text _ _ sta_psk);
      ap_ssid = or_keep_text-Text _ _ _ (same_text _ _ ap_ssid);
      ap_psk = merge_psk-Passphrase _ _ _ _ (same_text _ _ ap_psk);
      hostname = or_keep_text-Text _ _ _ (same_text _ _ parts.system);
      tcp_client_enabled = or_keep-Flag _ _ _ (same_flag _ _ tcp_enabled);
      tcp_client_host = or_keep_text-Text _ _ _ (same_text _ _ host);
      tcp_client_port = port-Number _ _ _ checks.peer_port (same_number _ _ port);
    }
