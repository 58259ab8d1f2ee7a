-- ===== src/Config/Reset/Tests.antt =====
-- A key store, and a reset of two keys.
use esp_nmea_bridge.Prelude.{
  ◌≡◌, refl, ap, true, false, List, All, [], ◌∷◌, none, some, if◌then◌else◌, replicate,
}
use esp_nmea_bridge.Prelude.CString.{Bytes, bytes_eq}
use esp_nmea_bridge.Config.{Config, ok}
use esp_nmea_bridge.Config.Reset.{ResetKey, KeyStore, full_name, key_eq, without, is_stored}
use esp_nmea_bridge.Config.Reset.Pass.{key_eq_refl, or_inl, or_inr}

full_name-eq : (x k : ResetKey) → bytes_eq (full_name x) (full_name k) ≡ key_eq x k
unfolding full_name bytes_eq key_eq
full_name-eq none none = refl
full_name-eq none (some b) = refl
full_name-eq (some a) none = refl
full_name-eq (some a) (some b) = refl

abbrev pub delete_name : List ResetKey → Bytes → List ResetKey
delete_name [] n = []
delete_name (x ∷ xs) n = if bytes_eq (full_name x) n then delete_name xs n else x ∷ delete_name xs n

pub delete_name-without :
    (xs : List ResetKey) (k : ResetKey) → delete_name xs (full_name k) ≡ without k xs
unfolding without
delete_name-without [] k = refl
delete_name-without (x ∷ xs) k =
    rw (full_name-eq x k) (ap (λ ys. if key_eq x k then ys else x ∷ ys) (delete_name-without xs k))

is_stored-later :
    (ks js : List ResetKey) (j : ResetKey)
    → All (λ k. is_stored k js ≡ true) ks
    → All (λ k. is_stored k (j ∷ js) ≡ true) ks
unfolding is_stored
is_stored-later [] js j h = tt
is_stored-later (k ∷ ks) js j (h, hs) =
    (or_inr (key_eq j k) (is_stored k js) h, is_stored-later ks js j hs)

pub All-is_stored : (ks : List ResetKey) → All (λ k. is_stored k ks ≡ true) ks
unfolding is_stored
All-is_stored [] = tt
All-is_stored (k ∷ ks) = (or_inl _ _ (key_eq_refl k), is_stored-later ks ks k (All-is_stored ks))

abbrev pub memory : KeyStore (List ResetKey)
memory = record {
  keys = λ s. s;
  seen = λ s. s;
  seen_stored = All-is_stored;
  delete = λ s n. (ok, delete_name s n);
  delete_removes = λ s k h. delete_name-without s k;
}

abbrev pub stored : List ResetKey
stored = some (97 ∷ []) ∷ none ∷ []

abbrev config : Config
config = record {
  ais = record { filter_enabled = false; own_mmsi = 0 };
  sta = record { enabled = false; rotate_mac = false; ssid = replicate 33 0; psk = replicate 64 0 };
  ap = record { ssid = 97 ∷ replicate 32 0; psk = replicate 64 0 };
  system_cfg = record { hostname = 97 ∷ replicate 32 0 };
  tcp_client = record { enabled = false; host = replicate 16 0; port = 10110 };
  reboot_required = false;
  factory_reset_pending = false;
  listener = false;
}
