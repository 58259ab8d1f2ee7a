-- ===== src/Config/Store.antt =====
-- What bridge_config.c uses of Zephyr's settings subsystem, below its own subtree "bridge".
use esp_nmea_bridge.Prelude.{◌≡◌, ◌≢◌, Option, none, some}
use esp_nmea_bridge.Prelude.CString.{Bytes}
use esp_nmea_bridge.Config.{Ret, ok}

-- The keys that the program stores, and any other name that the store may hold.
pub data Key : Type 0 where
  ais sta tcp ap sys : Key
  other : Bytes → Key

-- `settings_save_one`, `settings_delete`, and what `settings_load_subtree` and
-- `settings_load_subtree_direct` enumerate: the stored keys with their values. A save that reports
-- success has stored the value and changed no other key; a delete that does has removed the key.
pub record Settings (S : Type 0) : Type 0 where
  pub save_one : S → Key → Bytes → Ret × S
  pub delete : S → Key → Ret × S
  pub value : S → Key → Option Bytes
  pub save_stores :
      (s : S) (k : Key) (v : Bytes) → (save_one s k v).0 ≡ ok → value (save_one s k v).1 k ≡ some v
  pub save_others :
      (s : S) (k j : Key) (v : Bytes)
      → (save_one s k v).0 ≡ ok
      → k ≢ j
      → value (save_one s k v).1 j ≡ value s j
  pub delete_removes : (s : S) (k : Key) → (delete s k).0 ≡ ok → value (delete s k).1 k ≡ none
  pub delete_others :
      (s : S) (k j : Key) → (delete s k).0 ≡ ok → k ≢ j → value (delete s k).1 j ≡ value s j
