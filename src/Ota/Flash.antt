-- ===== src/Ota/Flash.antt =====
-- What ota_update.c uses of Zephyr's flash_img, flash_map and MCUboot interfaces.
use esp_nmea_bridge.Prelude.{ℕ, ◌≡◌, Bool, true, [], ◌++◌}
use esp_nmea_bridge.Prelude.CString.{Bytes}
use esp_nmea_bridge.Config.{Ret, ok}

-- The calls, and two things to see of the flash: `written`, the bytes that the writer took since it
-- was initialized, and `is_upgrade_requested`, whether the slot asks the boot loader for its image. A
-- call that reports success starts the image, takes the data behind what it took before, or marks
-- the slot.
pub record FlashImg (F : Type 0) : Type 0 where
  pub upload_slot : F → ℕ
  pub area_open : F → ℕ → Ret
  pub fa_size : F → ℕ → ℕ
  pub erase_img_bank : F → ℕ → Ret × F
  pub init_id : F → ℕ → Ret × F
  pub buffered_write : F → Bytes → Bool → Ret × F
  pub request_upgrade : F → Ret × F
  pub is_img_confirmed : F → Bool
  pub write_img_confirmed : F → Ret × F
  pub written : F → Bytes
  pub is_upgrade_requested : F → Bool
  pub init_empties : (f : F) (slot : ℕ) → (init_id f slot).0 ≡ ok → written (init_id f slot).1 ≡ []
  pub write_appends :
      (f : F) (image : Bytes) (flush : Bool)
      → (buffered_write f image flush).0 ≡ ok
      → written (buffered_write f image flush).1 ≡ written f ++ image
  pub upgrade_keeps :
      (f : F) → (request_upgrade f).0 ≡ ok → written (request_upgrade f).1 ≡ written f
  pub upgrade_requests :
      (f : F) → (request_upgrade f).0 ≡ ok → is_upgrade_requested (request_upgrade f).1 ≡ true
