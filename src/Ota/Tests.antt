-- ===== src/Ota/Tests.antt =====
-- A flash, and the theorems at uploads to it.
use esp_nmea_bridge.Prelude.{◌≡◌, refl, Bool, true, false, List, [], ◌∷◌, ◌++◌, arith, none, concat}
use esp_nmea_bridge.Prelude.CString.{Bytes}
use esp_nmea_bridge.Config.{ok}
use esp_nmea_bridge.Ota.Flash.{FlashImg}
use esp_nmea_bridge.Ota.{
  boot, init_once, begin, begin_locked, prepare, validate_upload_size,
  configured_limit_or_slot_size, write, write_locked, finish, finish_locked, flush_and_request,
  is_uploading,
}
use esp_nmea_bridge.Ota.Invariant.{Call, IsValid, run_calls, run_calls-IsValid}
use esp_nmea_bridge.Ota.Invariant
use esp_nmea_bridge.Ota.Transfer.{write_all, transfer, Finished, transfer-image}

-- The bytes written and whether an upgrade is requested; every call succeeds.
abbrev pub memory : FlashImg (Bytes × Bool)
memory = record {
  upload_slot = λ f. 1;
  area_open = λ f slot. ok;
  fa_size = λ f slot. 1000;
  erase_img_bank = λ f slot. (ok, ([], false));
  init_id = λ f slot. (ok, ([], false));
  buffered_write = λ f image flush. (ok, (f.0 ++ image, f.1));
  request_upgrade = λ f. (ok, (f.0, true));
  is_img_confirmed = λ f. true;
  write_img_confirmed = λ f. (ok, f);
  written = λ f. f.0;
  is_upgrade_requested = λ f. f.1;
  init_empties = λ f slot h. refl;
  write_appends = λ f image flush h. refl;
  upgrade_keeps = λ f h. refl;
  upgrade_requests = λ f h. refl;
}

abbrev pieces : List Bytes
pieces = (1 ∷ 2 ∷ []) ∷ (3 ∷ []) ∷ []

pieces-ok : (transfer memory 0 3 pieces (boot (9 ∷ [], false))).0 ≡ ok
unfolding transfer boot init_once begin begin_locked prepare validate_upload_size
    configured_limit_or_slot_size write_all write write_locked finish finish_locked
    flush_and_request is_uploading
pieces-ok = refl

transfer-image_example :
    Finished memory 0 3 (concat pieces) (transfer memory 0 3 pieces (boot (9 ∷ [], false))).1
transfer-image_example = transfer-image memory 0 3 pieces (boot (9 ∷ [], false)) pieces-ok

abbrev calls : List Call
calls =
    Invariant.begins 3 (omega arith)
    ∷ Invariant.writes (1 ∷ 2 ∷ []) (omega arith)
    ∷ Invariant.finishes
    ∷ Invariant.aborts none
    ∷ []

run_calls-IsValid_example : IsValid memory 0 (run_calls memory 0 calls (boot (9 ∷ [], false)))
run_calls-IsValid_example = run_calls-IsValid memory 0 calls (9 ∷ [], false)
