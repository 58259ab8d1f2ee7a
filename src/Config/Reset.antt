-- ===== src/Config/Reset.antt =====
-- `bridge_config_factory_reset`: collect stored keys in batches and delete them, until none is left.
-- `name_max` is SETTINGS_MAX_NAME_LEN. A full name fits its slot of the batch: the key has at most
-- `name_max` bytes, and the slot has room for "bridge/" and the terminator besides.
pub mod Pass
pub mod Complete
pub mod Tests
use esp_nmea_bridge.Prelude.{
  ℕ, zero, suc, ◌≡◌, Bool, true, false, not, ◌&&◌, ◌||◌, List, [], ◌∷◌, ◌++◌, Option, none, some,
  ltb, ◌==◌, if◌then◌else◌, length, All,
}
use esp_nmea_bridge.Prelude.CString.{Bytes, bytes_eq}
use esp_nmea_bridge.Config.{Config, Ret, ok, error, enametoolong}

abbrev pub reset_keys_per_pass : ℕ
reset_keys_per_pass = 8

-- "bridge"
abbrev pub subtree : Bytes
subtree = b'b' ∷ b'r' ∷ b'i' ∷ b'd' ∷ b'g' ∷ b'e' ∷ []

-- What `settings_load_subtree_direct` hands to its callback: the key's name below the subtree, or
-- null for a record that is named like the subtree itself.
abbrev pub ResetKey : Type 0
ResetKey = Option Bytes

-- The name that the callback writes: "bridge", or "bridge/%s".
unfoldable pub full_name : ResetKey → Bytes
full_name none = subtree
full_name (some key) = subtree ++ b'/' ∷ key

unfoldable pub key_eq : ResetKey → ResetKey → Bool
key_eq none none = true
key_eq (some a) (some b) = bytes_eq a b
key_eq _ _ = false

unfoldable pub without : ResetKey → List ResetKey → List ResetKey
without k [] = []
without k (x ∷ xs) = if key_eq x k then without k xs else x ∷ without k xs

-- Whether the key is one of the list.
unfoldable pub is_stored : ResetKey → List ResetKey → Bool
is_stored k [] = false
is_stored k (x ∷ xs) = key_eq x k || is_stored k xs

-- The stored keys of the subtree, those of them that `settings_load_subtree_direct` hands to its
-- callback, in its order, and `settings_delete`. An enumeration hands out stored keys, but not all of
-- them where the backend fails to read some, which its result does not tell. A delete that reports
-- success has removed the key and no other.
pub record KeyStore (S : Type 0) : Type 0 where
  pub keys : S → List ResetKey
  pub seen : S → List ResetKey
  pub delete : S → Bytes → Ret × S
  pub seen_stored : (s : S) → All (λ k. is_stored k (keys s) ≡ true) (seen s)
  pub delete_removes :
      (s : S) (k : ResetKey)
      → (delete s (full_name k)).0 ≡ ok
      → keys (delete s (full_name k)).1 ≡ without k (keys s)

-- `struct reset_key_batch`; `count` is the number of names.
pub record Batch : Type 0 where
  pub names : List Bytes
  pub more : Bool
  pub err : Ret

-- `key != NULL && strlen(key) > RESET_KEY_NAME_MAX`
unfoldable pub name_too_long : ℕ → ResetKey → Bool
name_too_long name_max none = false
name_too_long name_max (some key) = ltb name_max (length key)

-- `reset_collect_cb`: the batch, and whether the enumeration goes on (the callback returned 0).
unfoldable pub reset_collect_cb : ℕ → ResetKey → Batch → Batch × Bool
reset_collect_cb name_max key batch =
    if name_too_long name_max key
    then (record batch { err = enametoolong }, false)
    else if length batch.names == reset_keys_per_pass
    then (record batch { more = true }, false)
    else (record batch { names = batch.names ++ full_name key ∷ [] }, true)

-- `settings_load_subtree_direct` with that callback, on the keys that the backend reads.
unfoldable pub enumerate : ℕ → List ResetKey → Batch → Batch
unfolding reset_collect_cb
enumerate name_max [] batch = batch
enumerate name_max (k ∷ ks) batch =
    let (batch', continues) = reset_collect_cb name_max k batch in
    let rest = enumerate name_max ks batch' in if continues then rest else batch'

module _ {S : Type 0} (store : KeyStore S) (name_max : ℕ) where
  -- The loop that deletes a batch: the result, whether a key was deleted, and the store.
  unfoldable pub delete_batch : List Bytes → S → Ret × Bool × S
  delete_batch [] s = (ok, false, s)
  delete_batch (n ∷ ns) s =
      let (ret, s') = store.delete s n in
      let (ret', any, s'') = delete_batch ns s' in
      elim ret [ error e ↦ (error e, false, s') | ok ↦ (ret', true, s'') ]

  -- The batch that a pass collects.
  unfoldable pub collect : S → Batch
  collect s = enumerate name_max (store.seen s) (record { names = []; more = false; err = ok })

  -- `if (ret == 0 && batch.err != 0)`
  unfoldable pub or_err : Ret → Ret → Ret
  or_err ok err = err
  or_err (error e) err = error e

  -- The `do` loop: the result, `any_deleted`, and the store. Every pass but the last deletes a
  -- stored key, so more passes than there are keys are enough; `none` means that they were not.
  unfoldable pub reset_loop : ℕ → Bool → S → Option (Ret × Bool × S)
  unfolding or_err
  reset_loop zero any_deleted s = none
  reset_loop (suc passes) any_deleted s =
      let batch = collect s in
      let (deleted, any, s') = delete_batch batch.names s in
      let ret = or_err deleted batch.err in
      let rest = reset_loop passes (any_deleted || any) s' in
      elim ret [
        | error e ↦ some (error e, any_deleted || any, s')
        | ok ↦ if batch.more then rest else some (ok, any_deleted || any, s')
      ]

  -- The end of `bridge_config_factory_reset`: the sticky flags.
  unfoldable pub mark_reset : Config → Ret → Bool → Config
  mark_reset c ok any_deleted = record c { reboot_required = true; factory_reset_pending = true }
  mark_reset c (error e) any_deleted =
      if any_deleted then record c { reboot_required = true; factory_reset_pending = true } else c

  unfoldable pub factory_reset : Config → S → Option (Ret × Config × S)
  unfolding mark_reset
  factory_reset c s = elim (reset_loop (suc (length (store.keys s))) false s) [
    | none ↦ none
    | some (ret, any_deleted, s') ↦ some (ret, mark_reset c ret any_deleted, s')
  ]
