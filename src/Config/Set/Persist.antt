-- ===== src/Config/Set/Persist.antt =====
-- What the common end of the setters leaves behind, in memory and in the store.
use esp_nmea_bridge.Prelude.{ℕ, ◌≡◌, ◌≢◌, refl, ap, Bool, true, false, ◌&&◌, inl, inr, some}
use esp_nmea_bridge.Prelude.CString.{Bytes}
use esp_nmea_bridge.Config.{Config, ok, error, Ret-cases}
use esp_nmea_bridge.Config.Store.{Settings, Key}
use esp_nmea_bridge.Config.Set.{Outcome, save_and_commit}

module _ {S : Type 0} (settings : Settings S) where
  -- What a setter can do behind its guard.
  pub data Saved (c : Config) (s : S) (changed : Bool) (key : Key) (bytes : Bytes) (c' : Config)
      (notify : Bool) (o : Outcome S) : Type 0 where
    same :
        changed ≡ false
        → o ≡ record { ret = ok; config = c; store = s; notified = false }
        → Saved c s changed key bytes c' notify o
    failed :
        (e : ℕ)
        → o.ret ≡ error e
        → o.config ≡ c
        → o.notified ≡ false
        → Saved c s changed key bytes c' notify o
    stored :
        changed ≡ true
        → o.ret ≡ ok
        → o.config ≡ c'
        → settings.value o.store key ≡ some bytes
        → o.notified ≡ (notify && c.listener)
        → Saved c s changed key bytes c' notify o

  pub save_and_commit-Saved :
      (c : Config) (s : S) (changed : Bool) (key : Key) (bytes : Bytes) (commit : Config → Config)
      (notify : Bool)
      → Saved c s changed key bytes
          (commit c)
          notify
          (save_and_commit settings c s changed key bytes commit notify)
  unfolding save_and_commit
  save_and_commit-Saved c s false key bytes commit notify = same refl refl
  save_and_commit-Saved c s true key bytes commit notify =
      elim (Ret-cases (settings.save_one s key bytes).0) [
        | inl e ↦ rw e (stored refl refl refl (settings.save_stores s key bytes e) refl)
        | inr (n, e) ↦ rw e (failed n refl refl refl)
      ]

  module _ {c : Config} {s : S} {changed : Bool} {key : Key} {bytes : Bytes} {c' : Config}
      {notify : Bool} {o : Outcome S} (saved : Saved c s changed key bytes c' notify o) where
    -- A change that was not refused is in the store and in memory.
    pub Saved-stored :
        o.ret ≡ ok
        → changed ≡ true
        → (o.config ≡ c')
          × (settings.value o.store key ≡ some bytes)
          × (o.notified ≡ (notify && c.listener))
    Saved-stored r ch = by_case saved
      where
        by_case :
            Saved c s changed key bytes c' notify o
            → (o.config ≡ c')
              × (settings.value o.store key ≡ some bytes)
              × (o.notified ≡ (notify && c.listener))
        by_case (same e _) = cc
        by_case (failed n e _ _) = cc
        by_case (stored _ _ e v n) = (e, v, n)

    pub Saved-unchanged : o.ret ≢ ok → (o.config ≡ c) × (o.notified ≡ false)
    Saved-unchanged bad = by_case saved
      where
        by_case : Saved c s changed key bytes c' notify o → (o.config ≡ c) × (o.notified ≡ false)
        by_case (same e e') = (ap (λ t. t.config) e', ap (λ t. t.notified) e')
        by_case (failed n _ e e') = (e, e')
        by_case (stored _ e _ _ _) = absurd (bad e)
