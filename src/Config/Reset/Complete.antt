-- ===== src/Config/Reset/Complete.antt =====
-- `bridge_config_factory_reset` returns, and what it leaves when it reports success.
use esp_nmea_bridge.Prelude.{
  ℕ, zero, suc, ◌≡◌, refl, ap, sym, ◌∙◌, ◌<◌, Bool, true, false, ◌||◌, inl, inr, List, [], ◌∷◌,
  ◌++◌, some, length, append-nil, arith, Bool-cases, subst, All,
}
use esp_nmea_bridge.Prelude.CString.{Bytes}
use esp_nmea_bridge.Config.{Config, Ret, ok, error, Ret-cases}
use esp_nmea_bridge.Config.Reset.{
  ResetKey, is_stored, KeyStore, delete_batch, collect, reset_loop, mark_reset, factory_reset,
}
use esp_nmea_bridge.Config.Reset.Pass.{
  Collected, enumerate-Collected, names_of, remove_all, remove_all_self, remove_all-fewer,
  delete_batch-keys,
}

module _ {S : Type 0} (store : KeyStore S) (name_max : ℕ) where
  deleted :
      (s : S) (names : List Bytes) (pre : List ResetKey)
      → names ≡ names_of pre
      → (delete_batch store name_max names s).0 ≡ ok
      → store.keys (delete_batch store name_max names s).2 ≡ remove_all pre (store.keys s)
  deleted s names pre n =
      subst
        (λ ns.
          (delete_batch store name_max ns s).0 ≡ ok
          → store.keys (delete_batch store name_max ns s).2 ≡ remove_all pre (store.keys s))
        (sym n) (delete_batch-keys store name_max pre s)

  collect-Collected : (s : S) → Collected [] (store.seen s) (collect store name_max s)
  unfolding collect
  collect-Collected s =
      enumerate-Collected name_max (store.seen s) (record { names = []; more = false; err = ok })
        refl

  -- What a reset that reports success leaves: with `last` the store at its last enumeration, the keys
  -- of then without those that it handed out, and so none when it handed out every key.
  pub record Cleared (s : S) : Type 0 where
    pub last : S
    pub left : store.keys s ≡ remove_all (store.seen last) (store.keys last)
    pub none_left : store.seen last ≡ store.keys last → store.keys s ≡ []

  -- The last pass collected every key that was handed out.
  pass-Cleared :
      (s : S) (names : List Bytes) (pre post : List ResetKey)
      → names ≡ names_of pre
      → store.seen s ≡ pre ++ post
      → post ≡ []
      → (delete_batch store name_max names s).0 ≡ ok
      → Cleared (delete_batch store name_max names s).2
  pass-Cleared s names pre post n k p h =
      let all : store.seen s ≡ pre = k ∙ ap (λ ks. pre ++ ks) p ∙ append-nil pre in
      let left = deleted s names pre n h ∙ ap (λ js. remove_all js (store.keys s)) (sym all) in
      record {
        last = s;
        left = left;
        none_left = λ e. left ∙ ap (remove_all (store.seen s)) (sym e) ∙ remove_all_self _;
      }

  first-stored :
      (s : S) (j : ResetKey) (js : List ResetKey)
      → store.seen s ≡ j ∷ js
      → is_stored j (store.keys s) ≡ true
  first-stored s j js e =
      (subst (λ ks. All (λ k. is_stored k (store.keys s) ≡ true) ks) e (store.seen_stored s)).0

  -- A pass that found more keys than fit has deleted at least one.
  pass-shrinks :
      (s : S) (names : List Bytes) (pre post : List ResetKey)
      → names ≡ names_of pre
      → store.seen s ≡ pre ++ post
      → length names ≡ 8
      → (delete_batch store name_max names s).0 ≡ ok
      → length (store.keys (delete_batch store name_max names s).2) < length (store.keys s)
  unfolding names_of
  pass-shrinks s names [] post n k l h =
      let none_collected : length names ≡ 0 = ap length n in absurd (omega arith)
  pass-shrinks s names (j ∷ js) post n k l h =
      let fewer = remove_all-fewer j js (store.keys s) (first-stored s j (js ++ post) k) in
      rw (deleted s names (j ∷ js) n h) fewer

  reset_loop-returns :
      (passes : ℕ) (any : Bool) (s : S)
      → length (store.keys s) < passes
      → (r : Ret × Bool × S) × ((reset_loop store name_max passes any s ≡ some r)
          × (r.0 ≡ ok → Cleared r.2))
  unfolding reset_loop
  reset_loop-returns zero any s lt = absurd (omega arith)
  reset_loop-returns (suc passes) any s lt =
      let b = collect store name_max s in
      let c = collect-Collected s in
      let d = delete_batch store name_max b.names s in
      elim (Ret-cases d.0) [
        | inr (x, e) ↦ rw (reset_loop, e) (_, (refl, λ h. cc))
        | inl e ↦ elim (Ret-cases b.err) [
          | inr (x, e') ↦ rw (reset_loop, e, e') (_, (refl, λ h. cc))
          | inl e' ↦ elim (Bool-cases b.more) [
            | inl m ↦
                let fewer = pass-shrinks s b.names c.pre c.post c.names_eq c.split (c.full m) e in
                rw (reset_loop, e, e', m) (reset_loop-returns passes (any || d.1) d.2 (omega arith))
            | inr m ↦
                rw (reset_loop, e, e', m)
                  (
                    _,
                    (
                      refl,
                      λ _. pass-Cleared s b.names c.pre c.post c.names_eq c.split (c.done e' m) e,
                    ),
                  )
          ]
        ]
      ]

  mark_reset-ok :
      (c : Config) (ret : Ret) (any : Bool)
      → ret ≡ ok
      → ((mark_reset store name_max c ret any).reboot_required ≡ true)
        × ((mark_reset store name_max c ret any).factory_reset_pending ≡ true)
  unfolding mark_reset
  mark_reset-ok c ok any h = (refl, refl)
  mark_reset-ok c (error e) any h = cc

  unfoldable pub SameSettings : Config → Config → Type 0
  SameSettings c d =
      (d.ais ≡ c.ais)
      × ((d.sta ≡ c.sta)
          × ((d.ap ≡ c.ap) × ((d.system_cfg ≡ c.system_cfg) × (d.tcp_client ≡ c.tcp_client))))

  mark_reset-kept :
      (c : Config) (ret : Ret) (any : Bool) → SameSettings c (mark_reset store name_max c ret any)
  unfolding mark_reset SameSettings
  mark_reset-kept c ok any = (refl, (refl, (refl, (refl, refl))))
  mark_reset-kept c (error e) true = (refl, (refl, (refl, (refl, refl))))
  mark_reset-kept c (error e) false = (refl, (refl, (refl, (refl, refl))))

  pub factory_reset_complete :
      (c : Config) (s : S)
      → (ret : Ret) × (c' : Config) × (s' : S) × ((factory_reset store name_max c s
            ≡ some (ret, c', s'))
          × ((ret ≡ ok
                → Cleared s' × ((c'.reboot_required ≡ true) × (c'.factory_reset_pending ≡ true)))
              × SameSettings c c'))
  unfolding factory_reset
  factory_reset_complete c s =
      let ((ret, any, s'), (e, done)) =
        reset_loop-returns (suc (length (store.keys s))) false s (omega arith) in
      rw (factory_reset, e)
        (
          ret,
          mark_reset store name_max c ret any,
          s',
          (refl, (λ r. (done r, mark_reset-ok c ret any r), mark_reset-kept c ret any)),
        )
