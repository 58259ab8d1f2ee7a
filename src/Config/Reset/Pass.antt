-- ===== src/Config/Reset/Pass.antt =====
-- One pass of `bridge_config_factory_reset`: what is collected, and what deleting it leaves.
use esp_nmea_bridge.Prelude.{
  ℕ, ◌≡◌, refl, ap, sym, ◌∙◌, ◌≤◌, ◌<◌, Bool, true, false, ◌||◌, inl, inr, List, [], ◌∷◌, ◌++◌,
  none, some, ◌==◌, length, All, arith, Bool-cases, append-nil, append_assoc, ==_iff,
}
use esp_nmea_bridge.Prelude.CString.{Bytes, bytes_eq_refl}
use esp_nmea_bridge.Config.{ok, Ret-cases}
use esp_nmea_bridge.Config.Reset.{
  ResetKey, full_name, key_eq, without, is_stored, KeyStore, Batch, name_too_long, reset_collect_cb,
  enumerate, delete_batch, reset_keys_per_pass,
}

unfoldable pub names_of : List ResetKey → List Bytes
names_of [] = []
names_of (k ∷ ks) = full_name k ∷ names_of ks

names_of-append : (ks js : List ResetKey) → names_of (ks ++ js) ≡ names_of ks ++ names_of js
unfolding names_of
names_of-append [] js = refl
names_of-append (k ∷ ks) js = ap (λ ns. full_name k ∷ ns) (names_of-append ks js)

-- The keys that are left when those of the first list are deleted.
pub remove_all : List ResetKey → List ResetKey → List ResetKey
remove_all [] ks = ks
remove_all (j ∷ js) ks = remove_all js (without j ks)

pub key_eq_refl : (k : ResetKey) → key_eq k k ≡ true
unfolding key_eq
key_eq_refl none = refl
key_eq_refl (some key) = bytes_eq_refl key

is_among : ResetKey → List ResetKey → Bool
is_among k [] = false
is_among k (j ∷ js) = key_eq k j || is_among k js

or_right : (a b : Bool) → (a || b) ≡ true → a ≡ false → b ≡ true
or_right a b h e = ground arith

pub or_inl : (a b : Bool) → a ≡ true → (a || b) ≡ true
or_inl a b e = ground arith

pub or_inr : (a b : Bool) → b ≡ true → (a || b) ≡ true
or_inr a b e = ground arith

All-without :
    (P : ResetKey → Bool) (j : ResetKey) (ks : List ResetKey)
    → All (λ k. (key_eq k j || P k) ≡ true) ks
    → All (λ k. P k ≡ true) (without j ks)
unfolding without
All-without P j [] h = tt
All-without P j (k ∷ ks) (h, hs) = elim (Bool-cases (key_eq k j)) [
  | inl e ↦ rw (without, e) (All-without P j ks hs)
  | inr e ↦ rw (without, e) (or_right _ _ h e, All-without P j ks hs)
]

remove_all-among :
    (js ks : List ResetKey) → All (λ k. is_among k js ≡ true) ks → remove_all js ks ≡ []
unfolding remove_all is_among
remove_all-among [] [] h = refl
remove_all-among [] (k ∷ ks) (h, _) = cc
remove_all-among (j ∷ js) ks h =
    remove_all-among js (without j ks) (All-without (λ k. is_among k js) j ks h)

All-map :
    (P Q : ResetKey → Bool) (ks : List ResetKey)
    → ((k : ResetKey) → P k ≡ true → Q k ≡ true)
    → All (λ k. P k ≡ true) ks
    → All (λ k. Q k ≡ true) ks
All-map P Q [] f h = tt
All-map P Q (k ∷ ks) f (h, hs) = (f k h, All-map P Q ks f hs)

All-among : (ks : List ResetKey) → All (λ k. is_among k ks ≡ true) ks
unfolding is_among
All-among [] = tt
All-among (k ∷ ks) = (
  or_inl _ _ (key_eq_refl k),
  All-map (λ j. is_among j ks) (λ j. is_among j (k ∷ ks)) ks (λ j. or_inr _ _) (All-among ks),
)

pub remove_all_self : (ks : List ResetKey) → remove_all ks ks ≡ []
remove_all_self ks = remove_all-among ks ks (All-among ks)

length-without : (j : ResetKey) (ks : List ResetKey) → length (without j ks) ≤ length ks
unfolding without
length-without j [] = omega arith
length-without j (k ∷ ks) =
    let ih = length-without j ks in
    elim (Bool-cases (key_eq k j)) [
      | inl e ↦ rw (without, e) (omega arith)
      | inr e ↦ rw (without, e) (omega arith)
    ]

pub length-remove_all : (js ks : List ResetKey) → length (remove_all js ks) ≤ length ks
unfolding remove_all
length-remove_all [] ks = omega arith
length-remove_all (j ∷ js) ks =
    let ih = length-remove_all js (without j ks) in let one = length-without j ks in omega arith

without-fewer :
    (j : ResetKey) (ks : List ResetKey) → is_stored j ks ≡ true → length (without j ks) < length ks
unfolding without is_stored
without-fewer j [] h = cc
without-fewer j (k ∷ ks) h = elim (Bool-cases (key_eq k j)) [
  | inl e ↦ let b = length-without j ks in rw (without, e) (omega arith)
  | inr e ↦ let ih = without-fewer j ks (or_right _ _ h e) in rw (without, e) (omega arith)
]

-- Removing a stored key and others leaves fewer.
pub remove_all-fewer :
    (k : ResetKey) (js ks : List ResetKey)
    → is_stored k ks ≡ true
    → length (remove_all (k ∷ js) ks) < length ks
unfolding remove_all
remove_all-fewer k js ks h =
    let a = length-remove_all js (without k ks) in let b = without-fewer k ks h in omega arith

-- What a pass has collected from the enumeration of `ks`: the keys `pre`, and `post` is left.
pub record Collected (start : List Bytes) (ks : List ResetKey) (b : Batch) : Type 0 where
  pub pre : List ResetKey
  pub post : List ResetKey
  pub split : ks ≡ pre ++ post
  pub names_eq : b.names ≡ start ++ names_of pre
  pub full : b.more ≡ true → length b.names ≡ reset_keys_per_pass
  pub done : b.err ≡ ok → b.more ≡ false → post ≡ []

pub enumerate-Collected :
    (name_max : ℕ) (ks : List ResetKey) (b : Batch)
    → b.more ≡ false
    → Collected b.names ks (enumerate name_max ks b)
unfolding enumerate names_of reset_collect_cb
enumerate-Collected name_max [] b m = record {
  pre = [];
  post = [];
  split = refl;
  names_eq = sym (append-nil b.names);
  full = λ h. cc;
  done = λ _ _. refl;
}
enumerate-Collected name_max (k ∷ ks) b m = elim (Bool-cases (name_too_long name_max k)) [
  | inl e ↦
      rw (enumerate, reset_collect_cb, e)
        (record {
          pre = [];
          post = k ∷ ks;
          split = refl;
          names_eq = sym (append-nil b.names);
          full = λ h. cc;
          done = λ h _. cc;
        })
  | inr e ↦ elim (Bool-cases (length b.names == reset_keys_per_pass)) [
    | inl f ↦
        rw (enumerate, reset_collect_cb, e, f)
          (record {
            pre = [];
            post = k ∷ ks;
            split = refl;
            names_eq = sym (append-nil b.names);
            full = λ _. (==_iff _ _).0 f;
            done = λ _ h. cc;
          })
    | inr f ↦
        let b' = record b { names = b.names ++ full_name k ∷ [] } in
        let c = enumerate-Collected name_max ks b' m in
        rw (enumerate, reset_collect_cb, e, f)
          (record {
            pre = k ∷ c.pre;
            post = c.post;
            split = ap (λ ks'. k ∷ ks') c.split;
            names_eq = c.names_eq ∙ append_assoc b.names (full_name k ∷ []) (names_of c.pre);
            full = c.full;
            done = c.done;
          })
  ]
]

module _ {S : Type 0} (store : KeyStore S) (name_max : ℕ) where
  -- A batch that is deleted without an error.
  pub delete_batch-keys :
      (js : List ResetKey) (s : S)
      → (delete_batch store name_max (names_of js) s).0 ≡ ok
      → store.keys (delete_batch store name_max (names_of js) s).2 ≡ remove_all js (store.keys s)
  unfolding delete_batch names_of remove_all
  delete_batch-keys [] s = λ _. refl
  delete_batch-keys (j ∷ js) s = elim (Ret-cases (store.delete s (full_name j)).0) [
    | inr (x, e) ↦ rw (delete_batch, e) (λ h. cc)
    | inl e ↦
        rw (delete_batch, e, ← store.delete_removes s j e)
          (delete_batch-keys js (store.delete s (full_name j)).1)
  ]
