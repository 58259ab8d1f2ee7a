-- ===== src/Bridge/Queue.antt =====
-- What the bridge uses of Zephyr's message queue (`k_msgq`), without waiting.
use esp_nmea_bridge.Prelude.{
  ℕ, ◌≤◌, ◌<◌, ◌≡◌, Bool, true, false, List, [], ◌∷◌, ◌++◌, Option, none, some, length,
}

-- `k_msgq_put` and `k_msgq_get` with K_NO_WAIT, `k_msgq_purge`. The laws are the documented
-- behaviour: a queue holds its messages in order, refuses one more than its capacity, and hands out
-- the oldest.
pub record MsgQueue (Q A : Type 0) : Type 0 where
  pub put : Q → A → Bool × Q
  pub get : Q → Option A × Q
  pub purge : Q → Q
  pub contents : Q → List A
  pub capacity : Q → ℕ
  pub put_fits :
      (q : Q) (a : A)
      → length (contents q) < capacity q
      → ((put q a).0 ≡ true)
        × (contents (put q a).1 ≡ contents q ++ a ∷ [])
        × (capacity (put q a).1 ≡ capacity q)
  pub put_full : (q : Q) (a : A) → capacity q ≤ length (contents q) → put q a ≡ (false, q)
  pub get_empty : (q : Q) → contents q ≡ [] → get q ≡ (none, q)
  pub get_oldest :
      (q : Q) {a : A} {as' : List A}
      → contents q ≡ a ∷ as'
      → ((get q).0 ≡ some a) × (contents (get q).1 ≡ as') × (capacity (get q).1 ≡ capacity q)
  pub purge_empties : (q : Q) → (contents (purge q) ≡ []) × (capacity (purge q) ≡ capacity q)
