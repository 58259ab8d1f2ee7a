-- ===== src/Bridge/DropOldest.antt =====
-- `put_drop_oldest` against a bounded list that forgets its oldest element.
use esp_nmea_bridge.Prelude.{
  ℕ, suc, ◌+◌, ◌≤◌, ◌<◌, ◌≡◌, refl, ap, List, [], ◌∷◌, ◌++◌, ltb, if◌then◌else◌, length, drop,
  arith, Bool-cases, inl, inr, ltb→lt,
}
use esp_nmea_bridge.Prelude.Byte.{u32}
use esp_nmea_bridge.Bridge.Queue.{MsgQueue}
use esp_nmea_bridge.Bridge.{Frame, put_drop_oldest}

-- The newest `cap` elements, with one more behind them.
abbrev pub push_newest : ℕ → List Frame → Frame → List Frame
push_newest cap held frame =
    if ltb (length held) cap then held ++ frame ∷ [] else drop 1 held ++ frame ∷ []

module _ {Q : Type 0} (queue : MsgQueue Q Frame) where
  open queue use {contents, capacity, put, get, put_fits, put_full, get_oldest}

  full_queue :
      (q : Q) (frame : Frame) (d : ℕ) (a : Frame) (held : List Frame)
      → contents q ≡ a ∷ held
      → capacity q ≡ length (contents q)
      → (contents (put_drop_oldest queue q frame d).0 ≡ held ++ frame ∷ [])
        × (capacity (put_drop_oldest queue q frame d).0 ≡ capacity q)
        × ((put_drop_oldest queue q frame d).1 ≡ u32 (d + 1))
  unfolding put_drop_oldest
  full_queue q frame d a held e full =
      let oldest = get_oldest q e in
      let count : suc (length held) ≡ capacity q = omega (arith, ap length e) in
      ground (
        arith,
        oldest,
        put_full q frame (omega arith),
        put_fits (get q).1 frame (omega (arith, ap length (oldest.1))),
      )

  put-room :
      (q : Q) (frame : Frame) (d : ℕ)
      → length (contents q) < capacity q
      → (contents (put_drop_oldest queue q frame d).0 ≡ contents q ++ frame ∷ [])
        × (capacity (put_drop_oldest queue q frame d).0 ≡ capacity q)
        × ((put_drop_oldest queue q frame d).1 ≡ d)
  unfolding put_drop_oldest
  put-room q frame d room = ground (arith, put_fits q frame room)

  -- The frame always gets in, as the newest: a queue with room keeps what it holds and counts no
  -- drop, a full one loses exactly its oldest frame and counts one drop.
  pub put_drop_oldest-push_newest :
      (q : Q) (frame : Frame) (d : ℕ)
      → 0 < capacity q
      → length (contents q) ≤ capacity q
      → (contents (put_drop_oldest queue q frame d).0 ≡ push_newest (capacity q) (contents q) frame)
        × (capacity (put_drop_oldest queue q frame d).0 ≡ capacity q)
        × ((put_drop_oldest queue q frame d).1
            ≡ (if ltb (length (contents q)) (capacity q) then d else u32 (d + 1)))
  put_drop_oldest-push_newest q frame d pos le =
      elim (Bool-cases (ltb (length (contents q)) (capacity q))) [
        | inl room ↦ rw room (put-room q frame d (ltb→lt _ _ room))
        | inr full ↦ rw full (by_contents (contents q) refl (ground arith))
      ]
    where
      by_contents :
          (held : List Frame)
          → contents q ≡ held
          → capacity q ≡ length (contents q)
          → (contents (put_drop_oldest queue q frame d).0 ≡ drop 1 (contents q) ++ frame ∷ [])
            × (capacity (put_drop_oldest queue q frame d).0 ≡ capacity q)
            × ((put_drop_oldest queue q frame d).1 ≡ u32 (d + 1))
      by_contents [] e full = absurd (omega (arith, ap length e))
      by_contents (a ∷ held) e full = rw e (full_queue q frame d a held e full)
