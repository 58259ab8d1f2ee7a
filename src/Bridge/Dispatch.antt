-- ===== src/Bridge/Dispatch.antt =====
-- What one round of the dispatcher does to every sink.
use esp_nmea_bridge.Prelude.{
  ℕ, zero, suc, ◌+◌, ◌≤◌, ◌<◌, ◌≡◌, refl, ◌∙◌, Bool, true, false, ◌||◌, List, [], ◌∷◌, none, some,
  ltb, if◌then◌else◌, length, arith, get_elem?, All-get_elem?,
}
use esp_nmea_bridge.Prelude.Byte.{u32}
use esp_nmea_bridge.Bridge.Queue.{MsgQueue}
use esp_nmea_bridge.Bridge.DropOldest.{push_newest, put_drop_oldest-push_newest}
use esp_nmea_bridge.Bridge.Account.{SlotIsValid, AllValid}
use esp_nmea_bridge.Bridge.{Frame, Slot, Bridge, deliver, deliver_all, dispatch_frame}

or_assoc : (a b c : Bool) → ((a || b) || c) ≡ (a || (b || c))
or_assoc a b c = ground arith

module _ {Q : Type 0} (queue : MsgQueue Q Frame) where
  unfoldable pub any_active : List (Slot Q) → Bool
  any_active [] = false
  any_active (s ∷ ss) = s.active || any_active ss

  deliver_all-any :
      (ss : List (Slot Q)) (frame : Frame) (any : Bool) (total : ℕ)
      → (deliver_all queue frame ss any total).1 ≡ (any || any_active ss)
  unfolding deliver_all any_active
  deliver_all-any [] frame any total = ground arith
  deliver_all-any (s ∷ ss) frame any total =
      deliver_all-any ss frame (any || s.active) _ ∙ or_assoc any s.active (any_active ss)

  deliver_all-slots :
      (ss : List (Slot Q)) (frame : Frame) (any : Bool) (total i : ℕ)
      → get_elem? (deliver_all queue frame ss any total).0 i
        ≡ elim (get_elem? ss i) [ none ↦ none | some s ↦ some (deliver queue frame s) ]
  unfolding deliver_all
  deliver_all-slots [] frame any total i = refl
  deliver_all-slots (s ∷ ss) frame any total zero = refl
  deliver_all-slots (s ∷ ss) frame any total (suc i) = deliver_all-slots ss frame _ _ i

  -- What a slot becomes when a frame arrives.
  pub record Delivered (frame : Frame) (s s' : Slot Q) : Type 0 where
    pub still : s'.active ≡ s.active
    pub closed : s.active ≡ false → s' ≡ s
    pub newest :
        s.active ≡ true
        → queue.contents s'.msgq ≡ push_newest (queue.capacity s.msgq) (queue.contents s.msgq) frame
    pub counted : s.active ≡ true → s'.stats.queued ≡ u32 (s.stats.queued + 1)
    pub dropped :
        s.active ≡ true
        → s'.stats.dropped_oldest ≡ (
            if ltb (length (queue.contents s.msgq)) (queue.capacity s.msgq)
            then s.stats.dropped_oldest
            else u32 (s.stats.dropped_oldest + 1))

  deliver-Delivered :
      (frame : Frame) (s : Slot Q)
      → 0 < queue.capacity s.msgq
      → length (queue.contents s.msgq) ≤ queue.capacity s.msgq
      → Delivered frame s (deliver queue frame s)
  unfolding deliver
  deliver-Delivered frame s pos le =
      let pushed = put_drop_oldest-push_newest queue s.msgq frame s.stats.dropped_oldest pos le in
      record {
        still = ground arith;
        closed = λ off. ground arith;
        newest = λ on. ground (arith, pushed);
        counted = λ on. ground arith;
        dropped = λ on. ground (arith, pushed);
      }

  -- One round of the dispatcher, on valid slots: the frame becomes the newest of every open sink's
  -- queue, which counts it and loses its oldest frame if and only if it was full, and counts that;
  -- every closed slot stays as it is; and the frame counts as published to no sink exactly when no
  -- sink is open.
  pub dispatch_frame-Delivered :
      (depth : ℕ) (b : Bridge Q) (frame : Frame) (i : ℕ) {s : Slot Q}
      → 0 < depth
      → AllValid queue depth b.sinks
      → get_elem? b.sinks i ≡ some s
      → let b' = dispatch_frame queue b frame in
        (s' : Slot Q) × (get_elem? b'.sinks i ≡ some s')
        × Delivered frame s s'
        × (b'.bridge_stats.publish_no_sinks ≡ (
            if any_active b.sinks
            then b.bridge_stats.publish_no_sinks
            else u32 (b.bridge_stats.publish_no_sinks + 1)))
  unfolding dispatch_frame
  dispatch_frame-Delivered depth b frame i {s} pos v e =
      let ok = All-get_elem? (SlotIsValid queue depth) b.sinks i v e in
      let total = b.bridge_stats.sink_dropped_oldest in
      (
        deliver queue frame s,
        deliver_all-slots b.sinks frame false total i ∙ rw e,
        deliver-Delivered frame s (omega (arith, ok.deep)) (omega (arith, ok.deep, ok.fits)),
        ground (arith, deliver_all-any b.sinks frame false total),
      )
