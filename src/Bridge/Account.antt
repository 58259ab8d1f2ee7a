-- ===== src/Bridge/Account.antt =====
-- Where the frames of a sink are: the invariant of a slot, and that every operation keeps it.
use esp_nmea_bridge.Prelude.{
  ℕ, ◌+◌, ◌≤◌, ◌<◌, ◌≡◌, refl, ap, ◌∙◌, Bool, true, false, List, [], ◌∷◌, Option, none, some, ltb,
  if◌then◌else◌, length, arith, Bool-cases, inl, inr, length-append, All,
}
use esp_nmea_bridge.Prelude.Byte.{u32}
use esp_nmea_bridge.Prelude.CString.{Bytes}
use esp_nmea_bridge.Bridge.Queue.{MsgQueue}
use esp_nmea_bridge.Bridge.DropOldest.{push_newest, put_drop_oldest-push_newest}
use esp_nmea_bridge.Bridge.{Frame, Slot, deliver, deliver_all, open_slot, no_sink_stats}

module _ {Q : Type 0} (queue : MsgQueue Q Frame) (depth : ℕ) where
  -- A queue of the configured depth. An open sink has counted every frame that came in as consumed,
  -- dropped or still queued; a closed one holds none.
  pub record SlotIsValid (s : Slot Q) : Type 0 where
    pub deep : queue.capacity s.msgq ≡ depth
    pub fits : length (queue.contents s.msgq) ≤ depth
    pub accounted :
        s.active ≡ true
        → s.stats.queued
          ≡ u32 (s.stats.consumed + s.stats.dropped_oldest + length (queue.contents s.msgq))
    pub idle : s.active ≡ false → queue.contents s.msgq ≡ []

  pub length-push_newest :
      (cap : ℕ) (held : List Frame) (frame : Frame)
      → 0 < cap
      → length held ≤ cap
      → length (push_newest cap held frame)
        ≡ (if ltb (length held) cap then length held + 1 else length held)
  length-push_newest cap [] frame pos le = ground arith
  length-push_newest cap (a ∷ held) frame pos le =
      ground (arith, length-append (a ∷ held) (frame ∷ []), length-append held (frame ∷ []))

  pub deliver-IsValid :
      (s : Slot Q) (frame : Frame) → 0 < depth → SlotIsValid s → SlotIsValid (deliver queue frame s)
  unfolding deliver
  deliver-IsValid s frame pos v = elim (Bool-cases s.active) [
    | inr off ↦ simp off v
    | inl on ↦
        let pushed =
          put_drop_oldest-push_newest queue s.msgq frame s.stats.dropped_oldest
            (omega (arith, v.deep)) (omega (arith, v.deep, v.fits)) in
        let size =
          length-push_newest (queue.capacity s.msgq) (queue.contents s.msgq) frame
            (omega (arith, v.deep)) (omega (arith, v.deep, v.fits)) in
        simp on (record {
          deep = pushed.1 ∙ v.deep;
          fits = ground (arith, pushed, size, v.deep, v.fits, ap length pushed.0);
          accounted =
              λ _. ground (arith, pushed, size, v.deep, v.fits, v.accounted on, ap length pushed.0);
          idle = λ h. cc;
        })
  ]

  abbrev pub AllValid : List (Slot Q) → Type 0
  AllValid = All SlotIsValid

  pub deliver_all-IsValid :
      (ss : List (Slot Q)) (frame : Frame) (any : Bool) (total : ℕ)
      → 0 < depth
      → AllValid ss
      → AllValid (deliver_all queue frame ss any total).0
  unfolding deliver_all
  deliver_all-IsValid [] frame any total pos v = tt
  deliver_all-IsValid (s ∷ ss) frame any total pos (v, vs) =
      (deliver-IsValid s frame pos v, deliver_all-IsValid ss frame _ _ pos vs)

  -- An emptied queue of an opened slot.
  opened-IsValid :
      (s : Slot Q) (name : Option Bytes)
      → SlotIsValid s
      → SlotIsValid
          (record { active = true; name = name; msgq = queue.purge s.msgq; stats = no_sink_stats })
  opened-IsValid s name v =
      let emptied = queue.purge_empties s.msgq in
      record {
        deep = emptied.1 ∙ v.deep;
        fits = omega (arith, ap length emptied.0);
        accounted = λ _. omega (arith, ap length emptied.0);
        idle = λ h. cc;
      }

  pub closed-IsValid :
      (s : Slot Q)
      → SlotIsValid s
      → SlotIsValid (record s { active = false; name = none; msgq = queue.purge s.msgq })
  closed-IsValid s v =
      let emptied = queue.purge_empties s.msgq in
      record {
        deep = emptied.1 ∙ v.deep;
        fits = omega (arith, ap length emptied.0);
        accounted = λ h. cc;
        idle = λ _. emptied.0;
      }

  pub open_slot-IsValid :
      (name : Option Bytes) (ss : List (Slot Q)) (i : ℕ)
      → AllValid ss
      → AllValid (open_slot queue name ss i).0
  unfolding open_slot
  open_slot-IsValid name [] i v = tt
  open_slot-IsValid name (s ∷ ss) i (v, vs) = elim (Bool-cases s.active) [
    | inl on ↦ simp on (v, open_slot-IsValid name ss (i + 1) vs)
    | inr off ↦ simp off (opened-IsValid s name v, vs)
  ]

  -- A message taken from an open or a closed slot's queue, if it holds one.
  pub taken-IsValid :
      (s : Slot Q) (f : Frame)
      → SlotIsValid s
      → (queue.get s.msgq).0 ≡ some f
      → SlotIsValid (record s {
        msgq = (queue.get s.msgq).1;
        stats = record (s.stats) { consumed = u32 (s.stats.consumed + 1) };
      })
  taken-IsValid s f v e = by_contents (queue.contents s.msgq) refl
    where
      by_contents :
          (held : List Frame)
          → queue.contents s.msgq ≡ held
          → SlotIsValid (record s {
            msgq = (queue.get s.msgq).1;
            stats = record (s.stats) { consumed = u32 (s.stats.consumed + 1) };
          })
      by_contents [] empty = ground (arith, queue.get_empty s.msgq empty)
      by_contents (a ∷ held) has =
          let oldest = queue.get_oldest s.msgq has in
          record {
            deep = oldest.2 ∙ v.deep;
            fits = omega (arith, ap length has, ap length oldest.1, v.fits);
            accounted = λ on. omega (arith, ap length has, ap length oldest.1, v.accounted on);
            idle = λ off. cc (v.idle off, has);
          }
