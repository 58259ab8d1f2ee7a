-- ===== src/Bridge/Sinks.antt =====
-- Histories of the bridge: any interleaving of publishing, dispatching, opening, closing, taking.
use esp_nmea_bridge.Prelude.{
  ℕ, ◌+◌, ◌≤◌, ◌<◌, ◌≡◌, refl, ap, ◌∙◌, false, List, [], ◌∷◌, Option, none, some, ltb, length,
  arith, Bool-cases, Option-cases, inl, inr, get_elem?, All-set, All-get_elem?, ◌==◌,
}
use native.Mathlib.Nat.{add-zero}
use esp_nmea_bridge.Prelude.Byte.{u32}
use esp_nmea_bridge.Prelude.CString.{Bytes}
use esp_nmea_bridge.Bridge.Queue.{MsgQueue}
use esp_nmea_bridge.Bridge.DropOldest.{put_drop_oldest-push_newest}
use esp_nmea_bridge.Bridge.Account.{
  SlotIsValid, AllValid, deliver_all-IsValid, open_slot-IsValid, closed-IsValid, taken-IsValid,
  length-push_newest,
}
use esp_nmea_bridge.Bridge.{
  Frame, Bridge, Handle, put_drop_oldest, dispatch_frame, dispatch, publish_frame, sink_open,
  sink_close, sink_take_get,
}

-- One step of a thread. A sink may take at any time after its check, so `take` names a slot.
pub data Event : Type 0 where
  publish : Option Bytes → Event
  round : Event
  open_sink : Option Bytes → Event
  close_sink : Handle → Event
  take : ℕ → Event

module _ {Q : Type 0} (queue : MsgQueue Q Frame) (max : ℕ) where
  unfoldable pub step : Bridge Q → Event → Bridge Q
  step b (publish bytes) = (publish_frame queue max b bytes).0
  step b round = dispatch queue b
  step b (open_sink name) = (sink_open queue b name).0
  step b (close_sink h) = (sink_close queue b h).0
  step b (take id) = (sink_take_get queue b id).0

  -- Whether the dispatcher gets a frame in its round.
  unfoldable pub dispatches : Bridge Q → Event → ℕ
  dispatches b round = elim (queue.get b.ingest_msgq).0 [ none ↦ 0 | some _ ↦ 1 ]
  dispatches b _ = 0

  -- The bridge after a history, and the number of frames that the dispatcher took.
  unfoldable pub run : Bridge Q → ℕ → List Event → Bridge Q × ℕ
  run b n [] = (b, n)
  run b n (e ∷ es) = run (step b e) (n + dispatches b e) es

  module _ (depth ingest_depth : ℕ) where
    -- Every slot is accounted for, and every frame that was published is dropped from the ingest
    -- queue, taken by the dispatcher (`n` frames) or still queued.
    pub record IsValid (b : Bridge Q) (n : ℕ) : Type 0 where
      pub slots : AllValid queue depth b.sinks
      pub ingest_deep : queue.capacity b.ingest_msgq ≡ ingest_depth
      pub ingest_fits : length (queue.contents b.ingest_msgq) ≤ ingest_depth
      pub ingest_accounted :
          b.bridge_stats.frames_in
          ≡ u32 (b.bridge_stats.ingest_dropped_oldest + n + length (queue.contents b.ingest_msgq))

    -- A step that leaves the ingest queue and its counters alone.
    same-IsValid :
        (b b' : Bridge Q) (n : ℕ)
        → AllValid queue depth b'.sinks
        → b'.ingest_msgq ≡ b.ingest_msgq
        → b'.bridge_stats.frames_in ≡ b.bridge_stats.frames_in
        → b'.bridge_stats.ingest_dropped_oldest ≡ b.bridge_stats.ingest_dropped_oldest
        → IsValid b n
        → IsValid b' n
    same-IsValid b b' n slots q frames dropped v = record {
      slots = slots;
      ingest_deep = rw q v.ingest_deep;
      ingest_fits = rw q v.ingest_fits;
      ingest_accounted = rw (q, frames, dropped) v.ingest_accounted;
    }

    module _ (deep : 0 < depth) (ingest_deep : 0 < ingest_depth) where
      pushed-IsValid :
          (b : Bridge Q) (n : ℕ) (bytes : Frame)
          → IsValid b n
          → let (q, dropped) =
              put_drop_oldest queue b.ingest_msgq bytes b.bridge_stats.ingest_dropped_oldest in
            IsValid
              (record b {
                ingest_msgq = q;
                bridge_stats = record (b.bridge_stats) {
                  frames_in = u32 (b.bridge_stats.frames_in + 1);
                  ingest_dropped_oldest = dropped;
                };
              })
              n
      pushed-IsValid b n bytes v =
          let pushed =
            put_drop_oldest-push_newest queue b.ingest_msgq bytes
              b.bridge_stats.ingest_dropped_oldest (omega (arith, v.ingest_deep))
              (omega (arith, v.ingest_deep, v.ingest_fits)) in
          let size =
            length-push_newest queue depth (queue.capacity b.ingest_msgq)
              (queue.contents b.ingest_msgq) bytes (omega (arith, v.ingest_deep))
              (omega (arith, v.ingest_deep, v.ingest_fits)) in
          record {
            slots = v.slots;
            ingest_deep = pushed.1 ∙ v.ingest_deep;
            ingest_fits =
                ground (arith, pushed, size, v.ingest_deep, v.ingest_fits, ap length pushed.0);
            ingest_accounted = ground (
              arith,
              pushed,
              size,
              v.ingest_deep,
              v.ingest_fits,
              v.ingest_accounted,
              ap length pushed.0,
            );
          }

      publish-IsValid :
          (b : Bridge Q) (n : ℕ) (bytes : Option Bytes)
          → IsValid b n
          → IsValid (publish_frame queue max b bytes).0 n
      unfolding publish_frame
      publish-IsValid b n none v = same-IsValid b _ n v.slots refl refl refl v
      publish-IsValid b n (some bytes) v = elim (Bool-cases (length bytes == 0)) [
        | inl e ↦ rw e (same-IsValid b _ n v.slots refl refl refl v)
        | inr e ↦ elim (Bool-cases (ltb max (length bytes))) [
          | inl e' ↦ rw (e, e') (same-IsValid b _ n v.slots refl refl refl v)
          | inr e' ↦ rw (e, e') (pushed-IsValid b n bytes v)
        ]
      ]

      -- The dispatcher's round takes the oldest frame, or waits.
      dispatch-IsValid :
          (b : Bridge Q) (n : ℕ) → IsValid b n → IsValid (dispatch queue b) (n + dispatches b round)
      unfolding dispatch dispatch_frame dispatches
      dispatch-IsValid b n v = by_contents (queue.contents b.ingest_msgq) refl
        where
          by_contents :
              (held : List Frame)
              → queue.contents b.ingest_msgq ≡ held
              → IsValid (dispatch queue b) (n + dispatches b round)
          by_contents [] e =
              rw (queue.get_empty b.ingest_msgq e, dispatch, dispatches)
                (record {
                  slots = v.slots;
                  ingest_deep = v.ingest_deep;
                  ingest_fits = v.ingest_fits;
                  ingest_accounted = omega (arith, v.ingest_accounted);
                })
          by_contents (a ∷ held) e =
              let oldest = queue.get_oldest b.ingest_msgq e in
              rw (oldest.0, dispatch, dispatches)
                (record {
                  slots = deliver_all-IsValid queue depth b.sinks a false _ deep v.slots;
                  ingest_deep = oldest.2 ∙ v.ingest_deep;
                  ingest_fits = omega (arith, ap length e, ap length oldest.1, v.ingest_fits);
                  ingest_accounted =
                      ground (arith, ap length e, ap length oldest.1, v.ingest_accounted);
                })

      close-IsValid :
          (b : Bridge Q) (n : ℕ) (h : Handle) → IsValid b n → IsValid (sink_close queue b h).0 n
      unfolding sink_close
      close-IsValid b n none v = v
      close-IsValid b n (some id) v = elim (Option-cases (get_elem? b.sinks id)) [
        | inl e ↦ rw (e, sink_close) v
        | inr (s, e) ↦
            let ok = All-get_elem? (SlotIsValid queue depth) b.sinks id v.slots e in
            rw (e, sink_close)
              (same-IsValid b _ n
                (All-set (SlotIsValid queue depth) b.sinks id _ v.slots
                  (closed-IsValid queue depth s ok))
                refl refl refl v)
      ]

      take-IsValid :
          (b : Bridge Q) (n id : ℕ) → IsValid b n → IsValid (sink_take_get queue b id).0 n
      unfolding sink_take_get
      take-IsValid b n id v = elim (Option-cases (get_elem? b.sinks id)) [
        | inl e ↦ rw (e, sink_take_get) v
        | inr (s, e) ↦ elim (Option-cases (queue.get s.msgq).0) [
          | inl e' ↦ rw (e, sink_take_get, e') v
          | inr (f, e') ↦
              let ok = All-get_elem? (SlotIsValid queue depth) b.sinks id v.slots e in
              rw (e, sink_take_get, e')
                (same-IsValid b _ n
                  (All-set (SlotIsValid queue depth) b.sinks id _ v.slots
                    (taken-IsValid queue depth s f ok e'))
                  refl refl refl v)
        ]
      ]

      -- Every step keeps the account of every slot and of the ingest queue.
      pub step-IsValid :
          (b : Bridge Q) (n : ℕ) (e : Event) → IsValid b n → IsValid (step b e) (n + dispatches b e)
      unfolding step dispatches sink_open
      step-IsValid b n (publish bytes) v = rw add-zero (publish-IsValid b n bytes v)
      step-IsValid b n round v = dispatch-IsValid b n v
      step-IsValid b n (open_sink name) v = rw add-zero (
          same-IsValid b _ n (open_slot-IsValid queue depth name b.sinks 0 v.slots) refl refl refl
            v)
      step-IsValid b n (close_sink h) v = rw add-zero (close-IsValid b n h v)
      step-IsValid b n (take id) v = rw add-zero (take-IsValid b n id v)

      -- The account holds after every history of the bridge's threads, from any state where it
      -- holds: each open sink has counted its frames as consumed, dropped or queued, no closed sink
      -- holds any, and the published frames are dropped, dispatched or queued, with counters
      -- that wrap at 2 ^ 32.
      pub run-IsValid :
          (es : List Event) (b : Bridge Q) (n : ℕ)
          → IsValid b n
          → let (b', n') = run b n es in IsValid b' n'
      unfolding run
      run-IsValid [] b n v = v
      run-IsValid (e ∷ es) b n v =
          run-IsValid es (step b e) (n + dispatches b e) (step-IsValid b n e v)
