-- ===== src/Bridge.antt =====
-- src/nmea_bridge.c and nmea_bridge.h: one ingest queue, and a queue for each sink.
-- Zephyr's message queue is a parameter, `MsgQueue` of Bridge/Queue. A call that holds `sinks_lock`
-- is one step; so is the unlocked end of `nmea_bridge_sink_take`.
pub mod Queue
pub mod DropOldest
pub mod Sinks
pub mod Dispatch
pub mod Account
mod Tests
use esp_nmea_bridge.Prelude.{
  ℕ, zero, suc, ◌+◌, ◌-◌, ◌%◌, ◌^◌, Bool, true, false, ◌||◌, ◌&&◌, not, List, [], ◌∷◌, ◌++◌, Option,
  none, some, ltb, leb, ◌==◌, ◌!=◌, if◌then◌else◌, length, get_elem?, set,
}
use esp_nmea_bridge.Prelude.Byte.{u16, u32, sub32}
use esp_nmea_bridge.Prelude.CString.{Bytes}
use Queue.{MsgQueue}

-- `struct nmea_frame`; `len` is the length of the list.
abbrev pub Frame : Type 0
Frame = Bytes

-- `struct nmea_bridge_stats`
pub record BridgeStats : Type 0 where
  pub frames_in : ℕ
  pub ingest_dropped_oldest : ℕ
  pub sink_dropped_oldest : ℕ
  pub publish_no_sinks : ℕ
  pub publish_invalid : ℕ
  pub publish_oversize : ℕ

-- `struct nmea_sink_stats`
pub record SinkStats : Type 0 where
  pub queued : ℕ
  pub dropped_oldest : ℕ
  pub consumed : ℕ

abbrev pub no_sink_stats : SinkStats
no_sink_stats = record { queued = 0; dropped_oldest = 0; consumed = 0 }

-- `enum` of the results that the functions return, for 0 and the negative `errno` values.
pub data Result : Type 0 where
  ok einval emsgsize enomem enotconn eagain : Result

-- `struct sink_slot`
pub record Slot (Q : Type 0) : Type 0 where
  pub active : Bool
  pub name : Option Bytes
  pub msgq : Q
  pub stats : SinkStats

-- The statics of nmea_bridge.c.
pub record Bridge (Q : Type 0) : Type 0 where
  pub sinks : List (Slot Q)
  pub bridge_stats : BridgeStats
  pub ingest_msgq : Q

-- `struct nmea_bridge_sink`: the id, or `none` for -1.
abbrev pub Handle : Type 0
Handle = Option ℕ

-- The slots of a zeroed array, each with its queue.
unfoldable pub unused_slots : {Q : Type 0} → List Q → List (Slot Q)
unused_slots [] = []
unused_slots (q ∷ qs) =
    record { active = false; name = none; msgq = q; stats = no_sink_stats } ∷ unused_slots qs

-- The zeroed `sinks` and `bridge_stats`, with the queues that K_MSGQ_DEFINE and, for each slot,
-- `nmea_bridge_init` set up.
unfoldable pub init : {Q : Type 0} → List Q → Q → Bridge Q
unfolding unused_slots
init queues ingest = record {
  sinks = unused_slots queues;
  bridge_stats = record {
    frames_in = 0;
    ingest_dropped_oldest = 0;
    sink_dropped_oldest = 0;
    publish_no_sinks = 0;
    publish_invalid = 0;
    publish_oversize = 0;
  };
  ingest_msgq = ingest;
}

-- `nmea_bridge_get_stats`, with `stats` not null
unfoldable pub get_stats : {Q : Type 0} → Bridge Q → BridgeStats
get_stats b = b.bridge_stats

-- `nmea_bridge_get_sink_stats`, with pointers that are not null: `none` where `*stats` stays as it is
unfoldable pub get_sink_stats : {Q : Type 0} → Bridge Q → Handle → Option SinkStats
get_sink_stats b none = none
get_sink_stats b (some id) = elim (get_elem? b.sinks id) [ none ↦ none | some s ↦ some s.stats ]

module _ {Q : Type 0} (queue : MsgQueue Q Frame) where
  open queue use {put, get, purge}

  -- `put_drop_oldest`: the queue, and the drop counter.
  unfoldable pub put_drop_oldest : Q → Frame → ℕ → Q × ℕ
  put_drop_oldest msgq frame drop_counter =
      let (fits, q1) = put msgq frame in
      if fits
      then (q1, drop_counter)
      else (let (_, q2) = get q1 in
          let (fits', q3) = put q2 frame in
          (q3, if fits' then u32 (drop_counter + 1) else u32 (drop_counter + 2)))

  -- The loop of `dispatcher_thread` over the sinks, at one slot: the slot afterwards.
  unfoldable pub deliver : Frame → Slot Q → Slot Q
  deliver frame s =
      if not s.active
      then s
      else (let (q, dropped) = put_drop_oldest s.msgq frame s.stats.dropped_oldest in
          record s {
            msgq = q;
            stats = record (s.stats) {
              dropped_oldest = dropped;
              queued = u32 (s.stats.queued + 1);
            };
          })

  -- The loop over the slots: `sinks` afterwards, `any`, and `sink_dropped_oldest`.
  unfoldable pub deliver_all : Frame → List (Slot Q) → Bool → ℕ → List (Slot Q) × Bool × ℕ
  deliver_all frame [] any total = ([], any, total)
  deliver_all frame (s ∷ ss) any total =
      let s' = deliver frame s in
      let before = s.stats.dropped_oldest in
      let after = s'.stats.dropped_oldest in
      let total' =
        if s.active && after != before then u32 (total + sub32 after before) else total in
      let (ss', any', total'') = deliver_all frame ss (any || s.active) total' in
      (s' ∷ ss', any', total'')

  -- The locked part of the dispatcher's round, on the frame that it took.
  unfoldable pub dispatch_frame : Bridge Q → Frame → Bridge Q
  dispatch_frame b frame =
      let (sinks', any, total) =
        deliver_all frame b.sinks false b.bridge_stats.sink_dropped_oldest in
      let stats' = record (b.bridge_stats) { sink_dropped_oldest = total } in
      record b {
        sinks = sinks';
        bridge_stats =
            if not any
            then record stats' { publish_no_sinks = u32 (stats'.publish_no_sinks + 1) }
            else stats';
      }

  -- A round of `dispatcher_thread`; with no frame to take it waits.
  unfoldable pub dispatch : Bridge Q → Bridge Q
  dispatch b =
      let (frame, q) = get b.ingest_msgq in
      elim frame [ none ↦ b | some f ↦ dispatch_frame (record b { ingest_msgq = q }) f ]

  -- `nmea_bridge_publish_frame`; a null pointer is `none`. `max` is the size of `frame.data`.
  unfoldable pub publish_frame : ℕ → Bridge Q → Option Bytes → Bridge Q × Result
  publish_frame max b none = (
    record b {
      bridge_stats = record (b.bridge_stats) {
        publish_invalid = u32 (b.bridge_stats.publish_invalid + 1);
      };
    },
    einval,
  )
  publish_frame max b (some bytes) =
      if length bytes == 0
      then (
        record b {
          bridge_stats = record (b.bridge_stats) {
            publish_invalid = u32 (b.bridge_stats.publish_invalid + 1);
          };
        },
        einval,
      )
      else if ltb max (length bytes)
      then (
        record b {
          bridge_stats = record (b.bridge_stats) {
            publish_oversize = u32 (b.bridge_stats.publish_oversize + 1);
          };
        },
        emsgsize,
      )
      else (let (q, dropped) =
            put_drop_oldest b.ingest_msgq bytes b.bridge_stats.ingest_dropped_oldest in
          (
            record b {
              ingest_msgq = q;
              bridge_stats = record (b.bridge_stats) {
                frames_in = u32 (b.bridge_stats.frames_in + 1);
                ingest_dropped_oldest = dropped;
              };
            },
            ok,
          ))

  -- The loop of `nmea_bridge_sink_open` from index `i` on: the slots and the id taken.
  unfoldable pub open_slot : Option Bytes → List (Slot Q) → ℕ → List (Slot Q) × Option ℕ
  open_slot name [] i = ([], none)
  open_slot name (s ∷ ss) i = elim (s.active) [
    | false ↦ (
      record { active = true; name = name; msgq = purge s.msgq; stats = no_sink_stats } ∷ ss,
      some i,
    )
    | true ↦ let (ss', id) = open_slot name ss (i + 1) in (s ∷ ss', id)
  ]

  -- `nmea_bridge_sink_open`, at a sink that is not null: its handle, and the result.
  unfoldable pub sink_open : Bridge Q → Option Bytes → Bridge Q × Handle × Result
  sink_open b name =
      let (sinks', id) = open_slot name b.sinks 0 in
      (record b { sinks = sinks' }, id, elim id [ none ↦ enomem | some _ ↦ ok ])

  -- `nmea_bridge_sink_close`, at a sink that is not null; the handle becomes -1 where it was valid.
  unfoldable pub sink_close : Bridge Q → Handle → Bridge Q × Handle
  sink_close b none = (b, none)
  sink_close b (some id) = elim (get_elem? b.sinks id) [
    | none ↦ (b, some id)
    | some s ↦ (
      record b {
        sinks = set b.sinks id (record s { active = false; name = none; msgq = purge s.msgq });
      },
      none,
    )
  ]

  -- The part of `nmea_bridge_sink_take` up to the unlock: whether it goes on to wait.
  unfoldable pub sink_take_check : Bridge Q → Handle → Result
  sink_take_check b none = enotconn
  sink_take_check b (some id) = elim (get_elem? b.sinks id) [
    | none ↦ einval
    | some s ↦ if not s.active then enotconn else ok
  ]

  -- Its end: the wait is over, and the queue holds a message or the time is up.
  unfoldable pub sink_take_get : Bridge Q → ℕ → Bridge Q × Option Frame × Result
  sink_take_get b id = elim (get_elem? b.sinks id) [
    | none ↦ (b, none, einval)
    | some s ↦
        let (frame, q) = get s.msgq in
        elim frame [
          | none ↦ (b, none, eagain)
          | some f ↦ (
            record b {
              sinks = set b.sinks id (record s {
                msgq = q;
                stats = record (s.stats) { consumed = u32 (s.stats.consumed + 1) };
              });
            },
            some f,
            ok,
          )
        ]
  ]

  -- `nmea_bridge_sink_take` with no other step between its parts.
  unfoldable pub sink_take : Bridge Q → Handle → Bridge Q × Option Frame × Result
  sink_take b none = (b, none, enotconn)
  sink_take b (some id) = elim (sink_take_check b (some id)) [
    | ok ↦ sink_take_get b id
    | r ↦ (b, none, r)
  ]
