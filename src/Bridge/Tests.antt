-- ===== src/Bridge/Tests.antt =====
-- A message queue, and the theorems at a bridge with two sinks of two frames each.
use esp_nmea_bridge.Prelude.{
  ℕ, ◌+◌, ◌≤◌, ◌<◌, ◌≡◌, refl, Bool, true, false, List, [], ◌∷◌, ◌++◌, Option, none, some, length,
  ltb, arith, lt→ltb, if◌then◌else◌, get_elem?,
}
use esp_nmea_bridge.Prelude.Byte.{u32}
use esp_nmea_bridge.Bridge.Queue.{MsgQueue}
use esp_nmea_bridge.Bridge.{Frame, Bridge, Slot, no_sink_stats, put_drop_oldest, dispatch_frame}
use esp_nmea_bridge.Bridge.DropOldest.{push_newest, put_drop_oldest-push_newest}
use esp_nmea_bridge.Bridge.Account.{SlotIsValid}
use esp_nmea_bridge.Bridge.Dispatch.{Delivered, any_active, dispatch_frame-Delivered}
use esp_nmea_bridge.Bridge.Sinks.{Event, IsValid, run, run-IsValid}
use esp_nmea_bridge.Bridge.Sinks

-- The messages behind the capacity.
abbrev Bounded : Type 0
Bounded = ℕ × List Frame

abbrev put_bounded : Bounded → Frame → Bool × Bounded
put_bounded (n, xs) a = if ltb (length xs) n then (true, (n, xs ++ a ∷ [])) else (false, (n, xs))

abbrev get_bounded : Bounded → Option Frame × Bounded
get_bounded (n, []) = (none, (n, []))
get_bounded (n, x ∷ xs) = (some x, (n, xs))

put_bounded-fits :
    (q : Bounded) (a : Frame)
    → length q.1 < q.0
    → ((put_bounded q a).0 ≡ true)
      × ((put_bounded q a).1.1 ≡ q.1 ++ a ∷ [])
      × ((put_bounded q a).1.0 ≡ q.0)
put_bounded-fits (n, xs) a lt = rw (lt→ltb _ _ lt) (refl, refl, refl)

not_below : (a b : ℕ) → b ≤ a → ltb a b ≡ false
not_below a b h = ground arith

put_bounded-full : (q : Bounded) (a : Frame) → q.0 ≤ length q.1 → put_bounded q a ≡ (false, q)
put_bounded-full (n, xs) a le = rw (not_below _ _ le) refl

get_bounded-empty : (q : Bounded) → q.1 ≡ [] → get_bounded q ≡ (none, q)
get_bounded-empty (n, []) e = refl
get_bounded-empty (n, x ∷ xs) e = cc

get_bounded-oldest :
    (q : Bounded) {a : Frame} {as' : List Frame}
    → q.1 ≡ a ∷ as'
    → ((get_bounded q).0 ≡ some a) × ((get_bounded q).1.1 ≡ as') × ((get_bounded q).1.0 ≡ q.0)
get_bounded-oldest (n, []) e = cc
get_bounded-oldest (n, x ∷ xs) e = (cc, cc, refl)

abbrev bounded : MsgQueue Bounded Frame
bounded = record {
  put = put_bounded;
  get = get_bounded;
  purge = λ q. (q.0, []);
  contents = λ q. q.1;
  capacity = λ q. q.0;
  put_fits = put_bounded-fits;
  put_full = put_bounded-full;
  get_empty = get_bounded-empty;
  get_oldest = get_bounded-oldest;
  purge_empties = λ q. (refl, refl);
}

abbrev hello : Frame
hello = 36 ∷ 10 ∷ []

abbrev full : Bounded
full = (2, (1 ∷ []) ∷ (2 ∷ []) ∷ [])

put_drop_oldest-push_newest_example :
    ((put_drop_oldest bounded full hello 0).0.1 ≡ push_newest 2 full.1 hello)
    × ((put_drop_oldest bounded full hello 0).0.0 ≡ 2)
    × ((put_drop_oldest bounded full hello 0).1
        ≡ (if ltb (length full.1) 2 then 0 else u32 (0 + 1)))
put_drop_oldest-push_newest_example =
    put_drop_oldest-push_newest bounded full hello 0 (omega arith) (omega arith)

abbrev open_slot : Slot Bounded
open_slot = record {
  active = true;
  name = none;
  msgq = full;
  stats = record { queued = 3; dropped_oldest = 0; consumed = 1 };
}

abbrev closed_slot : Slot Bounded
closed_slot = record { active = false; name = none; msgq = (2, []); stats = no_sink_stats }

abbrev bridge : Bridge Bounded
bridge = record {
  sinks = open_slot ∷ closed_slot ∷ [];
  bridge_stats = record {
    frames_in = 3;
    ingest_dropped_oldest = 0;
    sink_dropped_oldest = 0;
    publish_no_sinks = 0;
    publish_invalid = 0;
    publish_oversize = 0;
  };
  ingest_msgq = (4, []);
}

open_slot-IsValid : SlotIsValid bounded 2 open_slot
open_slot-IsValid = record {
  deep = refl;
  fits = omega arith;
  accounted = λ _. refl;
  idle = λ h. cc;
}

closed_slot-IsValid : SlotIsValid bounded 2 closed_slot
closed_slot-IsValid = record {
  deep = refl;
  fits = omega arith;
  accounted = λ _. refl;
  idle = λ h. refl;
}

dispatch_frame-Delivered_example :
    let b' = dispatch_frame bounded bridge hello in
    (s' : Slot Bounded) × (get_elem? b'.sinks 0 ≡ some s')
    × Delivered bounded hello open_slot s'
    × (b'.bridge_stats.publish_no_sinks ≡ (
        if any_active bounded bridge.sinks
        then bridge.bridge_stats.publish_no_sinks
        else u32 (bridge.bridge_stats.publish_no_sinks + 1)))
dispatch_frame-Delivered_example =
    dispatch_frame-Delivered bounded 2 bridge hello 0 (omega arith)
      (open_slot-IsValid, (closed_slot-IsValid, tt)) refl

bridge-IsValid : IsValid bounded 8 2 4 bridge 3
bridge-IsValid = record {
  slots = (open_slot-IsValid, (closed_slot-IsValid, tt));
  ingest_deep = refl;
  ingest_fits = omega arith;
  ingest_accounted = refl;
}

abbrev history : List Event
history = Sinks.publish (some hello) ∷ Sinks.round ∷ Sinks.take 0 ∷ Sinks.close_sink (some 0) ∷ []

run-IsValid_example : let (b', n') = run bounded 8 bridge 3 history in IsValid bounded 8 2 4 b' n'
run-IsValid_example =
    run-IsValid bounded 8 2 4 (omega arith) (omega arith) history bridge 3 bridge-IsValid
