-- ===== src/Session/Delivery.antt =====
-- src/tcp_nmea_session.c: what reaches the peer, and what a session gives back.
use esp_nmea_bridge.Prelude.{
  ◌+◌, ◌-◌, ◌^◌, ◌<◌, ◌≡◌, true, List, Option, none, some, arith, Option-cases, inl, inr, subst,
}
use esp_nmea_bridge.Prelude.Byte.{u32}
use esp_nmea_bridge.Session.{Ended, Take, Session, run_rounds, session_run}
use esp_nmea_bridge.Session.Rounds.{frames_of, Delivered, Round, Rounds, run_rounds-Rounds}

abbrev Settles : List Take → Session → Option (Ended × Session) → Type 0
Settles takes s none = Unit
Settles takes s (some (result, s')) =
    Delivered (frames_of takes) s result s'
    × (s'.active_sessions ≡ s.active_sessions)
    × (s'.open_sinks ≡ s.open_sinks)
    × (s'.started ≡ s.started + 1)
    × (s'.ended ≡ s.ended + 1)

conclude :
    (takes : List Take) (s s' : Session) (result : Ended)
    → s.active_sessions < 2 ^ 32
    → Round takes
        (record s {
          open_sinks = s.open_sinks + 1;
          active_sessions = u32 (s.active_sessions + 1);
          started = s.started + 1;
        })
        result
        s'
    → Settles takes s (
        some (
          result,
          record s' {
            ended = s'.ended + 1;
            active_sessions = u32 (s'.active_sessions + (2 ^ 32 - 1));
            open_sinks = s'.open_sinks - 1;
          },
        ))
conclude takes s s' result small r =
    let d = r.delivered in
    let k = r.kept in
    (
      record {
        sent = d.sent;
        left = d.left;
        cut = d.cut;
        in_order = d.in_order;
        wire = d.wire;
        counted = d.counted;
        last = d.last;
      },
      omega (arith, k.active),
      omega (arith, k.sinks),
      k.begun,
      omega (arith, k.over),
    )

settled :
    (takes : List Take) (s : Session)
    → s.active_sessions < 2 ^ 32
    → Settles takes s (session_run true takes s)
unfolding session_run
settled takes s small =
    let begun = record s {
      open_sinks = s.open_sinks + 1;
      active_sessions = u32 (s.active_sessions + 1);
      started = s.started + 1;
    } in
    let all_rounds = run_rounds-Rounds takes begun in
    elim (Option-cases (run_rounds takes begun)) [
      | inl e ↦ rw (session_run, e) tt
      | inr ((result, s'), e) ↦
          rw (session_run, e)
            (conclude takes s s' result small (subst (Rounds takes begun) e all_rounds))
    ]

-- A session whose sink was opened, when it ends, whatever the socket and the sink answered: the
-- bytes that the socket took are the first of the frames that the sink handed out, each as a whole
-- and in their order, and these are counted as forwarded; a session that ended because a send
-- failed has also sent a part of the next frame that is not all of it, and counts one failure, and
-- every other session has sent nothing else and counts none. The number of active sessions and of
-- open sinks is as before, and the status LED was told of one start and of one end.
pub session_run-Delivered :
    (takes : List Take) (s s' : Session) (result : Ended)
    → s.active_sessions < 2 ^ 32
    → session_run true takes s ≡ some (result, s')
    → Delivered (frames_of takes) s result s'
      × (s'.active_sessions ≡ s.active_sessions)
      × (s'.open_sinks ≡ s.open_sinks)
      × (s'.started ≡ s.started + 1)
      × (s'.ended ≡ s.ended + 1)
session_run-Delivered takes s s' result small h = subst (Settles takes s) h (settled takes s small)
