-- ===== src/Session/Tests.antt =====
-- A session of two frames, the second cut off, and the theorems at it.
use esp_nmea_bridge.Prelude.{
  ◌+◌, ◌≡◌, refl, true, false, ◌≤◌, List, [], ◌∷◌, ◌++◌, some, arith, length,
}
use esp_nmea_bridge.Prelude.CString.{Bytes}
use esp_nmea_bridge.Session.{
  send_failed, would_block, bytes, taken, again, send_error, Take, frame, no_frame, Session,
  drain_socket_rx, send_all, forward, round, run_rounds, session_run,
}
use esp_nmea_bridge.Session.Sending.{capacity, NoError, forward_completes}
use esp_nmea_bridge.Session.Rounds.{frames_of, Delivered}
use esp_nmea_bridge.Session.Delivery.{session_run-Delivered}

abbrev session : Session
session = record {
  active_sessions = 1;
  open_sinks = 1;
  started = 1;
  ended = 0;
  wire = [];
  forwarded = 0;
  failures = 0;
  recvs = would_block ∷ bytes ∷ would_block ∷ would_block ∷ would_block ∷ would_block ∷ [];
  sends = taken 1 ∷ again ∷ taken 2 ∷ taken 1 ∷ send_error ∷ [];
}

abbrev takes : List Take
takes = frame (1 ∷ 2 ∷ 3 ∷ []) ∷ no_frame ∷ frame (4 ∷ 5 ∷ []) ∷ []

abbrev over : Session
over = record {
  active_sessions = 1;
  open_sinks = 1;
  started = 2;
  ended = 1;
  wire = 1 ∷ 2 ∷ 3 ∷ 4 ∷ [];
  forwarded = 1;
  failures = 1;
  recvs = would_block ∷ [];
  sends = [];
}

session-runs : session_run true takes session ≡ some (send_failed, over)
unfolding session_run run_rounds round forward send_all drain_socket_rx
session-runs = refl

session_run-Delivered_example :
    Delivered (frames_of takes) session send_failed over
    × (over.active_sessions ≡ session.active_sessions)
    × (over.open_sinks ≡ session.open_sinks)
    × (over.started ≡ session.started + 1)
    × (over.ended ≡ session.ended + 1)
session_run-Delivered_example =
    session_run-Delivered takes session over send_failed (omega arith) session-runs

abbrev three : Bytes
three = 1 ∷ 2 ∷ 3 ∷ []

abbrev ready : Session
ready = record session { sends = taken 1 ∷ again ∷ taken 2 ∷ [] }

ready-NoError : NoError ready.sends
unfolding NoError
ready-NoError = tt

ready-fits : length three ≤ capacity ready.sends
unfolding capacity
ready-fits = omega arith

forward_completes_example :
    (s' : Session) × (forward three ready ≡ some (false, s'))
    × (s'.wire ≡ ready.wire ++ three)
    × (s'.forwarded ≡ ready.forwarded + 1)
    × (s'.failures ≡ ready.failures)
forward_completes_example = forward_completes three ready ready-NoError ready-fits
