-- ===== src/Led/Base.antt =====
-- The base pattern of the status LED: the pulse while connecting, and the session count.
use esp_nmea_bridge.Prelude.{
  ℕ, ◌+◌, ◌-◌, ◌*◌, ◌/◌, ◌%◌, ◌≤◌, ◌≡◌, List, [], ◌∷◌, Option, none, some, arith, ltb,
  if◌then◌else◌, min,
}
use esp_nmea_bridge.Led.{
  rgb, PolicyState, disconnected, connecting, connected, render_connecting,
  tcp_nmea_session_started, tcp_nmea_session_ended, base_state,
}

-- Milliseconds since, or until, the nearest whole second.
abbrev pub from_second : ℕ → ℕ
from_second t = min (t % 1000) (1000 - t % 1000)

-- The pulse is an equal mix of red and green that climbs by 6 steps from 2 to 8 within half a
-- second and falls back: its level at every time, its bounds, its period of a second, and that it
-- grows with the distance from the nearest whole second.
pub render_connecting-pulse :
    (t u : ℕ)
    → (render_connecting t ≡ rgb (2 + 6 * from_second t / 500) (2 + 6 * from_second t / 500) 0)
      × (2 ≤ (render_connecting t).r)
      × ((render_connecting t).r ≤ 8)
      × (render_connecting (t + 1000) ≡ render_connecting t)
      × (from_second t ≤ from_second u → (render_connecting t).r ≤ (render_connecting u).r)
unfolding render_connecting
render_connecting-pulse t u = (ground arith, ground arith, ground arith, ground arith, ground arith)

-- What the TCP sessions report to the LED.
pub data SessionEvent : Type 0 where
  started ended : SessionEvent

unfoldable pub run_sessions : PolicyState → List SessionEvent → PolicyState
run_sessions s [] = s
run_sessions s (started ∷ es) = run_sessions (tcp_nmea_session_started s) es
run_sessions s (ended ∷ es) = run_sessions (tcp_nmea_session_ended s) es

-- The number of sessions open behind a history that starts with `n` of them; `none` where more end
-- than were open, or more than 65535 are open at once.
unfoldable pub open_sessions : ℕ → List SessionEvent → Option ℕ
open_sessions n [] = some n
open_sessions n (started ∷ es) = if ltb n 65535 then open_sessions (n + 1) es else none
open_sessions n (ended ∷ es) = if ltb 0 n then open_sessions (n - 1) es else none

-- Along every possible history of sessions the 16-bit counter is the number of open sessions, and
-- the LED's base state is "connected" exactly when there is one; with none it shows whether the
-- outbound client is connecting.
pub run_sessions-open :
    (es : List SessionEvent) (s : PolicyState) {m : ℕ}
    → open_sessions s.active_tcp_nmea_sessions es ≡ some m
    → ((run_sessions s es).active_tcp_nmea_sessions ≡ m)
      × (base_state (run_sessions s es) ≡ (
          if ltb 0 m
          then connected
          else if s.outbound_tcp_nmea_client_connecting
          then connecting
          else disconnected))
unfolding run_sessions open_sessions base_state tcp_nmea_session_started tcp_nmea_session_ended
run_sessions-open [] s h = ground arith
run_sessions-open (started ∷ es) s {m} h =
    ground (arith, run_sessions-open es (tcp_nmea_session_started s) {m = m})
run_sessions-open (ended ∷ es) s {m} h =
    ground (arith, run_sessions-open es (tcp_nmea_session_ended s) {m = m})
