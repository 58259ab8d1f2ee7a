-- ===== src/Session.antt =====
-- src/tcp_nmea_session.c and tcp_nmea_session.h: one TCP connection, from the opening of its sink to
-- its closing. What the socket and the sink answer is given as the lists of their answers, a list for
-- each kind of call; `none` means that a call still waits for its answer. Calls to the status LED
-- are counted.
pub mod Sending
pub mod Rounds
pub mod Delivery
mod Tests
use esp_nmea_bridge.Prelude.{
  ℕ, zero, suc, ◌+◌, ◌-◌, ◌^◌, Bool, true, false, List, [], ◌∷◌, ◌++◌, Option, none, some, ltb,
  if◌then◌else◌, length, take, drop,
}
use esp_nmea_bridge.Prelude.CString.{Bytes}
use esp_nmea_bridge.Prelude.Byte.{u32}

-- `enum tcp_nmea_session_result`
pub data Ended : Type 0 where
  peer_closed send_failed sink_unavailable rx_failed : Ended

-- `zsock_recv` with ZSOCK_MSG_DONTWAIT: bytes, zero, EAGAIN or EWOULDBLOCK, another error.
pub data Recv : Type 0 where
  bytes closed would_block recv_error : Recv

-- `zsock_send`: a number of bytes, EAGAIN or EWOULDBLOCK or EINTR, another error.
pub data Send : Type 0 where
  taken : ℕ → Send
  again send_error : Send

-- `nmea_bridge_sink_take`: a frame, ENOTCONN, another error.
pub data Take : Type 0 where
  frame : Bytes → Take
  not_connected no_frame : Take

-- What a session has done: the bytes that the socket took, and the calls to the status LED; with
-- `active_sessions`, the number of open sinks, and the answers that are left.
pub record Session : Type 0 where
  pub active_sessions : ℕ
  pub open_sinks : ℕ
  pub started : ℕ
  pub ended : ℕ
  pub wire : Bytes
  pub forwarded : ℕ
  pub failures : ℕ
  pub recvs : List Recv
  pub sends : List Send

-- `drain_socket_rx`: the result of a session that has ended, and the answers that are left.
unfoldable pub drain_socket_rx : List Recv → Option (Option Ended × List Recv)
drain_socket_rx [] = none
drain_socket_rx (bytes ∷ recvs) = drain_socket_rx recvs
drain_socket_rx (closed ∷ recvs) = some (some peer_closed, recvs)
drain_socket_rx (would_block ∷ recvs) = some (none, recvs)
drain_socket_rx (recv_error ∷ recvs) = some (some rx_failed, recvs)

-- The bytes that one `zsock_send` took, before those of the calls that follow.
abbrev pub took : Bytes → Option (Bool × Bytes × List Send) → Option (Bool × Bytes × List Send)
took first none = none
took first (some (is_failed, sent, sends)) = some (is_failed, first ++ sent, sends)

-- `send_all` from `sent_total` on: whether it failed, the bytes that the socket took, and the answers
-- that are left. Each `zsock_send` is offered the bytes from `sent_total` on, and takes the first of
-- them.
unfoldable pub send_all : Bytes → ℕ → List Send → Option (Bool × Bytes × List Send)
send_all data' sent_total [] = if ltb sent_total (length data') then none else some (false, [], [])
send_all data' sent_total (taken zero ∷ sends) =
    if ltb sent_total (length data')
    then some (true, [], sends)
    else some (false, [], taken zero ∷ sends)
send_all data' sent_total (taken (suc n) ∷ sends) = elim (ltb sent_total (length data')) [
  | false ↦ some (false, [], taken (suc n) ∷ sends)
  | true ↦ took (take (suc n) (drop sent_total data')) (send_all data' (sent_total + suc n) sends)
]
send_all data' sent_total (again ∷ sends) = elim (ltb sent_total (length data')) [
  | false ↦ some (false, [], again ∷ sends)
  | true ↦ send_all data' sent_total sends
]
send_all data' sent_total (send_error ∷ sends) =
    if ltb sent_total (length data')
    then some (true, [], sends)
    else some (false, [], send_error ∷ sends)

-- A frame that was taken: `send_all`, and the call to the status LED behind it.
unfoldable pub forward : Bytes → Session → Option (Bool × Session)
forward data' s = elim (send_all data' 0 s.sends) [
  | none ↦ none
  | some (true, sent, sends) ↦
      some (true, record s { wire = s.wire ++ sent; failures = s.failures + 1; sends = sends })
  | some (false, sent, sends) ↦
      some (false, record s { wire = s.wire ++ sent; forwarded = s.forwarded + 1; sends = sends })
]

-- A round of the loop of `tcp_nmea_session_run`, behind its first drain; `next` are the rounds that
-- follow.
unfoldable pub round :
    Take → Session → (Session → Option (Ended × Session)) → Option (Ended × Session)
round not_connected s next = some (peer_closed, s)
round no_frame s next = next s
round (frame data') s next = elim (forward data' s) [
  | none ↦ none
  | some (true, s') ↦ some (send_failed, s')
  | some (false, s') ↦ elim (drain_socket_rx s'.recvs) [
    | none ↦ none
    | some (some result, recvs) ↦ some (result, record s' { recvs = recvs })
    | some (none, recvs) ↦ next (record s' { recvs = recvs })
  ]
]

-- The loop of `tcp_nmea_session_run`, a round for each answer of the sink.
unfoldable pub run_rounds : List Take → Session → Option (Ended × Session)
run_rounds [] s = elim (drain_socket_rx s.recvs) [
  | none ↦ none
  | some (some result, recvs) ↦ some (result, record s { recvs = recvs })
  | some (none, recvs) ↦ none
]
run_rounds (t ∷ takes) s = elim (drain_socket_rx s.recvs) [
  | none ↦ none
  | some (some result, recvs) ↦ some (result, record s { recvs = recvs })
  | some (none, recvs) ↦ round t (record s { recvs = recvs }) (λ s'. run_rounds takes s')
]

-- `tcp_nmea_session_run`; `opened` says that `nmea_bridge_sink_open` returned 0.
unfoldable pub session_run : Bool → List Take → Session → Option (Ended × Session)
session_run false takes s = some (sink_unavailable, s)
session_run true takes s =
    elim (run_rounds takes (record s {
      open_sinks = s.open_sinks + 1;
      active_sessions = u32 (s.active_sessions + 1);
      started = s.started + 1;
    })) [
      | none ↦ none
      | some (result, s') ↦ some (
        result,
        record s' {
          ended = s'.ended + 1;
          active_sessions = u32 (s'.active_sessions + (2 ^ 32 - 1));
          open_sinks = s'.open_sinks - 1;
        },
      )
    ]
