-- ===== src/Client.antt =====
-- src/tcp_nmea_client.c: the thread that connects to a server, and the listener of the configuration
-- that reaches into it from another thread. A step of either is what it does between two accesses
-- that the other can see; `session_fd_lock` is held while the listener stands behind its comparison.
-- The socket of the thread is kept with the marks that `zsock_connect` and `zsock_shutdown` leave on
-- it; a shutdown of any other descriptor is counted as `stray`.
pub mod Safe
pub mod Inv
pub mod Awake
pub mod Wake
pub mod Resolve
mod Tests
use esp_nmea_bridge.Prelude.{
  ℕ, ◌+◌, ◌*◌, Bool, true, false, not, Option, none, some, ◌==◌, ◌!=◌, if◌then◌else◌, min,
}
use esp_nmea_bridge.Prelude.Byte.{u32}
use esp_nmea_bridge.Config.{TcpClient}
use esp_nmea_bridge.Config.Set.{tcp_changed}

-- A socket: its descriptor, whether it is connected, and whether its reading was shut down.
pub record Socket : Type 0 where
  pub fd : ℕ
  pub is_connected : Bool
  pub is_shut : Bool

abbrev pub socket_of : ℕ → Bool → Bool → Socket
socket_of fd c d = record { fd = fd; is_connected = c; is_shut = d }

-- Where `tcp_nmea_client_config_changed` stands.
pub data Listener : Type 0 where
  idle called : Listener
  read : TcpClient → Listener
  bumped given : Listener

-- The listener holds `session_fd_lock`.
abbrev pub locks : Listener → Bool
locks bumped = true
locks given = true
locks _ = false

-- Where `client_thread` stands, with its local variables: the generation, the configuration, the
-- ticks, the descriptor.
pub data Pc : Type 0 where
  top backing_off : Pc
  started disabled : (gen : ℕ) → Pc
  resolving waiting woken : (gen : ℕ) (cfg : TcpClient) (wait_ticks : ℕ) → Pc
  opening : (gen : ℕ) (cfg : TcpClient) → Pc
  opened registered connecting connected running : (gen : ℕ) (cfg : TcpClient) (fd : ℕ) → Pc
  dropping giving_up over : (fd : ℕ) → Pc

-- The statics, with the configuration of bridge_config.c, `backoff_s` and what the status LED was
-- told last.
pub record Shared : Type 0 where
  pub config : TcpClient
  pub listener : Listener
  pub seen_cfg : Option TcpClient
  pub config_gen : ℕ
  pub config_change_sem : ℕ
  pub session_fd : Option ℕ
  pub socket : Option Socket
  pub stray : ℕ
  pub backoff_s : ℕ
  pub led_connecting : Bool

unfoldable pub client_start : TcpClient → Shared
client_start config = record {
  config = config;
  listener = idle;
  seen_cfg = none;
  config_gen = 0;
  config_change_sem = 0;
  session_fd = none;
  socket = none;
  stray = 0;
  backoff_s = 1;
  led_connecting = false;
}

-- `zsock_shutdown` with ZSOCK_SHUT_RD, which does nothing to a socket that is not connected.
unfoldable pub shutdown : ℕ → Shared → Shared
shutdown fd s = elim s.socket [
  | none ↦ record s { stray = s.stray + 1 }
  | some k ↦
      if not (k.fd == fd)
      then record s { stray = s.stray + 1 }
      else if k.is_connected
      then record s { socket = some (record k { is_shut = true }) }
      else s
]

-- What the calls of a step of the thread answer: whether a wait runs out of time, `resolve_host`,
-- `zsock_socket`, and whether `connect_server` returns 0.
pub record Env : Type 0 where
  pub times_out : Bool
  pub resolves : Bool
  pub opens : Option ℕ
  pub connects : Bool

-- `backoff_s = MIN(backoff_s * 2, 30U)`
unfoldable pub longer : ℕ → ℕ
longer backoff_s = min (u32 (backoff_s * 2)) 30

-- `session_fd = -1` and the closing of the socket, under the lock.
unfoldable pub unregister : Pc → Pc → Shared → Pc × Shared
unregister here next s =
    if locks s.listener then (here, s) else (next, record s { session_fd = none; socket = none })

-- `client_thread`, a step. A wait ends at its time or when the semaphore is given, which it takes.
unfoldable pub thread_step : Env → Pc → Shared → Pc × Shared
thread_step env top s = (started s.config_gen, s)
thread_step env (started gen) s =
    if s.config.enabled
    then (resolving gen s.config 0, s)
    else (disabled gen, record s { led_connecting = false })
thread_step env (disabled gen) s =
    if s.config_change_sem == 1
    then (top, record s { config_change_sem = 0; backoff_s = 1 })
    else (disabled gen, s)
thread_step env (resolving gen cfg wait_ticks) s =
    if env.resolves then (opening gen cfg, record s { led_connecting = true }) else (
      waiting gen cfg (u32 (wait_ticks + 1)),
      record s { led_connecting = if wait_ticks == 0 then false else s.led_connecting },
    )
thread_step env (waiting gen cfg wait_ticks) s =
    if s.config_change_sem == 1
    then (woken gen cfg wait_ticks, record s { config_change_sem = 0 })
    else if env.times_out
    then (woken gen cfg wait_ticks, s)
    else (waiting gen cfg wait_ticks, s)
thread_step env (woken gen cfg wait_ticks) s =
    if s.config_gen != gen
    then (top, record s { backoff_s = 1 })
    else (resolving gen cfg wait_ticks, s)
thread_step env (opening gen cfg) s = elim env.opens [
  | none ↦ (backing_off, s)
  | some fd ↦ (opened gen cfg fd, record s { socket = some (socket_of fd false false) })
]
thread_step env (opened gen cfg fd) s =
    if locks s.listener
    then (opened gen cfg fd, s)
    else (registered gen cfg fd, record s { session_fd = some fd })
thread_step env (registered gen cfg fd) s =
    if s.config_gen != gen then (dropping fd, s) else (connecting gen cfg fd, s)
thread_step env (dropping fd) s = unregister (dropping fd) top s
thread_step env (connecting gen cfg fd) s =
    if env.connects
    then (connected gen cfg fd, record s { socket = some (socket_of fd true false) })
    else (giving_up fd, s)
thread_step env (giving_up fd) s = unregister (giving_up fd) backing_off s
thread_step env (connected gen cfg fd) s =
    let t = if s.config_gen != gen then shutdown fd s else s in
    (running gen cfg fd, record t { led_connecting = false; backoff_s = 1 })
thread_step env (running gen cfg fd) s = (over fd, s)
thread_step env (over fd) s =
    if locks s.listener
    then (over fd, s)
    else (backing_off, record s { session_fd = none; socket = none; led_connecting = true })
thread_step env backing_off s =
    if s.config_change_sem == 1
    then (top, record s { config_change_sem = 0; backoff_s = longer s.backoff_s })
    else if env.times_out
    then (top, record s { backoff_s = longer s.backoff_s })
    else (backing_off, s)

-- `changed` of `tcp_nmea_client_config_changed`
unfoldable pub client_changed : Option TcpClient → TcpClient → Bool
client_changed none cfg = true
client_changed (some seen) cfg = tcp_changed seen cfg

-- `tcp_nmea_client_config_changed`, a step.
unfoldable pub listener_step : Listener → Shared → Shared
listener_step idle s = s
listener_step called s = record s { listener = read s.config }
listener_step (read cfg) s =
    if client_changed s.seen_cfg cfg
    then record s { seen_cfg = some cfg; config_gen = u32 (s.config_gen + 1); listener = bumped }
    else record s { seen_cfg = some cfg; listener = idle }
listener_step bumped s = record s { config_change_sem = 1; listener = given }
listener_step given s = elim s.session_fd [
  | none ↦ record s { listener = idle }
  | some fd ↦ shutdown fd (record s { listener = idle })
]

-- A setter of bridge_config.c commits a configuration and calls the listener, when the call before
-- has returned.
unfoldable pub apply_config : TcpClient → Listener → Shared → Shared
apply_config cfg idle s = record s { config = cfg; listener = called }
apply_config cfg _ s = s

-- The states that the two threads come to.
pub data Reaches (config : TcpClient) : Pc → Shared → Type 0 where
  starts : Reaches config top (client_start config)
  runs :
      {pc : Pc} {s : Shared}
      → (env : Env) → Reaches config pc s
      → Reaches config (thread_step env pc s).0 (thread_step env pc s).1
  listens :
      {pc : Pc} {s : Shared} → Reaches config pc s → Reaches config pc (listener_step s.listener s)
  applies :
      {pc : Pc} {s : Shared}
      → (cfg : TcpClient) → Reaches config pc s
      → Reaches config pc (apply_config cfg s.listener s)
