-- ===== src/Client/Tests.antt =====
-- Runs of the two threads of src/tcp_nmea_client.c.
use esp_nmea_bridge.Prelude.{◌≡◌, refl, Bool, true, false, none, some, []}
use esp_nmea_bridge.Client.{
  socket_of, idle, disabled, running, Shared, client_start, shutdown, Env, thread_step,
  client_changed, listener_step, apply_config, Reaches, starts, runs, listens, applies,
}
use esp_nmea_bridge.Client.Safe.{Safe}
use esp_nmea_bridge.Client.Inv.{Reaches-Safe}
use esp_nmea_bridge.Client.Wake.{disabled-awoken}
use esp_nmea_bridge.Config.{TcpClient}

abbrev switched : Bool → TcpClient
switched b = record { enabled = b; host = []; port = 10110 }

-- Every call of the thread succeeds, and the socket is 4.
abbrev works : Env
works = record { times_out = false; resolves = true; opens = some 4; connects = true }

-- The client was disabled and is enabled.
abbrev enabled_later : Shared
enabled_later = record {
  config = switched true;
  listener = idle;
  seen_cfg = some (switched true);
  config_gen = 1;
  config_change_sem = 1;
  session_fd = none;
  socket = none;
  stray = 0;
  backoff_s = 1;
  led_connecting = false;
}

enabled_later-Reaches : Reaches (switched false) (disabled 0) enabled_later
unfolding client_start thread_step listener_step apply_config client_changed
enabled_later-Reaches =
    listens (listens (listens (listens (applies (switched true) (runs works (runs works starts))))))

disabled-awoken_example : enabled_later.config_change_sem ≡ 1
disabled-awoken_example = disabled-awoken enabled_later-Reaches refl refl

-- A session runs, the client is disabled, and the listener ends the session.
abbrev ended_session : Shared
ended_session = record {
  config = switched false;
  listener = idle;
  seen_cfg = some (switched false);
  config_gen = 1;
  config_change_sem = 1;
  session_fd = some 4;
  socket = some (socket_of 4 true true);
  stray = 0;
  backoff_s = 1;
  led_connecting = false;
}

abbrev in_session : Shared
in_session = record (client_start (switched true)) {
  session_fd = some 4;
  socket = some (socket_of 4 true false);
}

in_session-Reaches : Reaches (switched true) (running 0 (switched true) 4) in_session
unfolding client_start thread_step
in_session-Reaches = runs works (
    runs works (runs works (runs works (runs works (runs works (runs works (runs works starts)))))))

ended_session-Reaches : Reaches (switched true) (running 0 (switched true) 4) ended_session
unfolding client_start listener_step apply_config client_changed shutdown
ended_session-Reaches =
    listens (listens (listens (listens (applies (switched false) in_session-Reaches))))

Reaches-Safe_example : Safe (running 0 (switched true) 4) ended_session
Reaches-Safe_example = Reaches-Safe ended_session-Reaches
