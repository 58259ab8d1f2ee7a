-- ===== src/Server/Tests.antt =====
-- A server of one slot: a peer, one more that is turned away, and the end of the first.
use esp_nmea_bridge.Prelude.{ℕ, ◌+◌, ◌≤◌, ◌≡◌, refl, none, All}
use esp_nmea_bridge.Server.{
  TcpServer, server_start, update_at, alloc_peer, accept_peer, fd_at, close_fd, release_peer,
  server_stats, Reaches, boots, accepts, closes, releases,
}
use esp_nmea_bridge.Server.Sockets.{count, owned, Free, reachable-accounts}

abbrev turned_away : TcpServer
turned_away = accept_peer 8 (accept_peer 7 (server_start 1))

abbrev idle : TcpServer
idle = release_peer 0 (close_fd 0 turned_away)

slot-closed : fd_at 0 (close_fd 0 turned_away).peers ≡ none
unfolding server_start accept_peer alloc_peer update_at fd_at close_fd
slot-closed = refl

idle-Reaches : Reaches 1 idle
idle-Reaches = releases 0 slot-closed (closes 0 (accepts 8 (accepts 7 boots)))

reachable-accounts_example :
    ((x : ℕ) → count x idle.accepted ≡ count x idle.closed + owned x idle.peers)
    × (All Free idle.peers)
    × ((server_stats idle).0 ≤ 1)
    × ((server_stats idle).1 ≡ 1)
reachable-accounts_example = reachable-accounts 1 idle idle-Reaches
