-- ===== src/Server.antt =====
-- src/tcp_nmea_server.c: the slots of the TCP server's peers. The thread of the server accepts
-- connections and a thread for each peer runs a session and then `close_peer`, whose closing of the
-- socket and whose release of the slot under the lock are two steps here, since others come between.
-- A file descriptor of -1 is `none`; those that were accepted and closed are listed.
pub mod Sockets
mod Tests
use esp_nmea_bridge.Prelude.{
  ℕ, zero, suc, ◌+◌, ◌≡◌, Bool, true, false, List, [], ◌∷◌, Option, none, some, if◌then◌else◌,
  length, replicate,
}
use mathlib.Core.Option

-- `struct peer_slot`, without its thread.
pub record PeerSlot : Type 0 where
  pub fd : Option ℕ
  pub active : Bool

pub record TcpServer : Type 0 where
  pub peers : List PeerSlot
  pub accepted : List ℕ
  pub closed : List ℕ

-- The slots behind the loop of `tcp_nmea_server_start`.
unfoldable pub server_start : ℕ → TcpServer
server_start max_peers = record {
  peers = replicate max_peers (record { fd = none; active = false });
  accepted = [];
  closed = [];
}

unfoldable pub update_at : ℕ → (PeerSlot → PeerSlot) → List PeerSlot → List PeerSlot
update_at i f [] = []
update_at zero f (p ∷ ps) = f p ∷ ps
update_at (suc i) f (p ∷ ps) = p ∷ update_at i f ps

-- `alloc_peer`: the index of the slot, and the slots.
unfoldable pub alloc_peer : List PeerSlot → Option (ℕ × List PeerSlot)
alloc_peer [] = none
alloc_peer (p ∷ ps) =
    if p.active
    then Option.map (λ r. (suc r.0, p ∷ r.1)) (alloc_peer ps)
    else some (0, record { fd = none; active = true } ∷ ps)

-- A round of the loop of `server_thread` with an accepted connection.
unfoldable pub accept_peer : ℕ → TcpServer → TcpServer
accept_peer fd s = elim (alloc_peer s.peers) [
  | none ↦ record s { accepted = fd ∷ s.accepted; closed = fd ∷ s.closed }
  | some (i, ps) ↦ record s {
    peers = update_at i (λ p. record p { fd = some fd }) ps;
    accepted = fd ∷ s.accepted;
  }
]

-- The descriptor of the slot at an index.
unfoldable pub fd_at : ℕ → List PeerSlot → Option ℕ
fd_at i [] = none
fd_at zero (p ∷ ps) = p.fd
fd_at (suc i) (p ∷ ps) = fd_at i ps

-- The first half of `close_peer`.
unfoldable pub close_fd : ℕ → TcpServer → TcpServer
close_fd i s = elim (fd_at i s.peers) [
  | none ↦ s
  | some fd ↦ record s {
    peers = update_at i (λ p. record p { fd = none }) s.peers;
    closed = fd ∷ s.closed;
  }
]

-- Its second half, under the lock.
unfoldable pub release_peer : ℕ → TcpServer → TcpServer
release_peer i s = record s { peers = update_at i (λ p. record p { active = false }) s.peers }

unfoldable pub count_active : List PeerSlot → ℕ
count_active [] = 0
count_active (p ∷ ps) = if p.active then 1 + count_active ps else count_active ps

-- `tcp_nmea_server_get_stats`: the active peers and the most there can be.
unfoldable pub server_stats : TcpServer → ℕ × ℕ
server_stats s = (count_active s.peers, length s.peers)

-- The states that the server comes to, with `max_peers` slots: the second half of `close_peer` runs
-- behind the first, so the slot has no descriptor then.
pub data Reaches (max_peers : ℕ) : TcpServer → Type 0 where
  boots : Reaches max_peers (server_start max_peers)
  accepts : {s : TcpServer} → (fd : ℕ) → Reaches max_peers s → Reaches max_peers (accept_peer fd s)
  closes : {s : TcpServer} → (i : ℕ) → Reaches max_peers s → Reaches max_peers (close_fd i s)
  releases :
      {s : TcpServer}
      → (i : ℕ) → fd_at i s.peers ≡ none
      → Reaches max_peers s
      → Reaches max_peers (release_peer i s)
