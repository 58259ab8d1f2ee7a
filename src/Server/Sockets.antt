-- ===== src/Server/Sockets.antt =====
-- src/tcp_nmea_server.c: no socket is lost or closed twice.
use esp_nmea_bridge.Prelude.{
  ℕ, zero, suc, ◌+◌, ◌≤◌, ◌≡◌, refl, ap, sym, ◌∙◌, true, false, List, [], ◌∷◌, Option, none, some,
  if◌then◌else◌, arith, ◌==◌, length, replicate, All, Bool-cases, Option-cases, inl, inr, subst,
}
use mathlib.Core.Option
use esp_nmea_bridge.Server.{
  PeerSlot, TcpServer, server_start, update_at, alloc_peer, accept_peer, fd_at, close_fd,
  release_peer, count_active, server_stats, Reaches, boots, accepts, closes, releases,
}

-- How often `x` stands in a list, and in the slots.
unfoldable pub count : ℕ → List ℕ → ℕ
count x [] = 0
count x (y ∷ ys) = if x == y then 1 + count x ys else count x ys

unfoldable pub holds : ℕ → Option ℕ → ℕ
holds x none = 0
holds x (some y) = if x == y then 1 else 0

unfoldable pub owned : ℕ → List PeerSlot → ℕ
owned x [] = 0
owned x (p ∷ ps) = holds x p.fd + owned x ps

-- A slot that is free has no descriptor.
unfoldable pub Free : PeerSlot → Type 0
Free p = p.active ≡ false → p.fd ≡ none

-- The slots `qs` are `ps` with `fd` in one that was free.
record Taken (fd : ℕ) (ps qs : List PeerSlot) : Type 0 where
  same_length : length qs ≡ length ps
  free : All Free qs
  owns : (x : ℕ) → owned x qs ≡ holds x (some fd) + owned x ps

abbrev Allocates : ℕ → List PeerSlot → Option (ℕ × List PeerSlot) → Type 0
Allocates fd ps none = Unit
Allocates fd ps (some (i, qs)) = Taken fd ps (update_at i (λ p. record p { fd = some fd }) qs)

-- A slot in front that stays.
behind :
    (fd : ℕ) (p : PeerSlot) (ps : List PeerSlot) (r : Option (ℕ × List PeerSlot))
    → Free p
    → Allocates fd ps r
    → Allocates fd (p ∷ ps) (Option.map (λ x. (suc x.0, p ∷ x.1)) r)
unfolding update_at owned
behind fd p ps none h t = tt
behind fd p ps (some (i, qs)) h t = record {
  same_length = ap suc t.same_length;
  free = (h, t.free);
  owns = λ x. omega (arith, t.owns x);
}

alloc_peer-Allocates : (fd : ℕ) (ps : List PeerSlot) → All Free ps → Allocates fd ps (alloc_peer ps)
unfolding alloc_peer update_at owned holds Free
alloc_peer-Allocates fd [] free = tt
alloc_peer-Allocates fd (p ∷ ps) (h, t) = elim (Bool-cases p.active) [
  | inl e ↦
      subst
        (λ b. Allocates fd (p ∷ ps) (
          if b
          then Option.map (λ r. (suc r.0, p ∷ r.1)) (alloc_peer ps)
          else some (0, record { fd = none; active = true } ∷ ps)))
        (sym e) (behind fd p ps (alloc_peer ps) h (alloc_peer-Allocates fd ps t))
  | inr e ↦
      rw (alloc_peer, e)
        (record { same_length = refl; free = (λ a. cc, t); owns = λ x. rw (h e) (omega arith) })
]

count-cons : (x y : ℕ) (ys : List ℕ) → count x (y ∷ ys) ≡ holds x (some y) + count x ys
unfolding count holds
count-cons x y ys = elim (Bool-cases (x == y)) [ inl e ↦ rw e refl | inr e ↦ rw e (omega arith) ]

owned-close :
    (x i fd : ℕ) (ps : List PeerSlot)
    → fd_at i ps ≡ some fd
    → owned x ps ≡ holds x (some fd) + owned x (update_at i (λ p. record p { fd = none }) ps)
unfolding owned fd_at update_at holds
owned-close x i fd [] h = cc
owned-close x zero fd (p ∷ ps) h = rw h (omega arith)
owned-close x (suc i) fd (p ∷ ps) h = omega (arith, owned-close x i fd ps h)

owned-release :
    (x i : ℕ) (ps : List PeerSlot)
    → owned x (update_at i (λ p. record p { active = false }) ps) ≡ owned x ps
unfolding owned update_at
owned-release x i [] = refl
owned-release x zero (p ∷ ps) = refl
owned-release x (suc i) (p ∷ ps) = ap (λ n. holds x p.fd + n) (owned-release x i ps)

length-update_at :
    (i : ℕ) (f : PeerSlot → PeerSlot) (ps : List PeerSlot) → length (update_at i f ps) ≡ length ps
unfolding update_at
length-update_at i f [] = refl
length-update_at zero f (p ∷ ps) = refl
length-update_at (suc i) f (p ∷ ps) = ap suc (length-update_at i f ps)

close-Free :
    (i : ℕ) (ps : List PeerSlot)
    → All Free ps
    → All Free (update_at i (λ p. record p { fd = none }) ps)
unfolding update_at Free
close-Free i [] h = tt
close-Free zero (p ∷ ps) (h, t) = (λ _. refl, t)
close-Free (suc i) (p ∷ ps) (h, t) = (h, close-Free i ps t)

release-Free :
    (i : ℕ) (ps : List PeerSlot)
    → All Free ps
    → fd_at i ps ≡ none
    → All Free (update_at i (λ p. record p { active = false }) ps)
unfolding update_at Free fd_at
release-Free i [] h e = tt
release-Free zero (p ∷ ps) (h, t) e = (λ _. e, t)
release-Free (suc i) (p ∷ ps) (h, t) e = (h, release-Free i ps t e)

-- Every accepted socket is closed or held by a slot.
record Accounted (max_peers : ℕ) (s : TcpServer) : Type 0 where
  slots : length s.peers ≡ max_peers
  free : All Free s.peers
  accounts : (x : ℕ) → count x s.accepted ≡ count x s.closed + owned x s.peers

accept-Accounted :
    (max_peers fd : ℕ) (s : TcpServer)
    → Accounted max_peers s
    → Accounted max_peers (accept_peer fd s)
unfolding accept_peer
accept-Accounted max_peers fd s a =
    let allocates = alloc_peer-Allocates fd s.peers a.free in
    elim (Option-cases (alloc_peer s.peers)) [
      | inl e ↦
          rw (accept_peer, e)
            (record {
              slots = a.slots;
              free = a.free;
              accounts = λ x.
                  omega (arith, a.accounts x, count-cons x fd s.accepted, count-cons x fd s.closed);
            })
      | inr ((i, qs), e) ↦
          let taken = subst (Allocates fd s.peers) e allocates in
          rw (accept_peer, e)
            (record {
              slots = taken.same_length ∙ a.slots;
              free = taken.free;
              accounts = λ x. omega (arith, a.accounts x, count-cons x fd s.accepted, taken.owns x);
            })
    ]

close-Accounted :
    (max_peers i : ℕ) (s : TcpServer) → Accounted max_peers s → Accounted max_peers (close_fd i s)
unfolding close_fd
close-Accounted max_peers i s a = elim (Option-cases (fd_at i s.peers)) [
  | inl e ↦ rw (close_fd, e) a
  | inr (fd, e) ↦
      rw (close_fd, e)
        (record {
          slots = length-update_at i _ s.peers ∙ a.slots;
          free = close-Free i s.peers a.free;
          accounts = λ x.
              omega (arith, a.accounts x, count-cons x fd s.closed, owned-close x i fd s.peers e);
        })
]

start-Free : (n : ℕ) → All Free (replicate n (record { fd = none; active = false }))
unfolding Free
start-Free zero = tt
start-Free (suc n) = (λ _. refl, start-Free n)

owned-start : (x n : ℕ) → owned x (replicate n (record { fd = none; active = false })) ≡ 0
unfolding owned holds
owned-start x zero = refl
owned-start x (suc n) = omega (arith, owned-start x n)

length-start :
    (n : ℕ) → length {A = PeerSlot} (replicate n (record { fd = none; active = false })) ≡ n
length-start zero = refl
length-start (suc n) = ap suc (length-start n)

Reaches-Accounted : (max_peers : ℕ) (s : TcpServer) → Reaches max_peers s → Accounted max_peers s
unfolding server_start release_peer count
Reaches-Accounted n s boots = record {
  slots = length-start n;
  free = start-Free n;
  accounts = λ x. omega (arith, owned-start x n);
}
Reaches-Accounted n s (accepts fd r) = accept-Accounted n fd _ (Reaches-Accounted n _ r)
Reaches-Accounted n s (closes i r) = close-Accounted n i _ (Reaches-Accounted n _ r)
Reaches-Accounted n s (releases i e r) =
    let a = Reaches-Accounted n _ r in
    record {
      slots = length-update_at i _ _ ∙ a.slots;
      free = release-Free i _ a.free e;
      accounts = λ x. omega (arith, a.accounts x, owned-release x i _);
    }

count_active-le : (ps : List PeerSlot) → count_active ps ≤ length ps
unfolding count_active
count_active-le [] = omega arith
count_active-le (p ∷ ps) = ground (arith, count_active-le ps)

-- In every state that the TCP server comes to, however its accepts and the two halves of its peers'
-- `close_peer` interleave: each accepted socket has been closed or is held by a slot, once for each
-- time that it was accepted, so none is lost and none is closed twice; a free slot holds none; and
-- the statistics report at most `max_peers` active peers of `max_peers`.
pub reachable-accounts :
    (max_peers : ℕ) (s : TcpServer)
    → Reaches max_peers s
    → ((x : ℕ) → count x s.accepted ≡ count x s.closed + owned x s.peers)
      × (All Free s.peers)
      × ((server_stats s).0 ≤ max_peers)
      × ((server_stats s).1 ≡ max_peers)
unfolding server_stats
reachable-accounts max_peers s r =
    let a = Reaches-Accounted max_peers s r in
    (a.accounts, a.free, omega (arith, count_active-le s.peers, a.slots), a.slots)
