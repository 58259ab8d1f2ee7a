-- ===== src/Client/Safe.antt =====
-- The socket, the session and the back-off of src/tcp_nmea_client.c, and the steps of the listener.
use esp_nmea_bridge.Prelude.{
  ℕ, ◌≡◌, ◌⊎◌, inl, inr, refl, ap, subst, ◌≤◌, Bool, true, false, Option, none, some, if◌then◌else◌,
  ==_refl, ◌∙◌, sym, if-either, arith,
}
use esp_nmea_bridge.Client.{
  Socket, socket_of, Listener, idle, called, read, bumped, given, locks, Pc, opened, registered,
  connecting, connected, running, dropping, giving_up, over, Shared, shutdown, client_changed,
  listener_step, apply_config,
}
use esp_nmea_bridge.Config.{TcpClient}

-- What the thread holds: no socket, one that the listener cannot reach yet, or the one that the
-- listener would reach, connected or not.
pub data Holds : Type 0 where
  bare : Holds
  fresh : ℕ → Holds
  shared : ℕ → Bool → Holds

abbrev pub held : Pc → Holds
held (opened _ _ fd) = fresh fd
held (registered _ _ fd) = shared fd false
held (connecting _ _ fd) = shared fd false
held (dropping fd) = shared fd false
held (giving_up fd) = shared fd false
held (connected _ _ fd) = shared fd true
held (running _ _ fd) = shared fd true
held (over fd) = shared fd true
held _ = bare

-- The socket and `session_fd` for what the thread holds.
abbrev pub Owns : Holds → Option Socket → Option ℕ → Type 0
Owns bare k f = (k ≡ none) × (f ≡ none)
Owns (fresh fd) k f = (k ≡ some (socket_of fd false false)) × (f ≡ none)
Owns (shared fd c) k f = (b : Bool) × (k ≡ some (socket_of fd c b)) × (f ≡ some fd)

-- The session with the generation `gen` has the current one, or its socket is shut down, or the
-- listener is about to do so.
abbrev pub Told : ℕ → ℕ → Shared → Type 0
Told gen fd s =
    (s.config_gen ≡ gen) ⊎ (s.socket ≡ some (socket_of fd true true)) ⊎ (locks s.listener ≡ true)

abbrev pub Informed : Pc → Shared → Type 0
Informed (running gen _ fd) s = Told gen fd s
Informed _ s = Unit

-- The socket is as it should be, no shutdown has hit another descriptor, and the session is told.
pub record Safe (pc : Pc) (s : Shared) : Type 0 where
  pub owns : Owns (held pc) s.socket s.session_fd
  pub clean : s.stray ≡ 0
  pub informed : Informed pc s
  pub short : (1 ≤ s.backoff_s) × (s.backoff_s ≤ 30)

-- What a shutdown of the thread's own socket does.
pub record Shuts (fd : ℕ) (c b : Bool) (s t : Shared) : Type 0 where
  pub socket : t.socket ≡ some (socket_of fd c (if c then true else b))
  pub session_fd : t.session_fd ≡ s.session_fd
  pub stray : t.stray ≡ s.stray
  pub config_gen : t.config_gen ≡ s.config_gen
  pub backoff_s : t.backoff_s ≡ s.backoff_s

pub shutdown-own :
    (fd : ℕ) (c b : Bool) (s : Shared)
    → s.socket ≡ some (socket_of fd c b)
    → Shuts fd c b s (shutdown fd s)
unfolding shutdown
shutdown-own fd true b s h =
    rw (h, ==_refl fd)
      (record {
        socket = refl;
        session_fd = refl;
        stray = refl;
        config_gen = refl;
        backoff_s = refl;
      })
shutdown-own fd false b s h =
    rw (h, ==_refl fd)
      (record {
        socket = refl;
        session_fd = refl;
        stray = refl;
        config_gen = refl;
        backoff_s = refl;
      })

-- A connected socket that the listener reaches is shut down.
abbrev Ends : Holds → Option Socket → Type 0
Ends (shared fd true) k = k ≡ some (socket_of fd true true)
Ends _ k = Unit

-- What the end of the listener leaves.
record Ended (h : Holds) (s t : Shared) : Type 0 where
  owns : Owns h t.socket t.session_fd
  stray : t.stray ≡ s.stray
  backoff_s : t.backoff_s ≡ s.backoff_s
  ended : Ends h t.socket

given-some :
    (fd : ℕ) (s : Shared)
    → s.session_fd ≡ some fd
    → listener_step given s ≡ shutdown fd (record s { listener = idle })
unfolding listener_step
given-some fd s h =
    ap
      (λ f. elim (f) [
        | none ↦ record s { listener = idle }
        | some x ↦ shutdown x (record s { listener = idle })
      ])
      h

given-none :
    (s : Shared) → s.session_fd ≡ none → listener_step given s ≡ record s { listener = idle }
unfolding listener_step
given-none s h =
    ap
      (λ f. elim (f) [
        | none ↦ record s { listener = idle }
        | some x ↦ shutdown x (record s { listener = idle })
      ])
      h

given-Ended :
    (h : Holds) (s : Shared) → Owns h s.socket s.session_fd → Ended h s (listener_step given s)
given-Ended bare s (k, f) =
    subst (Ended bare s) (sym (given-none s f))
      (record { owns = (k, f); stray = refl; backoff_s = refl; ended = tt })
given-Ended (fresh fd) s (k, f) =
    subst (Ended (fresh fd) s) (sym (given-none s f))
      (record { owns = (k, f); stray = refl; backoff_s = refl; ended = tt })
given-Ended (shared fd true) s (b, k, f) =
    let w = shutdown-own fd true b (record s { listener = idle }) k in
    subst (Ended (shared fd true) s) (sym (given-some fd s f)) (record {
      owns = (true, w.socket, w.session_fd ∙ f);
      stray = w.stray;
      backoff_s = w.backoff_s;
      ended = w.socket;
    })
given-Ended (shared fd false) s (b, k, f) =
    let w = shutdown-own fd false b (record s { listener = idle }) k in
    subst (Ended (shared fd false) s) (sym (given-some fd s f)) (record {
      owns = (b, w.socket, w.session_fd ∙ f);
      stray = w.stray;
      backoff_s = w.backoff_s;
      ended = tt;
    })

-- A session whose socket is shut down is told.
Ends-Informed : (pc : Pc) (s : Shared) → Ends (held pc) s.socket → Informed pc s
Ends-Informed (running gen cfg fd) s h = inr (inl h)
Ends-Informed _ s h = tt

-- A session is told while the listener holds the lock.
locks-Informed : (pc : Pc) (s : Shared) → locks s.listener ≡ true → Informed pc s
locks-Informed (running gen cfg fd) s h = inr (inr h)
locks-Informed _ s h = tt

-- What a session is told stands when the listener has not taken the lock.
Informed-free :
    (pc : Pc) (s t : Shared)
    → locks s.listener ≡ false
    → t.config_gen ≡ s.config_gen
    → t.socket ≡ s.socket
    → Informed pc s
    → Informed pc t
Informed-free (running gen cfg fd) s t h g k (inl e) = inl (g ∙ e)
Informed-free (running gen cfg fd) s t h g k (inr (inl e)) = inr (inl (k ∙ e))
Informed-free (running gen cfg fd) s t h g k (inr (inr e)) = cc
Informed-free _ s t h g k i = tt

pub listener_step-Safe :
    (pc : Pc) (l : Listener) (s : Shared) → s.listener ≡ l → Safe pc s → Safe pc (listener_step l s)
unfolding listener_step
listener_step-Safe pc idle s e i = i
listener_step-Safe pc called s e i = record {
  owns = i.owns;
  clean = i.clean;
  informed = Informed-free pc s _ (ap locks e) refl refl i.informed;
  short = i.short;
}
listener_step-Safe pc (read cfg) s e i =
    if-either (Safe pc) (client_changed s.seen_cfg cfg)
      (λ _. record {
        owns = i.owns;
        clean = i.clean;
        informed = locks-Informed pc _ refl;
        short = i.short;
      })
      (λ _. record {
        owns = i.owns;
        clean = i.clean;
        informed = Informed-free pc s _ (ap locks e) refl refl i.informed;
        short = i.short;
      })
listener_step-Safe pc bumped s e i = record {
  owns = i.owns;
  clean = i.clean;
  informed = locks-Informed pc _ refl;
  short = i.short;
}
listener_step-Safe pc given s e i =
    let w = given-Ended (held pc) s i.owns in
    record {
      owns = w.owns;
      clean = w.stray ∙ i.clean;
      informed = Ends-Informed pc _ w.ended;
      short = omega (arith, w.backoff_s, i.short);
    }

pub apply_config-Safe :
    (pc : Pc) (cfg : TcpClient) (l : Listener) (s : Shared)
    → s.listener ≡ l
    → Safe pc s
    → Safe pc (apply_config cfg l s)
unfolding apply_config
apply_config-Safe pc cfg idle s e i = record {
  owns = i.owns;
  clean = i.clean;
  informed = Informed-free pc s _ (ap locks e) refl refl i.informed;
  short = i.short;
}
apply_config-Safe pc cfg called s e i = i
apply_config-Safe pc cfg (read c) s e i = i
apply_config-Safe pc cfg bumped s e i = i
apply_config-Safe pc cfg given s e i = i
