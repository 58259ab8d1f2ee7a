-- ===== src/Client/Awake.antt =====
-- What a disabled thread of src/tcp_nmea_client.c waits for, and the steps of the listener.
use esp_nmea_bridge.Prelude.{
  ℕ, ◌≡◌, ◌⊎◌, inl, inr, refl, ap, subst, Bool, false, Option, none, some, ◌==◌, if-either, not,
  option-either, arith,
}
use esp_nmea_bridge.Client.{
  Listener, idle, called, read, bumped, given, Pc, disabled, Shared, shutdown, client_changed,
  listener_step, apply_config,
}
use esp_nmea_bridge.Config.{TcpClient}
use esp_nmea_bridge.Config.Set.{tcp_changed}

-- The listener has seen nothing yet, or a configuration with the client as it is.
abbrev Saw : Option TcpClient → Bool → Type 0
Saw none b = Unit
Saw (some c) b = c.enabled ≡ b

-- The listener knows the client's switch, or will read the present configuration.
abbrev Aware : Listener → TcpClient → Option TcpClient → Type 0
Aware (read cfg) config seen = cfg ≡ config
Aware called config seen = Unit
Aware _ config seen = Saw seen config.enabled

-- The listener is at work with something it takes for a change if the client is enabled.
abbrev Coming : Listener → Option TcpClient → Type 0
Coming called seen = Saw seen false
Coming (read cfg) seen = Saw seen false
Coming bumped seen = Unit
Coming _ seen = ⊥

-- A disabled thread: the client is still disabled, the semaphore is given, or the listener will give
-- it.
abbrev pub Rests : Bool → ℕ → Option TcpClient → Listener → Type 0
Rests enabled sem seen l = (enabled ≡ false) ⊎ (sem ≡ 1) ⊎ Coming l seen

abbrev Asleep : Shared → Type 0
Asleep s = Rests s.config.enabled s.config_change_sem s.seen_cfg s.listener

abbrev pub Woken : Pc → Shared → Type 0
Woken (disabled gen) s = Asleep s
Woken _ s = Unit

pub record Awake (pc : Pc) (s : Shared) : Type 0 where
  pub aware : Aware s.listener s.config s.seen_cfg
  pub rest : Woken pc s

-- A disabled thread stays as it is when the listener goes on, if what it waits for does.
stays : (pc : Pc) (s t : Shared) → (Asleep s → Asleep t) → Woken pc s → Woken pc t
stays (disabled gen) s t f i = f i
stays _ s t f i = tt

-- What a shutdown leaves alone.
pub record Same (s t : Shared) : Type 0 where
  pub config : t.config ≡ s.config
  pub listener : t.listener ≡ s.listener
  pub seen_cfg : t.seen_cfg ≡ s.seen_cfg
  pub config_change_sem : t.config_change_sem ≡ s.config_change_sem

same : {s : Shared} → Same s s
same = record { config = refl; listener = refl; seen_cfg = refl; config_change_sem = refl }

pub shutdown-Same : (fd : ℕ) (s : Shared) → Same s (shutdown fd s)
unfolding shutdown
shutdown-Same fd s =
    option-either (Same s) s.socket
      (record { config = refl; listener = refl; seen_cfg = refl; config_change_sem = refl })
      (λ k.
        if-either (Same s) (not (k.fd == fd))
          (λ _. record {
            config = refl;
            listener = refl;
            seen_cfg = refl;
            config_change_sem = refl;
          })
          (λ _.
            if-either (Same s) k.is_connected
              (λ _. record {
                config = refl;
                listener = refl;
                seen_cfg = refl;
                config_change_sem = refl;
              })
              (λ _. same)))

given-Same : (s : Shared) → Same (record s { listener = idle }) (listener_step given s)
unfolding listener_step
given-Same s =
    option-either (Same (record s { listener = idle })) s.session_fd same
      (λ fd. shutdown-Same fd (record s { listener = idle }))

Awake-Same : {pc : Pc} {s t : Shared} → Same s t → Awake pc s → Awake pc t
Awake-Same {pc} {s} {t} e i = record {
  aware = rw (e.config, e.listener, e.seen_cfg) i.aware;
  rest = stays pc s t (λ a. rw (e.config, e.listener, e.seen_cfg, e.config_change_sem) a) i.rest;
}

not_changed :
    (seen : Option TcpClient) (cfg : TcpClient)
    → Saw seen false
    → client_changed seen cfg ≡ false
    → cfg.enabled ≡ false
unfolding client_changed tcp_changed
not_changed none cfg h e = cc
not_changed (some c) cfg h e = ground (arith, h, e)

heard :
    {l : Listener} (s : Shared)
    → s.listener ≡ l
    → Aware s.listener s.config s.seen_cfg
    → Aware l s.config s.seen_cfg
heard s e a = subst (λ l. Aware l s.config s.seen_cfg) e a

-- A listener that takes what it read for no change leaves a disabled thread disabled.
unchanged-Rests :
    (sem : ℕ) (seen : Option TcpClient) (cfg config : TcpClient)
    → cfg ≡ config
    → client_changed seen cfg ≡ false
    → Rests config.enabled sem seen (read cfg)
    → Rests config.enabled sem (some cfg) idle
unchanged-Rests sem seen cfg config e c (inl h) = inl h
unchanged-Rests sem seen cfg config e c (inr (inl h)) = inr (inl h)
unchanged-Rests sem seen cfg config e c (inr (inr h)) =
    inl (subst (λ k. k.enabled ≡ false) e (not_changed seen cfg h c))

pub listener_step-Awake :
    (pc : Pc) (l : Listener) (s : Shared)
    → s.listener ≡ l
    → Awake pc s
    → Awake pc (listener_step l s)
unfolding listener_step
listener_step-Awake pc idle s e i = i
listener_step-Awake pc called s e i = record {
  aware = refl;
  rest = stays pc s _ (subst (Rests _ _ _) e) i.rest;
}
listener_step-Awake pc (read cfg) s e i =
    let r = heard s e i.aware in
    if-either (Awake pc) (client_changed s.seen_cfg cfg)
      (λ c. record {
        aware = ap (λ k. k.enabled) r;
        rest = stays pc s _ (λ a. inr (inr tt)) i.rest;
      })
      (λ c. record {
        aware = ap (λ k. k.enabled) r;
        rest =
            stays pc s _
              (λ a. unchanged-Rests _ s.seen_cfg cfg s.config r c (subst (Rests _ _ _) e a)) i.rest;
      })
listener_step-Awake pc bumped s e i = record {
  aware = heard s e i.aware;
  rest = stays pc s _ (λ a. inr (inl refl)) i.rest;
}
listener_step-Awake pc given s e i =
    Awake-Same (given-Same s)
      (record { aware = heard s e i.aware; rest = stays pc s _ (subst (Rests _ _ _) e) i.rest })

applied-Rests :
    (cfg : TcpClient) (s : Shared)
    → Saw s.seen_cfg s.config.enabled
    → Rests s.config.enabled s.config_change_sem s.seen_cfg idle
    → Rests cfg.enabled s.config_change_sem s.seen_cfg called
applied-Rests cfg s a (inl h) = inr (inr (subst (Saw s.seen_cfg) h a))
applied-Rests cfg s a (inr (inl h)) = inr (inl h)
applied-Rests cfg s a (inr (inr h)) = absurd h

pub apply_config-Awake :
    (pc : Pc) (cfg : TcpClient) (l : Listener) (s : Shared)
    → s.listener ≡ l
    → Awake pc s
    → Awake pc (apply_config cfg l s)
unfolding apply_config
apply_config-Awake pc cfg idle s e i = record {
  aware = tt;
  rest =
      stays pc s _ (λ a. applied-Rests cfg s (heard s e i.aware) (subst (Rests _ _ _) e a)) i.rest;
}
apply_config-Awake pc cfg called s e i = i
apply_config-Awake pc cfg (read c) s e i = i
apply_config-Awake pc cfg bumped s e i = i
apply_config-Awake pc cfg given s e i = i
