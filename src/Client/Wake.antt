-- ===== src/Client/Wake.antt =====
-- The semaphore of src/tcp_nmea_client.c: a thread that sleeps because the client was disabled is
-- woken when it is enabled.
use esp_nmea_bridge.Prelude.{
  ℕ, ◌≡◌, inl, inr, refl, subst, true, false, ◌==◌, ◌!=◌, if-either, option-either,
}
use esp_nmea_bridge.Client.{
  idle, locks, Pc, top, backing_off, started, disabled, resolving, waiting, woken, opening, opened,
  registered, connecting, connected, running, dropping, giving_up, over, Shared, client_start, Env,
  unregister, thread_step, Reaches, starts, runs, listens, applies,
}
use esp_nmea_bridge.Config.{TcpClient}
use esp_nmea_bridge.Client.Awake.{
  Rests, Woken, Awake, Same, shutdown-Same, listener_step-Awake, apply_config-Awake,
}

-- The thread at a place, with what its step left.
abbrev Lands : Pc × Shared → Type 0
Lands r = Awake r.0 r.1

-- A step to a place where the thread is not disabled.
goes :
    {pc : Pc} {s : Shared} (next : Pc) (t : Shared)
    → Woken next t
    → Same s t
    → Awake pc s
    → Awake next t
goes {pc} {s} next t w e i = record {
  aware = rw (e.config, e.listener, e.seen_cfg) i.aware;
  rest = w;
}

unregister-Lands :
    (here next : Pc) (s : Shared)
    → ((t : Shared) → Woken next t)
    → Awake here s
    → Lands (unregister here next s)
unfolding unregister
unregister-Lands here next s w i =
    if-either Lands (locks s.listener) (λ _. i) (λ _. record { aware = i.aware; rest = w _ })

thread_step-Awake : (env : Env) (pc : Pc) (s : Shared) → Awake pc s → Lands (thread_step env pc s)
unfolding thread_step
thread_step-Awake env top s i = record { aware = i.aware; rest = tt }
thread_step-Awake env (started gen) s i =
    if-either Lands s.config.enabled (λ _. record { aware = i.aware; rest = tt })
      (λ e. record { aware = i.aware; rest = inl e })
thread_step-Awake env (disabled gen) s i =
    if-either Lands (s.config_change_sem == 1) (λ _. record { aware = i.aware; rest = tt }) (λ _. i)
thread_step-Awake env (resolving gen cfg n) s i =
    if-either Lands env.resolves (λ _. record { aware = i.aware; rest = tt })
      (λ _. record { aware = i.aware; rest = tt })
thread_step-Awake env (waiting gen cfg n) s i =
    if-either Lands (s.config_change_sem == 1) (λ _. record { aware = i.aware; rest = tt })
      (λ _. if-either Lands env.times_out (λ _. record { aware = i.aware; rest = tt }) (λ _. i))
thread_step-Awake env (woken gen cfg n) s i =
    if-either Lands (s.config_gen != gen) (λ _. record { aware = i.aware; rest = tt })
      (λ _. record { aware = i.aware; rest = tt })
thread_step-Awake env (opening gen cfg) s i =
    option-either Lands env.opens (record { aware = i.aware; rest = tt })
      (λ fd. record { aware = i.aware; rest = tt })
thread_step-Awake env (opened gen cfg fd) s i =
    if-either Lands (locks s.listener) (λ _. i) (λ _. record { aware = i.aware; rest = tt })
thread_step-Awake env (registered gen cfg fd) s i =
    if-either Lands (s.config_gen != gen) (λ _. record { aware = i.aware; rest = tt })
      (λ _. record { aware = i.aware; rest = tt })
thread_step-Awake env (dropping fd) s i = unregister-Lands (dropping fd) top s (λ t. tt) i
thread_step-Awake env (connecting gen cfg fd) s i =
    if-either Lands env.connects (λ _. record { aware = i.aware; rest = tt })
      (λ _. record { aware = i.aware; rest = tt })
thread_step-Awake env (giving_up fd) s i = unregister-Lands (giving_up fd) backing_off s (λ t. tt) i
thread_step-Awake env (connected gen cfg fd) s i =
    let w = shutdown-Same fd s in
    if-either (λ t. Awake (running gen cfg fd) (record t { led_connecting = false; backoff_s = 1 }))
      (s.config_gen != gen)
      (λ _.
        goes (running gen cfg fd) _ tt
          (record {
            config = w.config;
            listener = w.listener;
            seen_cfg = w.seen_cfg;
            config_change_sem = w.config_change_sem;
          })
          i)
      (λ _. record { aware = i.aware; rest = tt })
thread_step-Awake env (running gen cfg fd) s i = record { aware = i.aware; rest = tt }
thread_step-Awake env (over fd) s i =
    if-either Lands (locks s.listener) (λ _. i) (λ _. record { aware = i.aware; rest = tt })
thread_step-Awake env backing_off s i =
    if-either Lands (s.config_change_sem == 1) (λ _. record { aware = i.aware; rest = tt })
      (λ _. if-either Lands env.times_out (λ _. record { aware = i.aware; rest = tt }) (λ _. i))

Reaches-Awake : {config : TcpClient} {pc : Pc} {s : Shared} → Reaches config pc s → Awake pc s
unfolding client_start
Reaches-Awake starts = record { aware = tt; rest = tt }
Reaches-Awake (runs {pc} {s} env r) = thread_step-Awake env pc s (Reaches-Awake r)
Reaches-Awake (listens {pc} {s} r) = listener_step-Awake pc s.listener s refl (Reaches-Awake r)
Reaches-Awake (applies {pc} {s} cfg r) =
    apply_config-Awake pc cfg s.listener s refl (Reaches-Awake r)

-- No wake-up is lost: when the thread sleeps because the client was disabled, the configuration now
-- enables it and the listener has returned, the semaphore the thread waits for is given.
pub disabled-awoken :
    {config : TcpClient} {gen : ℕ} {s : Shared}
    → Reaches config (disabled gen) s
    → s.config.enabled ≡ true
    → s.listener ≡ idle
    → s.config_change_sem ≡ 1
disabled-awoken {s = s} r h l = elim (subst (Rests _ _ _) l (Reaches-Awake r).rest) [
  | inl e ↦ cc
  | inr (inl e) ↦ e
  | inr (inr e) ↦ absurd e
]
