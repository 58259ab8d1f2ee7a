-- ===== src/Client/Inv.antt =====
-- What holds of the client's socket at every place of src/tcp_nmea_client.c where the two threads can
-- stand.
use esp_nmea_bridge.Prelude.{
  ℕ, ◌+◌, ◌≡◌, ◌≢◌, inl, inr, refl, ◌≤◌, true, false, none, some, ◌==◌, ◌!=◌, ◌∙◌, if-either,
  option-either, arith, Bool-cases,
}
use esp_nmea_bridge.Client.{
  socket_of, idle, locks, Pc, top, backing_off, started, disabled, resolving, waiting, woken,
  opening, opened, registered, connecting, connected, running, dropping, giving_up, over, Shared,
  client_start, Env, unregister, thread_step, longer, Reaches, starts, runs, listens, applies,
}
use esp_nmea_bridge.Prelude.Byte.{u32}
use esp_nmea_bridge.Config.{TcpClient}
use esp_nmea_bridge.Client.Safe.{
  held, Owns, Informed, Safe, shutdown-own, listener_step-Safe, apply_config-Safe,
}

-- The thread at a place, with what its step left.
abbrev Lands : Pc × Shared → Type 0
Lands r = Safe r.0 r.1

-- A step to a place with the same socket, where no session is told anything.
moves :
    {pc : Pc} {s : Shared} (next : Pc) (t : Shared)
    → Owns (held next) t.socket t.session_fd
    → Informed next t
    → t.stray ≡ s.stray
    → (1 ≤ t.backoff_s) × (t.backoff_s ≤ 30)
    → Safe pc s
    → Safe next t
moves next t o n k b i = record { owns = o; clean = k ∙ i.clean; informed = n; short = b }

longer-short : (n : ℕ) → 1 ≤ n → n ≤ 30 → (1 ≤ longer n) × (longer n ≤ 30)
unfolding longer
longer-short n h k = (omega arith, omega arith)

unregister-Lands :
    (here next : Pc) (s : Shared)
    → Owns (held next) none none
    → ((t : Shared) → Informed next t)
    → Safe here s
    → Lands (unregister here next s)
unfolding unregister
unregister-Lands here next s o n i =
    if-either Lands (locks s.listener) (λ _. i)
      (λ _. record { owns = o; clean = i.clean; informed = n _; short = i.short })

thread_step-Safe : (env : Env) (pc : Pc) (s : Shared) → Safe pc s → Lands (thread_step env pc s)
unfolding thread_step
thread_step-Safe env top s i = moves (started s.config_gen) s i.owns tt refl i.short i
thread_step-Safe env (started gen) s i =
    if-either Lands s.config.enabled
      (λ _. moves (resolving gen s.config 0) s i.owns tt refl i.short i)
      (λ _. moves (disabled gen) _ i.owns tt refl i.short i)
thread_step-Safe env (disabled gen) s i =
    if-either Lands (s.config_change_sem == 1)
      (λ _. moves top _ i.owns tt refl (omega arith, omega arith) i) (λ _. i)
thread_step-Safe env (resolving gen cfg n) s i =
    if-either Lands env.resolves (λ _. moves (opening gen cfg) _ i.owns tt refl i.short i)
      (λ _. moves (waiting gen cfg (u32 (n + 1))) _ i.owns tt refl i.short i)
thread_step-Safe env (waiting gen cfg n) s i =
    if-either Lands (s.config_change_sem == 1)
      (λ _. moves (woken gen cfg n) _ i.owns tt refl i.short i)
      (λ _.
        if-either Lands env.times_out (λ _. moves (woken gen cfg n) s i.owns tt refl i.short i)
          (λ _. i))
thread_step-Safe env (woken gen cfg n) s i =
    if-either Lands (s.config_gen != gen)
      (λ _. moves top _ i.owns tt refl (omega arith, omega arith) i)
      (λ _. moves (resolving gen cfg n) s i.owns tt refl i.short i)
thread_step-Safe env (opening gen cfg) s i =
    option-either Lands env.opens (moves backing_off s i.owns tt refl i.short i)
      (λ fd. moves (opened gen cfg fd) _ (refl, i.owns.1) tt refl i.short i)
thread_step-Safe env (opened gen cfg fd) s i =
    if-either Lands (locks s.listener) (λ _. i)
      (λ _. moves (registered gen cfg fd) _ (false, i.owns.0, refl) tt refl i.short i)
thread_step-Safe env (registered gen cfg fd) s i =
    if-either Lands (s.config_gen != gen) (λ _. moves (dropping fd) s i.owns tt refl i.short i)
      (λ _. moves (connecting gen cfg fd) s i.owns tt refl i.short i)
thread_step-Safe env (dropping fd) s i =
    unregister-Lands (dropping fd) top s (refl, refl) (λ t. tt) i
thread_step-Safe env (connecting gen cfg fd) s i =
    let f = i.owns in
    if-either Lands env.connects
      (λ _. moves (connected gen cfg fd) _ (false, refl, i.owns.2) tt refl i.short i)
      (λ _. moves (giving_up fd) s i.owns tt refl i.short i)
thread_step-Safe env (giving_up fd) s i =
    unregister-Lands (giving_up fd) backing_off s (refl, refl) (λ t. tt) i
thread_step-Safe env (connected gen cfg fd) s i =
    let w = shutdown-own fd true i.owns.0 s i.owns.1 in
    elim (Bool-cases (s.config_gen != gen)) [
      | inl e ↦ rw e (
          moves (running gen cfg fd) _ (true, w.socket, w.session_fd ∙ i.owns.2)
            (inr (inl w.socket)) w.stray (omega arith, omega arith) i)
      | inr e ↦ rw e (
          moves (running gen cfg fd) _ i.owns (inl (ground arith)) refl (omega arith, omega arith)
            i)
    ]
thread_step-Safe env (running gen cfg fd) s i = moves (over fd) s i.owns tt refl i.short i
thread_step-Safe env (over fd) s i =
    if-either Lands (locks s.listener) (λ _. i)
      (λ _. moves backing_off _ (refl, refl) tt refl i.short i)
thread_step-Safe env backing_off s i =
    let b = longer-short s.backoff_s i.short.0 i.short.1 in
    if-either Lands (s.config_change_sem == 1) (λ _. moves top _ i.owns tt refl b i)
      (λ _. if-either Lands env.times_out (λ _. moves top _ i.owns tt refl b i) (λ _. i))

-- At every state that the two threads come to: the thread's socket and `session_fd` are as its place
-- says, no shutdown has hit a descriptor other than the thread's open socket, a session that runs with
-- a generation that is not the current one has its socket shut down or the listener holds the lock
-- before doing so, and the back-off is from 1 to 30 seconds.
pub Reaches-Safe : {config : TcpClient} {pc : Pc} {s : Shared} → Reaches config pc s → Safe pc s
unfolding client_start
Reaches-Safe starts = record {
  owns = (refl, refl);
  clean = refl;
  informed = tt;
  short = (omega arith, omega arith);
}
Reaches-Safe (runs {pc} {s} env r) = thread_step-Safe env pc s (Reaches-Safe r)
Reaches-Safe (listens {pc} {s} r) = listener_step-Safe pc s.listener s refl (Reaches-Safe r)
Reaches-Safe (applies {pc} {s} cfg r) = apply_config-Safe pc cfg s.listener s refl (Reaches-Safe r)

-- A session that runs with a generation that is not the current one, when the listener has returned,
-- has its socket shut down.
pub stale-Shut :
    {config : TcpClient} {gen : ℕ} {cfg : TcpClient} {fd : ℕ} {s : Shared}
    → Reaches config (running gen cfg fd) s
    → s.config_gen ≢ gen
    → s.listener ≡ idle
    → s.socket ≡ some (socket_of fd true true)
stale-Shut {gen = gen} {fd = fd} {s = s} r n l = elim ((Reaches-Safe r).informed) [
  | inl e ↦ absurd (n e)
  | inr (inl e) ↦ e
  | inr (inr e) ↦ cc
]
