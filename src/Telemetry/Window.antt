-- ===== src/Telemetry/Window.antt =====
-- src/bridge_telemetry.c: the input is shown as active for five seconds after a frame was noticed.
use esp_nmea_bridge.Prelude.{
  ℕ, ◌+◌, ◌≡◌, ◌≢◌, ◌≤◌, ◌<◌, ◌↔◌, ◌⊎◌, inl, inr, refl, ap, sym, true, false, List, [], ◌∷◌, ◌++◌,
  Option, none, some, arith, ltb, Bool-cases, ◌!=◌, subst, ltb→lt,
}
use esp_nmea_bridge.Telemetry.{
  TelemetryState, Inputs, active, telemetry_state, note_frames, input_state_at, build_snapshot,
  nmea_input_window_ms,
}

-- A call of `bridge_telemetry_build_snapshot`, with the inputs it was given and its time.
pub record Call : Type 0 where
  pub inputs : Inputs
  pub now_ms : ℕ

abbrev pub frames : Call → ℕ
frames call = call.inputs.counters_in.bridge_frames_in

pub run : TelemetryState → List Call → TelemetryState
run state [] = state
run state (c ∷ cs) = run (build_snapshot state c.inputs c.now_ms).0 cs

-- The count of frames that the call at time `t` reads is not the one before, which is `before`
-- ahead of the list, or it is the first count and not 0.
pub data Noticed : Option ℕ → List Call → ℕ → Type 0 where
  first : {c : Call} {cs : List Call} → 0 < frames c → Noticed none (c ∷ cs) c.now_ms
  differs :
      {before : ℕ} {c : Call} {cs : List Call}
      → frames c ≢ before
      → Noticed (some before) (c ∷ cs) c.now_ms
  later :
      {o : Option ℕ} {c : Call} {cs : List Call} {t : ℕ}
      → Noticed (some (frames c)) cs t
      → Noticed o (c ∷ cs) t

-- The times do not go back from `t` on.
unfoldable pub Ordered : ℕ → List Call → ℕ → Type 0
Ordered t [] now = t ≤ now
Ordered t (c ∷ cs) now = (t ≤ c.now_ms) × Ordered c.now_ms cs now

-- Something was noticed at most five seconds ago.
pub Recent : Option ℕ → List Call → ℕ → Type 0
Recent before cs now = (t : ℕ) × (Noticed before cs t × (now ≤ t + nmea_input_window_ms))

Shown : Option ℕ → ℕ → Type 0
Shown last now = input_state_at last now ≡ active

AtMost : Option ℕ → ℕ → Type 0
AtMost none t = Unit
AtMost (some m) t = m ≤ t

after : ℕ → Option ℕ → TelemetryState
after count last = record {
  last_bridge_frames_in = count;
  last_bridge_frame_ms = last;
  initialized = true;
}

Shown-recent : (m now : ℕ) → Shown (some m) now → now ≤ m + nmea_input_window_ms
unfolding Shown input_state_at
Shown-recent m now h = ground arith

recent-Shown : (m now : ℕ) → now ≤ m + nmea_input_window_ms → Shown (some m) now
unfolding Shown input_state_at
recent-Shown m now h = ground arith

Shown-mono : (o : Option ℕ) (t now : ℕ) → AtMost o t → Shown o now → Shown (some t) now
unfolding Shown AtMost input_state_at
Shown-mono none t now a h = cc
Shown-mono (some m) t now a h = let r = Shown-recent m now h in recent-Shown t now (omega arith)

note-same :
    (p : ℕ) (m : Option ℕ) (n t : ℕ) → (n != p) ≡ false → note_frames (after p m) n t ≡ after p m
unfolding note_frames after
note-same p m n t e = rw (note_frames, e) refl

note-other :
    (p : ℕ) (m : Option ℕ) (n t : ℕ)
    → (n != p) ≡ true
    → note_frames (after p m) n t ≡ after n (some t)
unfolding note_frames after
note-other p m n t e = rw (note_frames, e) refl

run-cons :
    (s s' : TelemetryState) (c : Call) (cs : List Call)
    → note_frames s (frames c) c.now_ms ≡ s'
    → run s (c ∷ cs) ≡ run s' cs
unfolding run build_snapshot
run-cons s s' c cs e = ap (λ x. run x cs) e

same_of : (n p : ℕ) → (n != p) ≡ false → n ≡ p
same_of n p h = ground arith

other_of : (n p : ℕ) → (n != p) ≡ true → n ≢ p
other_of n p h = ground arith

-- From a state that is initialized.
ShownIff : ℕ → Option ℕ → List Call → ℕ → Type 0
ShownIff p m cs now =
    Shown (run (after p m) cs).last_bridge_frame_ms now ↔ (Recent (some p) cs now ⊎ Shown m now)

after_same :
    (p : ℕ) (m : Option ℕ) (c : Call) (cs : List Call) (now : ℕ)
    → frames c ≡ p
    → Recent (some p) cs now ⊎ Shown m now
    → Recent (some p) (c ∷ cs) now ⊎ Shown m now
unfolding Recent
after_same p m c cs now e (inl (t, (n, w))) =
    inl (t, (later (subst (λ q. Noticed (some q) cs t) (sym e) n), w))
after_same p m c cs now e (inr h) = inr h

before_same :
    (p : ℕ) (m : Option ℕ) (c : Call) (cs : List Call) (now : ℕ)
    → frames c ≡ p
    → Recent (some p) (c ∷ cs) now ⊎ Shown m now
    → Recent (some p) cs now ⊎ Shown m now
unfolding Recent
before_same p m c cs now e (inl (t, (differs d, w))) = absurd (d e)
before_same p m c cs now e (inl (t, (later n, w))) =
    inl (t, (subst (λ q. Noticed (some q) cs t) e n, w))
before_same p m c cs now e (inr h) = inr h

after_other :
    (p : ℕ) (m : Option ℕ) (c : Call) (cs : List Call) (now : ℕ)
    → frames c ≢ p
    → Recent (some (frames c)) cs now ⊎ Shown (some c.now_ms) now
    → Recent (some p) (c ∷ cs) now ⊎ Shown m now
unfolding Recent
after_other p m c cs now d (inl (t, (n, w))) = inl (t, (later n, w))
after_other p m c cs now d (inr h) = inl (c.now_ms, (differs d, Shown-recent c.now_ms now h))

before_other :
    (p : ℕ) (m : Option ℕ) (c : Call) (cs : List Call) (now : ℕ)
    → AtMost m c.now_ms
    → Recent (some p) (c ∷ cs) now ⊎ Shown m now
    → Recent (some (frames c)) cs now ⊎ Shown (some c.now_ms) now
unfolding Recent
before_other p m c cs now a (inl (t, (differs d, w))) = inr (recent-Shown c.now_ms now w)
before_other p m c cs now a (inl (t, (later n, w))) = inl (t, (n, w))
before_other p m c cs now a (inr h) = inr (Shown-mono m c.now_ms now a h)

AtMost-trans : (o : Option ℕ) (t u : ℕ) → AtMost o t → t ≤ u → AtMost o u
unfolding AtMost
AtMost-trans none t u a h = tt
AtMost-trans (some m) t u a h = omega arith

Noticed-nil : {o : Option ℕ} {t : ℕ} → Noticed o [] t → ⊥
Noticed-nil n = elim n [ ]

now_or_nothing :
    (p : ℕ) (m : Option ℕ) (now : ℕ) → Recent (some p) [] now ⊎ Shown m now → Shown m now
unfolding Recent
now_or_nothing p m now (inl (t, (n, w))) = absurd (Noticed-nil n)
now_or_nothing p m now (inr h) = h

run-ShownIff :
    (p : ℕ) (m : Option ℕ) (t : ℕ) (cs : List Call) (now : ℕ)
    → AtMost m t
    → Ordered t cs now
    → ShownIff p m cs now
unfolding ShownIff Ordered run after Recent AtMost
run-ShownIff p m t [] now a o = (λ h. inr h, λ x. now_or_nothing p m now x)
run-ShownIff p m t (c ∷ cs) now a (le, o) =
    let a' = AtMost-trans m t c.now_ms a le in
    elim (Bool-cases (frames c != p)) [
      | inl e ↦
          let d = other_of _ _ e in
          let ih = run-ShownIff (frames c) (some c.now_ms) c.now_ms cs now (omega arith) o in
          let step =
            run-cons (after p m) (after (frames c) (some c.now_ms)) c cs (note-other p m _ _ e) in
          (
            λ h.
                after_other p m c cs now d
                  (ih.0 (subst (λ s. Shown s.last_bridge_frame_ms now) step h)),
            λ x.
                subst (λ s. Shown s.last_bridge_frame_ms now) (sym step)
                  (ih.1 (before_other p m c cs now a' x)),
          )
      | inr e ↦
          let d = same_of _ _ e in
          let ih = run-ShownIff p m c.now_ms cs now a' o in
          let step = run-cons (after p m) (after p m) c cs (note-same p m _ _ e) in
          (
            λ h.
                after_same p m c cs now d
                  (ih.0 (subst (λ s. Shown s.last_bridge_frame_ms now) step h)),
            λ x.
                subst (λ s. Shown s.last_bridge_frame_ms now) (sym step)
                  (ih.1 (before_same p m c cs now d x)),
          )
    ]

zero_of : (n : ℕ) → ltb 0 n ≡ false → n ≡ 0
zero_of n h = ground arith

-- The first call.
start :
    (c : Call) (cs : List Call)
    → ((0 < frames c) × (run telemetry_state (c ∷ cs) ≡ run (after (frames c) (some c.now_ms)) cs))
      ⊎ ((frames c ≡ 0) × (run telemetry_state (c ∷ cs) ≡ run (after (frames c) none) cs))
unfolding run build_snapshot note_frames after
start c cs = elim (Bool-cases (ltb 0 (frames c))) [
  | inl e ↦ inl (ltb→lt _ _ e, rw (note_frames, e) refl)
  | inr e ↦ inr (zero_of _ e, rw (note_frames, e) refl)
]

from_first :
    (c : Call) (cs : List Call) (now : ℕ)
    → 0 < frames c
    → Recent (some (frames c)) cs now ⊎ Shown (some c.now_ms) now
    → Recent none (c ∷ cs) now
unfolding Recent
from_first c cs now pos (inl (t, (n, w))) = (t, (later n, w))
from_first c cs now pos (inr h) = (c.now_ms, (first pos, Shown-recent c.now_ms now h))

to_first :
    (c : Call) (cs : List Call) (now : ℕ)
    → Recent none (c ∷ cs) now
    → Recent (some (frames c)) cs now ⊎ Shown (some c.now_ms) now
unfolding Recent
to_first c cs now (t, (first p, w)) = inr (recent-Shown c.now_ms now w)
to_first c cs now (t, (later n, w)) = inl (t, (n, w))

from_none :
    (c : Call) (cs : List Call) (now : ℕ)
    → Recent (some (frames c)) cs now ⊎ Shown none now
    → Recent none (c ∷ cs) now
unfolding Recent Shown input_state_at
from_none c cs now (inl (t, (n, w))) = (t, (later n, w))
from_none c cs now (inr h) = cc

to_none :
    (c : Call) (cs : List Call) (now : ℕ)
    → frames c ≡ 0
    → Recent none (c ∷ cs) now
    → Recent (some (frames c)) cs now ⊎ Shown none now
unfolding Recent
to_none c cs now z (t, (first p, w)) = absurd (omega arith)
to_none c cs now z (t, (later n, w)) = inl (t, (n, w))

run-active :
    (c : Call) (cs : List Call) (now : ℕ)
    → Ordered c.now_ms cs now
    → (input_state_at (run telemetry_state (c ∷ cs)).last_bridge_frame_ms now ≡ active)
      ↔ Recent none (c ∷ cs) now
unfolding Recent AtMost ShownIff Shown
run-active c cs now o = elim (start c cs) [
  | inl (pos, e) ↦
      let ih = run-ShownIff (frames c) (some c.now_ms) c.now_ms cs now (omega arith) o in
      rw e (λ h. from_first c cs now pos (ih.0 h), λ r. ih.1 (to_first c cs now r))
  | inr (z, e) ↦
      let ih = run-ShownIff (frames c) none c.now_ms cs now tt o in
      rw e (λ h. from_none c cs now (ih.0 h), λ r. ih.1 (to_none c cs now z r))
]

run-append :
    (s : TelemetryState) (cs : List Call) (c : Call)
    → run s (cs ++ c ∷ []) ≡ (build_snapshot (run s cs) c.inputs c.now_ms).0
unfolding run
run-append s [] c = refl
run-append s (d ∷ cs) c = run-append (build_snapshot s d.inputs d.now_ms).0 cs c

snapshot-input_state :
    (s : TelemetryState) (i : Inputs) (now : ℕ)
    → (build_snapshot s i now).1.input_state
      ≡ input_state_at (build_snapshot s i now).0.last_bridge_frame_ms now
unfolding build_snapshot
snapshot-input_state s i now = refl

Ordered-append :
    (t : ℕ) (cs : List Call) (c : Call) → Ordered t cs c.now_ms → Ordered t (cs ++ c ∷ []) c.now_ms
unfolding Ordered
Ordered-append t [] c h = (h, omega arith)
Ordered-append t (d ∷ cs) c (h, o) = (h, Ordered-append d.now_ms cs c o)

-- A call after any calls since the start, at times that do not go back, returns a snapshot whose
-- `input_state` is active exactly when some call of the last five seconds, this one included, found
-- a count of frames other than the call before it, or the very first call did and the count was not
-- 0.
pub build_snapshot-active :
    (cs : List Call) (c : Call)
    → Ordered 0 cs c.now_ms
    → ((build_snapshot (run telemetry_state cs) c.inputs c.now_ms).1.input_state ≡ active)
      ↔ Recent none (cs ++ c ∷ []) c.now_ms
unfolding Ordered
build_snapshot-active [] c o =
    rw (snapshot-input_state (run telemetry_state []) c.inputs c.now_ms)
      (rw (sym (run-append telemetry_state [] c)) (run-active c [] c.now_ms (omega arith)))
build_snapshot-active (d ∷ cs) c (h, o) =
    rw (snapshot-input_state (run telemetry_state (d ∷ cs)) c.inputs c.now_ms) (
      rw (sym (run-append telemetry_state (d ∷ cs) c))
        (run-active d (cs ++ c ∷ []) c.now_ms (Ordered-append d.now_ms cs c o)))
