-- ===== src/Wifi/Due.antt =====
-- The retry thread of src/wifi_manager.c comes to its next connection request in time.
use esp_nmea_bridge.Prelude.{
  ℕ, suc, ◌+◌, ◌*◌, ◌≡◌, ◌≤◌, ◌⊎◌, inl, inr, refl, Bool, true, false, ◌||◌, ◌==◌, ◌!=◌, if-either,
  option-either, arith, ap, sym, ◌∙◌,
}
use esp_nmea_bridge.Config.{Ret}
use esp_nmea_bridge.Wifi.{
  Net, Wifi, Event, connect_result, disconnect_result, ap_enable_result, ap_disable_result,
  ap_sta_connected, ap_sta_disconnected, ipv4_addr_add, ipv4_dhcp_bound, ipv4_dhcp_stop, failed,
  sta_dhcp_addr, mark_sta_ipv4_ready, connection_over, wifi_event_handler, ipv4_event_handler,
}
use esp_nmea_bridge.Wifi.Retry.{
  RetryPc, starting, checking, looping, backing_off, disconnecting, settling, requested, finished,
  Step, busy, retry_step,
}
use esp_nmea_bridge.Wifi.Backoff.{IsBackoff, Reaches-IsBackoff}
use esp_nmea_bridge.Wifi.Start.{StartEnv, StartPc}
use esp_nmea_bridge.Wifi.System.{Reaches}

-- The sleep before the next connection request of a station that is not connected, with no request on
-- its way.
unfoldable pub due : RetryPc → Wifi → ℕ
due looping w = w.sta_retry_backoff_s * 1000 + 500
due backing_off w = 500
due disconnecting w = 500
due _ w = 0

-- The steps before the one that makes the request.
abbrev pub steps_left : RetryPc → ℕ
steps_left looping = 3
steps_left backing_off = 2
steps_left disconnecting = 1
steps_left _ = 0

-- The thread is on its way to a request.
abbrev pub Trying : RetryPc → Type 0
Trying looping = Unit
Trying backing_off = Unit
Trying disconnecting = Unit
Trying _ = ⊥

-- A run of the thread from its look at the flags, of `n` steps that slept `ms`, with events between
-- them that leave the station neither connected nor with a request on its way.
pub data Quiet (from : Wifi) : ℕ → ℕ → RetryPc → Wifi → Type 0 where
  begins : Quiet from 0 0 looping from
  steps :
      {n ms : ℕ} {pc : RetryPc} {w : Wifi} (ret : Ret)
      → Quiet from n ms pc w
      → Trying pc
      → Quiet from
          (suc n)
          (ms + (retry_step ret pc w).sleep_ms)
          (retry_step ret pc w).pc
          (retry_step ret pc w).wifi
  hears :
      {n ms : ℕ} {pc : RetryPc} {w : Wifi} (net : Net) (e : Event) (iface : ℕ)
      → Quiet from n ms pc w
      → busy (wifi_event_handler net e iface w) ≡ false
      → Quiet from n ms pc (wifi_event_handler net e iface w)
  hears_ipv4 :
      {n ms : ℕ} {pc : RetryPc} {w : Wifi} (net : Net) (e : Event) (iface : ℕ)
      → Quiet from n ms pc w
      → busy (ipv4_event_handler net e iface w) ≡ false
      → Quiet from n ms pc (ipv4_event_handler net e iface w)

-- What a step of the thread does on its way.
record Advances (pc : RetryPc) (w : Wifi) (r : Step) : Type 0 where
  time : r.sleep_ms + due r.pc r.wifi ≡ due pc w
  rest : suc (steps_left r.pc) ≡ steps_left pc
  way : (r.pc ≡ settling) ⊎ Trying r.pc
  same : r.wifi ≡ w

retry_step-Advances :
    (ret : Ret) (pc : RetryPc) (w : Wifi)
    → Trying pc
    → busy w ≡ false
    → Advances pc w (retry_step ret pc w)
unfolding retry_step due
retry_step-Advances ret looping w t h =
    if-either (Advances looping w) (busy w) (λ e. cc)
      (λ _. record { time = omega arith; rest = refl; way = inr tt; same = refl })
retry_step-Advances ret backing_off w t h =
    if-either (Advances backing_off w) (busy w) (λ e. cc)
      (λ _. record { time = refl; rest = refl; way = inr tt; same = refl })
retry_step-Advances ret disconnecting w t h = record {
  time = refl;
  rest = refl;
  way = inl refl;
  same = refl;
}
retry_step-Advances ret starting w t h = elim t [ ]
retry_step-Advances ret checking w t h = elim t [ ]
retry_step-Advances ret settling w t h = elim t [ ]
retry_step-Advances ret (requested _) w t h = elim t [ ]
retry_step-Advances ret finished w t h = elim t [ ]

-- An event that leaves the station idle leaves the back-off.
abbrev Keeps : ℕ → Wifi → Type 0
Keeps n w = busy w ≡ false → w.sta_retry_backoff_s ≡ n

mark-Keeps : (net : Net) (w : Wifi) → Keeps w.sta_retry_backoff_s (mark_sta_ipv4_ready net w).1
unfolding mark_sta_ipv4_ready
mark-Keeps net w =
    option-either (λ (r : Bool × Wifi). Keeps w.sta_retry_backoff_s r.1) (sta_dhcp_addr net w)
      (λ h. refl) (λ a h. cc)

mark-busy :
    (net : Net) (w : Wifi) → w.sta_connected ≡ true → busy (mark_sta_ipv4_ready net w).1 ≡ true
unfolding mark_sta_ipv4_ready
mark-busy net w h =
    option-either (λ (r : Bool × Wifi). busy r.1 ≡ true) (sta_dhcp_addr net w)
      (ap (λ b. b || w.sta_connect_requested) h) (λ a. refl)

wifi_event-Keeps :
    (net : Net) (e : Event) (iface : ℕ) (w : Wifi)
    → Keeps w.sta_retry_backoff_s (wifi_event_handler net e iface w)
unfolding wifi_event_handler connection_over
wifi_event-Keeps net (connect_result status) iface w =
    if-either (Keeps w.sta_retry_backoff_s) (iface != w.sta_iface) (λ _ h. refl)
      (λ _.
        if-either (Keeps w.sta_retry_backoff_s) (failed status) (λ _ h. refl)
          (λ _ h. let b = sym (mark-busy net _ refl) ∙ h in cc))
wifi_event-Keeps net disconnect_result iface w =
    if-either (Keeps w.sta_retry_backoff_s) (iface != w.sta_iface) (λ _ h. refl) (λ _ h. refl)
wifi_event-Keeps net ap_enable_result iface w = λ h. refl
wifi_event-Keeps net ap_disable_result iface w = λ h. refl
wifi_event-Keeps net ap_sta_connected iface w = λ h. refl
wifi_event-Keeps net ap_sta_disconnected iface w = λ h. refl
wifi_event-Keeps net ipv4_addr_add iface w = λ h. refl
wifi_event-Keeps net ipv4_dhcp_bound iface w = λ h. refl
wifi_event-Keeps net ipv4_dhcp_stop iface w = λ h. refl

ipv4_event-Keeps :
    (net : Net) (e : Event) (iface : ℕ) (w : Wifi)
    → Keeps w.sta_retry_backoff_s (ipv4_event_handler net e iface w)
unfolding ipv4_event_handler
ipv4_event-Keeps net ipv4_addr_add iface w = mark-Keeps net w
ipv4_event-Keeps net ipv4_dhcp_bound iface w = mark-Keeps net w
ipv4_event-Keeps net ipv4_dhcp_stop iface w =
    if-either (Keeps w.sta_retry_backoff_s) (iface == w.sta_iface) (λ _ h. refl) (λ _ h. refl)
ipv4_event-Keeps net (connect_result status) iface w = λ h. refl
ipv4_event-Keeps net disconnect_result iface w = λ h. refl
ipv4_event-Keeps net ap_enable_result iface w = λ h. refl
ipv4_event-Keeps net ap_disable_result iface w = λ h. refl
ipv4_event-Keeps net ap_sta_connected iface w = λ h. refl
ipv4_event-Keeps net ap_sta_disconnected iface w = λ h. refl

due-backoff :
    (pc : RetryPc) (v w : Wifi)
    → v.sta_retry_backoff_s ≡ w.sta_retry_backoff_s
    → due pc v ≡ due pc w
unfolding due
due-backoff looping v w h = rw h refl
due-backoff _ v w h = refl

-- The thread of a run: the sleep it has left, the steps it has left, that it is at the request or on
-- its way to it, and that the station is idle.
record Coming (ms n : ℕ) (from : Wifi) (pc : RetryPc) (w : Wifi) : Type 0 where
  time : ms + due pc w ≡ due looping from
  rest : n + steps_left pc ≡ 3
  way : (pc ≡ settling) ⊎ Trying pc
  idle : busy w ≡ false

Quiet-Coming :
    {from : Wifi} {n ms : ℕ} {pc : RetryPc} {w : Wifi}
    → busy from ≡ false
    → Quiet from n ms pc w
    → Coming ms n from pc w
Quiet-Coming h begins = record { time = omega arith; rest = refl; way = inr tt; idle = h }
Quiet-Coming h (steps {n} {ms} {pc} {w} ret q t) =
    let c = Quiet-Coming h q in
    let a = retry_step-Advances ret pc w t c.idle in
    record {
      time = omega (arith, c.time, a.time);
      rest = omega (arith, c.rest, a.rest);
      way = a.way;
      idle = ap busy a.same ∙ c.idle;
    }
Quiet-Coming h (hears {n} {ms} {pc} {w} net e iface q i) =
    let c = Quiet-Coming h q in
    record {
      time = ap (λ d. ms + d) (due-backoff pc _ w (wifi_event-Keeps net e iface w i)) ∙ c.time;
      rest = c.rest;
      way = c.way;
      idle = i;
    }
Quiet-Coming h (hears_ipv4 {n} {ms} {pc} {w} net e iface q i) =
    let c = Quiet-Coming h q in
    record {
      time = ap (λ d. ms + d) (due-backoff pc _ w (ipv4_event-Keeps net e iface w i)) ∙ c.time;
      rest = c.rest;
      way = c.way;
      idle = i;
    }

due-bounded : (w : Wifi) → IsBackoff w.sta_retry_backoff_s → due looping w ≤ 60500
unfolding due
due-bounded w f = ground (arith, f)

-- The retry thread at its look at the flags, with a station that is neither connected nor has a
-- request on its way, comes to its next connection request: while the events leave the station so, a
-- run of `n` steps has at most three, is at the request when it has three and before it otherwise, and
-- sleeps 60.5 seconds at most.
pub retry-in_time :
    {env : StartEnv} {here : StartPc} {from : Wifi} {n ms : ℕ} {pc : RetryPc} {w : Wifi}
    → Reaches env here looping from
    → busy from ≡ false
    → Quiet from n ms pc w
    → (n + steps_left pc ≡ 3) × ((pc ≡ settling) ⊎ Trying pc) × (ms ≤ 60500)
retry-in_time {from = from} {pc = pc} {w = w} r h q =
    let c = Quiet-Coming h q in
    (c.rest, c.way, omega (arith, c.time, due-bounded from (Reaches-IsBackoff r)))
