-- ===== src/Session/Rounds.antt =====
-- src/tcp_nmea_session.c: the rounds of a session.
use esp_nmea_bridge.Prelude.{
  ℕ, ◌+◌, ◌<◌, ◌≡◌, ◌≢◌, refl, ap, sym, ◌∙◌, true, false, List, [], ◌∷◌, ◌++◌, Option, none, some,
  arith, length, take, append-nil, append_assoc, Option-cases, inl, inr, concat, subst,
}
use esp_nmea_bridge.Prelude.CString.{Bytes}
use esp_nmea_bridge.Session.{
  Ended, peer_closed, send_failed, Recv, bytes, closed, would_block, recv_error, Send, Take, frame,
  not_connected, no_frame, Session, drain_socket_rx, send_all, forward, round, run_rounds,
}
use esp_nmea_bridge.Session.Sending.{Sends, send_all-Sends}

-- The frames that the sink handed out, in their order.
unfoldable pub frames_of : List Take → List Bytes
frames_of [] = []
frames_of (frame data' ∷ takes) = data' ∷ frames_of takes
frames_of (not_connected ∷ takes) = frames_of takes
frames_of (no_frame ∷ takes) = frames_of takes

-- The part that a session does not change, and has to give back.
pub record Kept (s s' : Session) : Type 0 where
  pub active : s'.active_sessions ≡ s.active_sessions
  pub sinks : s'.open_sinks ≡ s.open_sinks
  pub begun : s'.started ≡ s.started
  pub over : s'.ended ≡ s.ended

-- The last frame of a session, of the frames `left` behind those that were forwarded: none is cut
-- off, or a failing send has left a part of the next one.
pub data Last (left : List Bytes) (cut : Bytes) (before after : ℕ) (result : Ended) : Type 0 where
  whole : result ≢ send_failed → cut ≡ [] → after ≡ before → Last left cut before after result
  short :
      (m : ℕ) (data' : Bytes) (others : List Bytes)
      → result ≡ send_failed
      → left ≡ data' ∷ others
      → m < length data'
      → cut ≡ take m data'
      → after ≡ before + 1
      → Last left cut before after result

-- What a session of the frames `frames` has delivered.
pub record Delivered (frames : List Bytes) (s : Session) (result : Ended) (s' : Session)
    : Type 0 where
  pub sent : List Bytes
  pub left : List Bytes
  pub cut : Bytes
  pub in_order : frames ≡ sent ++ left
  pub wire : s'.wire ≡ s.wire ++ (concat sent ++ cut)
  pub counted : s'.forwarded ≡ s.forwarded + length sent
  pub last : Last left cut s.failures s'.failures result

pub record Round (takes : List Take) (s : Session) (result : Ended) (s' : Session) : Type 0 where
  pub delivered : Delivered (frames_of takes) s result s'
  pub kept : Kept s s'

abbrev pub Rounds : List Take → Session → Option (Ended × Session) → Type 0
Rounds takes s none = Unit
Rounds takes s (some (result, s')) = Round takes s result s'

-- A drain ends a session as closed or as failed to receive.
abbrev Drains : Option (Option Ended × List Recv) → Type 0
Drains none = Unit
Drains (some (none, recvs)) = Unit
Drains (some (some result, recvs)) = result ≢ send_failed

drain-Drains : (recvs : List Recv) → Drains (drain_socket_rx recvs)
unfolding drain_socket_rx
drain-Drains [] = tt
drain-Drains (bytes ∷ recvs) = drain-Drains recvs
drain-Drains (closed ∷ recvs) = λ h. cc
drain-Drains (would_block ∷ recvs) = tt
drain-Drains (recv_error ∷ recvs) = λ h. cc

-- A session that ends here.
stop :
    (takes : List Take) (s : Session) (result : Ended) (recvs : List Recv)
    → result ≢ send_failed
    → Round takes s result (record s { recvs = recvs })
stop takes s result recvs h = record {
  delivered = record {
    sent = [];
    left = frames_of takes;
    cut = [];
    in_order = refl;
    wire = sym (append-nil s.wire);
    counted = omega arith;
    last = whole h refl refl;
  };
  kept = record { active = refl; sinks = refl; begun = refl; over = refl };
}

-- A frame that was cut off.
break_off :
    (data' : Bytes) (takes : List Take) (s : Session) (recvs : List Recv) (sent : Bytes)
    (rest : List Send) (m : ℕ)
    → m < length data'
    → sent ≡ take m data'
    → Round
        (frame data' ∷ takes)
        s
        send_failed
        (record s { recvs = recvs; wire = s.wire ++ sent; failures = s.failures + 1; sends = rest })
unfolding frames_of
break_off data' takes s recvs sent rest m h e = record {
  delivered = record {
    sent = [];
    left = data' ∷ frames_of takes;
    cut = sent;
    in_order = refl;
    wire = refl;
    counted = omega arith;
    last = short m data' (frames_of takes) refl refl h e refl;
  };
  kept = record { active = refl; sinks = refl; begun = refl; over = refl };
}

-- A frame that was sent, before the rounds that follow.
after_frame :
    (data' : Bytes) (takes : List Take) (s : Session) (recvs : List Recv) (sent : Bytes)
    (rest : List Send) (r : Option (Ended × Session))
    → sent ≡ data'
    → Rounds takes
        (record s {
          recvs = recvs;
          wire = s.wire ++ sent;
          forwarded = s.forwarded + 1;
          sends = rest;
        })
        r
    → Rounds (frame data' ∷ takes) s r
unfolding frames_of
after_frame data' takes s recvs sent rest none h l = tt
after_frame data' takes s recvs sent rest (some (result, s')) h l = record {
  delivered = record {
    sent = data' ∷ l.delivered.sent;
    left = l.delivered.left;
    cut = l.delivered.cut;
    in_order = ap (λ x. data' ∷ x) l.delivered.in_order;
    wire =
        l.delivered.wire
        ∙ append_assoc s.wire sent _
        ∙ ap (λ x. s.wire ++ x)
            (ap (λ x. x ++ (concat l.delivered.sent ++ l.delivered.cut)) h
              ∙ sym (append_assoc data' (concat l.delivered.sent) l.delivered.cut));
    counted = omega (arith, l.delivered.counted);
    last = l.delivered.last;
  };
  kept = record {
    active = l.kept.active;
    sinks = l.kept.sinks;
    begun = l.kept.begun;
    over = l.kept.over;
  };
}

-- A round that changes nothing but the answers.
after_nothing :
    (takes : List Take) (s : Session) (recvs : List Recv) (r : Option (Ended × Session))
    → Rounds takes (record s { recvs = recvs }) r
    → Rounds (no_frame ∷ takes) s r
unfolding frames_of
after_nothing takes s recvs none l = tt
after_nothing takes s recvs (some (result, s')) l = record {
  delivered = record {
    sent = l.delivered.sent;
    left = l.delivered.left;
    cut = l.delivered.cut;
    in_order = l.delivered.in_order;
    wire = l.delivered.wire;
    counted = l.delivered.counted;
    last = l.delivered.last;
  };
  kept = record {
    active = l.kept.active;
    sinks = l.kept.sinks;
    begun = l.kept.begun;
    over = l.kept.over;
  };
}

round-Rounds :
    (t : Take) (takes : List Take) (s : Session) (recvs : List Recv)
    (next : Session → Option (Ended × Session))
    → ((s' : Session) → Rounds takes s' (next s'))
    → Rounds (t ∷ takes) s (round t (record s { recvs = recvs }) next)
unfolding round forward
round-Rounds not_connected takes s recvs next f =
    stop (not_connected ∷ takes) s peer_closed recvs (λ h. cc)
round-Rounds no_frame takes s recvs next f = after_nothing takes s recvs _ (f _)
round-Rounds (frame data') takes s recvs next f = elim (Option-cases (send_all data' 0 s.sends)) [
  | inl e ↦ rw (round, forward, e) tt
  | inr ((true, sent, rest), e) ↦
      let (m, small, is) = subst (Sends data' 0) e (send_all-Sends data' 0 s.sends) in
      rw (round, forward, e) (break_off data' takes s recvs sent rest m small is)
  | inr ((false, sent, rest), e) ↦ elim (Option-cases (drain_socket_rx recvs)) [
    | inl e' ↦ rw (round, forward, e, e') tt
    | inr ((some result, recvs'), e') ↦
        rw (round, forward, e, e')
          (after_frame data' takes s recvs' sent rest (some (result, _))
            (subst (Sends data' 0) e (send_all-Sends data' 0 s.sends))
            (stop takes _ result recvs' (subst Drains e' (drain-Drains recvs))))
    | inr ((none, recvs'), e') ↦
        rw (round, forward, e, e')
          (after_frame data' takes s recvs' sent rest _
            (subst (Sends data' 0) e (send_all-Sends data' 0 s.sends)) (f _))
  ]
]

pub run_rounds-Rounds : (takes : List Take) (s : Session) → Rounds takes s (run_rounds takes s)
unfolding run_rounds
run_rounds-Rounds [] s = elim (Option-cases (drain_socket_rx s.recvs)) [
  | inl e ↦ rw (run_rounds, e) tt
  | inr ((none, recvs), e) ↦ rw (run_rounds, e) tt
  | inr ((some result, recvs), e) ↦
      rw (run_rounds, e) (stop [] s result recvs (subst Drains e (drain-Drains s.recvs)))
]
run_rounds-Rounds (t ∷ takes) s = elim (Option-cases (drain_socket_rx s.recvs)) [
  | inl e ↦ rw (run_rounds, e) tt
  | inr ((some result, recvs), e) ↦
      rw (run_rounds, e) (stop (t ∷ takes) s result recvs (subst Drains e (drain-Drains s.recvs)))
  | inr ((none, recvs), e) ↦
      rw (run_rounds, e) (round-Rounds t takes s recvs _ (run_rounds-Rounds takes))
]
