-- ===== src/Session/Sending.antt =====
-- src/tcp_nmea_session.c: `send_all`, on whatever the socket answers.
use esp_nmea_bridge.Prelude.{
  ℕ, zero, suc, ◌+◌, ◌≤◌, ◌<◌, ◌≡◌, refl, ap, sym, subst, ◌∙◌, append-nil, append_assoc, Bool, true,
  false, List, [], ◌∷◌, ◌++◌, Option, none, some, arith, ltb, length, take, drop, Bool-cases, inl,
  inr,
}
use esp_nmea_bridge.Prelude.CString.{Bytes}
use esp_nmea_bridge.Session.{Send, taken, again, send_error, Session, took, send_all, forward}

-- What `send_all` from index `m` on has sent: behind the bytes before, all the bytes of the frame, or
-- on a failure the first `k`, fewer than all.
abbrev pub Sends : Bytes → ℕ → Option (Bool × Bytes × List Send) → Type 0
Sends data' m none = Unit
Sends data' m (some (true, sent, rest)) =
    (k : ℕ) × (k < length data') × (take m data' ++ sent ≡ take k data')
Sends data' m (some (false, sent, rest)) = take m data' ++ sent ≡ data'

lt_of : (a b : ℕ) → ltb a b ≡ true → a < b
lt_of a b h = ground arith

le_of : (a b : ℕ) → ltb a b ≡ false → b ≤ a
le_of a b h = ground arith

take_all : (n : ℕ) (s : Bytes) → length s ≤ n → take n s ≡ s
take_all zero [] h = refl
take_all (suc n) [] h = refl
take_all zero (x ∷ s) h = absurd (omega arith)
take_all (suc n) (x ∷ s) h = ap (λ r. x ∷ r) (take_all n s (omega arith))

take_add : (m n : ℕ) (s : Bytes) → take (m + n) s ≡ take m s ++ take n (drop m s)
take_add zero n s = let e : zero + n ≡ n = omega arith in ap (λ k. take k s) e
take_add (suc m) zero [] = let e : suc m + zero ≡ suc m = omega arith in ap (λ k. take k []) e
take_add (suc m) (suc n) [] =
    let e : suc m + suc n ≡ suc (m + suc n) = omega arith in ap (λ k. take k []) e
take_add (suc m) n (x ∷ s) =
    let e : suc m + n ≡ suc (m + n) = omega arith in
    ap (λ k. take k (x ∷ s)) e ∙ ap (λ r. x ∷ r) (take_add m n s)

-- At the end of the frame.
sent_all : (data' : Bytes) (m : ℕ) → ltb m (length data') ≡ false → take m data' ++ [] ≡ data'
sent_all data' m e = append-nil (take m data') ∙ take_all m data' (le_of m (length data') e)

-- A piece that the socket took.
took-Sends :
    (data' : Bytes) (m n : ℕ) (r : Option (Bool × Bytes × List Send))
    → Sends data' (m + n) r
    → Sends data' m (took (take n (drop m data')) r)
took-Sends data' m n none h = tt
took-Sends data' m n (some (true, sent, rest)) (k, small, h) = (
  k,
  small,
  sym (append_assoc (take m data') (take n (drop m data')) sent)
      ∙ ap (λ x. x ++ sent) (sym (take_add m n data'))
      ∙ h,
)
took-Sends data' m n (some (false, sent, rest)) h =
    sym (append_assoc (take m data') (take n (drop m data')) sent)
    ∙ ap (λ x. x ++ sent) (sym (take_add m n data'))
    ∙ h

pub send_all-Sends :
    (data' : Bytes) (m : ℕ) (sends : List Send) → Sends data' m (send_all data' m sends)
unfolding send_all
send_all-Sends data' m [] = elim (Bool-cases (ltb m (length data'))) [
  | inl e ↦ rw (send_all, e) tt
  | inr e ↦ rw (send_all, e) (sent_all data' m e)
]
send_all-Sends data' m (taken zero ∷ sends) = elim (Bool-cases (ltb m (length data'))) [
  | inl e ↦ rw (send_all, e) (m, lt_of m (length data') e, append-nil (take m data'))
  | inr e ↦ rw (send_all, e) (sent_all data' m e)
]
send_all-Sends data' m (taken (suc n) ∷ sends) = elim (Bool-cases (ltb m (length data'))) [
  | inl e ↦ rw (send_all, e) (took-Sends data' m (suc n) _ (send_all-Sends data' (m + suc n) sends))
  | inr e ↦ rw (send_all, e) (sent_all data' m e)
]
send_all-Sends data' m (again ∷ sends) = elim (Bool-cases (ltb m (length data'))) [
  | inl e ↦ rw (send_all, e) (send_all-Sends data' m sends)
  | inr e ↦ rw (send_all, e) (sent_all data' m e)
]
send_all-Sends data' m (send_error ∷ sends) = elim (Bool-cases (ltb m (length data'))) [
  | inl e ↦ rw (send_all, e) (m, lt_of m (length data') e, append-nil (take m data'))
  | inr e ↦ rw (send_all, e) (sent_all data' m e)
]

-- How many bytes the answers of the socket take, and that none is an error or takes no byte.
unfoldable pub capacity : List Send → ℕ
capacity [] = 0
capacity (taken n ∷ sends) = n + capacity sends
capacity (again ∷ sends) = capacity sends
capacity (send_error ∷ sends) = capacity sends

unfoldable pub NoError : List Send → Type 0
NoError [] = Unit
NoError (taken zero ∷ sends) = ⊥
NoError (taken (suc n) ∷ sends) = NoError sends
NoError (again ∷ sends) = NoError sends
NoError (send_error ∷ sends) = ⊥

-- The result of `send_all` for a frame that is sent.
record Completes (r : Option (Bool × Bytes × List Send)) : Type 0 where
  sent : Bytes
  rest : List Send
  gives : r ≡ some (false, sent, rest)

completed : (sends : List Send) → Completes (some (false, [], sends))
completed sends = record { sent = []; rest = sends; gives = refl }

took-Completes :
    (first : Bytes) (r : Option (Bool × Bytes × List Send)) → Completes r → Completes (took first r)
took-Completes first r c = record {
  sent = first ++ c.sent;
  rest = c.rest;
  gives = ap (took first) c.gives;
}

send_all-Completes :
    (data' : Bytes) (m : ℕ) (sends : List Send)
    → NoError sends
    → length data' ≤ m + capacity sends
    → Completes (send_all data' m sends)
unfolding send_all NoError capacity
send_all-Completes data' m [] ne h =
    let e : ltb m (length data') ≡ false = ground arith in rw (send_all, e) (completed [])
send_all-Completes data' m (taken zero ∷ sends) ne h = absurd ne
send_all-Completes data' m (taken (suc n) ∷ sends) ne h = elim (Bool-cases (ltb m (length data'))) [
  | inl e ↦
      rw (send_all, e)
        (took-Completes _ _ (send_all-Completes data' (m + suc n) sends ne (omega arith)))
  | inr e ↦ rw (send_all, e) (completed (taken (suc n) ∷ sends))
]
send_all-Completes data' m (again ∷ sends) ne h = elim (Bool-cases (ltb m (length data'))) [
  | inl e ↦ rw (send_all, e) (send_all-Completes data' m sends ne h)
  | inr e ↦ rw (send_all, e) (completed (again ∷ sends))
]
send_all-Completes data' m (send_error ∷ sends) ne h = absurd ne

-- A frame that a session took from its sink reaches the peer as a whole, when the socket reports no
-- error, takes one byte or more with each send, and takes enough bytes in all, in whatever pieces
-- and with whatever waits: the send ends, and exactly the bytes of the frame are behind those that
-- were sent before, counted as one frame.
pub forward_completes :
    (data' : Bytes) (s : Session)
    → NoError s.sends
    → length data' ≤ capacity s.sends
    → (s' : Session) × (forward data' s ≡ some (false, s'))
      × (s'.wire ≡ s.wire ++ data')
      × (s'.forwarded ≡ s.forwarded + 1)
      × (s'.failures ≡ s.failures)
unfolding forward
forward_completes data' s ne h =
    let c = send_all-Completes data' 0 s.sends ne (omega arith) in
    (
      record s { wire = s.wire ++ c.sent; forwarded = s.forwarded + 1; sends = c.rest },
      rw (forward, c.gives) refl,
      ap (λ x. s.wire ++ x) (subst (Sends data' 0) c.gives (send_all-Sends data' 0 s.sends)),
      refl,
      refl,
    )
