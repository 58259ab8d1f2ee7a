-- ===== src/Web/Http/Read.antt =====
-- src/web_app.c: reading a request does not depend on how the network cuts it.
use esp_nmea_bridge.Prelude.{
  ℕ, zero, suc, ◌+◌, ◌≤◌, ◌<◌, ◌≡◌, ◌≢◌, refl, ap, sym, ◌∙◌, true, false, List, [], ◌∷◌, ◌++◌,
  Option, none, some, arith, ◌==◌, length, take, drop, length-append, append_assoc, append-nil,
  Bool-cases, Option-cases, inl, inr, subst, ==_iff,
}
use esp_nmea_bridge.Prelude.CString.{Bytes, cstr}
use esp_nmea_bridge.Web.Http.{
  Answer, interrupted, ended, got, Result, HttpRequest, blank_line_at, find_header_end,
  parse_http_request, read_http_request,
}

blank_line_at-append : (s t : Bytes) → 4 ≤ length s → blank_line_at (s ++ t) ≡ blank_line_at s
unfolding blank_line_at
blank_line_at-append [] t h = absurd (omega arith)
blank_line_at-append (a ∷ []) t h = absurd (omega arith)
blank_line_at-append (a ∷ b ∷ []) t h = absurd (omega arith)
blank_line_at-append (a ∷ b ∷ c ∷ []) t h = absurd (omega arith)
blank_line_at-append (a ∷ b ∷ c ∷ d ∷ s) t h = refl

blank_line_at-long : (s : Bytes) → blank_line_at s ≡ true → 4 ≤ length s
unfolding blank_line_at
blank_line_at-long [] h = ground arith
blank_line_at-long (a ∷ []) h = ground arith
blank_line_at-long (a ∷ b ∷ []) h = ground arith
blank_line_at-long (a ∷ b ∷ c ∷ []) h = ground arith
blank_line_at-long (a ∷ b ∷ c ∷ d ∷ s) h = omega arith

-- Where the blank line of a text that is not empty stands.
data Found (c : ℕ) (cs : Bytes) (i : ℕ) : Type 0 where
  here : blank_line_at (c ∷ cs) ≡ true → i ≡ 0 → Found c cs i
  there :
      (j : ℕ)
      → blank_line_at (c ∷ cs) ≡ false
      → find_header_end cs ≡ some j
      → i ≡ suc j
      → Found c cs i

find_header_end-Found :
    (c : ℕ) (cs : Bytes) (i : ℕ) → find_header_end (c ∷ cs) ≡ some i → Found c cs i
unfolding find_header_end
find_header_end-Found c cs i h = elim (Bool-cases (blank_line_at (c ∷ cs))) [
  | inl e ↦ here e (ground arith)
  | inr e ↦ elim (Option-cases (find_header_end cs)) [
    | inl n ↦ absurd (ground arith)
    | inr (j, f) ↦ there j e f (ground arith)
  ]
]

find_header_end-le : (s : Bytes) (i : ℕ) → find_header_end s ≡ some i → i + 4 ≤ length s
unfolding find_header_end
find_header_end-le [] i h = cc
find_header_end-le (c ∷ cs) i h = by_case (find_header_end-Found c cs i h) (find_header_end-le cs)
  where
    by_case :
        Found c cs i
        → ((j : ℕ) → find_header_end cs ≡ some j → j + 4 ≤ length cs)
        → i + 4 ≤ length (c ∷ cs)
    by_case (here e z) ih = let long = blank_line_at-long (c ∷ cs) e in omega arith
    by_case (there j e f z) ih = let le = ih j f in omega arith

pub find_header_end-append :
    (s t : Bytes) (i : ℕ) → find_header_end s ≡ some i → find_header_end (s ++ t) ≡ some i
unfolding find_header_end
find_header_end-append [] t i h = cc
find_header_end-append (c ∷ cs) t i h =
    by_case (find_header_end-Found c cs i h) (find_header_end-append cs t)
      (blank_line_at-append (c ∷ cs) t (omega (arith, find_header_end-le (c ∷ cs) i h)))
  where
    by_case :
        Found c cs i
        → ((j : ℕ) → find_header_end cs ≡ some j → find_header_end (cs ++ t) ≡ some j)
        → blank_line_at ((c ∷ cs) ++ t) ≡ blank_line_at (c ∷ cs)
        → find_header_end ((c ∷ cs) ++ t) ≡ some i
    by_case (here e z) ih same = rw (find_header_end, same, e, z) refl
    by_case (there j e f z) ih same = rw (find_header_end, same, e, ih j f, z) refl

-- The bytes that the answers hand out, up to an end of the connection.
unfoldable pub stream : List Answer → Bytes
stream [] = []
stream (interrupted ∷ as') = stream as'
stream (ended ∷ as') = []
stream (got chunk ∷ as') = chunk ++ stream as'

-- The connection lasts.
unfoldable pub Lasts : List Answer → Type 0
Lasts [] = Unit
Lasts (interrupted ∷ as') = Lasts as'
Lasts (ended ∷ as') = ⊥
Lasts (got chunk ∷ as') = (0 < length chunk) × Lasts as'

-- The request that a stream with its header's end at `i` holds, with the first bytes of its body.
pub record ReadAs (i : ℕ) (s : Bytes) (o : Option (Result HttpRequest × List Answer)) : Type 0 where
  pub body : Bytes
  pub rest : List Answer
  pub reads : o ≡ some (parse_http_request (i + 4) (cstr (take (i + 2) s)) body, rest)
  pub splits : body ++ stream rest ≡ drop (i + 4) s

take-append_le : (n : ℕ) (s t : Bytes) → n ≤ length s → take n (s ++ t) ≡ take n s
take-append_le zero s t h = refl
take-append_le (suc n) [] t h = absurd (omega arith)
take-append_le (suc n) (x ∷ s) t h = ap (λ r. x ∷ r) (take-append_le n s t (omega arith))

drop-append_le : (n : ℕ) (s t : Bytes) → n ≤ length s → drop n (s ++ t) ≡ drop n s ++ t
drop-append_le zero s t h = refl
drop-append_le (suc n) [] t h = absurd (omega arith)
drop-append_le (suc n) (x ∷ s) t h = drop-append_le n s t (omega arith)

nil_of_length : (s : Bytes) → length s ≡ 0 → s ≡ []
nil_of_length [] h = refl
nil_of_length (x ∷ s) h = absurd (omega arith)

-- The buffer is full: nothing more can come.
full_request :
    (size : ℕ) (request more : Bytes) (i : ℕ)
    → find_header_end request ≡ none
    → length request ≡ size
    → length (request ++ more) ≤ size
    → find_header_end (request ++ more) ≢ some i
full_request size request more i none_yet full fits found =
    let e = nil_of_length more (omega (arith, length-append request more)) in
    let same : find_header_end (request ++ more) ≡ find_header_end request =
      ap find_header_end (ap (λ m. request ++ m) e ∙ append-nil request) in
    cc

module _ (request_size : ℕ) (received chunk : Bytes) (as' : List Answer) (i : ℕ) where
  abbrev request : Bytes
  request = received ++ chunk

  -- One answer that hands out bytes.
  read_step :
      find_header_end (request ++ stream as') ≡ some i
      → length (request ++ stream as') ≤ request_size
      → (find_header_end request ≡ none
          → ReadAs i (request ++ stream as') (read_http_request request_size request as'))
      → ReadAs i (request ++ stream as') (read_http_request request_size received (got chunk ∷ as'))
  unfolding read_http_request
  read_step found fits ih = elim (Option-cases (find_header_end request)) [
    | inr (j, e) ↦
        let same : j ≡ i = ground (arith, find_header_end-append request (stream as') j e, found) in
        let le = find_header_end-le request j e in
        record {
          body = drop (i + 4) request;
          rest = as';
          reads =
              rw
                (
                  read_http_request,
                  e,
                  same,
                  take-append_le (i + 2) request (stream as') (omega arith),
                )
                refl;
          splits = sym (drop-append_le (i + 4) request (stream as') (omega arith));
        }
    | inl e ↦ elim (Bool-cases (length request == request_size)) [
      | inl f ↦
          absurd (full_request request_size request (stream as') i e ((==_iff _ _).0 f) fits found)
      | inr f ↦ rw (read_http_request, e, f) (ih e)
    ]
  ]

-- From any bytes received so far.
read_from :
    (request_size : ℕ) (received : Bytes) (as' : List Answer) (i : ℕ)
    → find_header_end received ≡ none
    → Lasts as'
    → find_header_end (received ++ stream as') ≡ some i
    → length (received ++ stream as') ≤ request_size
    → ReadAs i (received ++ stream as') (read_http_request request_size received as')
unfolding read_http_request stream Lasts
read_from size received [] i none_yet l found fits = absurd (
    let same : find_header_end (received ++ []) ≡ find_header_end received =
      ap find_header_end (append-nil received) in
    ground arith)
read_from size received (interrupted ∷ as') i none_yet l found fits =
    read_from size received as' i none_yet l found fits
read_from size received (ended ∷ as') i none_yet l found fits = absurd l
read_from size received (got chunk ∷ as') i none_yet (pos, l) found fits =
    let assoc = append_assoc received chunk (stream as') in
    let found' = subst (λ s. find_header_end s ≡ some i) (sym assoc) found in
    let fits' = subst (λ s. length s ≤ size) (sym assoc) fits in
    subst (λ s. ReadAs i s (read_http_request size received (got chunk ∷ as'))) assoc
      (read_step size received chunk as' i found' fits'
        (λ e. read_from size (received ++ chunk) as' i e l found' fits'))

-- A request whose header ends within a stream that fits the buffer is read, for every way in which
-- the network cuts the stream and interrupts the calls: the header that is parsed is the stream's
-- text up to its first blank line, and the part of the body that came with it is continued by what
-- the connection still holds.
pub read_http_request-ReadAs :
    (request_size : ℕ) (as' : List Answer) (i : ℕ)
    → Lasts as'
    → find_header_end (stream as') ≡ some i
    → length (stream as') ≤ request_size
    → ReadAs i (stream as') (read_http_request request_size [] as')
unfolding find_header_end
read_http_request-ReadAs size as' i l found fits = read_from size [] as' i refl l found fits
