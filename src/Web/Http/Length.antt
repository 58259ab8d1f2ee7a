-- ===== src/Web/Http/Length.antt =====
-- src/web_app.c: which texts are a Content-Length, and which number they are.
use esp_nmea_bridge.Prelude.{
  ◌⊎◌, ℕ, suc, ◌+◌, ◌-◌, ◌*◌, ◌/◌, ◌^◌, ◌≤◌, ◌<◌, ◌≡◌, ◌↔◌, refl, ap, sym, ◌∙◌, Bool, true, false,
  not, ◌||◌, [], ◌∷◌, ◌++◌, arith, ltb, ◌==◌, if◌then◌else◌, length, get_or, append-nil, Bool-cases,
  inl, inr, All, subst,
}
use esp_nmea_bridge.Prelude.CString.{Bytes}
use esp_nmea_bridge.Web.Http.{
  Result, value, failure, einval, size_max, is_blank, is_digit, skip_blanks, scan_length,
  parse_content_length,
}

abbrev pub AllBlank : Bytes → Type 0
AllBlank = All (λ c. is_blank c ≡ true)

abbrev pub AllDigits : Bytes → Type 0
AllDigits = All (λ c. is_digit c ≡ true)

-- The number that the digits spell behind those that spelled `n`.
unfoldable pub decimal : ℕ → Bytes → ℕ
decimal n [] = n
decimal n (c ∷ cs) = decimal (n * 10 + (c - b'0')) cs

-- Blanks, at least one digit, blanks, and the number is less than 2 ^ 32.
pub record Spells (text : Bytes) (n : ℕ) : Type 0 where
  pub before : Bytes
  pub digits : Bytes
  pub after : Bytes
  pub splits : text ≡ before ++ (digits ++ after)
  pub blank_before : AllBlank before
  pub blank_after : AllBlank after
  pub all_digits : AllDigits digits
  pub some_digit : 0 < length digits
  pub is_value : decimal 0 digits ≡ n
  pub fits : n < 2 ^ 32

not_ltb : (a b : ℕ) → ltb a b ≡ false → b ≤ a
not_ltb a b h = ground arith

not_below : (a b : ℕ) → b ≤ a → ltb a b ≡ false
not_below a b h = ground arith

decimal-le : (n : ℕ) (ds : Bytes) → n ≤ decimal n ds
unfolding decimal
decimal-le n [] = omega arith
decimal-le n (c ∷ cs) = let ih = decimal-le (n * 10 + (c - b'0')) cs in omega arith

-- What `skip_blanks` leaves.
record Skipped (s rest : Bytes) : Type 0 where
  blanks : Bytes
  splits : s ≡ blanks ++ rest
  all_blank : AllBlank blanks
  stops : is_blank (get_or rest 0 0) ≡ false

skip_blanks-Skipped : (s : Bytes) → Skipped s (skip_blanks s)
unfolding skip_blanks
skip_blanks-Skipped [] = record { blanks = []; splits = refl; all_blank = tt; stops = refl }
skip_blanks-Skipped (c ∷ cs) =
    let ih = skip_blanks-Skipped cs in
    elim (Bool-cases (is_blank c)) [
      | inl e ↦
          rw (skip_blanks, e)
            (record {
              blanks = c ∷ ih.blanks;
              splits = ap (λ r. c ∷ r) ih.splits;
              all_blank = (e, ih.all_blank);
              stops = ih.stops;
            })
      | inr e ↦
          rw (skip_blanks, e) (record { blanks = []; splits = refl; all_blank = tt; stops = e })
    ]

skip_blanks-append :
    (bs rest : Bytes)
    → AllBlank bs
    → is_blank (get_or rest 0 0) ≡ false
    → skip_blanks (bs ++ rest) ≡ rest
unfolding skip_blanks
skip_blanks-append [] [] h e = refl
skip_blanks-append [] (c ∷ cs) h e = rw (skip_blanks, e) refl
skip_blanks-append (b ∷ bs) rest (p, h) e = rw (skip_blanks, p) (skip_blanks-append bs rest h e)

digit_range : (c : ℕ) → is_digit c ≡ true → (48 ≤ c) × (c ≤ 57)
digit_range c h = ground arith

next_fits :
    (n c : ℕ)
    → is_digit c ≡ true
    → ltb ((size_max - (c - b'0')) / 10) n ≡ false
    → n * 10 + (c - b'0') < 2 ^ 32
next_fits n c e f =
    let (lo, hi) = digit_range c e in
    let le = not_ltb ((size_max - (c - b'0')) / 10) n f in omega arith

no_overflow :
    (n c : ℕ)
    → is_digit c ≡ true
    → n * 10 + (c - b'0') < 2 ^ 32
    → ltb ((size_max - (c - b'0')) / 10) n ≡ false
no_overflow n c e lt =
    let (lo, hi) = digit_range c e in not_below ((size_max - (c - b'0')) / 10) n (omega arith)

some_of : (saw : Bool) (k : ℕ) → saw ≡ true → saw ≡ (false || ltb 0 k) → 0 < k
some_of saw k h e = ground arith

or_seen : (saw : Bool) (k : ℕ) → (true || ltb 0 k) ≡ (saw || ltb 0 (suc k))
or_seen saw k = ground arith

-- What the loop over the digits read, where it succeeds.
record Scanned (n : ℕ) (saw : Bool) (s : Bytes) (v : ℕ) (saw' : Bool) (rest : Bytes) : Type 0 where
  digits : Bytes
  splits : s ≡ digits ++ rest
  all_digits : AllDigits digits
  is_value : decimal n digits ≡ v
  below : n < 2 ^ 32 → v < 2 ^ 32
  saw_it : saw' ≡ (saw || ltb 0 (length digits))

scan_length-Scanned :
    (n : ℕ) (saw : Bool) (s : Bytes) (v : ℕ) (saw' : Bool) (rest : Bytes)
    → scan_length n saw s ≡ value (v, saw', rest)
    → Scanned n saw s v saw' rest
unfolding scan_length decimal
scan_length-Scanned n saw [] v saw' rest h = record {
  digits = [];
  splits = ground arith;
  all_digits = tt;
  is_value = ground arith;
  below = ground arith;
  saw_it = ground arith;
}
scan_length-Scanned n saw (c ∷ cs) v saw' rest h = elim (Bool-cases (is_digit c)) [
  | inr e ↦ record {
    digits = [];
    splits = ground arith;
    all_digits = tt;
    is_value = ground arith;
    below = ground arith;
    saw_it = ground arith;
  }
  | inl e ↦ elim (Bool-cases (ltb ((size_max - (c - b'0')) / 10) n)) [
    | inl f ↦ absurd (ground arith)
    | inr f ↦
        let h' : scan_length (n * 10 + (c - b'0')) true cs ≡ value (v, saw', rest) = ground arith in
        let ih = scan_length-Scanned (n * 10 + (c - b'0')) true cs v saw' rest h' in
        record {
          digits = c ∷ ih.digits;
          splits = ap (λ r. c ∷ r) ih.splits;
          all_digits = (e, ih.all_digits);
          is_value = ih.is_value;
          below = λ lt. ih.below (next_fits n c e f);
          saw_it = ih.saw_it ∙ or_seen saw (length ih.digits);
        }
  ]
]

scan_length-append :
    (n : ℕ) (saw : Bool) (ds rest : Bytes)
    → AllDigits ds
    → is_digit (get_or rest 0 0) ≡ false
    → decimal n ds < 2 ^ 32
    → scan_length n saw (ds ++ rest) ≡ value (decimal n ds, saw || ltb 0 (length ds), rest)
unfolding scan_length decimal
scan_length-append n saw [] [] h e lt = ground arith
scan_length-append n saw [] (c ∷ cs) h e lt = rw (scan_length, e) (ground arith)
scan_length-append n saw (d ∷ ds) rest (p, h) e lt =
    let le = decimal-le (n * 10 + (d - b'0')) ds in
    rw (scan_length, p, no_overflow n d p (omega arith))
      (scan_length-append (n * 10 + (d - b'0')) true ds rest h e lt
        ∙ ap (λ b. value (decimal (n * 10 + (d - b'0')) ds, b, rest)) (or_seen saw (length ds)))

Result-cases : {A : Type 0} (r : Result A) → ((e : ℕ) × (r ≡ failure e)) ⊎ ((a : A) × (r ≡ value a))
Result-cases (failure e) = inl (e, refl)
Result-cases (value a) = inr (a, refl)

nil_of_length : (s : Bytes) → (length s == 0) ≡ true → s ≡ []
nil_of_length [] h = refl
nil_of_length (x ∷ s) h = ground arith

AllBlank-of :
    (rest : Bytes) → Skipped rest (skip_blanks rest) → skip_blanks rest ≡ [] → AllBlank rest
AllBlank-of rest sk e =
    subst AllBlank (sym (sk.splits ∙ ap (λ r. sk.blanks ++ r) e ∙ append-nil sk.blanks))
      sk.all_blank

accepted :
    (saw : Bool) (rest : Bytes) (p n : ℕ)
    → (if not saw || not (length (skip_blanks rest) == 0) then failure einval else value p)
      ≡ value n
    → (saw ≡ true) × (skip_blanks rest ≡ []) × (p ≡ n)
accepted saw rest p n h =
    (ground arith, nil_of_length (skip_blanks rest) (ground arith), ground arith)

parse-Spells : (text : Bytes) (n : ℕ) → parse_content_length text ≡ value n → Spells text n
unfolding parse_content_length
parse-Spells text n h = elim (Result-cases (scan_length 0 false (skip_blanks text))) [
  | inl (e, r) ↦ absurd (ground arith)
  | inr ((p, saw, rest), r) ↦
      let h' : (if not saw || not (length (skip_blanks rest) == 0) then failure einval else value p)
          ≡ value n =
        ground arith in
      let (seen, ends, same) = accepted saw rest p n h' in
      let sc = scan_length-Scanned 0 false (skip_blanks text) p saw rest r in
      let sk = skip_blanks-Skipped text in
      record {
        before = sk.blanks;
        digits = sc.digits;
        after = rest;
        splits = sk.splits ∙ ap (λ r. sk.blanks ++ r) sc.splits;
        blank_before = sk.all_blank;
        blank_after = AllBlank-of rest (skip_blanks-Skipped rest) ends;
        all_digits = sc.all_digits;
        some_digit = some_of saw (length sc.digits) seen sc.saw_it;
        is_value = sc.is_value ∙ same;
        fits = subst (λ k. k < 2 ^ 32) same (sc.below (omega arith));
      }
]

digit_not_blank :
    (ds rest : Bytes) → AllDigits ds → 0 < length ds → is_blank (get_or (ds ++ rest) 0 0) ≡ false
digit_not_blank [] rest h pos = absurd (omega arith)
digit_not_blank (d ∷ ds) rest (p, h) pos = ground arith

blank_not_digit : (s : Bytes) → AllBlank s → is_digit (get_or s 0 0) ≡ false
blank_not_digit [] h = refl
blank_not_digit (c ∷ s) (p, h) = ground arith

skip_blanks-blank : (s : Bytes) → AllBlank s → skip_blanks s ≡ []
unfolding skip_blanks
skip_blanks-blank [] h = refl
skip_blanks-blank (c ∷ s) (p, h) = rw (skip_blanks, p) (skip_blanks-blank s h)

seen_true : (k : ℕ) → 0 < k → (false || ltb 0 k) ≡ true
seen_true k h = ground arith

Spells-parse : (text : Bytes) (n : ℕ) → Spells text n → parse_content_length text ≡ value n
unfolding parse_content_length
Spells-parse text n v =
    let skipped : skip_blanks text ≡ v.digits ++ v.after =
      ap skip_blanks v.splits
      ∙ skip_blanks-append v.before (v.digits ++ v.after) v.blank_before
          (digit_not_blank v.digits v.after v.all_digits v.some_digit) in
    let small : decimal 0 v.digits < 2 ^ 32 = subst (λ k. k < 2 ^ 32) (sym v.is_value) v.fits in
    let scanned =
      scan_length-append 0 false v.digits v.after v.all_digits
        (blank_not_digit v.after v.blank_after) small in
    rw
      (
        parse_content_length,
        skipped,
        scanned,
        skip_blanks-blank v.after v.blank_after,
        seen_true (length v.digits) v.some_digit,
      )
      (ap value v.is_value)

-- A header's text is accepted as a Content-Length exactly when it is a run of digits, at least one,
-- with any blanks around it, that spells a number below 2 ^ 32, and it is read as that number: the
-- `size_t` never wraps.
pub parse_content_length_iff :
    (text : Bytes) (n : ℕ) → (parse_content_length text ≡ value n) ↔ Spells text n
parse_content_length_iff text n = (parse-Spells text n, Spells-parse text n)
