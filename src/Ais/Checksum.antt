-- ===== src/Ais/Checksum.antt =====
-- Which frames have a valid checksum.
use esp_nmea_bridge.Prelude.{
  ℕ, zero, suc, ◌+◌, ◌-◌, ◌*◌, ◌≤◌, ◌<◌, ◌≡◌, ◌≢◌, ◌↔◌, refl, ap, ◌∙◌, Bool, ◌&&◌, ◌⊎◌, [], ◌∷◌,
  ◌++◌, All, length-append, take-append, Bool-cases, Option-cases, sym, subst, inl, inr, Option,
  some, none, arith, ltb, leb, ◌==◌, ◌!=◌, ◌||◌, if◌then◌else◌, length, get_or,
}
use mathlib.Core.List.{foldl}
use Prim.Native.Nat.{bit_xor}
use esp_nmea_bridge.Prelude.CString.{Bytes}
use esp_nmea_bridge.Prelude.Byte.{u8}
use esp_nmea_bridge.Ais.{
  hex_value, find_star, xor_all, checksum_at, checksum_matches, checksum_is_valid,
}

-- The character is a hexadecimal digit of either case, with the value: 48 is '0', 65 is 'A', 97 is
-- 'a'.
abbrev pub IsDigit : ℕ → ℕ → Type 0
IsDigit c v =
    ((c ≡ 48 + v) × (v < 10))
    ⊎ ((c + 10 ≡ 65 + v) × (10 ≤ v) × (v < 16))
    ⊎ ((c + 10 ≡ 97 + v) × (10 ≤ v) × (v < 16))

-- A frame with a valid checksum around the body: a start character, the body with no star in it, a
-- star, two hexadecimal digits of the XOR of the body's bytes, and at least five bytes in all.
pub record Framed (body frame : Bytes) : Type 0 where
  pub start : ℕ
  pub hi_digit : ℕ
  pub lo_digit : ℕ
  pub hi : ℕ
  pub lo : ℕ
  pub rest : Bytes
  pub splits : frame ≡ start ∷ (body ++ b'*' ∷ hi_digit ∷ lo_digit ∷ rest)
  pub long : 5 ≤ length frame
  pub starts : (start ≡ b'!') ⊎ (start ≡ b'$')
  pub no_star : All (λ c. c ≢ b'*') body
  pub hi_is : IsDigit hi_digit hi
  pub lo_is : IsDigit lo_digit lo
  pub xor_is : foldl bit_xor 0 body ≡ hi * 16 + lo

pub hex_value-lt : (c : ℕ) {v : ℕ} → hex_value c ≡ some v → v < 16
unfolding hex_value
hex_value-lt c h = ground arith

hex_value-IsDigit : (c v : ℕ) → hex_value c ≡ some v → IsDigit c v
unfolding hex_value
hex_value-IsDigit c v h = ground arith

IsDigit-hex_value : (c v : ℕ) → IsDigit c v → hex_value c ≡ some v
unfolding hex_value
IsDigit-hex_value c v h = ground arith

xor_all-foldl : (acc : ℕ) (cs : Bytes) → xor_all acc cs ≡ foldl bit_xor acc cs
unfolding xor_all
xor_all-foldl acc [] = refl
xor_all-foldl acc (c ∷ cs) = xor_all-foldl (bit_xor acc c) cs

find_star-append :
    (body rest : Bytes) (i : ℕ)
    → All (λ c. c ≢ b'*') body
    → find_star (body ++ b'*' ∷ rest) i ≡ some (i + length body)
unfolding find_star
find_star-append [] rest i h = ground arith
find_star-append (c ∷ cs) rest i (p, h) = ground (arith, find_star-append cs rest (i + 1) h)

-- Where the loop stops, the bytes before hold no star.
find_star-split :
    (cs : Bytes) (i : ℕ) {k : ℕ}
    → find_star cs i ≡ some k
    → (body : Bytes) × (rest : Bytes) × (cs ≡ body ++ b'*' ∷ rest)
      × All (λ c. c ≢ b'*') body
      × (k ≡ i + length body)
unfolding find_star
find_star-split [] i h = cc
find_star-split (c ∷ cs) i h = elim (Bool-cases (c == b'*')) [
  | inl e ↦ ([], cs, ground arith, tt, ground arith)
  | inr e ↦
      let (body, rest, splits, no_star, k_is) = find_star-split cs (i + 1) (rw e at h) in
      (c ∷ body, rest, ap (λ t. c ∷ t) splits, (ground arith, no_star), omega arith)
]

get_or-append :
    (body tail : Bytes) (n k : ℕ)
    → k ≡ length body + n
    → get_or (body ++ tail) k 0 ≡ get_or tail n 0
get_or-append [] tail n k e = rw e (ap (λ t. get_or tail t 0) (omega arith))
get_or-append (x ∷ body) tail n zero e = absurd (omega arith)
get_or-append (x ∷ body) tail n (suc k) e = get_or-append body tail n k (omega arith)

-- What is left to check where the star is found: the two digits behind it.
abbrev digits_match : Bytes → Option ℕ → Option ℕ → Option Bytes
digits_match body (some hi) (some lo) =
    if xor_all 0 body != u8 (hi * 16 + lo) then none else some body
digits_match body _ _ = none

abbrev bad_start : ℕ → Bool
bad_start start = start != b'!' && start != b'$'

checksum_matches-append :
    (start : ℕ) (body tail : Bytes) (star : ℕ) (hi lo : Option ℕ)
    → star ≡ 1 + length body
    → checksum_matches (start ∷ (body ++ tail)) star hi lo ≡ digits_match body hi lo
unfolding checksum_matches
checksum_matches-append start body tail star none lo e = refl
checksum_matches-append start body tail star (some hi) none e = refl
checksum_matches-append start body tail star (some hi) (some lo) e =
    let e' : star - 1 ≡ length body = omega arith in rw (e', take-append body tail)

abbrev after_star : Bytes → Bytes → Option Bytes
after_star body tail =
    if leb (length tail) 1
    then none
    else digits_match body (hex_value (get_or tail 0 0)) (hex_value (get_or tail 1 0))

checksum_at-append :
    (start : ℕ) (body tail : Bytes) (star : ℕ)
    → star ≡ 1 + length body
    → checksum_at (start ∷ (body ++ b'*' ∷ tail)) star ≡ after_star body tail
unfolding checksum_at
checksum_at-append start body tail star e = ground (
  arith,
  checksum_matches-append start body (b'*' ∷ tail) star (hex_value (get_or tail 0 0))
      (hex_value (get_or tail 1 0)) e,
  get_or-append (start ∷ body) (b'*' ∷ tail) 1 (star + 1),
  get_or-append (start ∷ body) (b'*' ∷ tail) 2 (star + 2),
  length-append body (b'*' ∷ tail),
)

checksum_is_valid-append :
    (start : ℕ) (body tail : Bytes)
    → All (λ c. c ≢ b'*') body
    → checksum_is_valid (start ∷ (body ++ b'*' ∷ tail)) ≡ (
        if ltb (length body + length tail + 2) 5 || bad_start start
        then none
        else after_star body tail)
unfolding checksum_is_valid
checksum_is_valid-append start body tail h = ground (
  arith,
  find_star-append body tail 1 h,
  checksum_at-append start body tail (1 + length body) refl,
  length-append body (b'*' ∷ tail),
)

checksum_is_valid_complete :
    {body frame : Bytes} → Framed body frame → checksum_is_valid frame ≡ some body
checksum_is_valid_complete {body} f = rw f.splits (
    checksum_is_valid-append f.start body (f.hi_digit ∷ f.lo_digit ∷ f.rest) f.no_star
    ∙ ground (
      arith,
      ap length f.splits,
      length-append body (b'*' ∷ f.hi_digit ∷ f.lo_digit ∷ f.rest),
      IsDigit-hex_value f.hi_digit f.hi f.hi_is,
      IsDigit-hex_value f.lo_digit f.lo f.lo_is,
      hex_value-lt f.hi_digit (IsDigit-hex_value f.hi_digit f.hi f.hi_is),
      hex_value-lt f.lo_digit (IsDigit-hex_value f.lo_digit f.lo f.lo_is),
      xor_all-foldl 0 body ∙ f.xor_is,
    ))

accepted-facts :
    (start : ℕ) (body' : Bytes) (x y : ℕ) (rest : Bytes) (hi lo : ℕ) (body : Bytes)
    → hex_value x ≡ some hi
    → hex_value y ≡ some lo
    → (if ltb (length body' + length (x ∷ y ∷ rest) + 2) 5 || bad_start start
        then none
        else after_star body' (x ∷ y ∷ rest))
      ≡ some body
    → (body' ≡ body)
      × (5 ≤ length body' + length rest + 4)
      × ((start ≡ b'!') ⊎ (start ≡ b'$'))
      × (xor_all 0 body' ≡ hi * 16 + lo)
accepted-facts start body' x y rest hi lo body e e' h =
    ground (arith, hex_value-lt x e, hex_value-lt y e')

-- What the checks behind the star say of an accepted frame.
after_star-Framed :
    (start : ℕ) (body' tail : Bytes) {body : Bytes}
    → All (λ c. c ≢ b'*') body'
    → (if ltb (length body' + length tail + 2) 5 || bad_start start
        then none
        else after_star body' tail)
      ≡ some body
    → Framed body (start ∷ (body' ++ b'*' ∷ tail))
after_star-Framed start body' [] n h = ground arith
after_star-Framed start body' (x ∷ []) n h = ground arith
after_star-Framed start body' (x ∷ y ∷ rest) {body} n h = elim (Option-cases (hex_value x)) [
  | inl e ↦ ground arith
  | inr (hi, e) ↦ elim (Option-cases (hex_value y)) [
    | inl e' ↦ ground arith
    | inr (lo, e') ↦
        let (same, long, starts, xor_is) = accepted-facts start body' x y rest hi lo body e e' h in
        subst (λ t. Framed t (start ∷ (body' ++ b'*' ∷ x ∷ y ∷ rest))) same
          (record {
            start = start;
            hi_digit = x;
            lo_digit = y;
            hi = hi;
            lo = lo;
            rest = rest;
            splits = refl;
            long = omega (arith, length-append body' (b'*' ∷ x ∷ y ∷ rest));
            starts = starts;
            no_star = n;
            hi_is = hex_value-IsDigit x hi e;
            lo_is = hex_value-IsDigit y lo e';
            xor_is = sym (xor_all-foldl 0 body') ∙ xor_is;
          })
  ]
]

checksum_is_valid_sound :
    (frame : Bytes) {body : Bytes} → checksum_is_valid frame ≡ some body → Framed body frame
unfolding checksum_is_valid
checksum_is_valid_sound [] h = cc
checksum_is_valid_sound (x ∷ cs) {body} h = elim (Option-cases (find_star cs 1)) [
  | inl e ↦ ground arith
  | inr (k, e) ↦
      let (body', rest, splits, no_star, k_is) = find_star-split cs 1 e in
      subst (λ t. Framed body (x ∷ t)) (sym splits)
        (after_star-Framed x body' rest no_star (
          sym (checksum_is_valid-append x body' rest no_star)
          ∙ ap (λ t. checksum_is_valid (x ∷ t)) (sym splits)
          ∙ h))
]

-- A frame is accepted with a body exactly when it is a start character, that body with no star in
-- it, a star, two hexadecimal digits of either case that spell the XOR of the body's bytes, and any
-- rest, five bytes at least.
pub checksum_is_valid_iff :
    (frame body : Bytes) → (checksum_is_valid frame ≡ some body) ↔ Framed body frame
checksum_is_valid_iff frame body = (checksum_is_valid_sound frame, checksum_is_valid_complete)
