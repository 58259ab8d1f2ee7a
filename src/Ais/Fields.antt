-- ===== src/Ais/Fields.antt =====
-- Splitting the body of a sentence at its commas, and reading its numeric fields.
use esp_nmea_bridge.Prelude.{
  ℕ, zero, suc, ◌+◌, ◌-◌, ◌*◌, ◌≡◌, refl, sym, Bool, true, ◌&&◌, List, [], ◌∷◌, ◌++◌, Option, some,
  none, arith, ltb, leb, ◌==◌, if◌then◌else◌, length, take, append_assoc, append-nil, Bool-cases,
  inl, inr,
}
use esp_nmea_bridge.Prelude.CString.{Bytes}
use esp_nmea_bridge.Ais.{split_fields, parse_uint_field, is_digit}

-- Puts text in front of the first field.
abbrev pub onto_first : Bytes → List Bytes → List Bytes
onto_first pre [] = pre ∷ []
onto_first pre (f ∷ fs) = (pre ++ f) ∷ fs

-- All the fields of a text: the texts between its commas.
unfoldable pub comma_fields : Bytes → List Bytes
comma_fields [] = [] ∷ []
comma_fields (c ∷ cs) =
    if c == b',' then [] ∷ comma_fields cs else onto_first (c ∷ []) (comma_fields cs)

onto_first-onto_first :
    (p q : Bytes) (fs : List Bytes) → onto_first p (onto_first q fs) ≡ onto_first (p ++ q) fs
onto_first-onto_first p q [] = refl
onto_first-onto_first p q (f ∷ fs) = rw append_assoc

-- The first `room` of the fields, if there are as many.
abbrev pub first_fields : ℕ → List Bytes → Option (List Bytes)
first_fields room fs = if ltb (length fs) room then none else some (take room fs)

onto_first-nil : (cs : Bytes) → onto_first [] (comma_fields cs) ≡ comma_fields cs
unfolding comma_fields
onto_first-nil [] = refl
onto_first-nil (c ∷ cs) = elim (Bool-cases (c == b',')) [
  | inl e ↦ rw e
  | inr e ↦ rw e (onto_first-onto_first [] (c ∷ []) (comma_fields cs))
]

-- A first field, and the first `room` of the others.
first_fields-cons :
    (room : ℕ) (field : Bytes) (fs : List Bytes)
    → first_fields (suc room) (field ∷ fs)
      ≡ elim (first_fields room fs) [ none ↦ none | some gs ↦ some (field ∷ gs) ]
first_fields-cons room field fs = ground arith

-- The loop of `split_fields` gives the first `room` of the texts between the commas, and refuses a
-- body with fewer, for every body and every text already read of the first field.
pub split_fields-eq :
    (room : ℕ) (field cs : Bytes)
    → split_fields room field cs ≡ first_fields room (onto_first field (comma_fields cs))
unfolding split_fields comma_fields
split_fields-eq zero field cs = ground arith
split_fields-eq (suc zero) field [] = rw append-nil
split_fields-eq (suc (suc room)) field [] = ground arith
split_fields-eq (suc room) field (c ∷ cs) = elim (Bool-cases (c == b',')) [
  | inl e ↦
      rw (e, split_fields, split_fields-eq room [] cs, onto_first-nil, append-nil)
        (sym (first_fields-cons room field (comma_fields cs)))
  | inr e ↦
      rw (e, split_fields, split_fields-eq (suc room) (field ++ c ∷ []) cs, onto_first-onto_first)
]

-- The value of a text of decimal digits, most significant first.
unfoldable pub decimal_value : Bytes → ℕ
decimal_value [] = 0
decimal_value (a ∷ []) = a - b'0'
decimal_value (a ∷ b ∷ []) = (a - b'0') * 10 + (b - b'0')
decimal_value (a ∷ b ∷ c ∷ cs) = (a - b'0') * 100 + (b - b'0') * 10 + (c - b'0')

unfoldable pub all_digits : Bytes → Bool
all_digits [] = true
all_digits (c ∷ cs) = is_digit c && all_digits cs

-- A numeric field is accepted exactly when it is one to three decimal digits of a value that fits
-- a byte, and then it is read as that value; the 16-bit accumulator never wraps.
pub parse_uint_field-eq :
    (field : Bytes)
    → parse_uint_field field ≡ (
        if leb 1 (length field)
          && leb (length field) 3
          && all_digits field
          && leb (decimal_value field) 255
        then some (decimal_value field)
        else none)
unfolding parse_uint_field all_digits decimal_value
parse_uint_field-eq [] = refl
parse_uint_field-eq (a ∷ []) = ground arith
parse_uint_field-eq (a ∷ b ∷ []) = ground arith
parse_uint_field-eq (a ∷ b ∷ c ∷ []) = ground arith
parse_uint_field-eq (a ∷ b ∷ c ∷ d ∷ cs) = ground arith
