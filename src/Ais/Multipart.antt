-- ===== src/Ais/Multipart.antt =====
-- Sentences as parts of a message, and how a message of several parts is dropped.
use esp_nmea_bridge.Prelude.{
  ℕ, ◌≤◌, ◌<◌, ◌≡◌, refl, Bool, true, false, not, ◌||◌, ◌⊎◌, inl, inr, List, [], ◌∷◌, Option, some,
  none, arith, ltb, ◌==◌, if◌then◌else◌, get_or, Bool-cases, Option-cases,
}
use esp_nmea_bridge.Prelude.CString.{Bytes, bytes_eq_sound}
use esp_nmea_bridge.Ais.{
  Sequence, Filter, checksum_is_valid, split_fields, parse_uint_field, decode_mmsi,
  formatter_is_vdm, channel_value, sequence_matches, remember_sequence, advance, classify,
  classify_fields, should_drop,
}

-- What the filter reads of a sentence.
pub record Part : Type 0 where
  pub total : ℕ
  pub fragment : ℕ
  pub seq_id : Bytes
  pub channel : ℕ
  pub payload : Bytes

-- The part that a list of fields holds, if it is of an AIS VDM sentence with a fragment number
-- between 1 and its total.
unfoldable pub fields_part : List Bytes → Option Part
fields_part fields =
    if not (formatter_is_vdm (get_or fields 0 []))
    then none
    else elim (parse_uint_field (get_or fields 1 [])) [
      | none ↦ none
      | some total ↦ elim (parse_uint_field (get_or fields 2 [])) [
        | none ↦ none
        | some fragment ↦
            if total == 0 || fragment == 0 || ltb total fragment
            then none
            else some (record {
              total = total;
              fragment = fragment;
              seq_id = get_or fields 3 [];
              channel = channel_value (get_or fields 4 []);
              payload = get_or fields 5 [];
            })
      ]
    ]

-- The part that a frame with a valid checksum and at least seven fields holds.
unfoldable pub frame_part : Bytes → Option Part
frame_part frame = elim (checksum_is_valid frame) [
  | none ↦ none
  | some body ↦ elim (split_fields 7 [] body) [ none ↦ none | some fields ↦ fields_part fields ]
]

unfoldable pub classify_part : Filter → Part → Bool × Filter
classify_part f p = classify f p.total p.fragment p.seq_id p.channel p.payload

classify_fields-eq :
    (f : Filter) (fields : List Bytes)
    → classify_fields f fields
      ≡ elim (fields_part fields) [ none ↦ (false, f) | some p ↦ classify_part f p ]
unfolding classify_fields fields_part classify_part classify
classify_fields-eq f fields = ground arith

checksum_is_valid-nil : checksum_is_valid [] ≡ none
unfolding checksum_is_valid
checksum_is_valid-nil = refl

-- The filter looks at a frame only through the part that it holds: any other frame is kept and
-- changes nothing, and so is every frame while no MMSI is set.
pub should_drop-eq :
    (f : Filter) (frame : Bytes)
    → should_drop f frame ≡ (
        if f.own_mmsi == 0
        then (false, f)
        else elim (frame_part frame) [ none ↦ (false, f) | some p ↦ classify_part f p ])
unfolding should_drop frame_part
should_drop-eq f [] = ground (arith, checksum_is_valid-nil)
should_drop-eq f (c ∷ cs) = elim (Option-cases (checksum_is_valid (c ∷ cs))) [
  | inl e ↦ rw e (ground arith)
  | inr (body, e) ↦ elim (Option-cases (split_fields 7 [] body)) [
    | inl e' ↦ ground arith
    | inr (fields, e') ↦ ground (arith, classify_fields-eq f fields)
  ]
]

-- The first part of a message of the MMSI `m`.
pub record IsOwnFirst (m : ℕ) (p : Part) : Type 0 where
  pub first : p.fragment ≡ 1
  pub some_total : 1 ≤ p.total
  pub own : decode_mmsi p.payload ≡ some m

-- A later part of the message that the sequence waits for.
pub record IsNext (s : Sequence) (p : Part) : Type 0 where
  pub later : 1 < p.fragment
  pub within : p.fragment ≤ p.total
  pub is_active : s.active ≡ true
  pub same_total : s.total_fragments ≡ p.total
  pub is_next : s.next_fragment ≡ p.fragment
  pub same_channel : s.channel ≡ p.channel
  pub same_id : s.sequence_id ≡ p.seq_id

sequence_matches-facts :
    (s : Sequence) (id : Bytes) (channel total fragment : ℕ)
    → sequence_matches s id channel total fragment ≡ true
    → (s.active ≡ true)
      × (s.total_fragments ≡ total)
      × (s.next_fragment ≡ fragment)
      × (s.channel ≡ channel)
      × (s.sequence_id ≡ id)
sequence_matches-facts s id channel total fragment h =
    unfold sequence_matches in ground (arith, bytes_eq_sound s.sequence_id id)

-- The three outcomes: kept with no change, a first part of the own MMSI, the part waited for.
pub classify_part-cases :
    (f : Filter) (p : Part)
    → (classify_part f p ≡ (false, f))
      ⊎ (IsOwnFirst f.own_mmsi p
          × (classify_part f p ≡ (
            true,
            if ltb 1 p.total
                then remember_sequence f p.seq_id p.channel p.total
                else record f { sequence = record (f.sequence) { active = false } },
          )))
      ⊎ (IsNext f.sequence p
          × (classify_part f p ≡ (true, record f { sequence = advance f.sequence })))
unfolding classify_part classify
classify_part-cases f p =
    let o = p.total == 0 || p.fragment == 0 || ltb p.total p.fragment in
    let matches = sequence_matches f.sequence p.seq_id p.channel p.total p.fragment in
    elim (Bool-cases o) [
      | inl e ↦ inl (rw e)
      | inr e ↦ elim (Bool-cases (ltb 1 p.fragment)) [
        | inl e' ↦ elim (Bool-cases matches) [
          | inl e'' ↦
              inr (inr (is_next e e' (sequence_matches-facts _ _ _ _ _ e''), rw (e, e', e'')))
          | inr e'' ↦ inl (rw (e, e', e''))
        ]
        | inr e' ↦ elim (Option-cases (decode_mmsi p.payload)) [
          | inl e'' ↦ inl (rw (e, e', e''))
          | inr (mmsi, e'') ↦ elim (Bool-cases (mmsi == f.own_mmsi)) [
            | inl own ↦ inr (inl (is_first e e' e'' own, ground arith))
            | inr other ↦ inl (ground arith)
          ]
        ]
      ]
    ]
  where
    is_next :
        (p.total == 0 || p.fragment == 0 || ltb p.total p.fragment) ≡ false
        → ltb 1 p.fragment ≡ true
        → (f.sequence.active ≡ true)
          × (f.sequence.total_fragments ≡ p.total)
          × (f.sequence.next_fragment ≡ p.fragment)
          × (f.sequence.channel ≡ p.channel)
          × (f.sequence.sequence_id ≡ p.seq_id)
        → IsNext f.sequence p
    is_next e e' facts = ground arith

    is_first :
        {mmsi : ℕ}
        → (p.total == 0 || p.fragment == 0 || ltb p.total p.fragment) ≡ false
        → ltb 1 p.fragment ≡ false
        → decode_mmsi p.payload ≡ some mmsi
        → (mmsi == f.own_mmsi) ≡ true
        → IsOwnFirst f.own_mmsi p
    is_first e e' e'' own = ground arith
