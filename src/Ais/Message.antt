-- ===== src/Ais/Message.antt =====
-- What one frame does to the filter, and how a message of several parts is dropped.
use esp_nmea_bridge.Prelude.{
  ℕ, ◌+◌, ◌≤◌, ◌<◌, ◌≡◌, Bool, true, false, ◌&&◌, inl, inr, List, [], ◌∷◌, some, arith, ◌==◌,
  length, Option-cases,
}
use esp_nmea_bridge.Prelude.CString.{Bytes, bytes_eq_refl, NonZero, cstr-nonzero}
use esp_nmea_bridge.Ais.{
  Filter, decode_mmsi, sequence_matches, remember_sequence, advance, classify, should_drop,
}
use esp_nmea_bridge.Ais.Multipart.{
  Part, frame_part, classify_part, classify_part-cases, should_drop-eq,
}

classify_part-kept :
    (f : Filter) (p : Part)
    → ((classify_part f p).0 ≡ false → (classify_part f p).1 ≡ f)
      × ((classify_part f p).1.own_mmsi ≡ f.own_mmsi)
unfolding remember_sequence
classify_part-kept f p = ground (arith, classify_part-cases f p)

-- A frame that is kept leaves the filter as it was, and no frame changes the MMSI looked for.
pub should_drop-kept :
    (f : Filter) (frame : Bytes)
    → ((should_drop f frame).0 ≡ false → (should_drop f frame).1 ≡ f)
      × ((should_drop f frame).1.own_mmsi ≡ f.own_mmsi)
should_drop-kept f frame = elim (Option-cases (frame_part frame)) [
  | inl e ↦ rw (should_drop-eq, e) (ground arith)
  | inr (p, e) ↦ rw (should_drop-eq, e) (ground (arith, classify_part-kept f p))
]

-- The parts of one message from `fragment` on, with their payloads.
unfoldable pub message_parts : ℕ → ℕ → Bytes → ℕ → List Bytes → List Part
message_parts total fragment seq_id channel [] = []
message_parts total fragment seq_id channel (p ∷ ps) =
    record { total = total; fragment = fragment; seq_id = seq_id; channel = channel; payload = p }
    ∷ message_parts total (fragment + 1) seq_id channel ps

-- Whether all the parts are dropped, and the filter afterwards.
unfoldable pub classify_parts : Filter → List Part → Bool × Filter
classify_parts f [] = (true, f)
classify_parts f (p ∷ ps) =
    let (dropped, f') = classify_part f p in
    let (rest, f'') = classify_parts f' ps in (dropped && rest, f'')

abbrev Waiting : Filter → ℕ → ℕ → Bytes → ℕ → Type 0
Waiting f total fragment seq_id channel =
    (f.sequence.active ≡ true)
    × (f.sequence.total_fragments ≡ total)
    × (f.sequence.next_fragment ≡ fragment)
    × (f.sequence.channel ≡ channel)
    × (f.sequence.sequence_id ≡ seq_id)

-- One part that is waited for is dropped, and the filter waits for the one behind it, if any.
classify_part-next :
    (f : Filter) (total fragment : ℕ) (seq_id : Bytes) (channel : ℕ) (payload : Bytes)
    → Waiting f total fragment seq_id channel
    → 2 ≤ fragment
    → fragment ≤ total
    → total ≤ 255
    → let (dropped, f') = classify_part f (record {
      total = total;
      fragment = fragment;
      seq_id = seq_id;
      channel = channel;
      payload = payload;
    }) in
      (dropped ≡ true)
      × (fragment < total → Waiting f' total (fragment + 1) seq_id channel)
      × (fragment ≡ total → f'.sequence.active ≡ (total == 255))
unfolding classify_part classify advance sequence_matches
classify_part-next f total fragment seq_id channel payload w two le small =
    ground (arith, bytes_eq_refl seq_id)

-- The first part of a message starts the wait for the second.
classify_part-first :
    (f : Filter) (total : ℕ) (seq_id : Bytes) (channel : ℕ) (payload : Bytes)
    → decode_mmsi payload ≡ some f.own_mmsi
    → 2 ≤ total
    → 0 < length seq_id
    → length seq_id ≤ 8
    → NonZero seq_id
    → let (dropped, f') = classify_part f (record {
      total = total;
      fragment = 1;
      seq_id = seq_id;
      channel = channel;
      payload = payload;
    }) in
      (dropped ≡ true) × Waiting f' total 2 seq_id channel
unfolding classify_part classify remember_sequence
classify_part-first f total seq_id channel payload own two some_id short nz =
    ground (arith, cstr-nonzero seq_id nz)

-- The parts that are waited for are dropped one after the other.
classify_parts-Waiting :
    (total : ℕ) (seq_id : Bytes) (channel : ℕ) (ps : List Bytes) (fragment : ℕ) (f : Filter)
    → Waiting f total fragment seq_id channel
    → 2 ≤ fragment
    → fragment + length ps ≡ total + 1
    → 0 < length ps
    → total ≤ 255
    → let (dropped, f') = classify_parts f (message_parts total fragment seq_id channel ps) in
      (dropped ≡ true) × (f'.sequence.active ≡ (total == 255))
unfolding classify_parts message_parts
classify_parts-Waiting total seq_id channel [] fragment f w two e some_left small =
    absurd (omega arith)
classify_parts-Waiting total seq_id channel (p ∷ []) fragment f w two e some_left small =
    ground (arith, classify_part-next f total fragment seq_id channel p)
classify_parts-Waiting total seq_id channel (p ∷ q ∷ ps) fragment f w two e some_left small =
    let step = classify_part-next f total fragment seq_id channel p w two (omega arith) small in
    let f' =
      (classify_part f (record {
        total = total;
        fragment = fragment;
        seq_id = seq_id;
        channel = channel;
        payload = p;
      })).1 in
    ground (
      arith,
      step,
      classify_parts-Waiting total seq_id channel (q ∷ ps) (fragment + 1) f' (step.1 (omega arith))
          (omega arith) (omega arith) (omega arith) small,
    )

-- A message of the own MMSI in several parts (from 2 to 255), with a sequence identifier of one to
-- eight non-zero bytes: if its first part carries the MMSI that the filter looks for, all its parts
-- are dropped in order, whatever the later payloads are. Afterwards no sequence is left open, but
-- for a message of 255 parts: there the 8-bit counter wraps, and the sequence stays active.
pub classify_parts-message :
    (f : Filter) (total : ℕ) (seq_id : Bytes) (channel : ℕ) (first : Bytes) (ps : List Bytes)
    → decode_mmsi first ≡ some f.own_mmsi
    → total ≡ 1 + length ps
    → 2 ≤ total
    → total ≤ 255
    → 0 < length seq_id
    → length seq_id ≤ 8
    → NonZero seq_id
    → let (dropped, f') = classify_parts f (message_parts total 1 seq_id channel (first ∷ ps)) in
      (dropped ≡ true) × (f'.sequence.active ≡ (total == 255))
unfolding classify_parts message_parts
classify_parts-message f total seq_id channel first ps own is_total two small some_id short nz =
    let step = classify_part-first f total seq_id channel first own two some_id short nz in
    let f' =
      (classify_part f (record {
        total = total;
        fragment = 1;
        seq_id = seq_id;
        channel = channel;
        payload = first;
      })).1 in
    ground (
      arith,
      step,
      classify_parts-Waiting total seq_id channel ps 2 f' step.1 (omega arith) (omega arith)
          (omega arith) small,
    )
