-- ===== src/Ais/Trace.antt =====
-- What a dropped frame proves about the frames before it.
use esp_nmea_bridge.Prelude.{
  ℕ, ◌≤◌, ◌<◌, ◌≡◌, refl, sym, ◌∙◌, true, false, ◌⊎◌, inl, inr, List, [], ◌∷◌, some, arith, ltb,
  ◌==◌, if◌then◌else◌, Bool-cases, Option-cases,
}
use mathlib.Core.Path.{subst₃}
use esp_nmea_bridge.Prelude.CString.{Bytes, cstr}
use esp_nmea_bridge.Ais.{Sequence, Filter, init, remember_sequence, advance, should_drop}
use esp_nmea_bridge.Ais.Multipart.{
  Part, frame_part, classify_part, classify_part-cases, should_drop-eq, IsOwnFirst, IsNext,
}

-- Some frame of a history has the property.
abbrev pub Some : (Bytes → Type 0) → List Bytes → Type 0
Some P [] = ⊥
Some P (x ∷ xs) = P x ⊎ Some P xs

-- The filter after the frames of a history, the newest first.
unfoldable pub after : ℕ → List Bytes → Filter
after m [] = init m
after m (x ∷ past) = (should_drop (after m past) x).1

-- A frame that holds a first part of the MMSI `m`, of that total, channel and identifier.
pub record Opens (m total channel : ℕ) (seq_id : Bytes) (frame : Bytes) : Type 0 where
  pub part : Part
  pub holds : frame_part frame ≡ some part
  pub first : IsOwnFirst m part
  pub same_total : part.total ≡ total
  pub same_channel : part.channel ≡ channel
  pub same_id : cstr part.seq_id ≡ seq_id

-- A frame that belongs to a message of the MMSI `m`, as far as the frames before it tell.
pub record Confirmed (m : ℕ) (past : List Bytes) (frame : Bytes) : Type 0 where
  pub part : Part
  pub holds : frame_part frame ≡ some part
  pub why :
      IsOwnFirst m part
      ⊎ ((1 < part.fragment)
          × (part.fragment ≤ part.total)
          × Some (Opens m part.total part.channel part.seq_id) past)

-- While a sequence is active, the frame that opened it is in the history.
record Inv (m : ℕ) (past : List Bytes) (f : Filter) : Type 0 where
  mmsi : f.own_mmsi ≡ m
  opened :
      f.sequence.active ≡ true
      → Some (Opens m f.sequence.total_fragments f.sequence.channel f.sequence.sequence_id) past

-- What `advance` leaves alone.
advance-keeps :
    (s : Sequence)
    → ((advance s).total_fragments ≡ s.total_fragments)
      × ((advance s).channel ≡ s.channel)
      × ((advance s).sequence_id ≡ s.sequence_id)
unfolding advance
advance-keeps s = ground arith

-- A sequence that `remember_sequence` leaves active is that of its arguments.
remember_sequence-active :
    (f : Filter) (seq_id : Bytes) (channel total : ℕ)
    → ((remember_sequence f seq_id channel total).own_mmsi ≡ f.own_mmsi)
      × ((remember_sequence f seq_id channel total).sequence.active ≡ true
          → ((remember_sequence f seq_id channel total).sequence.total_fragments ≡ total)
            × ((remember_sequence f seq_id channel total).sequence.channel ≡ channel)
            × ((remember_sequence f seq_id channel total).sequence.sequence_id ≡ cstr seq_id))
unfolding remember_sequence
remember_sequence-active f seq_id channel total = ground arith

Some-Opens :
    (m : ℕ) (past : List Bytes) {t t' c c' : ℕ} {id id' : Bytes}
    → t ≡ t'
    → c ≡ c'
    → id ≡ id'
    → Some (Opens m t c id) past
    → Some (Opens m t' c' id') past
Some-Opens m past pt pc pid h =
    subst₃ (λ (t : ℕ) (c : ℕ) (id : Bytes). Some (Opens m t c id) past) pt pc pid h

module _ (m : ℕ) (past : List Bytes) (frame : Bytes) (f : Filter) (inv : Inv m past f) where
  module _ (p : Part) (e : frame_part frame ≡ some p) where
    first-Inv :
        IsOwnFirst m p
        → Inv m (frame ∷ past) (
            if ltb 1 p.total
            then remember_sequence f p.seq_id p.channel p.total
            else record f { sequence = record (f.sequence) { active = false } })
    first-Inv first = elim (Bool-cases (ltb 1 p.total)) [
      | inr one ↦ rw one (record { mmsi = inv.mmsi; opened = λ a. cc })
      | inl more ↦
          let (own, now) = remember_sequence-active f p.seq_id p.channel p.total in
          rw more (record {
            mmsi = own ∙ inv.mmsi;
            opened = λ a. inl (record {
              part = p;
              holds = e;
              first = first;
              same_total = sym ((now a).0);
              same_channel = sym ((now a).1);
              same_id = sym ((now a).2);
            });
          })
    ]

    next-Inv :
        IsNext f.sequence p → Inv m (frame ∷ past) (record f { sequence = advance f.sequence })
    next-Inv next =
        let (total, channel, id) = advance-keeps f.sequence in
        record {
          mmsi = inv.mmsi;
          opened = λ a.
              inr
                (Some-Opens m past (sym total) (sym channel) (sym id) (inv.opened next.is_active));
        }

    next-opened : IsNext f.sequence p → Some (Opens m p.total p.channel p.seq_id) past
    next-opened next =
        Some-Opens m past next.same_total next.same_channel next.same_id (inv.opened next.is_active)

    classify_part-Inv :
        Inv m (frame ∷ past) (classify_part f p).1
        × ((classify_part f p).0 ≡ true → Confirmed m past frame)
    classify_part-Inv = elim (classify_part-cases f p) [
      | inl kept ↦ rw kept (record { mmsi = inv.mmsi; opened = λ a. inr (inv.opened a) }, λ h. cc)
      | inr (inl (first, is)) ↦
          let own = rw inv.mmsi at first in
          rw is (first-Inv own, λ h. record { part = p; holds = e; why = inl own })
      | inr (inr (next, is)) ↦ rw is (
        next-Inv next,
        λ h. record { part = p; holds = e; why = inr (next.later, next.within, next-opened next) },
      )
    ]

  kept-Inv : Inv m (frame ∷ past) f
  kept-Inv = record { mmsi = inv.mmsi; opened = λ a. inr (inv.opened a) }

  should_drop-Inv :
      Inv m (frame ∷ past) (should_drop f frame).1
      × ((should_drop f frame).0 ≡ true → Confirmed m past frame)
  should_drop-Inv = elim (Bool-cases (f.own_mmsi == 0)) [
    | inl off ↦ rw (should_drop-eq, off) (kept-Inv, λ h. cc)
    | inr on ↦ elim (Option-cases (frame_part frame)) [
      | inl e ↦ rw (should_drop-eq, on, e) (kept-Inv, λ h. cc)
      | inr (p, e) ↦ rw (should_drop-eq, on, e) (classify_part-Inv p e)
    ]
  ]

after-Inv : (m : ℕ) (past : List Bytes) → Inv m past (after m past)
unfolding after init
after-Inv m [] = record { mmsi = refl; opened = λ h. cc }
after-Inv m (x ∷ past) = (should_drop-Inv m past x (after m past) (after-Inv m past)).0

-- Whatever frames a filter has seen since it was set to an MMSI, it drops a frame only if the frame
-- is a valid AIS VDM sentence with a valid checksum that either is a first part carrying that MMSI,
-- or is a later part of a message with the total, channel and sequence identifier of an earlier
-- frame that was such a first part.
pub should_drop-Confirmed :
    (m : ℕ) (past : List Bytes) (frame : Bytes)
    → (should_drop (after m past) frame).0 ≡ true
    → Confirmed m past frame
should_drop-Confirmed m past frame =
    (should_drop-Inv m past frame (after m past) (after-Inv m past)).1
