-- ===== src/Buffer/Slots/Insert.antt =====
-- `Insert`: what the buffer knows afterwards, and what it forgets.
use slept.Prelude.{
  ℕ, ◌%◌, ◌<◌, ◌≡◌, ◌⊎◌, inl, inr, refl, sym, ◌∙◌, get_elem?-lt, arith, Bool, true, false, not,
  ◌&&◌, ◌||◌, none, some, length, ◌==◌, if◌then◌else◌, get_elem?, set, length-set, Bool-cases,
  lt→ltb,
}
use slept.Prelude.Results.{ok}
use slept.Seq.{IsU16, add16, seq_greater_than}
use slept.Buffer.{SequenceBuffer, empty_entry}
use slept.Buffer.Ranges.{emptied, remove_range-emptied}
use slept.Buffer.Slots.{Slots, is_outdated, advance, insert}
use slept.Buffer.Slots.Laws.{Placed, IsValid, holds, mod-lt_cap, slot_pointee, cap16-eq}
use slept.Buffer.Slots.Laws.{slot_is-set, Placed-set}

-- The number after `seq` is beyond `latest`, so that `Insert` moves on.
abbrev pub moves_on : {E : Type 0} → Slots E → ℕ → Bool
moves_on s seq = seq_greater_than (add16 seq 1) s.buf.latest

-- Slot i is emptied when `Insert` moves on to `seq`.
abbrev pub forgets : {E : Type 0} → Slots E → ℕ → ℕ → ℕ → Bool
forgets s cap seq i = moves_on s seq && emptied cap s.buf.latest seq i

-- The ring of numbers after the step to `seq`.
record Advanced {E : Type 0} (cap : ℕ) (s : Slots E) (seq : ℕ) (b : SequenceBuffer) : Type 0 where
  latest_is : b.latest ≡ (if moves_on s seq then add16 seq 1 else s.buf.latest)
  length_is : length b.entries ≡ cap
  slots_are :
      (i : ℕ)
      → i < cap
      → get_elem? b.entries i
        ≡ (if forgets s cap seq i then some empty_entry else get_elem? s.buf.entries i)

-- What a successful `Insert` leaves: sound slots, the old entries, and of the numbers exactly `seq`
-- and those that stood in other slots and were not emptied.
pub record Inserted {E : Type 0} (cap : ℕ) (s : Slots E) (seq : ℕ) (t : Slots E) : Type 0 where
  pub valid : IsValid cap t
  pub same_entries : t.entries ≡ s.entries
  pub latest_is : t.buf.latest ≡ (if moves_on s seq then add16 seq 1 else s.buf.latest)
  pub knows :
      (j : ℕ)
      → IsU16 j
      → holds t cap j ≡ (
          j == seq
          || (not (j % cap == seq % cap) && (not (forgets s cap seq (j % cap)) && holds s cap j)))

module _ {E : Type 0} {cap : ℕ} (s : Slots E) (v : IsValid cap s) (seq : ℕ) where
  advance-Advanced : (b : SequenceBuffer) × (advance s.buf seq ≡ ok b) × Advanced cap s seq b
  unfolding advance
  advance-Advanced = elim (Bool-cases (moves_on s seq)) [
    | inl e ↦
        let (t, ran, _, len, slots) =
          remove_range-emptied s.buf s.buf.latest seq (omega (arith, v.seqs_length, v.cap_small)) in
        rw (e, ran, advance)
          (
            record t { latest = add16 seq 1 },
            refl,
            record {
              latest_is = rw e refl;
              length_is = rw v.seqs_length at len;
              slots_are =
                  λ i h. rw (e) (rw v.seqs_length at (slots i (omega (arith, v.seqs_length))));
            },
          )
    | inr e ↦
        rw (e, advance)
          (
            s.buf,
            refl,
            record {
              latest_is = rw e refl;
              length_is = v.seqs_length;
              slots_are = λ i h. rw e refl;
            },
          )
  ]

  module _ (small : IsU16 seq) (b : SequenceBuffer) (a : Advanced cap s seq b) where
    inside : seq % cap < length b.entries
    inside = omega (arith, a.length_is, v.cap_pos, mod-lt_cap seq cap)

    abbrev result : Slots E
    result = record s { buf = record b { entries = set b.entries (seq % cap) seq } }

    Placed-advanced : (k e : ℕ) → get_elem? b.entries k ≡ some e → Placed cap k e
    Placed-advanced k e at =
        let slot = a.slots_are k (omega (arith, get_elem?-lt b.entries k at, a.length_is)) in
        elim (Bool-cases (forgets s cap seq k)) [
          | inl y ↦ inl (cc (rw y at slot))
          | inr n ↦ v.placed k e (sym (rw n at slot) ∙ at)
        ]

    result-Inserted : Inserted cap s seq result
    unfolding holds
    result-Inserted = record {
      valid = record {
        cap_pos = v.cap_pos;
        cap_small = v.cap_small;
        seqs_length = omega (arith, length-set b.entries (seq % cap) seq, a.length_is);
        entries_length = v.entries_length;
        latest_small = ground (arith, a.latest_is, v.latest_small);
        placed =
            Placed-set b.entries (seq % cap) seq inside cap Placed-advanced (inr (small, refl));
      };
      same_entries = refl;
      latest_is = a.latest_is;
      knows = λ j hj. ground (
        arith,
        slot_is-set b.entries (seq % cap) seq inside (j % cap) j,
        a.slots_are (j % cap) (mod-lt_cap j cap v.cap_pos),
      );
    }

  -- `Insert` refuses exactly the outdated numbers and then changes nothing; any other number gets
  -- its slot, and the buffer knows afterwards that number, and those known before whose slots were
  -- neither taken nor emptied. It never panics.
  pub insert-Inserted :
      IsU16 seq
      → (is_outdated s seq ≡ true) × (insert s seq ≡ ok (s, none))
        ⊎ (is_outdated s seq ≡ false)
          × (t : Slots E) × (insert s seq ≡ ok (t, some (seq % cap)))
          × Inserted cap s seq t
  unfolding insert
  insert-Inserted small = elim (Bool-cases (is_outdated s seq)) [
    | inl e ↦ inl (e, rw e)
    | inr e ↦
        let (b, ran, a) = advance-Advanced in
        let (p, there) = slot_pointee s v seq in
        let positive : (cap == 0) ≡ false = ground (arith, v.cap_pos) in
        inr (
          e,
          result small b a,
          rw (e, ran, cap16-eq s v seq, positive, lt→ltb _ _ (inside small b a))
              (ground (arith, there)),
          result-Inserted small b a,
        )
  ]

  pub insert_fresh :
      IsU16 seq
      → is_outdated s seq ≡ false
      → (t : Slots E) × (insert s seq ≡ ok (t, some (seq % cap))) × Inserted cap s seq t
  insert_fresh small fresh = elim (insert-Inserted small) [
    | inl (old, _) ↦ absurd (cc)
    | inr (_, t, ran, ins) ↦ (t, ran, ins)
  ]
