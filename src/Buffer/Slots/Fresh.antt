-- ===== src/Buffer/Slots/Fresh.antt =====
-- A new buffer is well-formed and knows no sequence number.
use slept.Prelude.{
  ℕ, zero, suc, ◌<◌, ◌≡◌, inl, refl, arith, false, some, replicate, get_elem?, length-replicate,
}
use slept.Prelude.Results.{ok}
use slept.Seq.{IsU16}
use slept.Buffer.{empty_entry, reset, reset_sequence_buffer, new_sequence_buffer}
use slept.Buffer.Slots.{Slots, new_slots}
use slept.Buffer.Slots.Laws.{IsValid, slot_is, holds}

get_elem?-replicate : (n i a e : ℕ) → get_elem? (replicate n a) i ≡ some e → e ≡ a
get_elem?-replicate zero i a e h = absurd (cc)
get_elem?-replicate (suc n) zero a e h = cc
get_elem?-replicate (suc n) (suc i) a e h = get_elem?-replicate n i a e h

slot_is-replicate :
    (n i j : ℕ) → IsU16 j → slot_is (get_elem? (replicate n empty_entry) i) j ≡ false
slot_is-replicate zero i j h = refl
slot_is-replicate (suc n) zero j h = ground arith
slot_is-replicate (suc n) (suc i) j h = slot_is-replicate n i j h

-- For 1 to 65534 slots the constructor succeeds: the slots are sound, the entries are zero values,
-- `latest` is 0, and no sequence number is known.
pub new_slots-IsValid :
    {E : Type 0} (zero_value : E) (cap : ℕ)
    → 0 < cap
    → cap < 65535
    → (t : Slots E) × (new_slots zero_value cap ≡ ok t)
      × IsValid cap t
      × (t.entries ≡ replicate cap zero_value)
      × (t.buf.latest ≡ 0)
      × ((j : ℕ) → IsU16 j → holds t cap j ≡ false)
unfolding new_slots new_sequence_buffer reset reset_sequence_buffer holds
new_slots-IsValid zero_value cap h small = (
  record {
    buf = record { latest = 0; entries = replicate cap empty_entry };
    entries = replicate cap zero_value;
  },
  rw (length-replicate cap zero) (ground arith),
  record {
    cap_pos = h;
    cap_small = small;
    seqs_length = length-replicate cap empty_entry;
    entries_length = length-replicate cap zero_value;
    latest_small = omega arith;
    placed = λ i e at. inl (get_elem?-replicate cap i empty_entry e at);
  },
  refl,
  refl,
  λ j hj. slot_is-replicate cap _ j hj,
)
