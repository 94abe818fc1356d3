-- ===== src/Buffer/Tests.antt =====
-- The buffers at concrete states of four slots.
use slept.Prelude.{
  ℕ, zero, suc, ◌<◌, ◌≡◌, ◌⊎◌, refl, arith, true, false, [], ◌∷◌, ◌==◌, none, some, get_elem?,
  replicate,
}
use slept.Prelude.Bits.{testbit}
use slept.Prelude.Results.{ok}
use slept.Buffer.Slots.{Slots, is_outdated, insert}
use slept.Buffer.Slots.Laws.{Placed, IsValid, holds}
use slept.Buffer.Slots.Insert.{Inserted, insert-Inserted}
use slept.Buffer.Slots.Gaps.{insert_forgets}
use slept.Buffer.Types.{RecvPacket, RecvPacketBuffer, next_ack}
use slept.Buffer.Acks.{known_at, next_ack-known}

abbrev blank_packet : RecvPacket ℕ
blank_packet = record { time = 0; size = 0 }

-- The numbers 1 to 4 have arrived, and 5 is next.
abbrev four_known : RecvPacketBuffer ℕ
four_known = record {
  buf = record { latest = 5; entries = 4 ∷ 1 ∷ 2 ∷ 3 ∷ [] };
  entries = replicate 4 blank_packet;
}

four-Placed : (i e : ℕ) → get_elem? (4 ∷ 1 ∷ 2 ∷ 3 ∷ []) i ≡ some e → Placed 4 i e
four-Placed zero e at = ground arith
four-Placed (suc zero) e at = ground arith
four-Placed (suc (suc zero)) e at = ground arith
four-Placed (suc (suc (suc zero))) e at = ground arith
four-Placed (suc (suc (suc (suc i)))) e at = absurd (cc)

four-IsValid : IsValid 4 four_known
four-IsValid = record {
  cap_pos = omega arith;
  cap_small = omega arith;
  seqs_length = refl;
  entries_length = refl;
  latest_small = omega arith;
  placed = four-Placed;
}

insert-Inserted_example :
    (is_outdated four_known 6 ≡ true) × (insert four_known 6 ≡ ok (four_known, none))
    ⊎ (is_outdated four_known 6 ≡ false)
      × (t : Slots (RecvPacket ℕ)) × (insert four_known 6 ≡ ok (t, some 2))
      × Inserted 4 four_known 6 t
insert-Inserted_example = insert-Inserted four_known four-IsValid 6 (omega arith)

-- Packet 4 was known, and is forgotten when 6 arrives before 5.
four_was_known : holds four_known 4 4 ≡ true
unfolding holds
four_was_known = refl

insert_forgets_example :
    (t : Slots (RecvPacket ℕ)) × (insert four_known 6 ≡ ok (t, some 2))
    × (holds t 4 4 ≡ false)
    × (is_outdated t 4 ≡ false)
insert_forgets_example =
    insert_forgets four_known four-IsValid (omega arith) 1 0 refl (omega arith) (omega arith)
      (omega arith) (omega arith)

next_ack-known_example :
    (acks : ℕ) × (next_ack four_known ≡ ok (4, acks))
    × (acks < 4294967296)
    × ((j : ℕ) → j < 32 → (testbit acks j == 1) ≡ known_at four_known 4 4 j)
next_ack-known_example = next_ack-known four_known four-IsValid
