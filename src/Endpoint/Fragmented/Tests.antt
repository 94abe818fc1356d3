-- ===== src/Endpoint/Fragmented/Tests.antt =====
-- Three bytes in two fragments, whose datagrams arrive in the wrong order.
use slept.Prelude.{ℕ, ◌≡◌, refl, arith, List, [], ◌∷◌, length, map, some, get_elem?, replicate}
use slept.Prelude.Results.{ok, ◌>>=◌}
use slept.Bytes.{reference, reference-IsBigEndian}
use slept.Packet.Fragment.{FragmentHeader, Fragment}
use slept.Buffer.Slots.Insert.{Inserted}
use slept.Buffer.Types.{FragmentReassemblyBuffer}
use slept.Seq.{seq_less_than}
use slept.Buffer.Slots.{is_outdated}
use slept.Buffer.Slots.Laws.{holds}
use slept.Endpoint.{Endpoint, new_config}
use slept.Endpoint.Write.{write_fragmented, fragment_count}
use slept.Endpoint.Write.Cut.{joined}
use slept.Endpoint.Write.Fragments.{transmit_all}
use slept.Endpoint.Read.{recv_fragment, place_fragment}
use slept.Endpoint.Read.Assembly.Inv.{Parted}
use slept.Endpoint.Read.Assembly.Place.{Placed, place_fragment-Placed}
use slept.Endpoint.Read.Assembly.Whole.{started_entry, started-Gathered}
use slept.Endpoint.Read.Assembly.Arrival.{Arrived, recv_fragment-Arrived}
use slept.Endpoint.Read.Assembly.Order.{Others, read_each, read_whole}
use slept.Endpoint.Fragmented.{write_fragmented-read}
use slept.Endpoint.Tests.{
  numbers, recorder, endpoint, header, header-IsWire, small_pieces, ring-IsValid, ring,
}

abbrev bytes_three : List ℕ
bytes_three = 7 ∷ 8 ∷ 9 ∷ []

abbrev reader : Endpoint ℕ
reader = record endpoint { config = small_pieces }

write_fragmented-read_example :
    (sent : List (List ℕ)) × (arrived : List (List ℕ)) × ((w1 : List (ℕ × List ℕ))
      → write_fragmented reference recorder small_pieces header bytes_three w1
        ≡ (transmit_all reference recorder 2 sent w1 >>= λ w2. ok (w2, length (joined sent))))
    × (length sent ≡ 2)
    × (map (get_elem? sent) (1 ∷ 0 ∷ []) ≡ map some arrived)
    × (t : FragmentReassemblyBuffer) × Inserted 2 reader.assembler 2 t
    × (es : List Fragment) × Others 0 reader.assembler.entries es
    × (read_each numbers reference recorder arrived (reader, [])
        ≡ read_whole numbers reference recorder header bytes_three
            (record reader { assembler = record t { entries = es } }, []))
unfolding new_config is_outdated holds fragment_count seq_less_than
write_fragmented-read_example =
    write_fragmented-read numbers reference reference-IsBigEndian recorder recorder small_pieces
      header header-IsWire bytes_three (omega arith) reader (omega arith) refl (omega arith)
      (omega arith) (ring-IsValid _) refl refl [] 2 (1 ∷ 0 ∷ []) refl (omega arith) (omega arith)
      (omega arith) refl

abbrev two_parts : Parted 2 2 [] bytes_three
two_parts = record {
  some_size = omega arith;
  some_count = omega arith;
  few = omega arith;
  front_fits = omega arith;
  needed = omega arith;
  enough = omega arith;
  no_wrap = omega arith;
}

abbrev room_for_two : List ℕ
room_for_two = replicate 13 0

abbrev second : FragmentHeader
second = record { seq = 0; id = 1; total = 1 }

abbrev assembling : Endpoint ℕ
assembling = record reader { assembler = ring (started_entry 2 room_for_two) }

recv_fragment-Arrived_example :
    Arrived numbers reference recorder 2 2 [] bytes_three second assembling 0
      (started_entry 2 room_for_two)
      []
      (recv_fragment numbers reference recorder second (9 ∷ []) (9 ∷ []) 0 (assembling, []))
recv_fragment-Arrived_example =
    recv_fragment-Arrived numbers reference recorder two_parts second refl (omega arith) (9 ∷ [])
      (λ z. absurd (omega (arith, z))) assembling refl 0 (started_entry 2 room_for_two) refl
      (started-Gathered room_for_two refl) []

place_fragment-Placed_example :
    (g : Fragment) × (place_fragment numbers reference recorder second 2
        (9 ∷ [])
        (9 ∷ [])
        (started_entry 2 room_for_two)
      ≡ ok g)
    × Placed 2 2 [] bytes_three 1 (started_entry 2 room_for_two) g
place_fragment-Placed_example =
    place_fragment-Placed numbers reference recorder two_parts second refl (omega arith)
      (started_entry 2 room_for_two) refl (9 ∷ []) (λ z. absurd (omega (arith, z)))
