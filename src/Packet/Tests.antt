-- ===== src/Packet/Tests.antt =====
-- The headers of packet.go at concrete values, with an implementation of the byte utilities.
use slept.Prelude.{ℕ, ◌≡◌, refl, arith, List, [], ◌∷◌, ◌++◌}
use slept.Prelude.Results.{ok}
use slept.Bytes.{reference, reference-IsBigEndian}
use slept.Packet.Header.{PacketHeader, IsWire, unmarshal_packet_header}
use slept.Packet.Header.{append_to}
use slept.Packet.Header.RoundTrip.{unmarshal_packet_header-append_to}
use slept.Packet.Header.Decode.{Reads, unmarshal-Reads}
use slept.Packet.Fragment.{
  Fragment, FragmentHeader, empty_fragment, mark_received, fragment_header_size,
}
use slept.Packet.Fragment.{unmarshal_fragment_header, validate}
use slept.Packet.Fragment
use slept.Packet.Fragment.Marks.{Marks, mark_received-Marks}
use slept.Packet.Fragment.RoundTrip.{append_to-bytes, unmarshal_fragment_header-append_to}

-- A near ACK over the wrap, and a bitset with two full bytes.
abbrev near_header : PacketHeader
near_header = record { seq = 3; ack = 65533; acks = 0xff12ff34 }

abbrev near-IsWire : IsWire near_header
near-IsWire = record { seq_small = omega arith; ack_small = omega arith; acks_small = omega arith }

near_bytes : append_to reference near_header [] ≡ 42 ∷ 0 ∷ 3 ∷ 6 ∷ 0x34 ∷ 0x12 ∷ []
unfolding append_to
near_bytes = refl

unmarshal_packet_header-append_to_example :
    unmarshal_packet_header reference (append_to reference near_header [] ++ 9 ∷ [])
    ≡ ok (near_header, 9 ∷ [])
unmarshal_packet_header-append_to_example =
    unmarshal_packet_header-append_to reference reference-IsBigEndian near_header (9 ∷ [])
      near-IsWire

-- The flag byte announces four bytes of bitset, and only one is there.
abbrev cut_packet : List ℕ
cut_packet = 62 ∷ 0 ∷ 3 ∷ 6 ∷ 0x34 ∷ []

unmarshal-Reads_example : Reads IsWire 4 9 cut_packet (unmarshal_packet_header reference cut_packet)
unmarshal-Reads_example = unmarshal-Reads reference reference-IsBigEndian cut_packet (omega arith)

abbrev second_of_three : FragmentHeader
second_of_three = record { seq = 700; id = 1; total = 2 }

abbrev second-IsWire : Fragment.IsWire second_of_three
second-IsWire = record {
  seq_small = omega arith;
  id_small = omega arith;
  total_small = omega arith;
}

append_to-bytes_example : Fragment.append_to reference second_of_three [] ≡ 1 ∷ 2 ∷ 188 ∷ 1 ∷ 2 ∷ []
append_to-bytes_example =
    append_to-bytes reference reference-IsBigEndian second_of_three [] second-IsWire

unmarshal_fragment_header-append_to_example :
    unmarshal_fragment_header reference (Fragment.append_to reference second_of_three [] ++ 9 ∷ [])
    ≡ ok (second_of_three, 9 ∷ [])
unmarshal_fragment_header-append_to_example =
    unmarshal_fragment_header-append_to reference reference-IsBigEndian second_of_three (9 ∷ [])
      second-IsWire

abbrev three_bytes : List ℕ
three_bytes = 1 ∷ 0 ∷ 3 ∷ []

mark_received-Marks_example : Marks empty_fragment 200 (mark_received empty_fragment 200)
mark_received-Marks_example = mark_received-Marks empty_fragment 200 refl (omega arith)
