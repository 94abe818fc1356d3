-- ===== src/Endpoint/Tests.antt =====
-- An endpoint with rings of two slots, whose packets 0 and 1 are known, over numbers for float64.
use slept.Prelude.{
  ℕ, none, ◌<◌, ◌≤◌, zero, suc, ◌+◌, ◌-◌, ◌*◌, ◌/◌, ◌≡◌, ◌⊎◌, refl, arith, true, false, ◌&&◌, List,
  [], ◌∷◌, ◌++◌, length, ltb, ◌==◌, some, get_elem?,
}
use slept.Prelude.Bits.{testbit}
use slept.Prelude.Results.{ok, store, ◌>>=◌, stale}
use slept.Seq.{sub16}
use slept.Floats.{Floats}
use slept.Bytes.{reference, reference-IsBigEndian}
use slept.Packet.Header.{PacketHeader, IsWire, append_to}
use slept.Packet.Fragment.{FragmentHeader, empty_fragment}
use slept.Buffer.{SequenceBuffer}
use slept.Buffer.Slots.{Slots, is_outdated}
use slept.Buffer.Slots.Laws.{Placed, IsValid}
use slept.Buffer.Slots.Insert.{Inserted}
use slept.Buffer.Types.{RecvPacketBuffer}
use slept.Endpoint.{Endpoint, Dispatcher, Config, new_config, chosen_config, wrap64}
use slept.Endpoint.Write.{write_packet, write_fragmented, fragment_count}
use slept.Endpoint.Write.Open.{IsReady, Opened}
use slept.Endpoint.Write.Compact.{write_packet-compact}
use slept.Endpoint.Write.Cut.{Cut, joined}
use slept.Endpoint.Write.Fragments.{datagram, transmit_all, datagrams, write_fragmented-pieces}
use slept.Endpoint.Fresh.{IsSound}
use slept.Endpoint.Read.Pieces.{read_fragment-datagram}
use slept.Packet.Fragment
use slept.Endpoint.Read.{read_packet, read_fragment, process_acks, State}
use slept.Endpoint.Read.Compact.{read_packet-compact}
use slept.Endpoint.Read.Acks.Entries.{Acked}
use slept.Endpoint.Read.Acks.{IsQuiet, process_acks-Acked}

abbrev pub numbers : Floats
numbers = record {
  Float = ℕ;
  of_ℕ = λ n. n;
  tenth = 0;
  tiny = 1;
  rtt_factor = 1;
  max_float = 1000000;
  add = λ x y. x + y;
  sub = λ x y. x - y;
  mul = λ x y. x * y;
  div = λ x y. x / y;
  abs = λ x. x;
  lt = ltb;
  eq = λ x y. x == y;
}

-- A dispatcher that keeps what it is given.
abbrev pub recorder : Dispatcher ℕ (List (ℕ × List ℕ))
recorder = record {
  transmit = λ seq buf w. ok (w ++ (seq, buf) ∷ []);
  process = λ seq buf s. ok (s.0, s.1 ++ (seq, buf) ∷ []);
  ack = λ seq s. ok (s.0, s.1 ++ (seq, []) ∷ []);
}

abbrev pub pair : SequenceBuffer
pair = record { latest = 2; entries = 0 ∷ 1 ∷ [] }

abbrev pub ring : {E : Type 0} → E → Slots E
ring x = record { buf = pair; entries = x ∷ x ∷ [] }

pair-Placed : (i e : ℕ) → get_elem? pair.entries i ≡ some e → Placed 2 i e
pair-Placed zero e at = ground arith
pair-Placed (suc zero) e at = ground arith
pair-Placed (suc (suc i)) e at = absurd (cc)

pub ring-IsValid : {E : Type 0} (x : E) → IsValid 2 (ring x)
ring-IsValid x = record {
  cap_pos = omega arith;
  cap_small = omega arith;
  seqs_length = refl;
  entries_length = refl;
  latest_small = omega arith;
  placed = pair-Placed;
}

abbrev config : Config ℕ
config = new_config numbers

abbrev pub endpoint : Endpoint ℕ
endpoint = record {
  config = config;
  seq = 2;
  time = 5;
  rtt = 0;
  packet_loss = 0;
  sent_bandwidth_kbps = 0;
  received_bandwidth_kbps = 0;
  acked_bandwidth_kbps = 0;
  sent = ring (record { time = 3; acked = false; size = 20 });
  recv = ring (record { time = 3; size = 20 });
  assembler = ring empty_fragment;
}

abbrev endpoint-IsReady : IsReady 2 2 endpoint
endpoint-IsReady = record {
  sent_valid = ring-IsValid _;
  half = omega arith;
  in_step = refl;
  recv_valid = ring-IsValid _;
}

abbrev pub hello : List ℕ
hello = 104 ∷ 101 ∷ []

write_packet-compact_example :
    (e1 : Endpoint ℕ) × (h : PacketHeader) × Opened 2 2 hello endpoint e1 h
    × (write_packet reference recorder hello (endpoint, []) ≡ (
        recorder.transmit h.seq (append_to reference h [] ++ hello) [] >>= λ w1.
        ok ((e1, w1), length (append_to reference h [] ++ hello))))
unfolding new_config
write_packet-compact_example =
    write_packet-compact reference reference-IsBigEndian recorder endpoint endpoint-IsReady hello
      (omega arith) (omega arith) (omega arith) []

abbrev pub header : PacketHeader
header = record { seq = 2; ack = 1; acks = 3 }

abbrev pub header-IsWire : IsWire header
header-IsWire = record {
  seq_small = omega arith;
  ack_small = omega arith;
  acks_small = omega arith;
}

read_packet-compact_example :
    (is_outdated endpoint.recv 2 ≡ true)
      × (read_packet numbers reference recorder
            (append_to reference header [] ++ hello)
            (endpoint, [])
          ≡ ok ((endpoint, []), some stale))
    ⊎ (is_outdated endpoint.recv 2 ≡ false)
      × (t : RecvPacketBuffer ℕ) × Inserted 2 endpoint.recv 2 t
      × (read_packet numbers reference recorder
            (append_to reference header [] ++ hello)
            (endpoint, [])
          ≡ (recorder.process 2 hello (record endpoint { recv = t }, [])
              >>= λ (processed : State numbers recorder).
                  store processed.0.recv.entries 0 (record {
                    time = processed.0.time;
                    size = wrap64 (processed.0.config.packet_header_size + length hello);
                  })
                  >>= λ entries.
                      process_acks numbers recorder 1 3 (
                        record (processed.0) {
                          recv = record (processed.0.recv) { entries = entries };
                        },
                        processed.1,
                      )
                      >>= λ acked. ok (acked, none)))
read_packet-compact_example =
    read_packet-compact numbers reference reference-IsBigEndian recorder endpoint (ring-IsValid _)
      header header-IsWire hello []

recorder-IsQuiet : IsQuiet recorder
recorder-IsQuiet seq e w = (w ++ (seq, []) ∷ [], refl)

process_acks-Acked_example :
    (e1 : Endpoint ℕ) × (w1 : List (ℕ × List ℕ)) × (process_acks numbers recorder 1 3 (endpoint, [])
      ≡ ok (e1, w1))
    × Acked 2 (λ j. ltb (sub16 1 j) 32 && testbit 3 (sub16 1 j) == 1) endpoint e1
process_acks-Acked_example =
    process_acks-Acked numbers recorder recorder-IsQuiet 1 3 endpoint [] (omega arith)
      (ring-IsValid _)

abbrev pub small_pieces : Config ℕ
small_pieces = record config { fragment_size = 2 }

abbrev header_of_three : ℕ → FragmentHeader
header_of_three total = record { seq = 2; id = 0; total = total - 1 }

write_fragmented-pieces_example :
    (total : ℕ) × (ps : List (List ℕ)) × Cut 2 total (7 ∷ 8 ∷ 9 ∷ []) ps
    × (fragment_count 3 2 ≡ ok total)
    × (0 < total)
    × (total ≤ 256)
    × ((w : List (ℕ × List ℕ))
        → write_fragmented reference recorder small_pieces header (7 ∷ 8 ∷ 9 ∷ []) w ≡ (
            transmit_all reference recorder 2
              (datagrams reference header (header_of_three total) 0 ps)
              w
            >>= λ w1.
                ok (w1, length (joined (datagrams reference header (header_of_three total) 0 ps)))))
write_fragmented-pieces_example =
    write_fragmented-pieces reference reference-IsBigEndian recorder small_pieces header
      header-IsWire (omega arith) (7 ∷ 8 ∷ 9 ∷ []) (omega arith) (omega arith)

default-IsSound : IsSound (chosen_config numbers none)
unfolding chosen_config
default-IsSound = record {
  some_sent = omega arith;
  half_sent = omega arith;
  some_recv = omega arith;
  small_recv = omega arith;
  some_fragments = omega arith;
  small_fragments = omega arith;
}

abbrev first_of_two : FragmentHeader
first_of_two = record { seq = 2; id = 0; total = 1 }

abbrev first-IsWire : Fragment.IsWire first_of_two
first-IsWire = record { seq_small = omega arith; id_small = omega arith; total_small = omega arith }

read_fragment-datagram_example :
    read_fragment numbers reference recorder 16 (datagram reference header first_of_two 0 hello)
    ≡ ok (first_of_two, (append_to reference header [], hello))
read_fragment-datagram_example =
    read_fragment-datagram numbers reference reference-IsBigEndian recorder header header-IsWire
      first_of_two first-IsWire refl hello 16 (omega arith) (omega arith)
