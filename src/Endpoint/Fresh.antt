-- ===== src/Endpoint/Fresh.antt =====
-- endpoint.go: NewEndpoint gives an endpoint that is ready.
use slept.Prelude.{ℕ, ◌%◌, ◌<◌, ◌≡◌, refl, arith, false, Option}
use slept.Prelude.Results.{ok}
use slept.Seq.{IsU16}
use slept.Floats.{Floats}
use slept.Packet.Fragment.{empty_fragment}
use slept.Buffer.Slots.Laws.{IsValid, holds}
use slept.Buffer.Slots.Fresh.{new_slots-IsValid}
use slept.Buffer.Types.{reset_sent, reset_recv, new_sent_packet_buffer, new_recv_packet_buffer}
use slept.Buffer.Types.{new_fragment_reassembly_buffer}
use slept.Endpoint.{Config, Endpoint, chosen_config, new_endpoint}
use slept.Endpoint.Write.Open.{IsReady}

-- Sizes that give rings: the one of the sent packets less than half the circle of numbers.
pub record IsSound {F : Type 0} (c : Config F) : Type 0 where
  pub some_sent : 0 < c.sent_packet_buffer_size
  pub half_sent : c.sent_packet_buffer_size < 32767
  pub some_recv : 0 < c.recv_packet_buffer_size
  pub small_recv : c.recv_packet_buffer_size < 65535
  pub some_fragments : 0 < c.fragment_reassembly_buffer_size
  pub small_fragments : c.fragment_reassembly_buffer_size < 65535

-- An endpoint that has sent and received nothing.
pub record IsFresh {F : Type 0} (c : Config F) (e : Endpoint F) : Type 0 where
  pub same_config : e.config ≡ c
  pub first_seq : e.seq ≡ 0
  pub ready : IsReady c.sent_packet_buffer_size c.recv_packet_buffer_size e
  pub assembler_valid : IsValid c.fragment_reassembly_buffer_size e.assembler
  pub none_sent : (j : ℕ) → IsU16 j → holds e.sent c.sent_packet_buffer_size j ≡ false
  pub none_received : (j : ℕ) → IsU16 j → holds e.recv c.recv_packet_buffer_size j ≡ false
  pub none_assembled :
      (j : ℕ) → IsU16 j → holds e.assembler c.fragment_reassembly_buffer_size j ≡ false

-- `NewEndpoint` with sound sizes, given or by default, returns an endpoint with that configuration
-- that is ready, with sequence number 0, and knows no packet.
pub new_endpoint-IsFresh :
    (fl : Floats) (given : Option (Config fl.Float))
    → IsSound (chosen_config fl given)
    → (e : Endpoint fl.Float) × (new_endpoint fl given ≡ ok e) × IsFresh (chosen_config fl given) e
unfolding new_endpoint new_sent_packet_buffer new_recv_packet_buffer new_fragment_reassembly_buffer
new_endpoint-IsFresh fl given s =
    let c = chosen_config fl given in
    let (sent, sent_ran, sent_valid, _, sent_latest, sent_none) =
      new_slots-IsValid (reset_sent (fl.of_ℕ 0)) c.sent_packet_buffer_size s.some_sent
        (omega (arith, s.half_sent)) in
    let (recv, recv_ran, recv_valid, _, _, recv_none) =
      new_slots-IsValid (reset_recv (fl.of_ℕ 0)) c.recv_packet_buffer_size s.some_recv
        s.small_recv in
    let (parts, parts_ran, parts_valid, _, _, parts_none) =
      new_slots-IsValid empty_fragment c.fragment_reassembly_buffer_size s.some_fragments
        s.small_fragments in
    let cut_sent : c.sent_packet_buffer_size % 65536 ≡ c.sent_packet_buffer_size =
      omega (arith, s.half_sent) in
    let cut_recv : c.recv_packet_buffer_size % 65536 ≡ c.recv_packet_buffer_size =
      omega (arith, s.small_recv) in
    let cut_parts : c.fragment_reassembly_buffer_size % 65536 ≡ c.fragment_reassembly_buffer_size =
      omega (arith, s.small_fragments) in
    (
      record {
        config = c;
        seq = 0;
        time = fl.of_ℕ 0;
        rtt = fl.of_ℕ 0;
        packet_loss = fl.of_ℕ 0;
        sent_bandwidth_kbps = fl.of_ℕ 0;
        received_bandwidth_kbps = fl.of_ℕ 0;
        acked_bandwidth_kbps = fl.of_ℕ 0;
        sent = sent;
        recv = recv;
        assembler = parts;
      },
      rw (cut_sent, cut_recv, cut_parts, sent_ran, recv_ran, parts_ran) refl,
      record {
        same_config = refl;
        first_seq = refl;
        ready = record {
          sent_valid = sent_valid;
          half = s.half_sent;
          in_step = sent_latest;
          recv_valid = recv_valid;
        };
        assembler_valid = parts_valid;
        none_sent = sent_none;
        none_received = recv_none;
        none_assembled = parts_none;
      },
    )
