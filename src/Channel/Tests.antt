-- ===== src/Channel/Tests.antt =====
-- A channel whose window holds the datagrams 0 and 2.
use slept.Prelude.{
  ◌+◌, ◌-◌, ◌*◌, ◌/◌, ◌<◌, ltb, ℕ, zero, suc, ◌%◌, ◌≡◌, refl, arith, true, false, not, ◌&&◌, ◌==◌,
  [], ◌∷◌, some, get_elem?,
}
use slept.Prelude.Results.{ok}
use slept.Seq.{add16, IsU16}
use slept.Bytes.{reference}
use slept.Buffer.{SequenceBuffer, empty_entry}
use slept.Buffer.Slots.{Slots}
use slept.Buffer.Slots.Laws.{Placed, IsValid, holds}
use slept.Buffer.Types.{BufferedPacket, PacketBuffer}
use slept.Packet.Fragment.{empty_fragment}
use slept.Endpoint.{Config, Endpoint}
use slept.Channel.{Channel, ack, or_end}
use slept.Floats.{Floats}
use slept.Channel.Update.{resend}
use slept.Channel.Due.{IsFull}
use slept.Channel.Resent.{Resent}
use slept.Channel.Resend.{resend-Resent}
use slept.Channel.Oldest.{first_known, ack-first_known}

abbrev numbers_known : SequenceBuffer
numbers_known = record { latest = 3; entries = 0 ∷ empty_entry ∷ 2 ∷ empty_entry ∷ [] }

abbrev ring : {E : Type 0} → E → Slots E
ring x = record { buf = numbers_known; entries = x ∷ x ∷ x ∷ x ∷ [] }

known-Placed : (i e : ℕ) → get_elem? numbers_known.entries i ≡ some e → Placed 4 i e
known-Placed zero e at = ground arith
known-Placed (suc zero) e at = ground arith
known-Placed (suc (suc zero)) e at = ground arith
known-Placed (suc (suc (suc zero))) e at = ground arith
known-Placed (suc (suc (suc (suc i)))) e at = absurd (cc)

ring-IsValid : {E : Type 0} (x : E) → IsValid 4 (ring x)
ring-IsValid x = record {
  cap_pos = omega arith;
  cap_small = omega arith;
  seqs_length = refl;
  entries_length = refl;
  latest_small = omega arith;
  placed = known-Placed;
}

abbrev channel : Channel ℕ
channel = record {
  window = ring (record { time = 1; written = true; buf = some (7 ∷ []) });
  queue = [];
  oldest_unacked = 0;
  last_sent = 1;
  out_queue = [];
  processed = [];
}

abbrev config : Config ℕ
config = record {
  fragment_above = 8;
  fragment_size = 8;
  max_fragments = 4;
  max_packet_size = 32;
  packet_header_size = 20;
  sent_packet_buffer_size = 4;
  recv_packet_buffer_size = 3;
  fragment_reassembly_buffer_size = 4;
  rtt_smoothing_factor = 1;
  packet_loss_smoothing_factor = 1;
  bandwidth_smoothing_factor = 1;
}

abbrev endpoint : Endpoint ℕ
endpoint = record {
  config = config;
  seq = 3;
  time = 5;
  rtt = 0;
  packet_loss = 0;
  sent_bandwidth_kbps = 0;
  received_bandwidth_kbps = 0;
  acked_bandwidth_kbps = 0;
  sent = ring (record { time = 3; acked = false; size = 20 });
  recv = ring (record { time = 3; size = 20 });
  assembler = ring empty_fragment;
}

knows_oldest : holds channel.window 4 0 ≡ true
unfolding holds
knows_oldest = refl

ack-first_known_example :
    (window : PacketBuffer ℕ) × IsValid 4 window
    × ((j : ℕ)
        → IsU16 j
        → holds window 4 j
          ≡ (not (j % 4 == channel.oldest_unacked % 4) && holds channel.window 4 j))
    × (ack reference 0 10 0 (endpoint, channel)
        ≡ ok (
            some (
              endpoint,
              record channel {
                window = window;
                queue = [];
                oldest_unacked =
                    or_end (add16 channel.oldest_unacked 3) (first_known 4 window 0 3 1);
              },
            )))
ack-first_known_example =
    ack-first_known reference 0 10 4 3 endpoint channel (ring-IsValid _) (omega arith) knows_oldest
      refl (omega arith) (omega arith) refl

abbrev numbers : Floats
numbers = record {
  Float = ℕ;
  of_ℕ = λ n. n;
  tenth = 2;
  tiny = 1;
  rtt_factor = 1;
  max_float = 1000000;
  add = λ x y. x + y;
  sub = λ x y. x - y;
  mul = λ x y. x * y;
  div = λ x y. x / y;
  abs = λ x. x;
  lt = ltb;
  eq = λ x y. x == y;
}

abbrev packet : BufferedPacket ℕ
packet = record { time = 1; written = true; buf = some (7 ∷ []) }

all_same : (i : ℕ) → i < 4 → get_elem? (packet ∷ packet ∷ packet ∷ packet ∷ []) i ≡ some packet
all_same zero h = refl
all_same (suc zero) h = refl
all_same (suc (suc zero)) h = refl
all_same (suc (suc (suc zero))) h = refl
all_same (suc (suc (suc (suc i)))) h = absurd (omega arith)

channel-IsFull : IsFull numbers 9 4 channel.window
channel-IsFull seq small known = (packet, 7 ∷ [], all_same (seq % 4) (omega arith), refl)

resend-Resent_example :
    (c1 : Channel ℕ) × (resend numbers 10 9 0 (add16 0 3) channel ≡ ok (some c1))
    × Resent numbers 9 4 0 4 0 channel c1
resend-Resent_example =
    resend-Resent numbers 9 4 10 3 channel (ring-IsValid _) channel-IsFull (omega arith)
      (omega arith) (omega arith)
