-- ===== src/Buffer/Types.antt =====
-- packet.go, buffer_packet.go, buffer_recv.go, buffer_sent.go and buffer_fragment.go: the four
-- buffers, over the types of their entries. `F` is float64.
use slept.Prelude.{
  ℕ, suc, zero, ◌+◌, ◌*◌, ◌%◌, Bool, false, List, Option, none, bit_or, ◌==◌, if◌then◌else◌,
}
use slept.Prelude.Results.{Result, ok, ◌>>=◌, mod_checked, index}
use slept.Seq.{sub16}
use slept.Buffer.Slots.{Slots, cap16}
use slept.Buffer.Slots
use slept.Packet.Fragment.{Fragment, empty_fragment}

-- `buf` is none for a nil buffer, and else the content of the ByteBuffer.
pub record BufferedPacket (F : Type 0) : Type 0 where
  pub time : F
  pub written : Bool
  pub buf : Option (List ℕ)

pub record SentPacket (F : Type 0) : Type 0 where
  pub time : F
  pub acked : Bool
  pub size : ℕ

pub record RecvPacket (F : Type 0) : Type 0 where
  pub time : F
  pub size : ℕ

abbrev pub PacketBuffer : Type 0 → Type 0
PacketBuffer F = Slots (BufferedPacket F)

abbrev pub SentPacketBuffer : Type 0 → Type 0
SentPacketBuffer F = Slots (SentPacket F)

abbrev pub RecvPacketBuffer : Type 0 → Type 0
RecvPacketBuffer F = Slots (RecvPacket F)

abbrev pub FragmentReassemblyBuffer : Type 0
FragmentReassemblyBuffer = Slots Fragment

-- The zero values, which `Reset` gives back; `zero_time` is 0.0.
module _ {F : Type 0} (zero_time : F) where
  unfoldable pub reset_buffered : BufferedPacket F
  reset_buffered = record { time = zero_time; written = false; buf = none }

  unfoldable pub reset_sent : SentPacket F
  reset_sent = record { time = zero_time; acked = false; size = 0 }

  unfoldable pub reset_recv : RecvPacket F
  reset_recv = record { time = zero_time; size = 0 }

  unfoldable pub new_packet_buffer : ℕ → Result (PacketBuffer F)
  unfolding reset_buffered
  new_packet_buffer = Slots.new_slots reset_buffered

  unfoldable pub new_sent_packet_buffer : ℕ → Result (SentPacketBuffer F)
  unfolding reset_sent
  new_sent_packet_buffer = Slots.new_slots reset_sent

  unfoldable pub new_recv_packet_buffer : ℕ → Result (RecvPacketBuffer F)
  unfolding reset_recv
  new_recv_packet_buffer = Slots.new_slots reset_recv

unfoldable pub new_fragment_reassembly_buffer : ℕ → Result FragmentReassemblyBuffer
new_fragment_reassembly_buffer = Slots.new_slots empty_fragment

module _ {F : Type 0} where
  unfoldable pub packet_insert : PacketBuffer F → ℕ → Result (PacketBuffer F × Option ℕ)
  packet_insert = Slots.insert

  unfoldable pub packet_find : PacketBuffer F → ℕ → Result (Option ℕ)
  packet_find = Slots.find

  unfoldable pub packet_remove : PacketBuffer F → ℕ → Result (PacketBuffer F)
  packet_remove = Slots.remove

  unfoldable pub sent_insert : SentPacketBuffer F → ℕ → Result (SentPacketBuffer F × Option ℕ)
  sent_insert = Slots.insert

  unfoldable pub sent_find : SentPacketBuffer F → ℕ → Result (Option ℕ)
  sent_find = Slots.find

  unfoldable pub recv_insert : RecvPacketBuffer F → ℕ → Result (RecvPacketBuffer F × Option ℕ)
  recv_insert = Slots.insert

  unfoldable pub recv_find : RecvPacketBuffer F → ℕ → Result (Option ℕ)
  recv_find = Slots.find

  -- The loop of `NextACK`, with `rounds` rounds left: `m` is `1 << i`.
  unfoldable pub next_ack_loop : RecvPacketBuffer F → ℕ → ℕ → ℕ → ℕ → ℕ → Result ℕ
  next_ack_loop s ack zero i m acks = ok acks
  next_ack_loop s ack (suc rounds) i m acks =
      let seq = sub16 ack i in
      (do
        slot ← mod_checked seq (cap16 s)
        e ← index s.buf.entries slot
        next_ack_loop s ack rounds (i + 1) (m * 2 % 4294967296)
            (if e == seq then bit_or acks m else acks))

  unfoldable pub next_ack : RecvPacketBuffer F → Result (ℕ × ℕ)
  unfolding next_ack_loop
  next_ack s =
      let ack = sub16 s.buf.latest 1 in (do acks ← next_ack_loop s ack 32 0 1 0; ok (ack, acks))

unfoldable pub fragment_insert :
    FragmentReassemblyBuffer → ℕ → Result (FragmentReassemblyBuffer × Option ℕ)
fragment_insert = Slots.insert

unfoldable pub fragment_find : FragmentReassemblyBuffer → ℕ → Result (Option ℕ)
fragment_find = Slots.find

unfoldable pub fragment_remove : FragmentReassemblyBuffer → ℕ → Result FragmentReassemblyBuffer
fragment_remove = Slots.remove

unfoldable pub fragment_entry : FragmentReassemblyBuffer → ℕ → Result (Option ℕ)
fragment_entry = Slots.entry
