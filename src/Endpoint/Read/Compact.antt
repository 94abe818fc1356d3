-- ===== src/Endpoint/Read/Compact.antt =====
-- ReadPacket of a compact packet.
use slept.Prelude.{
  ℕ, ◌+◌, ◌%◌, length, none, ◌≡◌, ◌⊎◌, inl, inr, refl, true, false, List, [], ◌++◌, some,
}
use slept.Prelude.Results.{ok, index, store, ◌>>=◌}
use slept.Floats.{Floats}
use slept.Bytes.{BytesUtil, IsBigEndian}
use slept.Packet.Header.{PacketHeader, IsWire, append_to}
use slept.Packet.Header.Encode.{encoding, append_to-encoding, encoding_flag}
use slept.Packet.Header.RoundTrip.{unmarshal_packet_header-append_to, encoding_flag-fragment}
use slept.Buffer.Slots.{is_outdated}
use slept.Buffer.Slots.Laws.{IsValid}
use slept.Buffer.Slots.Insert.{Inserted, insert-Inserted}
use slept.Buffer.Types.{recv_insert, RecvPacketBuffer}
use slept.Endpoint.{Endpoint, Dispatcher, wrap64}
use slept.Endpoint.Read.{
  read_packet, recv_compact_packet, recv_accepted, recv_inserted, process_acks, State,
}
use slept.Prelude.Results.{stale}

module _ (fl : Floats) (u : BytesUtil) (be : IsBigEndian u) {W : Type 0} (d : Dispatcher fl.Float W)
    {window : ℕ} (e : Endpoint fl.Float) (v : IsValid window e.recv) (h : PacketHeader)
    (wire : IsWire h) (payload : List ℕ) (w : W) where
  first_byte : index (append_to u h [] ++ payload) 0 ≡ ok (encoding_flag h)
  unfolding encoding
  first_byte = rw (append_to-encoding u be h wire []) refl

  -- For big-endian byte utilities, sound slots of received packets and a header in range,
  -- `ReadPacket` of the datagram that a compact packet is sent as: an outdated number is refused and
  -- changes nothing; any other number gets its slot, `Process` is called with exactly the number and
  -- the payload that were sent, then the slot gets the time and size of the packet, with PacketHeaderSize
  -- added, and then exactly the ACKs that were sent are processed.
  pub read_packet-compact :
      (is_outdated e.recv h.seq ≡ true)
        × (read_packet fl u d (append_to u h [] ++ payload) (e, w) ≡ ok ((e, w), some stale))
      ⊎ (is_outdated e.recv h.seq ≡ false)
        × (t : RecvPacketBuffer fl.Float) × Inserted window e.recv h.seq t
        × (read_packet fl u d (append_to u h [] ++ payload) (e, w) ≡ (
            d.process h.seq payload (record e { recv = t }, w) >>= λ (processed : State fl d).
            store processed.0.recv.entries (h.seq % window) (record {
              time = processed.0.time;
              size = wrap64 (processed.0.config.packet_header_size + length payload);
            })
            >>= λ entries.
                process_acks fl d h.ack h.acks (
                  record (processed.0) { recv = record (processed.0.recv) { entries = entries } },
                  processed.1,
                )
                >>= λ acked. ok (acked, none)))
  unfolding read_packet recv_compact_packet recv_inserted recv_insert recv_accepted
  read_packet-compact = elim (insert-Inserted e.recv v h.seq wire.seq_small) [
    | inl (old, ran) ↦ inl (old, rw (reads, ran) refl)
    | inr (new, t, ran, ins) ↦ inr (new, t, ins, rw (reads, ran) refl)
  ]
    where
      reads : read_packet fl u d (append_to u h [] ++ payload) (e, w) ≡ (
          recv_insert e.recv h.seq >>= λ r.
          recv_inserted fl u d h payload r.1 (record e { recv = r.0 }, w))
      reads =
          rw
            (
              first_byte,
              encoding_flag-fragment h,
              unmarshal_packet_header-append_to u be h payload wire,
            )
            refl
