-- ===== src/Endpoint/Write.antt =====
-- endpoint.go: WritePacket, one packet out, as it is or in fragments.
pub mod Open
pub mod Compact
pub mod Cut
pub mod Fragments
use slept.Prelude.{
  ℕ, zero, suc, ◌+◌, ◌/◌, ◌%◌, false, List, [], ◌++◌, length, take, drop, ltb, leb, ◌==◌,
  if◌then◌else◌,
}
use Prim.Native.Nat.{min}
use slept.Prelude.Results.{Result, ok, ◌>>=◌, deref, mod_checked, slice_from, slice_to, store}
use slept.Seq.{add16}
use slept.Bytes.{BytesUtil}
use slept.Packet.Header.{PacketHeader}
use slept.Packet.Header
use slept.Packet.Fragment.{FragmentHeader}
use slept.Packet.Fragment
use slept.Buffer.Types.{sent_insert, next_ack}
use slept.Endpoint.{Config, Endpoint, Dispatcher, wrap64}

-- `MaxPacketHeaderSize`
abbrev pub max_packet_header_size : ℕ
max_packet_header_size = 9

-- `copy(dst[off:], src)`: dst afterwards, and the count.
unfoldable pub copy_at : List ℕ → ℕ → List ℕ → Result (List ℕ × ℕ)
copy_at dst off src = do
  tail ← slice_from dst off
  ok (
    take off dst ++ (take (length tail) src ++ drop (length src) tail),
    min (length tail) (length src),
  )

-- `size/FragmentSize`, plus one for a remainder.
unfoldable pub fragment_count : ℕ → ℕ → Result ℕ
fragment_count size fragment_size = do
  r ← mod_checked size fragment_size
  ok (if r == 0 then size / fragment_size else size / fragment_size + 1)

-- The bookkeeping before the packet is written: its number, the wait for its ACK, its header.
unfoldable pub open_packet : {F : Type 0} → List ℕ → Endpoint F → Result (Endpoint F × PacketHeader)
unfolding wrap64
open_packet buf e = do
  (sent, slot) ← sent_insert e.sent e.seq
  packet ← deref slot
  entries ← store sent.entries packet (record {
    time = e.time;
    acked = false;
    size = wrap64 (e.config.packet_header_size + length buf);
  })
  (ack, acks) ← next_ack e.recv
  ok (
    record e { seq = add16 e.seq 1; sent = record sent { entries = entries } },
    record { seq = e.seq; ack = ack; acks = acks },
  )

module _ {F W : Type 0} (u : BytesUtil) (d : Dispatcher F W) where
  -- The compact branch: the header is written over the front of the scratch buffer, which is made
  -- large enough for it.
  unfoldable pub write_compact : PacketHeader → List ℕ → W → Result (W × ℕ)
  unfolding copy_at wrap64
  write_compact header buf w =
      let scratch = u.extend_slice [] (wrap64 (max_packet_header_size + length buf)) in
      let encoded = Header.append_to u header [] in
      let written = length encoded in
      (do
        (scratch, n) ← copy_at (encoded ++ drop written scratch) written buf
        out ← slice_to scratch (written + n)
        w ← d.transmit header.seq out w
        ok (w, written + n))

  -- The fragment loop, with `rounds` fragments left: `id` is the next, `buf` the rest of the data.
  unfoldable pub write_fragments :
      Config F → PacketHeader → FragmentHeader → ℕ → ℕ → List ℕ → W → ℕ → Result (W × ℕ)
  write_fragments config header fh zero id buf w written = ok (w, written)
  write_fragments config header fh (suc rounds) id buf w written =
      let marked = Fragment.append_to u (record fh { id = id % 256 }) [] in
      let scratch = if id == 0 then Header.append_to u header marked else marked in
      let cutoff =
        if ltb config.fragment_size (length buf) then config.fragment_size else length buf in
      (do
        part ← slice_to buf cutoff
        rest ← slice_from buf cutoff
        w ← d.transmit header.seq (scratch ++ part) w
        write_fragments config header fh rounds (id + 1) rest w
            (written + length (scratch ++ part)))

  -- `uint8(total - 1)` is written as the remainder of total + 255.
  unfoldable pub write_fragmented : Config F → PacketHeader → List ℕ → W → Result (W × ℕ)
  unfolding write_fragments fragment_count
  write_fragmented config header buf w = do
    total ← fragment_count (length buf) config.fragment_size
    write_fragments config header (record { seq = header.seq; id = 0; total = (total + 255) % 256 })
        total 0 buf w 0

  unfoldable pub write_packet : List ℕ → Endpoint F × W → Result ((Endpoint F × W) × ℕ)
  unfolding open_packet write_compact write_fragmented
  write_packet buf (e, w) =
      if ltb e.config.max_packet_size (length buf) then ok ((e, w), 0) else (do
        (e1, header) ← open_packet buf e
        (w1, written) ←
            (if leb (length buf) e.config.fragment_above
              then write_compact header buf w
              else write_fragmented e.config header buf w)
        ok ((e1, w1), written))
