-- ===== src/Endpoint/Read.antt =====
-- endpoint.go: ReadPacket, one packet in, and the ACKs that it carries. An error is a value beside the
-- state, since the state that it leaves counts.
pub mod Compact
pub mod Acks
pub mod Pieces
pub mod Assembly
use slept.Prelude.{
  ℕ, zero, suc, ◌+◌, ◌-◌, ◌*◌, ◌/◌, true, not, ◌&&◌, ◌||◌, bit_and, List, [], Option, none, some,
  length, ◌==◌, if◌then◌else◌,
}
use slept.Prelude.Results.{
  Result, ok, err, panic, ◌>>=◌, index, store, slice_from, slice_to, Error, seq_mismatch,
  reassembly_insert, total_mismatch, stale,
}
use slept.Seq.{sub16}
use slept.Floats.{Floats}
use slept.Bytes.{BytesUtil}
use slept.Packet.Header.{PacketHeader, toggled, flag_fragment, unmarshal_packet_header}
use slept.Packet.Fragment.{
  Fragment, FragmentHeader, validate, mark_received, unmarshal_fragment_header, empty_fragment,
}
use slept.Buffer.Types.{
  SentPacket, sent_find, recv_insert, fragment_find, fragment_insert, fragment_remove,
}
use slept.Endpoint.{Endpoint, Dispatcher, wrap64}
use slept.Endpoint.Write.{max_packet_header_size, copy_at}

module _ (fl : Floats) {W : Type 0} (d : Dispatcher fl.Float W) where
  abbrev pub State : Type 0
  State = Endpoint fl.Float × W

  -- `e.rtt == 0 && rtt > 0 || math.Abs(e.rtt-rtt) < 0.00001`
  unfoldable pub smooth_rtt : Endpoint fl.Float → fl.Float → Endpoint fl.Float
  smooth_rtt e rtt =
      if (fl.eq e.rtt (fl.of_ℕ 0) && fl.lt (fl.of_ℕ 0) rtt)
        || fl.lt (fl.abs (fl.sub e.rtt rtt)) fl.tiny
      then record e { rtt = rtt }
      else record e { rtt = fl.add e.rtt (fl.mul (fl.sub rtt e.rtt) e.config.rtt_smoothing_factor) }

  -- One packet that is ACK'ed: `sent` is the slot of its entry, which is read again after the call
  -- of the dispatcher.
  unfoldable pub ack_sent : ℕ → ℕ → SentPacket fl.Float → State → Result State
  unfolding smooth_rtt
  ack_sent seq sent packet (e, w) = do
    entries ← store e.sent.entries sent (record packet { acked = true })
    (e1, w1) ← d.ack seq (record e { sent = record (e.sent) { entries = entries } }, w)
    after ← index e1.sent.entries sent
    ok (smooth_rtt e1 (fl.mul (fl.sub e1.time after.time) (fl.of_ℕ 1000)), w1)

  unfoldable pub process_found : ℕ → Option ℕ → State → Result State
  unfolding ack_sent
  process_found seq none (e, w) = ok (e, w)
  process_found seq (some sent) (e, w) = do
    packet ← index e.sent.entries sent
    if packet.acked then ok (e, w) else ack_sent seq sent packet (e, w)

  unfoldable pub process_ack : ℕ → ℕ → State → Result State
  unfolding process_found
  process_ack seq bitset (e, w) =
      if bit_and bitset 1 == 0
      then ok (e, w)
      else (do found ← sent_find e.sent seq; process_found seq found (e, w))

  -- The loop, with `rounds` rounds left.
  unfoldable pub process_acks_loop : ℕ → ℕ → ℕ → ℕ → State → Result State
  unfolding process_ack
  process_acks_loop zero i ack bitset s = ok s
  process_acks_loop (suc rounds) i ack bitset s = do
    s1 ← process_ack (sub16 ack i) bitset s
    process_acks_loop rounds (i + 1) ack (bitset / 2) s1

  unfoldable pub process_acks : ℕ → ℕ → State → Result State
  unfolding process_acks_loop
  process_acks ack bitset s = process_acks_loop 32 0 ack bitset s

-- What a reader leaves: the state, and the error if there is one.
abbrev pub Outcome : Type 0 → Type 0
Outcome S = Result (S × Option Error)

-- `if err != nil { return err }`
abbrev pub attempt : {A S : Type 0} → S → Result A → (A → Outcome S) → Outcome S
attempt s panic next = panic
attempt s (err e) next = ok (s, some e)
attempt s (ok a) next = next a

-- `buf[low:high]`. The capacity of the entry's buffer is taken to be its length.
unfoldable pub slice_between : List ℕ → ℕ → ℕ → Result (List ℕ)
slice_between buf low high = do upper ← slice_to buf high; slice_from upper low

module _ (fl : Floats) (u : BytesUtil) {W : Type 0} (d : Dispatcher fl.Float W) where
  -- The packet is in its slot `i`.
  unfoldable pub recv_accepted : PacketHeader → List ℕ → ℕ → State fl d → Outcome (State fl d)
  unfolding process_acks wrap64
  recv_accepted header payload i s = do
    (e, w) ← d.process header.seq payload s
    entries ←
        store e.recv.entries i
          (record { time = e.time; size = wrap64 (e.config.packet_header_size + length payload) })
    s1 ←
        process_acks fl d header.ack header.acks
          (record e { recv = record (e.recv) { entries = entries } }, w)
    ok (s1, none)

  unfoldable pub recv_inserted :
      PacketHeader → List ℕ → Option ℕ → State fl d → Outcome (State fl d)
  unfolding recv_accepted
  recv_inserted header payload none s = ok (s, some stale)
  recv_inserted header payload (some i) s = recv_accepted header payload i s

  unfoldable pub recv_compact_packet : List ℕ → State fl d → Outcome (State fl d)
  unfolding recv_inserted
  recv_compact_packet buf (e, w) =
      attempt (e, w) (unmarshal_packet_header u buf)
        (λ (header, payload). (do
          (recv, slot) ← recv_insert e.recv header.seq
          recv_inserted header payload slot (record e { recv = recv }, w)))

  -- The packet header that follows the header of the first fragment: its bytes, and the rest.
  unfoldable pub first_header : FragmentHeader → List ℕ → Result (List ℕ × List ℕ)
  first_header header buf =
      if header.id == 0
      then (do
        (ph, rest) ← unmarshal_packet_header u buf
        phb ← slice_to buf (length buf - length rest)
        if header.seq == ph.seq then ok (phb, rest) else err seq_mismatch)
      else ok (buf, buf)

  -- A new entry for a packet whose first fragment arrives, in slot i.
  unfoldable pub start_assembly :
      FragmentHeader → ℕ → Endpoint fl.Float → Result (Endpoint fl.Float)
  unfolding wrap64
  start_assembly header i e = do
    let total = header.total + 1
    entries ← store e.assembler.entries i (record empty_fragment {
      total = total;
      buf =
          u.extend_slice []
            (wrap64 (max_packet_header_size + wrap64 (total * e.config.fragment_size)));
    })
    ok (record e { assembler = record (e.assembler) { entries = entries } })

  -- The slot of the entry under assembly, which is none if the buffer refuses the number.
  unfoldable pub find_assembly :
      FragmentHeader → Endpoint fl.Float → Result (Endpoint fl.Float × Option ℕ)
  unfolding start_assembly
  find_assembly header e = do
    found ← fragment_find e.assembler header.seq
    elim found [
      | some i ↦ ok (e, some i)
      | none ↦ (do
        (assembler, slot) ← fragment_insert e.assembler header.seq
        elim slot [
          | none ↦ ok (record e { assembler = assembler }, none)
          | some i ↦ (do
            e1 ← start_assembly header i (record e { assembler = assembler })
            ok (e1, some i))
        ])
    ]

  -- The fragment's bytes in their place of the entry.
  unfoldable pub place_fragment : FragmentHeader → ℕ → List ℕ → List ℕ → Fragment → Result Fragment
  unfolding copy_at wrap64
  place_fragment header fragment_size phb payload entry = do
    (buf1, header_size) ←
        (if header.id == 0
          then copy_at entry.buf (max_packet_header_size - length phb) phb
          else ok (entry.buf, entry.header_size))
    (buf2, n) ←
        copy_at buf1 (wrap64 (max_packet_header_size + wrap64 (header.id * fragment_size))) payload
    ok (record entry {
      buf = buf2;
      header_size = header_size;
      packet_size =
          if header.id == header.total
          then wrap64 (header.total * fragment_size + length payload)
          else entry.packet_size;
      recv = entry.recv + 1;
    })

  -- Every fragment has arrived: the packet is read as a compact one, and its entry removed.
  unfoldable pub finish_assembly : FragmentHeader → Fragment → State fl d → Outcome (State fl d)
  unfolding recv_compact_packet slice_between wrap64
  finish_assembly header entry s = do
    buf ←
        slice_between entry.buf (max_packet_header_size - entry.header_size)
          (wrap64 (max_packet_header_size + entry.packet_size))
    ((e1, w1), error) ← recv_compact_packet buf s
    assembler ← fragment_remove e1.assembler header.seq
    ok ((record e1 { assembler = assembler }, w1), error)

  -- A fragment for the entry in slot i.
  unfoldable pub recv_fragment :
      FragmentHeader → List ℕ → List ℕ → ℕ → State fl d → Outcome (State fl d)
  unfolding place_fragment finish_assembly
  recv_fragment header phb payload i (e, w) = do
    entry ← index e.assembler.entries i
    if not (header.total + 1 == entry.total)
        then ok ((e, w), some total_mismatch)
        else attempt (e, w) (mark_received entry header.id)
            (λ marked. (do
              placed ← place_fragment header e.config.fragment_size phb payload marked
              entries ← store e.assembler.entries i placed
              let e1 = record e { assembler = record (e.assembler) { entries = entries } }
              if placed.recv == placed.total
                  then finish_assembly header placed (e1, w)
                  else ok ((e1, w), none)))

  unfoldable pub recv_assembling :
      FragmentHeader → List ℕ → List ℕ → Option ℕ → State fl d → Outcome (State fl d)
  unfolding recv_fragment
  recv_assembling header phb payload none s = ok (s, some reassembly_insert)
  recv_assembling header phb payload (some i) s = recv_fragment header phb payload i s

  -- What comes before the entry: the fragment header, valid, and the packet header of fragment 0.
  unfoldable pub read_fragment : ℕ → List ℕ → Result (FragmentHeader × (List ℕ × List ℕ))
  unfolding first_header
  read_fragment max_fragments buf = do
    (header, rest) ← unmarshal_fragment_header u buf
    valid ← validate header max_fragments
    parts ← first_header header rest
    ok (header, parts)

  unfoldable pub recv_fragmented_packet : List ℕ → State fl d → Outcome (State fl d)
  unfolding read_fragment find_assembly recv_assembling
  recv_fragmented_packet buf (e, w) =
      attempt (e, w) (read_fragment e.config.max_fragments buf)
        (λ (header, parts). (do
          (e1, slot) ← find_assembly header e
          recv_assembling header parts.0 parts.1 slot (e1, w)))

  unfoldable pub read_packet : List ℕ → State fl d → Outcome (State fl d)
  unfolding recv_fragmented_packet recv_compact_packet
  read_packet buf s = do
    flag ← index buf 0
    if toggled flag flag_fragment then recv_fragmented_packet buf s else recv_compact_packet buf s
