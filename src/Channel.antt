-- ===== src/Channel.antt =====
-- channel.go: the dispatcher of an endpoint that keeps sent datagrams until they are ACK'ed. The Go
-- channels are lists, which are never full; what Process prints is kept in `processed`.
pub mod Oldest
pub mod Update
pub mod Due
pub mod Resent
pub mod Resend
mod Tests
use slept.Prelude.{
  ℕ, zero, suc, ◌+◌, ◌%◌, ◌&&◌, Bool, true, false, not, List, [], ◌∷◌, ◌++◌, length, Option, none,
  some, ◌==◌, if◌then◌else◌,
}
use slept.Prelude.Results.{Result, ok, ◌>>=◌, deref, store, index}
use slept.Seq.{add16, sub16, seq_lte}
use slept.Bytes.{BytesUtil}
use slept.Buffer.Types.{
  BufferedPacket, PacketBuffer, reset_buffered, new_packet_buffer, packet_insert, packet_find,
  packet_remove,
}
use slept.Endpoint.{Config, Endpoint, Dispatcher}
use slept.Endpoint.Write.{write_packet, copy_at}

pub record Channel (F : Type 0) : Type 0 where
  pub window : PacketBuffer F
  pub queue : List (List ℕ)
  pub oldest_unacked : ℕ
  pub last_sent : F
  pub out_queue : List (List ℕ)
  pub processed : List (ℕ × List ℕ)

-- The scan of `ACK` for the next number that is not ACK'ed; it gives none if it has not ended.
unfoldable pub next_oldest : {F : Type 0} → ℕ → ℕ → ℕ → PacketBuffer F → Result (Option (Option ℕ))
next_oldest zero seq max window = ok none
next_oldest (suc fuel) seq max window = elim (seq_lte seq max) [
  | false ↦ ok (some none)
  | true ↦ packet_find window seq >>= λ found. elim found [
    | none ↦ next_oldest fuel (add16 seq 1) max window
    | some slot ↦ ok (some (some seq))
  ]
]

-- `c.oldestUnacked + uint16(c.endpoint.config.RecvPacketBufferSize)`
abbrev pub window_end : {F : Type 0} → Endpoint F → Channel F → ℕ
window_end e c = add16 c.oldest_unacked (e.config.recv_packet_buffer_size % 65536)

abbrev pub or_end : ℕ → Option ℕ → ℕ
or_end max none = max
or_end max (some seq) = seq

module _ (u : BytesUtil) {F : Type 0} (zero_time : F) where
  -- `b := pool.Get(); b.B = ExtendSlice(b.B, len(buf)); copy(b.B, buf)`
  unfoldable pub buffered : List ℕ → Result (List ℕ)
  buffered buf = do (content, n) ← copy_at (u.extend_slice [] (length buf)) 0 buf; ok content

  unfoldable pub transmit : ℕ → List ℕ → Channel F → Result (Channel F)
  transmit seq buf c = do
    b ← buffered buf
    (window, slot) ← packet_insert c.window seq
    packet ← deref slot
    entries ← store window.entries packet (record (reset_buffered zero_time) { buf = some b })
    ok (record c { window = record window { entries = entries } })

  unfoldable pub process : ℕ → List ℕ → Endpoint F × Channel F → Result (Endpoint F × Channel F)
  process seq payload (e, c) = ok (e, record c { processed = c.processed ++ (seq, payload) ∷ [] })

  -- The dispatcher as WritePacket uses it.
  unfoldable pub writer : Dispatcher F (Channel F)
  writer = record { transmit = transmit; process = process; ack = λ seq state. ok state }

  -- `for i := uint16(0); len(c.queue) > 0 && i < diff; i++`
  unfoldable pub flush :
      ℕ → Endpoint F → Channel F → List (List ℕ) → Result (Endpoint F × Channel F)
  flush zero e c queue = ok (e, record c { queue = queue })
  flush (suc left) e c [] = ok (e, record c { queue = [] })
  flush (suc left) e c (popped ∷ queue) =
      write_packet u writer popped (e, record c { queue = queue }) >>= λ written.
      flush left written.0.0 written.0.1 queue

  -- `ACK` of the oldest number, when the window has forgotten it.
  unfoldable pub ack_oldest : ℕ → Endpoint F → Channel F → Result (Option (Endpoint F × Channel F))
  ack_oldest fuel e c =
      next_oldest fuel (add16 c.oldest_unacked 1) (window_end e c) c.window >>= λ scanned.
      elim scanned [
        | none ↦ ok none
        | some found ↦
            let oldest = or_end (window_end e c) found in
            flush (sub16 oldest c.oldest_unacked) e (record c { oldest_unacked = oldest }) c.queue
            >>= λ state. ok (some state)
      ]

  unfoldable pub ack : ℕ → ℕ → Endpoint F × Channel F → Result (Option (Endpoint F × Channel F))
  ack fuel seq (e, c) = packet_find c.window seq >>= λ found. elim found [
    | none ↦ ok (some (e, c))
    | some slot ↦ packet_remove c.window seq >>= λ window.
        let kept = record c { window = window } in
        if seq == c.oldest_unacked then ack_oldest fuel e kept else ok (some (e, kept))
  ]
