-- ===== src/Endpoint/Statistics.antt =====
-- endpoint.go: Update with the statistics over the older half of both rings, and the getters. The
-- sums of sizes stay below 2^63.
use slept.Prelude.{
  ℕ, zero, suc, ◌+◌, ◌/◌, ◌%◌, ◌≡◌, refl, not, ◌&&◌, none, some, if◌then◌else◌, Bool-cases, inl,
  inr,
}
use slept.Prelude.Results.{Result, ok, ◌>>=◌, index}
use slept.Seq.{add16, sub16}
use slept.Floats.{Floats}
use slept.Buffer.Slots.{cap16}
use slept.Buffer.Slots.Laws.{IsValid, holds, find-holds, slot_pointee}
use slept.Buffer.Types.{SentPacket, SentPacketBuffer, RecvPacketBuffer}
use slept.Buffer.Types.{sent_find, recv_find}
use slept.Endpoint.{Endpoint}

-- The bytes of some packets and the times of the first and the last.
pub record Span (F : Type 0) : Type 0 where
  pub bytes : ℕ
  pub start : F
  pub finish : F

pub record SentCount (F : Type 0) : Type 0 where
  pub dropped : ℕ
  pub acked : Span F
  pub written : Span F

module _ (fl : Floats) where
  unfoldable pub no_packets : Span fl.Float
  no_packets = record { bytes = 0; start = fl.max_float; finish = fl.of_ℕ 0 }

  unfoldable pub widen : fl.Float → ℕ → Span fl.Float → Span fl.Float
  widen time size s = record {
    bytes = s.bytes + size;
    start = if fl.lt time s.start then time else s.start;
    finish = if fl.lt s.finish time then time else s.finish;
  }

  unfoldable pub count_sent : SentPacket fl.Float → SentCount fl.Float → SentCount fl.Float
  unfolding widen
  count_sent packet c = record {
    dropped = if not packet.acked then c.dropped + 1 else c.dropped;
    acked = if not packet.acked then c.acked else widen packet.time packet.size c.acked;
    written = widen packet.time packet.size c.written;
  }

  -- The two loops, with `rounds` rounds left.
  unfoldable pub sent_samples :
      SentPacketBuffer fl.Float → ℕ → ℕ → ℕ → SentCount fl.Float → Result (SentCount fl.Float)
  unfolding count_sent
  sent_samples s base zero i c = ok c
  sent_samples s base (suc rounds) i c = do
    found ← sent_find s (add16 base (i % 65536))
    c1 ← elim found [
      | none ↦ ok c
      | some k ↦ (do packet ← index s.entries k; ok (count_sent packet c))
    ]
    sent_samples s base rounds (i + 1) c1

  unfoldable pub recv_samples :
      RecvPacketBuffer fl.Float → ℕ → ℕ → ℕ → Span fl.Float → Result (Span fl.Float)
  unfolding widen
  recv_samples s base zero i c = ok c
  recv_samples s base (suc rounds) i c = do
    found ← recv_find s (add16 base (i % 65536))
    c1 ← elim found [
      | none ↦ ok c
      | some k ↦ (do packet ← index s.entries k; ok (widen packet.time packet.size c))
    ]
    recv_samples s base rounds (i + 1) c1

  unfoldable pub smooth_loss : fl.Float → fl.Float → fl.Float → fl.Float
  smooth_loss old measured factor =
      if fl.lt fl.tiny (fl.abs (fl.sub old measured))
      then fl.add old (fl.mul (fl.sub measured old) factor)
      else measured

  unfoldable pub measured_kbps : Span fl.Float → fl.Float
  measured_kbps s =
      fl.div (fl.mul (fl.div (fl.of_ℕ s.bytes) (fl.sub s.finish s.start)) (fl.of_ℕ 8))
        (fl.of_ℕ 1000)

  -- The measured value is subtracted from itself, as it stands in the source.
  unfoldable pub smooth_bandwidth : fl.Float → fl.Float → Span fl.Float → fl.Float
  unfolding measured_kbps
  smooth_bandwidth old factor s =
      let kbps = measured_kbps s in
      if not (fl.eq s.start fl.max_float) && not (fl.eq s.finish (fl.of_ℕ 0))
      then (if fl.lt fl.tiny (fl.abs (fl.sub kbps kbps))
          then fl.add old (fl.mul (fl.sub kbps old) factor)
          else kbps)
      else old

  unfoldable pub update_statistics : Endpoint fl.Float → Result (Endpoint fl.Float)
  unfolding sent_samples recv_samples no_packets smooth_loss smooth_bandwidth
  update_statistics e =
      let sent_base = add16 (add16 (sub16 e.sent.buf.latest (cap16 e.sent)) 1) 0xffff in
      let recv_base = add16 (add16 (sub16 e.recv.buf.latest (cap16 e.recv)) 1) 0xffff in
      let count = e.config.sent_packet_buffer_size / 2 in
      let factor = e.config.bandwidth_smoothing_factor in
      (do
        c ←
            sent_samples e.sent sent_base count 0
              (record { dropped = 0; acked = no_packets; written = no_packets })
        received ← recv_samples e.recv recv_base (e.config.recv_packet_buffer_size / 2) 0 no_packets
        ok (record e {
          packet_loss =
              smooth_loss e.packet_loss
                (fl.mul (fl.div (fl.of_ℕ c.dropped) (fl.of_ℕ count)) (fl.of_ℕ 100))
                e.config.packet_loss_smoothing_factor;
          sent_bandwidth_kbps = smooth_bandwidth e.sent_bandwidth_kbps factor c.written;
          received_bandwidth_kbps = smooth_bandwidth e.received_bandwidth_kbps factor received;
          acked_bandwidth_kbps = smooth_bandwidth e.acked_bandwidth_kbps factor c.acked;
        }))

  unfoldable pub update : fl.Float → Endpoint fl.Float → Result (Endpoint fl.Float)
  unfolding update_statistics
  update time e = update_statistics (record e { time = time })

  -- `Next`, `RTT`, `PacketLoss` and `Bandwidth`.
  abbrev pub next : Endpoint fl.Float → ℕ
  next e = e.seq

  abbrev pub bandwidth : Endpoint fl.Float → fl.Float × (fl.Float × fl.Float)
  bandwidth e = (e.sent_bandwidth_kbps, (e.received_bandwidth_kbps, e.acked_bandwidth_kbps))

  module _ {cap : ℕ} where
    sent_samples-total :
        (s : SentPacketBuffer fl.Float) (base rounds i : ℕ) (c : SentCount fl.Float)
        → IsValid cap s
        → (out : SentCount fl.Float) × (sent_samples s base rounds i c ≡ ok out)
    unfolding sent_samples sent_find
    sent_samples-total s base zero i c v = (c, refl)
    sent_samples-total s base (suc rounds) i c v =
        let seq = add16 base (i % 65536) in
        let (packet, at) = slot_pointee s v seq in
        elim (Bool-cases (holds s cap seq)) [
          | inl y ↦
              let (out, ran) = sent_samples-total s base rounds (i + 1) (count_sent packet c) v in
              (out, rw (find-holds s v seq, y) (rw (index, at) ran))
          | inr n ↦
              let (out, ran) = sent_samples-total s base rounds (i + 1) c v in
              (out, rw (find-holds s v seq, n) ran)
        ]

    recv_samples-total :
        (s : RecvPacketBuffer fl.Float) (base rounds i : ℕ) (c : Span fl.Float)
        → IsValid cap s
        → (out : Span fl.Float) × (recv_samples s base rounds i c ≡ ok out)
    unfolding recv_samples recv_find
    recv_samples-total s base zero i c v = (c, refl)
    recv_samples-total s base (suc rounds) i c v =
        let seq = add16 base (i % 65536) in
        let (packet, at) = slot_pointee s v seq in
        elim (Bool-cases (holds s cap seq)) [
          | inl y ↦
              let (out, ran) =
                recv_samples-total s base rounds (i + 1) (widen packet.time packet.size c) v in
              (out, rw (find-holds s v seq, y) (rw (index, at) ran))
          | inr n ↦
              let (out, ran) = recv_samples-total s base rounds (i + 1) c v in
              (out, rw (find-holds s v seq, n) ran)
        ]

    recv_total :
        (e : Endpoint fl.Float)
        → IsValid cap e.recv
        → (out : Span fl.Float) × (recv_samples e.recv
              (add16 (add16 (sub16 e.recv.buf.latest (cap16 e.recv)) 1) 0xffff)
              (e.config.recv_packet_buffer_size / 2)
              0
              no_packets
            ≡ ok out)
    recv_total e w =
        recv_samples-total e.recv _ (e.config.recv_packet_buffer_size / 2) 0 no_packets w

  -- `Update` of an endpoint with sound rings returns, whatever they hold, and changes only the
  -- time, the packet loss and the bandwidths.
  pub update-total :
      {cap window : ℕ} (time : fl.Float) (e : Endpoint fl.Float)
      → IsValid cap e.sent
      → IsValid window e.recv
      → (loss : fl.Float) × (sent : fl.Float) × (received : fl.Float) × (acked : fl.Float) × (update
            time e
          ≡ ok (record e {
            time = time;
            packet_loss = loss;
            sent_bandwidth_kbps = sent;
            received_bandwidth_kbps = received;
            acked_bandwidth_kbps = acked;
          }))
  unfolding update update_statistics
  update-total time e v w =
      let (c, ran) =
        sent_samples-total e.sent (add16 (add16 (sub16 e.sent.buf.latest (cap16 e.sent)) 1) 0xffff)
          (e.config.sent_packet_buffer_size / 2) 0
          (record { dropped = 0; acked = no_packets; written = no_packets }) v in
      let (received, ran_too) = recv_total e w in
      let factor = e.config.bandwidth_smoothing_factor in
      let half = e.config.sent_packet_buffer_size / 2 in
      (
        smooth_loss e.packet_loss (fl.mul (fl.div (fl.of_ℕ c.dropped) (fl.of_ℕ half)) (fl.of_ℕ 100))
            e.config.packet_loss_smoothing_factor,
        smooth_bandwidth e.sent_bandwidth_kbps factor c.written,
        smooth_bandwidth e.received_bandwidth_kbps factor received,
        smooth_bandwidth e.acked_bandwidth_kbps factor c.acked,
        rw (ran, ran_too) refl,
      )
