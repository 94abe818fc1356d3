-- ===== src/Channel/Update.antt =====
-- channel.go: NewChannel and Update. The datagrams that Update takes from `readQueue` and
-- `writeQueue` are its arguments.
use slept.Prelude.{
  ℕ, zero, suc, ◌%◌, ◌&&◌, ◌||◌, Bool, true, false, List, [], ◌∷◌, ◌++◌, Option, none, some, ◌==◌,
  if◌then◌else◌,
}
use slept.Prelude.Results.{Result, ok, err, panic, ◌>>=◌, deref, index, store}
use slept.Seq.{add16, seq_lte}
use slept.Floats.{Floats}
use slept.Bytes.{BytesUtil}
use slept.Buffer.Types.{new_packet_buffer, packet_find}
use slept.Endpoint.{Config, Endpoint, Dispatcher, new_endpoint}
use slept.Endpoint.Write.{write_packet}
use slept.Endpoint.Read.{Outcome, read_packet}
use slept.Endpoint.Statistics.{update}
use slept.Channel.{Channel, buffered, transmit, process, writer, ack, window_end}

-- A loop over sequence numbers takes at most 65536 rounds, and gets fuel for one more.
abbrev pub enough : ℕ
enough = 65537

abbrev pub ended {ℓ} : {A : Type ℓ} → Result (Option A) → Result A
ended panic = panic
ended (err why) = err why
ended (ok none) = panic
ended (ok (some a)) = ok a

module _ (fl : Floats) where
  -- A packet of the window goes out, unless it did less than 0.1 seconds ago.
  unfoldable pub resend_one : fl.Float → ℕ → Channel fl.Float → Result (Channel fl.Float)
  resend_one time slot c = do
    packet ← index c.window.entries slot
    if packet.written && fl.lt (fl.sub time packet.time) fl.tenth then ok c else (do
      entries ← store c.window.entries slot (record packet { written = true; time = time })
      b ← deref packet.buf
      ok (record c {
        window = record (c.window) { entries = entries };
        last_sent = time;
        out_queue = c.out_queue ++ b ∷ [];
      }))

  unfoldable pub resend :
      ℕ → fl.Float → ℕ → ℕ → Channel fl.Float → Result (Option (Channel fl.Float))
  resend zero time seq max c = ok none
  resend (suc fuel) time seq max c = elim (seq_lte seq max) [
    | false ↦ ok (some c)
    | true ↦ packet_find c.window seq >>= λ found. elim found [
      | none ↦ resend fuel time (add16 seq 1) max c
      | some slot ↦ resend_one time slot c >>= λ c1. resend fuel time (add16 seq 1) max c1
    ]
  ]

  -- `time-c.lastSent >= 0.1`
  abbrev is_silent : fl.Float → Channel fl.Float → Bool
  is_silent time c =
      let passed = fl.sub time c.last_sent in fl.lt fl.tenth passed || fl.eq passed fl.tenth

module _ (fl : Floats) (u : BytesUtil) where
  abbrev pub Both : Type 0
  Both = Endpoint fl.Float × Channel fl.Float

  abbrev pub zero_time : fl.Float
  zero_time = fl.of_ℕ 0

  unfoldable pub dispatcher : Dispatcher fl.Float (Channel fl.Float)
  dispatcher = record {
    transmit = transmit u zero_time;
    process = process u zero_time;
    ack = λ seq state. ended (ack u zero_time enough seq state);
  }

  unfoldable pub new_channel : Option (Config fl.Float) → Result Both
  new_channel given = do
    e ← new_endpoint fl given
    window ← new_packet_buffer zero_time (e.config.sent_packet_buffer_size % 65536)
    ok (
      e,
      record {
        window = window;
        queue = [];
        oldest_unacked = 0;
        last_sent = zero_time;
        out_queue = [];
        processed = [];
      },
    )

  unfoldable pub read_all : List (List ℕ) → Both → Outcome Both
  read_all [] s = ok (s, none)
  read_all (b ∷ bufs) s = read_packet fl u dispatcher b s >>= λ outcome. elim outcome.1 [
    | some why ↦ ok (outcome.0, some why)
    | none ↦ read_all bufs outcome.0
  ]

  unfoldable pub write_one : List ℕ → Both → Result Both
  write_one buf (e, c) =
      if window_end e c == e.seq
      then (do b ← buffered u zero_time buf; ok (e, record c { queue = c.queue ++ b ∷ [] }))
      else (do (s, written) ← write_packet u (writer u zero_time) buf (e, c); ok s)

  unfoldable pub write_all : List (List ℕ) → Both → Result Both
  write_all [] s = ok s
  write_all (b ∷ bufs) s = write_one b s >>= λ s1. write_all bufs s1

  unfoldable pub keep_alive : fl.Float → Both → Result Both
  keep_alive time (e, c) =
      if is_silent fl time c
      then (do (s, written) ← write_packet u (writer u zero_time) [] (e, c); ok s)
      else ok (e, c)

  unfoldable pub write_out : fl.Float → List (List ℕ) → Both → Result Both
  write_out time writes s = do
    s1 ← write_all writes s
    c1 ← ended (resend fl enough time s1.1.oldest_unacked (window_end s1.0 s1.1) s1.1)
    keep_alive time (s1.0, c1)

  unfoldable pub update_channel : fl.Float → List (List ℕ) → List (List ℕ) → Both → Outcome Both
  update_channel time reads writes (e, c) = update fl time e >>= λ e1.
      read_all reads (e1, c) >>= λ outcome. elim outcome.1 [
        | some why ↦ ok (outcome.0, some why)
        | none ↦ write_out time writes outcome.0 >>= λ s. ok (s, none)
      ]
