-- ===== src/Endpoint.antt =====
-- config.go and endpoint.go: the configuration and the state of an endpoint, and what it calls. The
-- children have its operations.
pub mod Write
pub mod Read
pub mod Statistics
pub mod Fresh
pub mod Fragmented
mod Tests
use slept.Prelude.{ℕ, ◌*◌, ◌%◌, List, Option, none, some}
use slept.Prelude.Results.{Result, ok, ◌>>=◌}
use slept.Floats.{Floats}
use slept.Buffer.Types.{SentPacketBuffer, RecvPacketBuffer, FragmentReassemblyBuffer}
use slept.Buffer.Types.{new_sent_packet_buffer, new_recv_packet_buffer}
use slept.Buffer.Types.{new_fragment_reassembly_buffer}

pub record Config (F : Type 0) : Type 0 where
  pub fragment_above : ℕ
  pub fragment_size : ℕ
  pub max_fragments : ℕ
  pub max_packet_size : ℕ
  pub packet_header_size : ℕ
  pub sent_packet_buffer_size : ℕ
  pub recv_packet_buffer_size : ℕ
  pub fragment_reassembly_buffer_size : ℕ
  pub rtt_smoothing_factor : F
  pub packet_loss_smoothing_factor : F
  pub bandwidth_smoothing_factor : F

-- The dispatcher is the argument of the operations and not a field, and the pool of buffers gives
-- empty ones.
pub record Endpoint (F : Type 0) : Type 0 where
  pub config : Config F
  pub seq : ℕ
  pub time : F
  pub rtt : F
  pub packet_loss : F
  pub sent_bandwidth_kbps : F
  pub received_bandwidth_kbps : F
  pub acked_bandwidth_kbps : F
  pub sent : SentPacketBuffer F
  pub recv : RecvPacketBuffer F
  pub assembler : FragmentReassemblyBuffer

-- EndpointDispatcher over a state W. `Process` and `ACK` may call the endpoint, `Transmit` does not.
pub record Dispatcher (F W : Type 0) : Type 0 where
  pub transmit : ℕ → List ℕ → W → Result W
  pub process : ℕ → List ℕ → Endpoint F × W → Result (Endpoint F × W)
  pub ack : ℕ → Endpoint F × W → Result (Endpoint F × W)

-- Arithmetic of uint.
unfoldable pub wrap64 : ℕ → ℕ
wrap64 x = x % 18446744073709551616

module _ (fl : Floats) where
  unfoldable pub new_config : Config fl.Float
  new_config = record {
    fragment_above = 1024;
    fragment_size = 1024;
    max_fragments = 16;
    max_packet_size = 16 * 1024;
    packet_header_size = 20;
    sent_packet_buffer_size = 256;
    recv_packet_buffer_size = 256;
    fragment_reassembly_buffer_size = 256;
    rtt_smoothing_factor = fl.rtt_factor;
    packet_loss_smoothing_factor = fl.tenth;
    bandwidth_smoothing_factor = fl.tenth;
  }

  unfoldable pub chosen_config : Option (Config fl.Float) → Config fl.Float
  unfolding new_config
  chosen_config none = new_config
  chosen_config (some config) = config

  -- The sizes are cut to uint16.
  unfoldable pub new_endpoint : Option (Config fl.Float) → Result (Endpoint fl.Float)
  unfolding chosen_config
  new_endpoint given =
      let config = chosen_config given in
      let zero_time = fl.of_ℕ 0 in
      (do
        sent ← new_sent_packet_buffer zero_time (config.sent_packet_buffer_size % 65536)
        recv ← new_recv_packet_buffer zero_time (config.recv_packet_buffer_size % 65536)
        assembler ← new_fragment_reassembly_buffer (config.fragment_reassembly_buffer_size % 65536)
        ok (record {
          config = config;
          seq = 0;
          time = zero_time;
          rtt = zero_time;
          packet_loss = zero_time;
          sent_bandwidth_kbps = zero_time;
          received_bandwidth_kbps = zero_time;
          acked_bandwidth_kbps = zero_time;
          sent = sent;
          recv = recv;
          assembler = assembler;
        }))
