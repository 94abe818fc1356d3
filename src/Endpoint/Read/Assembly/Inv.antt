-- ===== src/Endpoint/Read/Assembly/Inv.antt =====
-- What the reassembly entry of a packet holds between two fragments.
use slept.Prelude.{ℕ, ◌+◌, ◌-◌, ◌*◌, ◌<◌, ◌≤◌, ◌≡◌, true, List, length, get_elem?, take, drop}
use slept.Packet.Fragment.{Fragment}
use slept.Packet.Fragment.Marks.{received, HasFourWords}
use slept.Endpoint.Write.{max_packet_header_size}
use slept.Endpoint.Read.Assembly.Tally.{tally}

-- A payload that needs `count` fragments of `size` bytes, behind the bytes of its packet header.
pub record Parted (size count : ℕ) (front payload : List ℕ) : Type 0 where
  pub some_size : 0 < size
  pub some_count : 0 < count
  pub few : count ≤ 256
  pub front_fits : length front ≤ max_packet_header_size
  pub needed : count * size < length payload + size
  pub enough : length payload ≤ count * size
  pub no_wrap : max_packet_header_size + count * size < 18446744073709551616

-- Piece `id` of the payload.
abbrev pub piece : ℕ → List ℕ → ℕ → List ℕ
piece size payload id = take size (drop (id * size) payload)

-- The entry holds the header if fragment 0 has arrived, the size if the last has, and the bytes of
-- each fragment that has arrived, which it counts.
pub record Gathered (size count : ℕ) (front payload : List ℕ) (f : Fragment) : Type 0 where
  pub four_words : HasFourWords f
  pub total_is : f.total ≡ count
  pub room : length f.buf ≡ max_packet_header_size + count * size
  pub counted : f.recv ≡ tally (received f) count
  pub front_size : received f 0 ≡ true → f.header_size ≡ length front
  pub front_bytes :
      received f 0 ≡ true
      → (k : ℕ) → k < length front
      → get_elem? f.buf (max_packet_header_size - length front + k) ≡ get_elem? front k
  pub size_known : received f (count - 1) ≡ true → f.packet_size ≡ length payload
  pub bytes :
      (i : ℕ)
      → i < count
      → received f i ≡ true
      → (j : ℕ) → j < size
      → i * size + j < length payload
      → get_elem? f.buf (max_packet_header_size + (i * size + j)) ≡ get_elem? payload (i * size + j)
