-- ===== src/Packet/Header/RoundTrip.antt =====
-- `UnmarshalPacketHeader` reads back what `AppendTo` wrote.
use slept.Prelude.{
  ℕ, ◌+◌, ◌/◌, ◌%◌, ◌<◌, ◌≡◌, arith, bit_and, Bool, false, not, List, [], ◌++◌, length, ltb,
  append_assoc, length-append, le→ltb,
}
use slept.Prelude.Results.{ok}
use slept.Bytes.{BytesUtil, IsBigEndian}
use slept.Packet.Header.{flag_fragment, flag_a, flag_b, flag_c, flag_d, flag_ack_encoded, toggled}
use slept.Packet.Header.{PacketHeader, IsWire, ack_diff, append_to, ones_count8}
use slept.Packet.Header.{read_acks, read_ack, read_bitset, unmarshal_packet_header}
use slept.Packet.Header.Encode.{weight, flag_byte, is_full, partial_byte, bitset_bytes, is_near}
use slept.Packet.Header.Encode.{ack_bytes, encoding_flag, encoding, append_to-encoding}
use slept.Packet.Header.Words.{word4, byte0, byte1, byte2, byte3, word4-bytes}
use slept.Packet.Header.Words.{place_a, place_b, place_c, place_d}

-- The flags that the flag byte shows.
module _ (a b c d e : Bool) where
  shown :
      (toggled (flag_byte a b c d e) flag_fragment ≡ false)
      × (toggled (flag_byte a b c d e) flag_a ≡ a)
      × (toggled (flag_byte a b c d e) flag_b ≡ b)
      × (toggled (flag_byte a b c d e) flag_c ≡ c)
      × (toggled (flag_byte a b c d e) flag_d ≡ d)
      × (toggled (flag_byte a b c d e) flag_ack_encoded ≡ e)
  unfolding toggled
  shown = ground arith

  shown_count :
      ones_count8 (bit_and (flag_byte a b c d e) 30)
      ≡ weight a 1 + weight b 1 + weight c 1 + weight d 1
  unfolding ones_count8
  shown_count = ground arith

-- The flag byte of a packet header does not show the fragment flag.
pub encoding_flag-fragment : (p : PacketHeader) → toggled (encoding_flag p) flag_fragment ≡ false
unfolding encoding_flag
encoding_flag-fragment p =
    (shown (not (is_full (byte0 p.acks))) (not (is_full (byte1 p.acks)))
      (not (is_full (byte2 p.acks))) (not (is_full (byte3 p.acks))) (is_near p)).0

-- One step of the bitset, from the ones that stand there at first.
module _ (flag v x y z : ℕ) (rest : List ℕ) (hv : v < 256) (hx : x < 256) (hy : y < 256)
    (hz : z < 256) where
  read_a :
      toggled flag flag_a ≡ not (is_full v)
      → read_acks flag flag_a 0xffffff00 0 (word4 255 x y z, partial_byte v ++ rest)
        ≡ ok (word4 v x y z, rest)
  unfolding read_acks
  read_a e = rw e (ground (arith, place_a 255 x y z v))

  read_b :
      toggled flag flag_b ≡ not (is_full v)
      → read_acks flag flag_b 0xffff00ff 8 (word4 x 255 y z, partial_byte v ++ rest)
        ≡ ok (word4 x v y z, rest)
  unfolding read_acks
  read_b e = rw e (ground (arith, place_b x 255 y z v))

  read_c :
      toggled flag flag_c ≡ not (is_full v)
      → read_acks flag flag_c 0xff00ffff 16 (word4 x y 255 z, partial_byte v ++ rest)
        ≡ ok (word4 x y v z, rest)
  unfolding read_acks
  read_c e = rw e (ground (arith, place_c x y 255 z v))

  read_d :
      toggled flag flag_d ≡ not (is_full v)
      → read_acks flag flag_d 0x00ffffff 24 (word4 x y z 255, partial_byte v ++ rest)
        ≡ ok (word4 x y z v, rest)
  unfolding read_acks
  read_d e = rw e (ground (arith, place_d x y z 255 v))

full : 255 < 256
full = omega arith

length-partial_byte : (x : ℕ) → length (partial_byte x) ≡ weight (not (is_full x)) 1
length-partial_byte x = ground arith

flag_of : ℕ → ℕ → ℕ → ℕ → Bool → ℕ
flag_of a b c d near =
    flag_byte (not (is_full a)) (not (is_full b)) (not (is_full c)) (not (is_full d)) near

module _ (a b c d : ℕ) (near : Bool) (rest : List ℕ) (ha : a < 256) (hb : b < 256) (hc : c < 256)
    (hd : d < 256) where
  enough :
      ltb (length (bitset_bytes a b c d ++ rest)) (ones_count8 (bit_and (flag_of a b c d near) 30))
      ≡ false
  unfolding flag_of
  enough =
      rw (shown_count (not (is_full a)) (not (is_full b)) (not (is_full c)) (not (is_full d)) near)
        (le→ltb _ _ (
          omega (
            arith,
            length-append (bitset_bytes a b c d) rest,
            length-append (partial_byte a) (partial_byte b ++ (partial_byte c ++ partial_byte d)),
            length-append (partial_byte b) (partial_byte c ++ partial_byte d),
            length-append (partial_byte c) (partial_byte d),
            length-partial_byte a,
            length-partial_byte b,
            length-partial_byte c,
            length-partial_byte d,
          )))

  shape :
      bitset_bytes a b c d ++ rest
      ≡ partial_byte a ++ (partial_byte b ++ (partial_byte c ++ (partial_byte d ++ rest)))
  shape = simp append_assoc

  flags_shown :
      (toggled (flag_of a b c d near) flag_fragment ≡ false)
      × (toggled (flag_of a b c d near) flag_a ≡ not (is_full a))
      × (toggled (flag_of a b c d near) flag_b ≡ not (is_full b))
      × (toggled (flag_of a b c d near) flag_c ≡ not (is_full c))
      × (toggled (flag_of a b c d near) flag_d ≡ not (is_full d))
      × (toggled (flag_of a b c d near) flag_ack_encoded ≡ near)
  unfolding flag_of
  flags_shown = shown (not (is_full a)) (not (is_full b)) (not (is_full c)) (not (is_full d)) near

  read_bitset-bytes :
      read_bitset (flag_of a b c d near) (bitset_bytes a b c d ++ rest) ≡ ok (word4 a b c d, rest)
  unfolding read_bitset
  read_bitset-bytes =
      rw
        (
          enough,
          shape,
          read_a (flag_of a b c d near) a 255 255 255 _ ha full full full flags_shown.1,
          read_b (flag_of a b c d near) b a 255 255 _ hb ha full full flags_shown.2,
          read_c (flag_of a b c d near) c a b 255 _ hc ha hb full flags_shown.3,
        )
        (read_d (flag_of a b c d near) d a b c rest hd ha hb hc flags_shown.4)

module _ (u : BytesUtil) (be : IsBigEndian u) where
  read_ack-bytes :
      (flag : ℕ) (p : PacketHeader) (rest : List ℕ)
      → IsWire p
      → toggled flag flag_ack_encoded ≡ is_near p
      → read_ack u flag p.seq (ack_bytes p ++ rest) ≡ ok (p.ack, rest)
  unfolding read_ack ack_diff
  read_ack-bytes flag p rest w e = rw e (ground (arith, be.uint16_lem (p.ack / 256) (p.ack % 256)))

  -- Reading what `AppendTo` wrote gives the header back and leaves what follows it.
  pub unmarshal_packet_header-append_to :
      (p : PacketHeader) (rest : List ℕ)
      → IsWire p
      → unmarshal_packet_header u (append_to u p [] ++ rest) ≡ ok (p, rest)
  unfolding unmarshal_packet_header encoding encoding_flag flag_of
  unmarshal_packet_header-append_to p rest w =
      let a = byte0 p.acks in
      let b = byte1 p.acks in
      let c = byte2 p.acks in
      let d = byte3 p.acks in
      let near = is_near p in
      let flag = flag_of a b c d near in
      let ha : a < 256 = omega arith in
      let hb : b < 256 = omega arith in
      let hc : c < 256 = omega arith in
      let hd : d < 256 = omega (arith, w.acks_small) in
      let tail = bitset_bytes a b c d ++ rest in
      let fs = flags_shown a b c d near tail ha hb hc hd in
      rw (append_to-encoding u be p w [], append_assoc (ack_bytes p) (bitset_bytes a b c d) rest)
        (ground (
          arith,
          fs,
          be.uint16_lem (p.seq / 256) (p.seq % 256),
          read_ack-bytes flag p tail w fs.5,
          read_bitset-bytes a b c d near rest ha hb hc hd,
          word4-bytes p.acks,
        ))
