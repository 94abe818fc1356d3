-- ===== src/Packet/Header/Encode.antt =====
-- What `PacketHeader.AppendTo` writes, without masks: a flag byte, the sequence number, the latest
-- ACK'ed number as a difference or whole, and the bytes of the bitset that are not all ones.
use slept.Prelude.{
  ℕ, ◌+◌, ◌/◌, ◌^◌, bit_and, ◌%◌, ◌<◌, ◌≡◌, arith, Bool, not, List, [], ◌∷◌, ◌++◌, leb, ◌==◌,
  if◌then◌else◌, append_assoc, append-nil, length, length-append, ◌≤◌,
}
use slept.Bytes.{BytesUtil, IsBigEndian}
use slept.Packet.Header.{flag_a, flag_b, flag_c, flag_d, flag_ack_encoded, toggle}
use slept.Packet.Header.{PacketHeader, IsWire, lacks, ack_diff, header_flag, append_to}
use slept.Packet.Header.Words.{byte0, byte1, byte2, byte3, mask_a, mask_b, mask_c, mask_d}

abbrev pub weight : Bool → ℕ → ℕ
weight b n = if b then n else 0

abbrev pub flag_byte : Bool → Bool → Bool → Bool → Bool → ℕ
flag_byte a b c d e = weight a 2 + weight b 4 + weight c 8 + weight d 16 + weight e 32

abbrev pub is_full : ℕ → Bool
is_full x = x == 255

abbrev pub partial_byte : ℕ → List ℕ
partial_byte x = if is_full x then [] else x ∷ []

abbrev pub bitset_bytes : ℕ → ℕ → ℕ → ℕ → List ℕ
bitset_bytes a b c d = partial_byte a ++ (partial_byte b ++ (partial_byte c ++ partial_byte d))

abbrev pub is_near : PacketHeader → Bool
is_near p = leb (ack_diff p) 255

abbrev pub ack_bytes : PacketHeader → List ℕ
ack_bytes p = if is_near p then ack_diff p ∷ [] else p.ack / 256 ∷ p.ack % 256 ∷ []

unfoldable pub encoding_flag : PacketHeader → ℕ
encoding_flag p =
    flag_byte (not (is_full (byte0 p.acks))) (not (is_full (byte1 p.acks)))
      (not (is_full (byte2 p.acks))) (not (is_full (byte3 p.acks))) (is_near p)

unfoldable pub encoding : PacketHeader → List ℕ
encoding p =
    encoding_flag p
    ∷ p.seq / 256
    ∷ p.seq % 256
    ∷ (ack_bytes p ++ bitset_bytes (byte0 p.acks) (byte1 p.acks) (byte2 p.acks) (byte3 p.acks))

module _ (x : ℕ) (h : x < 4294967296) where
  lacks_a : lacks x 0x000000ff ≡ not (is_full (byte0 x))
  unfolding lacks
  lacks_a = ground (arith, mask_a x h)

  lacks_b : lacks x 0x0000ff00 ≡ not (is_full (byte1 x))
  unfolding lacks
  lacks_b = ground (arith, mask_b x h)

  lacks_c : lacks x 0x00ff0000 ≡ not (is_full (byte2 x))
  unfolding lacks
  lacks_c = ground (arith, mask_c x h)

  lacks_d : lacks x 0xff000000 ≡ not (is_full (byte3 x))
  unfolding lacks
  lacks_d = ground (arith, mask_d x h)

  -- Each byte of the bitset that `AppendTo` appends, or does not.
  add_a :
      (dst : List ℕ)
      → (if lacks x 0x000000ff then dst ++ (bit_and x 0x000000ff % 256) ∷ [] else dst)
        ≡ dst ++ partial_byte (byte0 x)
  add_a dst = rw (lacks_a, mask_a x h) (ground (arith, append-nil dst))

  add_b :
      (dst : List ℕ)
      → (if lacks x 0x0000ff00 then dst ++ (bit_and x 0x0000ff00 / 2 ^ 8 % 256) ∷ [] else dst)
        ≡ dst ++ partial_byte (byte1 x)
  add_b dst = rw (lacks_b, mask_b x h) (ground (arith, append-nil dst))

  add_c :
      (dst : List ℕ)
      → (if lacks x 0x00ff0000 then dst ++ (bit_and x 0x00ff0000 / 2 ^ 16 % 256) ∷ [] else dst)
        ≡ dst ++ partial_byte (byte2 x)
  add_c dst = rw (lacks_c, mask_c x h) (ground (arith, append-nil dst))

  add_d :
      (dst : List ℕ)
      → (if lacks x 0xff000000 then dst ++ (bit_and x 0xff000000 / 2 ^ 24 % 256) ∷ [] else dst)
        ≡ dst ++ partial_byte (byte3 x)
  add_d dst = rw (lacks_d, mask_d x h) (ground (arith, append-nil dst))

toggles : Bool → Bool → Bool → Bool → Bool → ℕ
unfolding toggle
toggles a b c d e =
    let flag0 : ℕ = 0 in
    let flag1 = if a then toggle flag0 flag_a else flag0 in
    let flag2 = if b then toggle flag1 flag_b else flag1 in
    let flag3 = if c then toggle flag2 flag_c else flag2 in
    let flag4 = if d then toggle flag3 flag_d else flag3 in
    if e then toggle flag4 flag_ack_encoded else flag4

toggles-flag_byte : (a b c d e : Bool) → toggles a b c d e ≡ flag_byte a b c d e
unfolding toggles
toggles-flag_byte a b c d e = ground arith

header_flag-encoding_flag : (p : PacketHeader) → IsWire p → header_flag p ≡ encoding_flag p
unfolding header_flag encoding_flag toggles
header_flag-encoding_flag p w =
    rw
      (
        lacks_a p.acks w.acks_small,
        lacks_b p.acks w.acks_small,
        lacks_c p.acks w.acks_small,
        lacks_d p.acks w.acks_small,
      )
      (toggles-flag_byte (not (is_full (byte0 p.acks))) (not (is_full (byte1 p.acks)))
        (not (is_full (byte2 p.acks))) (not (is_full (byte3 p.acks))) (is_near p))

module _ (u : BytesUtil) (be : IsBigEndian u) (p : PacketHeader) (w : IsWire p) where
  add_ack :
      (dst : List ℕ)
      → (if is_near p then dst ++ (ack_diff p % 256) ∷ [] else u.append_uint16_be dst p.ack)
        ≡ dst ++ ack_bytes p
  add_ack dst = ground (arith, be.append_lem dst p.ack)

  -- `AppendTo` keeps `dst` and appends the encoding.
  pub append_to-encoding : (dst : List ℕ) → append_to u p dst ≡ dst ++ encoding p
  unfolding append_to encoding
  append_to-encoding dst =
      rw
        (
          header_flag-encoding_flag p w,
          be.append_lem _ p.seq w.seq_small,
          add_ack _,
          add_a p.acks w.acks_small _,
          add_b p.acks w.acks_small _,
          add_c p.acks w.acks_small _,
          add_d p.acks w.acks_small _,
        )
        (simp append_assoc)

length-partial_byte : (x : ℕ) → length (partial_byte x) ≤ 1
length-partial_byte x = ground arith

length-ack_bytes : (h : PacketHeader) → length (ack_bytes h) ≤ 2
length-ack_bytes h = ground arith

-- A packet header takes at most nine bytes.
pub length-encoding : (h : PacketHeader) → length (encoding h) ≤ 9
unfolding encoding
length-encoding h =
    let a = byte0 h.acks in
    let b = byte1 h.acks in
    let c = byte2 h.acks in
    let d = byte3 h.acks in
    omega (
      arith,
      length-append (ack_bytes h) (bitset_bytes a b c d),
      length-append (partial_byte a) (partial_byte b ++ (partial_byte c ++ partial_byte d)),
      length-append (partial_byte b) (partial_byte c ++ partial_byte d),
      length-append (partial_byte c) (partial_byte d),
      length-partial_byte a,
      length-partial_byte b,
      length-partial_byte c,
      length-partial_byte d,
      length-ack_bytes h,
    )
