-- ===== src/Packet/Header.antt =====
-- packet.go: PacketHeaderFlag and PacketHeader, written by `append_to` and read by
-- `unmarshal_packet_header`. A byte slice is a list of numbers below 256.

mod Words
pub mod Encode
pub mod Decode
pub mod RoundTrip
use slept.Prelude.{
  ℕ, ◌+◌, ◌-◌, ◌/◌, ◌*◌, ◌%◌, ◌<◌, ◌^◌, bit_and, bit_or, Bool, not, List, [], ◌∷◌, ◌++◌, length,
  ltb, leb, ◌==◌, if◌then◌else◌,
}
use slept.Prelude.Results.{Result, ok, err, ◌>>=◌, unexpected_eof, index, slice_from, slice_to}
use slept.Bytes.{BytesUtil}
use slept.Seq.{sub16, IsU16}

abbrev pub flag_fragment : ℕ
flag_fragment = 1

abbrev pub flag_a : ℕ
flag_a = 2

abbrev pub flag_b : ℕ
flag_b = 4

abbrev pub flag_c : ℕ
flag_c = 8

abbrev pub flag_d : ℕ
flag_d = 16

abbrev pub flag_ack_encoded : ℕ
flag_ack_encoded = 32

-- `Toggle` and `Toggled`.
unfoldable pub toggle : ℕ → ℕ → ℕ
toggle p flag = bit_or p flag

unfoldable pub toggled : ℕ → ℕ → Bool
toggled p flag = not (bit_and p flag == 0)

pub record PacketHeader : Type 0 where
  pub seq : ℕ
  pub ack : ℕ
  pub acks : ℕ

-- seq and ack are uint16, acks is uint32.
pub record IsWire (h : PacketHeader) : Type 0 where
  pub seq_small : IsU16 h.seq
  pub ack_small : IsU16 h.ack
  pub acks_small : h.acks < 4294967296

-- `p.acks & mask != mask`
unfoldable pub lacks : ℕ → ℕ → Bool
lacks acks mask = not (bit_and acks mask == mask)

-- `int(p.seq) - int(p.ack)`, plus 65536 if that is negative.
unfoldable pub ack_diff : PacketHeader → ℕ
ack_diff p = if ltb p.seq p.ack then p.seq + 65536 - p.ack else p.seq - p.ack

-- The flag byte of `AppendTo`.
unfoldable pub header_flag : PacketHeader → ℕ
unfolding toggle lacks ack_diff
header_flag p =
    let flag0 : ℕ = 0 in
    let flag1 = if lacks p.acks 0x000000ff then toggle flag0 flag_a else flag0 in
    let flag2 = if lacks p.acks 0x0000ff00 then toggle flag1 flag_b else flag1 in
    let flag3 = if lacks p.acks 0x00ff0000 then toggle flag2 flag_c else flag2 in
    let flag4 = if lacks p.acks 0xff000000 then toggle flag3 flag_d else flag3 in
    if leb (ack_diff p) 255 then toggle flag4 flag_ack_encoded else flag4

module _ (u : BytesUtil) where
  -- `uint8(x)` is the remainder by 256.
  unfoldable pub append_to : PacketHeader → List ℕ → List ℕ
  unfolding header_flag
  append_to p dst =
      let dst1 = dst ++ header_flag p ∷ [] in
      let dst2 = u.append_uint16_be dst1 p.seq in
      let dst3 =
        if leb (ack_diff p) 255
        then dst2 ++ (ack_diff p % 256) ∷ []
        else u.append_uint16_be dst2 p.ack in
      let dst4 =
        if lacks p.acks 0x000000ff then dst3 ++ (bit_and p.acks 0x000000ff % 256) ∷ [] else dst3 in
      let dst5 =
        if lacks p.acks 0x0000ff00
        then dst4 ++ (bit_and p.acks 0x0000ff00 / 2 ^ 8 % 256) ∷ []
        else dst4 in
      let dst6 =
        if lacks p.acks 0x00ff0000
        then dst5 ++ (bit_and p.acks 0x00ff0000 / 2 ^ 16 % 256) ∷ []
        else dst5 in
      if lacks p.acks 0xff000000
      then dst6 ++ (bit_and p.acks 0xff000000 / 2 ^ 24 % 256) ∷ []
      else dst6

-- `bits.OnesCount8`
unfoldable pub ones_count8 : ℕ → ℕ
ones_count8 x =
    x % 2 + x / 2 % 2 + x / 4 % 2 + x / 8 % 2 + x / 16 % 2 + x / 32 % 2 + x / 64 % 2 + x / 128 % 2

-- One of the four steps that read the ACK bitset: under its flag a byte of the buffer takes the
-- place that the mask clears.
unfoldable pub read_acks : ℕ → ℕ → ℕ → ℕ → ℕ × List ℕ → Result (ℕ × List ℕ)
unfolding toggled
read_acks flag bit mask shift (acks, buf) =
    let masked = (do
      byte ← index buf 0
      rest ← slice_from buf 1
      ok (bit_or (bit_and acks mask) (byte * 2 ^ shift), rest)) in
    if toggled flag bit then masked else ok (acks, buf)

-- The ACK bitset, under the four flags.
unfoldable pub read_bitset : ℕ → List ℕ → Result (ℕ × List ℕ)
unfolding read_acks ones_count8
read_bitset flag buf =
    let fields = (do
      s1 ← read_acks flag flag_a 0xffffff00 0 (0xffffffff, buf)
      s2 ← read_acks flag flag_b 0xffff00ff 8 s1
      s3 ← read_acks flag flag_c 0xff00ffff 16 s2
      read_acks flag flag_d 0x00ffffff 24 s3) in
    if ltb (length buf) (ones_count8 (bit_and flag 30)) then err unexpected_eof else fields

module _ (u : BytesUtil) where
  -- The latest ACK'ed sequence number, as one byte of difference or as two bytes.
  unfoldable pub read_ack : ℕ → ℕ → List ℕ → Result (ℕ × List ℕ)
  unfolding toggled
  read_ack flag seq buf =
      let short = (do diff ← index buf 0; rest ← slice_from buf 1; ok (sub16 seq diff, rest)) in
      let long = (do two ← slice_to buf 2; rest ← slice_from buf 2; ok (u.uint16_be two, rest)) in
      if toggled flag flag_ack_encoded
      then (if ltb (length buf) 1 then err unexpected_eof else short)
      else (if ltb (length buf) 2 then err unexpected_eof else long)

  -- The values that the source returns beside an error are dropped, as its callers do.
  unfoldable pub unmarshal_packet_header : List ℕ → Result (PacketHeader × List ℕ)
  unfolding toggled
  unmarshal_packet_header buf = if ltb (length buf) 3 then err unexpected_eof else (do
    flag ← index buf 0
    buf1 ← slice_from buf 1
    if toggled flag flag_fragment then err unexpected_eof else (do
      two ← slice_to buf1 2
      buf2 ← slice_from buf1 2
      (ack, buf3) ← read_ack flag (u.uint16_be two) buf2
      (acks, buf4) ← read_bitset flag buf3
      ok (record { seq = u.uint16_be two; ack = ack; acks = acks }, buf4)))
