-- ===== src/Packet/Header/Decode.antt =====
-- `UnmarshalPacketHeader` on any bytes at all: it never reads past the end.
use slept.Prelude.{
  ℕ, suc, le→ltb, ◌+◌, ◌*◌, ◌^◌, ◌≤◌, ◌<◌, ◌≡◌, refl, arith, bit_and, bit_or, Bool, true, false,
  List, [], ◌∷◌, length, ltb, All, inl, inr, Bool-cases,
}
use slept.Prelude.Bits.{all_below, all_below_sound}
use slept.Prelude.Results.{
  Result, ok, err, panic, unexpected_eof, ◌>>=◌, slice_from-ok, slice_to-ok,
}
use slept.Seq.{IsU16}
use slept.Bytes.{BytesUtil, IsBigEndian}
use slept.Packet.Header.{
  flag_fragment, flag_a, flag_b, flag_c, flag_d, toggled, PacketHeader, IsWire, ones_count8,
}
use slept.Packet.Header.{read_acks, read_ack, read_bitset, unmarshal_packet_header}
use slept.Packet.Header.Encode.{weight}
use slept.Packet.Header.Words.{byte0, byte1, byte2, byte3, word4-bytes}
use slept.Packet.Header.Words.{place_a, place_b, place_c, place_d}

abbrev pub IsByte : ℕ → Type 0
IsByte b = b < 256

abbrev IsU32 : ℕ → Type 0
IsU32 x = x < 4294967296

-- Putting a byte under the mask leaves a uint32.
abbrev Fits : ℕ → ℕ → Type 0
Fits mask shift =
    (acks v : ℕ) → IsU32 acks → IsByte v → IsU32 (bit_or (bit_and acks mask) (v * 2 ^ shift))

module _ (acks v : ℕ) (h : IsU32 acks) (hv : IsByte v) where
  fits_a : IsU32 (bit_or (bit_and acks 0xffffff00) (v * 2 ^ 0))
  fits_a = omega (
    arith,
    rw word4-bytes at (
        place_a (byte0 acks) (byte1 acks) (byte2 acks) (byte3 acks) v (omega arith) (omega arith)
          (omega arith) (omega arith) hv),
  )

  fits_b : IsU32 (bit_or (bit_and acks 0xffff00ff) (v * 2 ^ 8))
  fits_b = omega (
    arith,
    rw word4-bytes at (
        place_b (byte0 acks) (byte1 acks) (byte2 acks) (byte3 acks) v (omega arith) (omega arith)
          (omega arith) (omega arith) hv),
  )

  fits_c : IsU32 (bit_or (bit_and acks 0xff00ffff) (v * 2 ^ 16))
  fits_c = omega (
    arith,
    rw word4-bytes at (
        place_c (byte0 acks) (byte1 acks) (byte2 acks) (byte3 acks) v (omega arith) (omega arith)
          (omega arith) (omega arith) hv),
  )

  fits_d : IsU32 (bit_or (bit_and acks 0x00ffffff) (v * 2 ^ 24))
  fits_d = omega (
    arith,
    rw word4-bytes at (
        place_d (byte0 acks) (byte1 acks) (byte2 acks) (byte3 acks) v (omega arith) (omega arith)
          (omega arith) (omega arith) hv),
  )

abbrev Step : ℕ → ℕ → List ℕ → Bool → Result (ℕ × List ℕ) → Type 0
Step acks n buf b r =
    (acks' : ℕ) × (buf' : List ℕ) × (r ≡ ok (acks', buf'))
    × IsU32 acks'
    × All IsByte buf'
    × (n ≤ length buf')
    × (length buf ≡ length buf' + weight b 1)

-- With a byte at hand, if the flag asks for one, a step succeeds.
read_acks-Step :
    (flag bit mask shift acks n : ℕ) (buf : List ℕ)
    → Fits mask shift
    → IsU32 acks
    → All IsByte buf
    → weight (toggled flag bit) 1 + n ≤ length buf
    → Step acks n buf (toggled flag bit) (read_acks flag bit mask shift (acks, buf))
unfolding read_acks
read_acks-Step flag bit mask shift acks n [] fits ha hb h =
    (acks, [], ground arith, ha, tt, omega arith, ground arith)
read_acks-Step flag bit mask shift acks n (v ∷ r) fits ha hb h =
    elim (Bool-cases (toggled flag bit)) [
      | inl e ↦
          rw (e, read_acks)
            (
              bit_or (bit_and acks mask) (v * 2 ^ shift),
              r,
              ground arith,
              fits acks v ha hb.0,
              hb.1,
              ground arith,
              ground arith,
            )
      | inr e ↦ rw (e, read_acks) (acks, v ∷ r, refl, ha, hb, ground arith, ground arith)
    ]

-- The guard of the bitset counts the flags that the four steps test.
count_shown :
    (flag : ℕ)
    → IsByte flag
    → ones_count8 (bit_and flag 30)
      ≡ weight (toggled flag flag_a) 1
        + (weight (toggled flag flag_b) 1
            + (weight (toggled flag flag_c) 1 + weight (toggled flag flag_d) 1))
unfolding ones_count8 toggled all_below
count_shown = all_below_sound 256 _ _ refl

-- The outcome of a reader: unexpected EOF, or a good value, with `lo` to `hi` bytes taken.
abbrev pub Reads {ℓ} : {A : Type ℓ} → (A → Type 0) → ℕ → ℕ → List ℕ → Result (A × List ℕ) → Type 0
Reads P lo hi buf (ok (v, rest)) =
    P v × All IsByte rest × (length rest + lo ≤ length buf) × (length buf ≤ length rest + hi)
Reads P lo hi buf (err e) = e ≡ unexpected_eof
Reads P lo hi buf panic = ⊥

fields_Reads :
    (flag : ℕ) (buf : List ℕ)
    → All IsByte buf
    → weight (toggled flag flag_a) 1
        + (weight (toggled flag flag_b) 1
            + (weight (toggled flag flag_c) 1 + weight (toggled flag flag_d) 1))
      ≤ length buf
    → Reads IsU32 0 4 buf (do
      s1 ← read_acks flag flag_a 0xffffff00 0 (0xffffffff, buf)
      s2 ← read_acks flag flag_b 0xffff00ff 8 s1
      s3 ← read_acks flag flag_c 0xff00ffff 16 s2
      read_acks flag flag_d 0x00ffffff 24 s3)
fields_Reads flag buf hb h =
    let d : ℕ = weight (toggled flag flag_d) 1 in
    let c : ℕ = weight (toggled flag flag_c) 1 + d in
    let b : ℕ = weight (toggled flag flag_b) 1 + c in
    let (x1, r1, e1, u1, b1, n1, l1) =
      read_acks-Step flag flag_a 0xffffff00 0 0xffffffff b buf fits_a (omega arith) hb h in
    let (x2, r2, e2, u2, b2, n2, l2) =
      read_acks-Step flag flag_b 0xffff00ff 8 x1 c r1 fits_b u1 b1 n1 in
    let (x3, r3, e3, u3, b3, n3, l3) =
      read_acks-Step flag flag_c 0xff00ffff 16 x2 d r2 fits_c u2 b2 n2 in
    let (x4, r4, e4, u4, b4, n4, l4) =
      read_acks-Step flag flag_d 0x00ffffff 24 x3 0 r3 fits_d u3 b3 (ground arith) in
    rw (e1, e2, e3, e4) (u4, b4, ground arith, ground arith)

-- Readers in sequence take their bytes in sequence.
bind-Reads {ℓ κ} :
    {A : Type ℓ} {B : Type κ} {P : A → Type 0} (Q : B → Type 0) (lo hi lo' hi' : ℕ) (buf : List ℕ)
    (m : Result (A × List ℕ)) (f : A × List ℕ → Result (B × List ℕ))
    → Reads P lo hi buf m
    → ((v : A) (rest : List ℕ) → P v → All IsByte rest → Reads Q lo' hi' rest (f (v, rest)))
    → Reads Q (lo + lo') (hi + hi') buf (m >>= f)
bind-Reads {B} Q lo hi lo' hi' buf (ok (v, rest)) f h k = weaken (f (v, rest)) (k v rest h.0 h.1)
  where
    weaken :
        (r : Result (B × List ℕ)) → Reads Q lo' hi' rest r → Reads Q (lo + lo') (hi + hi') buf r
    weaken (ok (w, rest')) g = (g.0, g.1, omega (arith, h, g), omega (arith, h, g))
    weaken (err e) g = g
    weaken panic g = g
bind-Reads Q lo hi lo' hi' buf (err e) f h k = h
bind-Reads Q lo hi lo' hi' buf panic f h k = absurd h

read_bitset-Reads :
    (flag : ℕ) (buf : List ℕ)
    → IsByte flag
    → All IsByte buf
    → Reads IsU32 0 4 buf (read_bitset flag buf)
unfolding read_bitset
read_bitset-Reads flag buf hf hb =
    elim (Bool-cases (ltb (length buf) (ones_count8 (bit_and flag 30)))) [
      | inl e ↦ rw (e, read_bitset) refl
      | inr e ↦ rw (e, read_bitset) (fields_Reads flag buf hb (ground (arith, count_shown flag hf)))
    ]

three_more :
    (f x y : ℕ) (r : List ℕ) (m : Result (PacketHeader × List ℕ))
    → Reads IsWire 1 6 r m
    → Reads IsWire 4 9 (f ∷ x ∷ y ∷ r) m
three_more f x y r (ok (h, rest)) g = (g.0, g.1, omega arith, omega arith)
three_more f x y r (err e) g = g
three_more f x y r panic g = g

module _ (u : BytesUtil) (be : IsBigEndian u) where
  read_ack-Reads :
      (flag seq : ℕ) (buf : List ℕ)
      → IsU16 seq
      → All IsByte buf
      → Reads IsU16 1 2 buf (read_ack u flag seq buf)
  unfolding read_ack
  read_ack-Reads flag seq [] hs hb = ground arith
  read_ack-Reads flag seq (x ∷ []) hs hb = ground arith
  read_ack-Reads flag seq (x ∷ y ∷ r) hs hb = ground (arith, be.uint16_lem x y)

  fields_after_seq :
      (flag seq : ℕ) (buf : List ℕ)
      → IsByte flag
      → IsU16 seq
      → All IsByte buf
      → Reads IsWire 1 6 buf (do
        (ack, buf3) ← read_ack u flag seq buf
        (acks, buf4) ← read_bitset flag buf3
        ok (record { seq = seq; ack = ack; acks = acks }, buf4))
  fields_after_seq flag seq buf hf hs hb =
      bind-Reads IsWire 1 2 0 4 buf _ _ (read_ack-Reads flag seq buf hs hb) λ ack rest ha hr.
        bind-Reads IsWire 0 4 0 0 rest _ _ (read_bitset-Reads flag rest hf hr) λ acks rest' hw hr'.
          (
            record { seq_small = hs; ack_small = ha; acks_small = hw },
            hr',
            omega arith,
            omega arith,
          )

  unmarshal_after_seq :
      (f x y : ℕ) (r : List ℕ)
      → toggled f flag_fragment ≡ false
      → unmarshal_packet_header u (f ∷ x ∷ y ∷ r) ≡ do
        (ack, buf3) ← read_ack u f (u.uint16_be (x ∷ y ∷ [])) r
        (acks, buf4) ← read_bitset f buf3
        ok (record { seq = u.uint16_be (x ∷ y ∷ []); ack = ack; acks = acks }, buf4)
  unfolding unmarshal_packet_header
  unmarshal_after_seq f x y r e = rw (
    le→ltb (suc (suc (suc (length r)))) 3 (omega arith),
    slice_from-ok (f ∷ x ∷ y ∷ r) 1 (omega arith),
    e,
    slice_to-ok (x ∷ y ∷ r) 2 (omega arith),
    slice_from-ok (x ∷ y ∷ r) 2 (omega arith),
  )

  unmarshal_fragment :
      (f x y : ℕ) (r : List ℕ)
      → toggled f flag_fragment ≡ true
      → unmarshal_packet_header u (f ∷ x ∷ y ∷ r) ≡ err unexpected_eof
  unfolding unmarshal_packet_header
  unmarshal_fragment f x y r e = ground arith

  -- On any bytes `UnmarshalPacketHeader` ends with unexpected EOF or with a header whose fields are
  -- in range, and then it has taken 4 to 9 bytes; it never panics.
  pub unmarshal-Reads :
      (buf : List ℕ) → All IsByte buf → Reads IsWire 4 9 buf (unmarshal_packet_header u buf)
  unfolding unmarshal_packet_header
  unmarshal-Reads [] hb = ground arith
  unmarshal-Reads (f ∷ []) hb = ground arith
  unmarshal-Reads (f ∷ x ∷ []) hb = ground arith
  unmarshal-Reads (f ∷ x ∷ y ∷ r) hb = elim (Bool-cases (toggled f flag_fragment)) [
    | inl e ↦ rw (unmarshal_fragment f x y r e) refl
    | inr e ↦
        let seq = u.uint16_be (x ∷ y ∷ []) in
        let hs : IsU16 seq = omega (arith, be.uint16_lem x y hb.1.0 hb.1.1.0) in
        rw (unmarshal_after_seq f x y r e)
          (three_more f x y r _ (fields_after_seq f seq r hb.0 hs hb.1.1.1))
  ]
