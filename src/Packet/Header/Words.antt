-- ===== src/Packet/Header/Words.antt =====
-- A uint32 as four bytes, lowest first, under the masks of packet.go.
use slept.Prelude.{ℕ, ◌+◌, ◌*◌, ◌/◌, ◌%◌, ◌<◌, ◌^◌, ◌≡◌, arith, bit_and, bit_or}
use slept.Prelude.Bits.{bit_and_split, bit_or_split, bit_and_ones, bit_and_zero, bit_and-le}
use slept.Prelude.Bits.{bit_or_zero, zero-bit_or}

abbrev pub word4 : ℕ → ℕ → ℕ → ℕ → ℕ
word4 a b c d = ((d * 2 ^ 8 + c) * 2 ^ 8 + b) * 2 ^ 8 + a

abbrev pub byte0 : ℕ → ℕ
byte0 x = x % 256

abbrev pub byte1 : ℕ → ℕ
byte1 x = x / 256 % 256

abbrev pub byte2 : ℕ → ℕ
byte2 x = x / 65536 % 256

abbrev pub byte3 : ℕ → ℕ
byte3 x = x / 16777216

pub word4-bytes : (x : ℕ) → word4 (byte0 x) (byte1 x) (byte2 x) (byte3 x) ≡ x
word4-bytes x = omega arith

module _ (a b c d p q r s : ℕ) (ha : a < 256) (hb : b < 256) (hc : c < 256) (hp : p < 256)
    (hq : q < 256) (hr : r < 256) where
  pub bit_and-word4 :
      bit_and (word4 a b c d) (word4 p q r s)
      ≡ word4 (bit_and a p) (bit_and b q) (bit_and c r) (bit_and d s)
  bit_and-word4 = omega (
    arith,
    bit_and_split 8 ((d * 2 ^ 8 + c) * 2 ^ 8 + b) ((s * 2 ^ 8 + r) * 2 ^ 8 + q) a p ha hp,
    bit_and_split 8 (d * 2 ^ 8 + c) (s * 2 ^ 8 + r) b q hb hq,
    bit_and_split 8 d s c r hc hr,
  )

  pub bit_or-word4 :
      bit_or (word4 a b c d) (word4 p q r s)
      ≡ word4 (bit_or a p) (bit_or b q) (bit_or c r) (bit_or d s)
  bit_or-word4 = omega (
    arith,
    bit_or_split 8 ((d * 2 ^ 8 + c) * 2 ^ 8 + b) ((s * 2 ^ 8 + r) * 2 ^ 8 + q) a p ha hp,
    bit_or_split 8 (d * 2 ^ 8 + c) (s * 2 ^ 8 + r) b q hb hq,
    bit_or_split 8 d s c r hc hr,
  )

-- What each mask of `AppendTo` keeps of a uint32.
module _ (x : ℕ) (h : x < 4294967296) where
  keep :
      (p q r s : ℕ)
      → p < 256
      → q < 256
      → r < 256
      → bit_and x (word4 p q r s)
        ≡ word4
            (bit_and (byte0 x) p)
            (bit_and (byte1 x) q)
            (bit_and (byte2 x) r)
            (bit_and (byte3 x) s)
  keep p q r s hp hq hr = rw word4-bytes at (
      bit_and-word4 (byte0 x) (byte1 x) (byte2 x) (byte3 x) p q r s (omega arith) (omega arith)
        (omega arith) hp hq hr)

  pub mask_a : bit_and x 0x000000ff ≡ byte0 x
  mask_a = omega (
    arith,
    keep 255 0 0 0 (omega arith) (omega arith) (omega arith),
    bit_and_ones (byte0 x),
    bit_and_zero (byte1 x),
    bit_and_zero (byte2 x),
    bit_and_zero (byte3 x),
  )

  pub mask_b : bit_and x 0x0000ff00 ≡ byte1 x * 2 ^ 8
  mask_b = omega (
    arith,
    keep 0 255 0 0 (omega arith) (omega arith) (omega arith),
    bit_and_zero (byte0 x),
    bit_and_ones (byte1 x),
    bit_and_zero (byte2 x),
    bit_and_zero (byte3 x),
  )

  pub mask_c : bit_and x 0x00ff0000 ≡ byte2 x * 2 ^ 16
  mask_c = omega (
    arith,
    keep 0 0 255 0 (omega arith) (omega arith) (omega arith),
    bit_and_zero (byte0 x),
    bit_and_zero (byte1 x),
    bit_and_ones (byte2 x),
    bit_and_zero (byte3 x),
  )

  pub mask_d : bit_and x 0xff000000 ≡ byte3 x * 2 ^ 24
  mask_d = omega (
    arith,
    keep 0 0 0 255 (omega arith) (omega arith) (omega arith),
    bit_and_zero (byte0 x),
    bit_and_zero (byte1 x),
    bit_and_zero (byte2 x),
    bit_and_ones (byte3 x),
  )

fresh : (x v : ℕ) → x < 256 → v < 256 → bit_or (bit_and x 0) v ≡ v
fresh x v hx hv = rw (bit_and_zero x hx) (zero-bit_or v hv)

kept : (x : ℕ) → x < 256 → bit_or (bit_and x 0xff) 0 ≡ x
kept x hx = rw (bit_and_ones x hx) (bit_or_zero x hx)

-- What each step of `UnmarshalPacketHeader` puts into the bitset: one byte, and the rest stays.
module _ (a b c d v : ℕ) (ha : a < 256) (hb : b < 256) (hc : c < 256) (hd : d < 256)
    (hv : v < 256) where
  place :
      (p q r s k l m n w : ℕ)
      → p < 256
      → q < 256
      → r < 256
      → k < 256
      → l < 256
      → m < 256
      → w ≡ word4 k l m n
      → bit_or (bit_and (word4 a b c d) (word4 p q r s)) w
        ≡ word4
            (bit_or (bit_and a p) k)
            (bit_or (bit_and b q) l)
            (bit_or (bit_and c r) m)
            (bit_or (bit_and d s) n)
  place p q r s k l m n w hp hq hr hk hl hm e =
      rw (e, bit_and-word4 a b c d p q r s ha hb hc hp hq hr)
        (bit_or-word4 (bit_and a p) (bit_and b q) (bit_and c r) (bit_and d s) k l m n (small a p ha)
          (small b q hb) (small c r hc) hk hl hm)
    where
      small : (x y : ℕ) → x < 256 → bit_and x y < 256
      small x y h = omega (arith, bit_and-le x y)

  pub place_a : bit_or (bit_and (word4 a b c d) 0xffffff00) (v * 2 ^ 0) ≡ word4 v b c d
  place_a = omega (
    arith,
    place 0 255 255 255 v 0 0 0 (v * 2 ^ 0) (omega arith) (omega arith) (omega arith) hv
        (omega arith) (omega arith) (omega arith),
    fresh a v ha hv,
    kept b hb,
    kept c hc,
    kept d hd,
  )

  pub place_b : bit_or (bit_and (word4 a b c d) 0xffff00ff) (v * 2 ^ 8) ≡ word4 a v c d
  place_b = omega (
    arith,
    place 255 0 255 255 0 v 0 0 (v * 2 ^ 8) (omega arith) (omega arith) (omega arith) (omega arith)
        hv (omega arith) (omega arith),
    kept a ha,
    fresh b v hb hv,
    kept c hc,
    kept d hd,
  )

  pub place_c : bit_or (bit_and (word4 a b c d) 0xff00ffff) (v * 2 ^ 16) ≡ word4 a b v d
  place_c = omega (
    arith,
    place 255 255 0 255 0 0 v 0 (v * 2 ^ 16) (omega arith) (omega arith) (omega arith) (omega arith)
        (omega arith) hv (omega arith),
    kept a ha,
    kept b hb,
    fresh c v hc hv,
    kept d hd,
  )

  pub place_d : bit_or (bit_and (word4 a b c d) 0x00ffffff) (v * 2 ^ 24) ≡ word4 a b c v
  place_d = omega (
    arith,
    place 255 255 255 0 0 0 0 v (v * 2 ^ 24) (omega arith) (omega arith) (omega arith) (omega arith)
        (omega arith) (omega arith) (omega arith),
    kept a ha,
    kept b hb,
    kept c hc,
    fresh d v hd hv,
  )
