-- ===== src/Endpoint/Write/Compact.antt =====
-- WritePacket's compact branch: one datagram, the header and then the payload.
use slept.Prelude.{
  ℕ, le→ltb, le→leb, zero, suc, ap, append_assoc, ◌+◌, ◌%◌, ◌<◌, ◌≤◌, ◌≡◌, refl, arith, List, [],
  ◌∷◌, ◌++◌, length, take, drop, length-append, length-drop, take-append, drop-append,
}
use slept.Prelude.Results.{ok, ◌>>=◌, bind_assoc, slice_to, slice_from-ok, slice_to-ok}
use slept.Bytes.{BytesUtil, IsBigEndian}
use slept.Packet.Header.{PacketHeader, IsWire, append_to}
use slept.Packet.Header.Encode.{append_to-encoding, length-encoding}
use slept.Endpoint.{Endpoint, Dispatcher, wrap64}
use slept.Endpoint.Write.Open.{IsReady, Opened, open_packet-Opened}
use slept.Endpoint.Write.{write_packet, write_compact, copy_at, max_packet_header_size}
use native.Mathlib.Nat.{mod-eq_of_lt}

take-all : (n : ℕ) (xs : List ℕ) → length xs ≤ n → take n xs ≡ xs
take-all zero [] h = refl
take-all zero (x ∷ xs) h = absurd (omega arith)
take-all (suc n) [] h = refl
take-all (suc n) (x ∷ xs) h = ap (λ (t : List ℕ). x ∷ t) (take-all n xs (omega arith))

-- Copying into the rest of a buffer that has room for it.
pub copy_at-append :
    (front back src : List ℕ)
    → length src ≤ length back
    → copy_at (front ++ back) (length front) src
      ≡ ok (front ++ (src ++ drop (length src) back), length src)
unfolding copy_at
copy_at-append front back src h =
    rw
      (
        slice_from-ok (front ++ back) (length front) (omega (arith, length-append front back)),
        take-append front back,
        drop-append front back,
        take-all (length back) src h,
      )
      (ap (λ (n : ℕ). ok (front ++ (src ++ drop (length src) back), n)) (omega (arith, h)))

-- A prefix is sliced off again.
slice_to-append : (xs ys : List ℕ) → slice_to (xs ++ ys) (length xs) ≡ ok xs
slice_to-append xs ys =
    rw (slice_to-ok (xs ++ ys) (length xs) (omega (arith, length-append xs ys)), take-append xs ys)
      refl

module _ {F W : Type 0} (u : BytesUtil) (be : IsBigEndian u) (d : Dispatcher F W) (h : PacketHeader)
    (wire : IsWire h) (buf : List ℕ) (fits : length buf < 18446744073709551600) (w : W) where
  -- The compact branch makes one call of `Transmit`, with the header's bytes and then the payload,
  -- and counts what it handed over.
  pub write_compact_lem : write_compact u d h buf w ≡ (
      d.transmit h.seq (append_to u h [] ++ buf) w >>= λ w1.
      ok (w1, length (append_to u h [] ++ buf)))
  unfolding write_compact wrap64
  write_compact_lem =
      let encoded = append_to u h [] in
      let size = (max_packet_header_size + length buf) % 18446744073709551616 in
      let back = drop (length encoded) (u.extend_slice [] size) in
      let whole : size ≡ max_packet_header_size + length buf = mod-eq_of_lt (omega (arith, fits)) in
      let short : length encoded ≤ max_packet_header_size =
        rw (append_to-encoding u be h wire []) (length-encoding h) in
      let room : length buf ≤ length back = omega (
        arith,
        length-drop (length encoded) (u.extend_slice [] size),
        be.extend_length [] size,
        whole,
        short,
      ) in
      let count : length (encoded ++ buf) ≡ length encoded + length buf =
        length-append encoded buf in
      rw
        (
          copy_at-append encoded back buf room,
          ← append_assoc encoded buf (drop (length buf) back),
          ← count,
          slice_to-append (encoded ++ buf) (drop (length buf) back),
        )
        refl

-- An endpoint that is ready, with a payload that it sends as it is, and a `Transmit` that returns.
module _ {F W : Type 0} (u : BytesUtil) (be : IsBigEndian u) (d : Dispatcher F W) {cap window : ℕ}
    (e : Endpoint F) (r : IsReady cap window e) (buf : List ℕ)
    (fits : length buf < 18446744073709551600) (allowed : length buf ≤ e.config.max_packet_size)
    (compact : length buf ≤ e.config.fragment_above) where
  -- For big-endian byte utilities, a ready endpoint and a payload of at most MaxPacketSize and
  -- FragmentAbove bytes, `WritePacket` transmits one datagram under the next sequence number:
  -- a header with that number and with the ACKs of the packets received, and the payload. It waits
  -- for the packet's ACK, stays ready, and fails only if `Transmit` does.
  pub write_packet-compact :
      (w : W)
      → (e1 : Endpoint F) × (h : PacketHeader) × Opened cap window buf e e1 h
        × (write_packet u d buf (e, w) ≡ (
            d.transmit h.seq (append_to u h [] ++ buf) w >>= λ w1.
            ok ((e1, w1), length (append_to u h [] ++ buf))))
  unfolding write_packet
  write_packet-compact w =
      let (e1, h, ran, opened) = open_packet-Opened buf e r in
      (
        e1,
        h,
        opened,
        rw
            (
              le→ltb _ _ allowed,
              ran,
              le→leb _ _ compact,
              write_compact_lem u be d h opened.wire buf fits w,
            )
            (bind_assoc (d.transmit h.seq (append_to u h [] ++ buf) w)
              (λ w1. ok (w1, length (append_to u h [] ++ buf))) (λ s. ok ((e1, s.0), s.1))),
      )
