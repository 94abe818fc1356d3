-- ===== src/Packet/Fragment/RoundTrip.antt =====
-- The fragment header on the wire, and how `ReadPacket` tells the two headers apart.
use slept.Prelude.{
  ℕ, ◌/◌, ◌%◌, ◌≤◌, ◌<◌, ◌≡◌, ◌↔◌, ◌⊎◌, inl, inr, refl, arith, true, false, List, [], ◌∷◌, ◌++◌,
  length, All, drop, append_assoc,
}
use slept.Prelude.Results.{index, ok, err, unexpected_eof, id_above_total}
use slept.Prelude.Results.{too_many_fragments}
use slept.Bytes.{BytesUtil, IsBigEndian}
use slept.Packet.Header.{flag_fragment, toggled, PacketHeader, unmarshal_packet_header}
use slept.Packet.Header
use slept.Packet.Header.Decode.{IsByte}
use slept.Packet.Header.Encode.{encoding, encoding_flag, append_to-encoding}
use slept.Packet.Header.RoundTrip.{encoding_flag-fragment}
use slept.Packet.Fragment.{FragmentHeader, IsWire, validate, append_to, unmarshal_fragment_header}
use slept.Packet.Fragment.{fragment_header_size}

-- `Validate` accepts exactly the headers whose id is at most the last id and whose number of
-- fragments is at most the limit, and names the first of the two faults.
pub validate-cases :
    (h : FragmentHeader) (limit : ℕ)
    → ((validate h limit ≡ ok tt) ↔ (h.id ≤ h.total) × (h.total < limit))
      × ((validate h limit ≡ err id_above_total) ↔ (h.total < h.id))
      × ((validate h limit ≡ err too_many_fragments) ↔ (h.id ≤ h.total) × (limit ≤ h.total))
unfolding validate
validate-cases h limit = ground arith

module _ (u : BytesUtil) (be : IsBigEndian u) where
  -- `AppendTo` keeps `dst` and appends five bytes.
  pub append_to-bytes :
      (h : FragmentHeader) (dst : List ℕ)
      → IsWire h
      → append_to u h dst ≡ dst ++ flag_fragment ∷ h.seq / 256 ∷ h.seq % 256 ∷ h.id ∷ h.total ∷ []
  unfolding append_to
  append_to-bytes h dst w = rw (be.append_lem _ h.seq w.seq_small) (simp append_assoc)

  -- Reading what `AppendTo` wrote gives the fragment header back and leaves what follows it.
  pub unmarshal_fragment_header-append_to :
      (h : FragmentHeader) (rest : List ℕ)
      → IsWire h
      → unmarshal_fragment_header u (append_to u h [] ++ rest) ≡ ok (h, rest)
  unfolding unmarshal_fragment_header
  unmarshal_fragment_header-append_to h rest w =
      rw append_to-bytes (ground (arith, be.uint16_lem (h.seq / 256) (h.seq % 256)))

  -- Fewer than five bytes are unexpected EOF; of any other bytes the first five are taken, and they
  -- give a header whose fields are in range.
  pub unmarshal_fragment_header-total :
      (buf : List ℕ)
      → All IsByte buf
      → (length buf < fragment_header_size) × (unmarshal_fragment_header u buf ≡ err unexpected_eof)
        ⊎ (fragment_header_size ≤ length buf)
          × (h : FragmentHeader) × (unmarshal_fragment_header u buf ≡ ok (h, drop 5 buf))
          × IsWire h
  unfolding unmarshal_fragment_header
  unmarshal_fragment_header-total (f ∷ x ∷ y ∷ i ∷ t ∷ r) hb = inr (
    omega arith,
    record { seq = u.uint16_be (x ∷ y ∷ []); id = i; total = t },
    ground arith,
    omega (arith, be.uint16_lem x y),
  )
  unmarshal_fragment_header-total buf hb = inl (omega arith, ground arith)

  -- The first byte tells a fragment from a compact packet: the flag shows in what the fragment
  -- header writes and not in what the packet header writes, so a fragment never reads as a packet.
  pub fragment_flag :
      (h : FragmentHeader) (p : PacketHeader) (rest : List ℕ)
      → IsWire h
      → Header.IsWire p
      → ((f : ℕ) × (index (append_to u h [] ++ rest) 0 ≡ ok f) × (toggled f flag_fragment ≡ true))
        × ((f : ℕ) × (index (Header.append_to u p [] ++ rest) 0 ≡ ok f)
            × (toggled f flag_fragment ≡ false))
        × (unmarshal_packet_header u (append_to u h [] ++ rest) ≡ err unexpected_eof)
  unfolding toggled unmarshal_packet_header encoding
  fragment_flag h p rest w v = (
    (flag_fragment, rw (append_to-bytes h [] w), refl),
    (encoding_flag p, rw (append_to-encoding u be p v []), encoding_flag-fragment p),
    rw (append_to-bytes h [] w) (ground arith),
  )
