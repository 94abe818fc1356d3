-- ===== src/Endpoint/Read/Pieces.antt =====
-- Reading the datagram of one piece.
use slept.Prelude.{
  ℕ, ◌+◌, ◌-◌, ◌<◌, ◌≤◌, ◌≡◌, refl, arith, true, List, [], ◌++◌, length, ◌==◌, if◌then◌else◌,
  Bool-cases, inl, inr, take-append, length-append, le→ltb,
}
use slept.Prelude.Results.{ok, slice_to, slice_to-ok}
use slept.Bytes.{BytesUtil, IsBigEndian}
use slept.Packet.Header.{PacketHeader}
use slept.Packet.Header
use slept.Packet.Header.RoundTrip.{unmarshal_packet_header-append_to}
use slept.Packet.Fragment.{FragmentHeader, validate}
use slept.Packet.Fragment
use slept.Packet.Fragment.RoundTrip.{unmarshal_fragment_header-append_to}
use slept.Floats.{Floats}
use slept.Endpoint.{Dispatcher}
use slept.Endpoint.Read.{read_fragment, first_header}
use slept.Endpoint.Write.Fragments.{datagram}

module _ (fl : Floats) (u : BytesUtil) (be : IsBigEndian u) {W : Type 0} (d : Dispatcher fl.Float W)
    (h : PacketHeader) (wire : Header.IsWire h) (fh : FragmentHeader) (fh_wire : Fragment.IsWire fh)
    (own : fh.seq ≡ h.seq) (p : List ℕ) where
  front :
      slice_to (Header.append_to u h [] ++ p) (length (Header.append_to u h [] ++ p) - length p)
      ≡ ok (Header.append_to u h [])
  front =
      let encoded = Header.append_to u h [] in
      let size : length (encoded ++ p) - length p ≡ length encoded =
        omega (arith, length-append encoded p) in
      rw
        (
          size,
          slice_to-ok (encoded ++ p) (length encoded) (omega (arith, length-append encoded p)),
          take-append encoded p,
        )
        refl

  first_header-piece :
      first_header fl u d fh ((if fh.id == 0 then Header.append_to u h [] else []) ++ p)
      ≡ ok (if fh.id == 0 then (Header.append_to u h [], p) else (p, p))
  unfolding first_header
  first_header-piece = elim (Bool-cases (fh.id == 0)) [
    | inl y ↦
        let same : (fh.seq == h.seq) ≡ true = ground arith in
        rw (y, unmarshal_packet_header-append_to u be h p wire, front, same) refl
    | inr n ↦ rw n refl
  ]

  -- A reader that allows so many fragments gets back from the datagram of a piece, whose headers
  -- are in range and have one sequence number, its fragment header, the bytes of the packet header
  -- if it is the first piece, and the piece.
  pub read_fragment-datagram :
      (max_fragments : ℕ)
      → fh.id ≤ fh.total
      → fh.total < max_fragments
      → read_fragment fl u d max_fragments (datagram u h fh fh.id p)
        ≡ ok (fh, (if fh.id == 0 then (Header.append_to u h [], p) else (p, p)))
  unfolding read_fragment validate
  read_fragment-datagram max_fragments last allowed =
      rw
        (
          unmarshal_fragment_header-append_to u be fh
              ((if fh.id == 0 then Header.append_to u h [] else []) ++ p) fh_wire,
          le→ltb fh.total fh.id last,
          le→ltb max_fragments (fh.total + 1) (omega arith),
          first_header-piece,
        )
        refl
