-- ===== src/Endpoint/Read/Assembly/Datagram.antt =====
-- ReadPacket of the datagram of one piece, up to the entry of its packet.
use native.Mathlib.Nat.{mod-eq_of_lt}
use slept.Prelude.{
  ℕ, ◌+◌, ◌*◌, ◌%◌, ◌<◌, ◌≤◌, ◌≡◌, refl, ◌∙◌, arith, List, [], length, set, some, none, ◌==◌,
  if◌then◌else◌, Bool-cases, inl, inr, ==_iff,
}
use slept.Prelude.Results.{ok, ◌>>=◌, store}
use slept.Floats.{Floats}
use slept.Bytes.{BytesUtil, IsBigEndian}
use slept.Packet.Header.{PacketHeader, toggled, flag_fragment}
use slept.Packet.Header
use slept.Packet.Fragment.{FragmentHeader, Fragment}
use slept.Packet.Fragment
use slept.Packet.Fragment.RoundTrip.{append_to-bytes}
use slept.Buffer.Types.{FragmentReassemblyBuffer, fragment_find, fragment_insert}
use slept.Endpoint.{Endpoint, Dispatcher, wrap64}
use slept.Endpoint.Write.{max_packet_header_size}
use slept.Endpoint.Write.Fragments.{datagram}
use slept.Endpoint.Read.{
  read_packet, recv_fragmented_packet, find_assembly, start_assembly, recv_assembling,
}
use slept.Endpoint.Read.Pieces.{read_fragment-datagram}
use slept.Endpoint.Read.Assembly.Whole.{started_entry}
use slept.Endpoint.Read.Assembly.Arrival.{with_entry}

-- The bytes of the packet header that come with a piece: those of the header with piece 0.
abbrev pub parts_of : List ℕ → ℕ → List ℕ → List ℕ × List ℕ
parts_of front id p = if id == 0 then (front, p) else (p, p)

pub parts_of-first :
    (front : List ℕ) (id : ℕ) (p : List ℕ) → id ≡ 0 → (parts_of front id p).0 ≡ front
parts_of-first front id p e = rw ((==_iff id 0).1 e) refl

parts_of-second : (front : List ℕ) (id : ℕ) (p : List ℕ) → (parts_of front id p).1 ≡ p
parts_of-second front id p = elim (Bool-cases (id == 0)) [ inl y ↦ rw y refl | inr n ↦ rw n refl ]

module _ (fl : Floats) (u : BytesUtil) (be : IsBigEndian u) {W : Type 0}
    (d : Dispatcher fl.Float W) where
  module _ (h : PacketHeader) (wire : Header.IsWire h) (fh : FragmentHeader)
      (fh_wire : Fragment.IsWire fh) (own : fh.seq ≡ h.seq) (last : fh.id ≤ fh.total)
      (e : Endpoint fl.Float) (allowed : fh.total < e.config.max_fragments) (w : W)
      (p : List ℕ) where
    first_byte :
        read_packet fl u d (datagram u h fh fh.id p) (e, w)
        ≡ recv_fragmented_packet fl u d (datagram u h fh fh.id p) (e, w)
    unfolding read_packet toggled
    first_byte = rw (append_to-bytes u be fh [] fh_wire) refl

    -- The headers are read, and the piece goes to the entry of its packet.
    pub read_packet-datagram : read_packet fl u d (datagram u h fh fh.id p) (e, w) ≡ (
        find_assembly fl u d fh e >>= λ r.
        recv_assembling fl u d fh (parts_of (Header.append_to u h []) fh.id p).0 p r.1 (r.0, w))
    unfolding recv_fragmented_packet
    read_packet-datagram =
        first_byte
        ∙ rw
            (
              read_fragment-datagram fl u be d h wire fh fh_wire own p e.config.max_fragments last
                  allowed,
              parts_of-second (Header.append_to u h []) fh.id p,
            )
            refl

  module _ (fh : FragmentHeader) (e : Endpoint fl.Float) (i : ℕ) where
    pub find_assembly-found :
        fragment_find e.assembler fh.seq ≡ ok (some i) → find_assembly fl u d fh e ≡ ok (e, some i)
    unfolding find_assembly
    find_assembly-found found = rw found refl

    -- The first fragment of a packet gets a fresh entry with room for all.
    pub find_assembly-fresh :
        (t : FragmentReassemblyBuffer)
        → fragment_find e.assembler fh.seq ≡ ok none
        → fragment_insert e.assembler fh.seq ≡ ok (t, some i)
        → i < length t.entries
        → max_packet_header_size + (fh.total + 1) * e.config.fragment_size < 18446744073709551616
        → (buf : List ℕ) × (length buf
            ≡ max_packet_header_size + (fh.total + 1) * e.config.fragment_size)
          × (find_assembly fl u d fh e
              ≡ ok (
                with_entry (record e { assembler = t }) i (started_entry (fh.total + 1) buf),
                some i,
              ))
    unfolding find_assembly start_assembly wrap64
    find_assembly-fresh t unknown inserted inside no_wrap =
        let need = max_packet_header_size + (fh.total + 1) * e.config.fragment_size in
        let small : (fh.total + 1) * e.config.fragment_size % 18446744073709551616
            ≡ (fh.total + 1) * e.config.fragment_size =
          mod-eq_of_lt (omega (arith, no_wrap)) in
        let whole : need % 18446744073709551616 ≡ need = mod-eq_of_lt no_wrap in
        let stored : store t.entries i (started_entry (fh.total + 1) (u.extend_slice [] need))
            ≡ ok (set t.entries i (started_entry (fh.total + 1) (u.extend_slice [] need))) =
          ground (arith, inside) in
        (
          u.extend_slice [] need,
          be.extend_length [] need,
          rw (unknown, inserted, small, whole, stored) refl,
        )
