-- ===== src/Endpoint/Read/Assembly/AnyOrder.antt =====
-- A payload in fragments, from the first that arrives to the last, against the payload as it is.
use slept.Prelude.{
  ℕ, ◌-◌, ◌%◌, ◌<◌, ◌≤◌, ◌≡◌, refl, ◌∙◌, arith, false, List, [], ◌∷◌, ◌++◌, length, map, set,
  length-set, some, get_elem?-set_self, All, inl, inr,
}
use slept.Prelude.{Distinct}
use slept.Prelude.Results.{ok, index, bind_assoc, bind_congr}
use slept.Floats.{Floats}
use slept.Bytes.{BytesUtil, IsBigEndian}
use slept.Packet.Header.{PacketHeader}
use slept.Packet.Header
use slept.Packet.Header.Encode.{append_to-encoding, encoding, encoding_flag, length-encoding}
use slept.Packet.Header.RoundTrip.{encoding_flag-fragment}
use slept.Packet.Fragment.{Fragment}
use slept.Packet.Fragment.Marks.{received}
use slept.Buffer.Slots.{is_outdated}
use slept.Buffer.Slots
use slept.Buffer.Slots.Laws.{IsValid, holds}
use slept.Buffer.Slots.Insert.{Inserted, insert-Inserted}
use slept.Buffer.Types.{FragmentReassemblyBuffer, fragment_insert, fragment_remove}
use slept.Endpoint.{Endpoint, Dispatcher}
use slept.Endpoint.Write.Fragments.{datagram}
use slept.Endpoint.Read.{read_packet, recv_compact_packet, State}
use slept.Endpoint.Read.Assembly.Inv.{Parted, piece}
use slept.Endpoint.Read.Assembly.Whole.{started_entry, started-received, started-Gathered}
use slept.Endpoint.Read.Assembly.Arrival.{hand_on}
use slept.Endpoint.Read.Assembly.Order.{
  Others, Others-set, read_each, read_whole, without_error, remaining,
}
use slept.Endpoint.Read.Assembly.First.{found_in, inside, first_piece}

-- The datagrams of pieces, behind the fragment headers that `WritePacket` gives them.
abbrev pub pieces_of : BytesUtil → PacketHeader → List ℕ → ℕ → ℕ → List ℕ → List (List ℕ)
pieces_of u h payload size count ids =
    map
      (λ id.
        datagram u h (record { seq = h.seq; id = id; total = count - 1 }) id
          (piece size payload id))
      ids

module _ (fl : Floats) (u : BytesUtil) (be : IsBigEndian u) {W : Type 0} (d : Dispatcher fl.Float W)
    (h : PacketHeader) (wire : Header.IsWire h) (payload : List ℕ) where
  -- `ReadPacket` of the datagram of a compact packet takes the compact branch.
  read_packet-branch :
      (s : State fl d)
      → read_packet fl u d (Header.append_to u h [] ++ payload) s
        ≡ recv_compact_packet fl u d (Header.append_to u h [] ++ payload) s
  unfolding read_packet encoding
  read_packet-branch s =
      let first : index (Header.append_to u h [] ++ payload) 0 ≡ ok (encoding_flag h) =
        first_byte in
      rw (first, encoding_flag-fragment h) refl
    where
      first_byte : index (Header.append_to u h [] ++ payload) 0 ≡ ok (encoding_flag h)
      first_byte = rw (append_to-encoding u be h wire []) refl

  fits_front :
      {size count : ℕ}
      → Parted size count [] payload
      → Parted size count (Header.append_to u h []) payload
  fits_front parted = record {
    some_size = parted.some_size;
    some_count = parted.some_count;
    few = parted.few;
    front_fits = rw (append_to-encoding u be h wire []) (length-encoding h);
    needed = parted.needed;
    enough = parted.enough;
    no_wrap = parted.no_wrap;
  }

module _ (fl : Floats) (u : BytesUtil) (be : IsBigEndian u) {W : Type 0} (d : Dispatcher fl.Float W)
    (h : PacketHeader) (wire : Header.IsWire h) (payload : List ℕ) {count window : ℕ}
    (e : Endpoint fl.Float) (parts : Parted e.config.fragment_size count [] payload)
    (allowed : count ≤ e.config.max_fragments) (v : IsValid window e.assembler)
    (recent : is_outdated e.assembler h.seq ≡ false)
    (unknown : holds e.assembler window h.seq ≡ false) (w : W) where
  module _ (t : FragmentReassemblyBuffer) (ins : Inserted window e.assembler h.seq t)
      (ran : fragment_insert e.assembler h.seq ≡ ok (t, some (h.seq % window))) where
    opened-new :
        (buf : List ℕ) (ids : List ℕ) → All (λ j. received (started_entry count buf) j ≡ false) ids
    opened-new buf [] = tt
    opened-new buf (id ∷ ids) = (started-received count buf id, opened-new buf ids)

    from_first :
        (ids : List ℕ)
        → All (λ j. j < count) ids
        → Distinct ids
        → length ids ≡ count
        → (es : List Fragment) × Others (h.seq % window) t.entries es
          × (read_each fl u d (pieces_of u h payload e.config.fragment_size count ids) (e, w)
              ≡ without_error fl u d (
                  hand_on fl u d h.seq
                    (Header.append_to u h [] ++ payload)
                    (record e { assembler = record t { entries = es } }, w)))
    from_first [] below distinct all = absurd (omega (arith, all, parts.some_count))
    from_first (id ∷ ids) below distinct all =
        let (buf, room, same) =
          first_piece fl u be d h wire payload e parts allowed v unknown w t ins ran id
            (piece e.config.fragment_size payload id) below.0 in
        let start = set t.entries (h.seq % window) (started_entry count buf) in
        let (es, others, ran_all) =
          remaining fl u be d h wire payload (fits_front fl u be d h wire payload parts) e refl
            allowed w t (h.seq % window) (found_in e.assembler t h.seq wire.seq_small ins) id ids
            below distinct start (length-set t.entries (h.seq % window) (started_entry count buf))
            (started_entry count buf)
            (get_elem?-set_self t.entries (h.seq % window) (started_entry count buf)
              (inside fl u be d h wire payload e parts allowed v unknown w t ins ran))
            (started-Gathered buf room) (opened-new buf (id ∷ ids)) (omega (arith, all)) in
        (
          es,
          Others-set (h.seq % window) t.entries es (started_entry count buf) others,
          rw same ran_all,
        )

  -- For big-endian byte utilities, a header in range, a payload that is cut into pieces of
  -- FragmentSize bytes (at most MaxFragments and 256, and the buffer for all of them fits a uint),
  -- and a reassembly buffer with sound slots that does not know the number and does not find it
  -- outdated: if the datagrams of all pieces are read in any order, each once, then the state at
  -- the end is that after `ReadPacket` of the header and the payload in one compact datagram, with
  -- the number removed from the reassembly buffer. Up to then only the reassembly buffer changes:
  -- its numbers are those after the insertion, and the entries in other slots stay.
  pub read_packet-any_order :
      (ids : List ℕ)
      → All (λ j. j < count) ids
      → Distinct ids
      → length ids ≡ count
      → (t : FragmentReassemblyBuffer) × Inserted window e.assembler h.seq t
        × (es : List Fragment) × Others (h.seq % window) e.assembler.entries es
        × (read_each fl u d (pieces_of u h payload e.config.fragment_size count ids) (e, w)
            ≡ read_whole fl u d h payload (record e { assembler = record t { entries = es } }, w))
  unfolding fragment_insert
  read_packet-any_order ids below distinct all =
      elim (insert-Inserted e.assembler v h.seq wire.seq_small) [
        | inl (old, ran) ↦ absurd (cc (old, recent))
        | inr (new, t, ran, ins) ↦
            let (es, others, ended) = from_first t ins (inserted_as t ran) ids below distinct all in
            (t, ins, es, rw ins.same_entries at others, ended ∙ compactly _)
      ]
    where
      compactly :
          (s : State fl d)
          → without_error fl u d (hand_on fl u d h.seq (Header.append_to u h [] ++ payload) s)
            ≡ read_whole fl u d h payload s
      compactly s = rw (read_packet-branch fl u be d h wire payload s) (
          bind_assoc (recv_compact_packet fl u d (Header.append_to u h [] ++ payload) s) _ _
          ∙ bind_congr (recv_compact_packet fl u d (Header.append_to u h [] ++ payload) s) _ _
              (λ r. bind_assoc (fragment_remove r.0.0.assembler h.seq) _ _))

      inserted_as :
          (t : FragmentReassemblyBuffer)
          → Slots.insert e.assembler h.seq ≡ ok (t, some (h.seq % window))
          → fragment_insert e.assembler h.seq ≡ ok (t, some (h.seq % window))
      inserted_as t ran = ran
