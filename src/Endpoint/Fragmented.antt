-- ===== src/Endpoint/Fragmented.antt =====
-- A payload from the fragment loop of one endpoint's WritePacket to the ReadPacket of another.
mod Tests
use slept.Prelude.{
  ℕ, zero, suc, ◌+◌, ◌-◌, ◌*◌, ◌%◌, ◌<◌, ◌≤◌, ◌≡◌, refl, sym, ◌∙◌, ap, arith, false, List, [], ◌∷◌,
  ◌++◌, length, map, Option, some, get_elem?, All,
}
use slept.Prelude.{Distinct}
use slept.Prelude.Results.{Result, ok, ◌>>=◌}
use slept.Floats.{Floats}
use slept.Bytes.{BytesUtil, IsBigEndian}
use slept.Packet.Header.{PacketHeader}
use slept.Packet.Header
use slept.Packet.Fragment.{FragmentHeader, Fragment}
use slept.Buffer.Slots.{is_outdated}
use slept.Buffer.Slots.Laws.{IsValid, holds}
use slept.Buffer.Slots.Insert.{Inserted}
use slept.Buffer.Types.{FragmentReassemblyBuffer}
use slept.Endpoint.{Endpoint, Dispatcher, Config}
use slept.Endpoint.Write.{write_fragmented, fragment_count}
use slept.Endpoint.Write.Cut.{joined, Cut}
use slept.Endpoint.Write.Fragments.{
  datagram, datagrams, transmit_all, fragment_count-enough, write_fragmented-pieces,
}
use slept.Endpoint.Read.Assembly.Inv.{Parted, piece}
use slept.Endpoint.Read.Assembly.Order.{Others, read_each, read_whole}
use slept.Endpoint.Read.Assembly.AnyOrder.{pieces_of, read_packet-any_order}

module _ (u : BytesUtil) (h : PacketHeader) (fh : FragmentHeader) where
  -- The datagram of a piece among those of all.
  get_elem?-datagrams :
      (ps : List (List ℕ)) (start i n : ℕ) (p : List ℕ)
      → n ≡ start + i
      → get_elem? ps i ≡ some p
      → get_elem? (datagrams u h fh start ps) i ≡ some (datagram u h fh n p)
  get_elem?-datagrams [] start i n p e there = absurd (cc (there))
  get_elem?-datagrams (q ∷ ps) start zero n p e there =
      let same : start ≡ n = omega (arith, e) in
      let first : q ≡ p = cc (there) in rw (same, first) refl
  get_elem?-datagrams (q ∷ ps) start (suc i) n p e there =
      get_elem?-datagrams ps (start + 1) i n p (omega (arith, e)) there

  length-datagrams :
      (ps : List (List ℕ)) (start : ℕ) → length (datagrams u h fh start ps) ≡ length ps
  length-datagrams [] start = refl
  length-datagrams (p ∷ ps) start = ap suc (length-datagrams ps (start + 1))

module _ (u : BytesUtil) (h : PacketHeader) (payload : List ℕ) (size count : ℕ) (ps : List (List ℕ))
    (cuts : Cut size count payload ps) where
  chosen :
      (ids : List ℕ)
      → All (λ j. j < count) ids
      → map (get_elem? (datagrams u h (record { seq = h.seq; id = 0; total = count - 1 }) 0 ps)) ids
        ≡ map some (pieces_of u h payload size count ids)
  chosen [] below = refl
  chosen (id ∷ ids) below =
      let fh : FragmentHeader = record { seq = h.seq; id = 0; total = count - 1 } in
      let first =
        get_elem?-datagrams u h fh ps 0 id id (piece size payload id) (omega arith)
          (cuts.exact id below.0) in
      rw (first, chosen ids below.1) refl

module _ (fl : Floats) (u : BytesUtil) (be : IsBigEndian u) {W1 W : Type 0}
    (d1 : Dispatcher fl.Float W1) (d : Dispatcher fl.Float W) (config : Config fl.Float)
    (h : PacketHeader) (wire : Header.IsWire h) (payload : List ℕ) (some_data : 0 < length payload)
    {window : ℕ} (e : Endpoint fl.Float) (some_size : 0 < e.config.fragment_size)
    (agreed : config.fragment_size ≡ e.config.fragment_size)
    (few : length payload ≤ 256 * e.config.fragment_size)
    (no_wrap : 9 + length payload + e.config.fragment_size < 18446744073709551616)
    (v : IsValid window e.assembler) (recent : is_outdated e.assembler h.seq ≡ false)
    (unknown : holds e.assembler window h.seq ≡ false) (w : W) where
  module _ (count : ℕ)
      (counted : fragment_count (length payload) e.config.fragment_size ≡ ok count) where
    -- What the loop writes, with the number of fragments that it counts.
    written :
        (ps : List (List ℕ)) × Cut e.config.fragment_size count payload ps
        × ((w1 : W1)
            → write_fragmented u d1 config h payload w1 ≡ (
                transmit_all u d1 h.seq
                  (datagrams u h (record { seq = h.seq; id = 0; total = count - 1 }) 0 ps)
                  w1
                >>= λ w2. ok (
                  w2,
                  length (
                      joined
                        (datagrams u h (record { seq = h.seq; id = 0; total = count - 1 }) 0 ps)),
                )))
    written =
        let (total, ps, cuts, counted1, positive, small, ran) =
          write_fragmented-pieces u be d1 config h wire (rw agreed some_size) payload some_data
            (rw agreed few) in
        let same : total ≡ count = cc (counted, counted1, agreed) in
        (ps, rw (same, agreed) at cuts, λ w1. rw same at (ran w1))

    parts : Parted e.config.fragment_size count [] payload
    parts =
        let (total, counted1, positive, small, up, down) =
          fragment_count-enough (length payload) e.config.fragment_size some_size some_data few in
        let same : total ≡ count = cc (counted, counted1) in
        let upper : length payload ≤ count * e.config.fragment_size = rw same at up in
        let lower : count * e.config.fragment_size < length payload + e.config.fragment_size =
          rw same at down in
        record {
          some_size = some_size;
          some_count = rw same at positive;
          few = rw same at small;
          front_fits = omega arith;
          needed = lower;
          enough = upper;
          no_wrap = omega (arith, lower, no_wrap);
        }

  -- For big-endian byte utilities, a header in range, a payload that is not empty and needs at most
  -- 256 fragments of a FragmentSize above 0 that both endpoints use, and no more than the reader
  -- allows, with a buffer for them all that fits a uint; and for a reader whose reassembly buffer
  -- has sound slots, does not know the number and does not find it outdated: the fragment branch of
  -- `WritePacket` transmits as many datagrams as it counts, and fails only if `Transmit` does. If
  -- all of them are read in any order, each once, the reader's state at the end is that after
  -- `ReadPacket` of the header and the whole payload in one datagram, with the number removed from
  -- the reassembly buffer. Up to then only the reassembly buffer changes: its numbers are those
  -- after the insertion, and the entries in other slots stay.
  pub write_fragmented-read :
      (count : ℕ) (ids : List ℕ)
      → fragment_count (length payload) e.config.fragment_size ≡ ok count
      → count ≤ e.config.max_fragments
      → All (λ j. j < count) ids
      → Distinct ids
      → length ids ≡ count
      → (sent : List (List ℕ)) × (arrived : List (List ℕ)) × ((w1 : W1)
          → write_fragmented u d1 config h payload w1
            ≡ (transmit_all u d1 h.seq sent w1 >>= λ w2. ok (w2, length (joined sent))))
        × (length sent ≡ count)
        × (map (get_elem? sent) ids ≡ map some arrived)
        × (t : FragmentReassemblyBuffer) × Inserted window e.assembler h.seq t
        × (es : List Fragment) × Others (h.seq % window) e.assembler.entries es
        × (read_each fl u d arrived (e, w)
            ≡ read_whole fl u d h payload (record e { assembler = record t { entries = es } }, w))
  write_fragmented-read count ids counted allowed below distinct all =
      let (ps, cuts, ran) = written count counted in
      let fh : FragmentHeader = record { seq = h.seq; id = 0; total = count - 1 } in
      let (t, ins, es, others, reads) =
        read_packet-any_order fl u be d h wire payload e (parts count counted) allowed v recent
          unknown w ids below distinct all in
      (
        datagrams u h fh 0 ps,
        pieces_of u h payload e.config.fragment_size count ids,
        ran,
        length-datagrams u h fh ps 0 ∙ cuts.count_is,
        chosen u h payload e.config.fragment_size count ps cuts ids below,
        t,
        ins,
        es,
        others,
        reads,
      )
