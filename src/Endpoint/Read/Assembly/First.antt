-- ===== src/Endpoint/Read/Assembly/First.antt =====
-- The first fragment of a packet that arrives: a fresh entry is made for it.
use slept.Prelude.{
  ℕ, ◌+◌, ◌-◌, ◌*◌, ◌%◌, ◌<◌, ◌≤◌, ◌≡◌, refl, sym, ◌∙◌, ap, arith, true, false, List, [], length,
  set, length-set, Option, some, none,
}
use slept.Prelude.Results.{Result, ok, ◌>>=◌}
use slept.Floats.{Floats}
use slept.Bytes.{BytesUtil, IsBigEndian}
use slept.Packet.Header.{PacketHeader}
use slept.Packet.Header
use slept.Packet.Fragment.{FragmentHeader, Fragment}
use slept.Packet.Fragment
use slept.Buffer.Slots.Laws.{IsValid, holds, find-holds, mod-lt_cap}
use slept.Buffer.Slots.Insert.{Inserted}
use slept.Buffer.Types.{FragmentReassemblyBuffer, fragment_find, fragment_insert}
use slept.Endpoint.{Endpoint, Dispatcher}
use slept.Endpoint.Write.Fragments.{datagram}
use slept.Endpoint.Read.{read_packet, recv_assembling, State, Outcome}
use slept.Endpoint.Read.Assembly.Inv.{Parted}
use slept.Endpoint.Read.Assembly.Whole.{started_entry}
use slept.Endpoint.Read.Assembly.Datagram.{
  parts_of, read_packet-datagram, find_assembly-found, find_assembly-fresh,
}

-- The slots after a number was inserted stand for it, whatever the entries are.
module _ {window : ℕ} (s t : FragmentReassemblyBuffer) (seq : ℕ) (small : seq < 65536)
    (ins : Inserted window s seq t) where
  knows_itself : holds t window seq ≡ true
  knows_itself = ground (arith, ins.knows seq small)

  pub found_in :
      (es : List Fragment)
      → length es ≡ length t.entries
      → fragment_find (record t { entries = es }) seq ≡ ok (some (seq % window))
  unfolding fragment_find holds
  found_in es same = rw (find-holds (record t { entries = es }) valid seq) (rw knows_itself refl)
    where
      valid : IsValid window (record t { entries = es })
      valid = record {
        cap_pos = ins.valid.cap_pos;
        cap_small = ins.valid.cap_small;
        seqs_length = ins.valid.seqs_length;
        entries_length = same ∙ ins.valid.entries_length;
        latest_small = ins.valid.latest_small;
        placed = ins.valid.placed;
      }

module _ (fl : Floats) (u : BytesUtil) (be : IsBigEndian u) {W : Type 0} (d : Dispatcher fl.Float W)
    (h : PacketHeader) (wire : Header.IsWire h) (payload : List ℕ) {count window : ℕ}
    (e : Endpoint fl.Float) (parts : Parted e.config.fragment_size count [] payload)
    (allowed : count ≤ e.config.max_fragments) (v : IsValid window e.assembler)
    (unknown : holds e.assembler window h.seq ≡ false) (w : W) where
  unknown_found : fragment_find e.assembler h.seq ≡ ok none
  unfolding fragment_find
  unknown_found = find-holds e.assembler v h.seq ∙ rw unknown refl

  module _ (t : FragmentReassemblyBuffer) (ins : Inserted window e.assembler h.seq t)
      (ran : fragment_insert e.assembler h.seq ≡ ok (t, some (h.seq % window))) where
    pub inside : h.seq % window < length t.entries
    inside = omega (arith, mod-lt_cap h.seq window v.cap_pos, ins.valid.entries_length)

    last_is : count - 1 + 1 ≡ count
    last_is = omega (arith, parts.some_count)

    -- The endpoint once the entry has been started.
    abbrev pub ready : List ℕ → Endpoint fl.Float
    ready buf = record e {
      assembler = record t { entries = set t.entries (h.seq % window) (started_entry count buf) };
    }

    -- What `ReadPacket` does with the slot.
    abbrev step :
        FragmentHeader → List ℕ → Result (Endpoint fl.Float × Option ℕ) → Outcome (State fl d)
    step fh p found = found >>= λ r.
        recv_assembling fl u d fh (parts_of (Header.append_to u h []) fh.id p).0 p r.1 (r.0, w)

    fh_wire :
        (id : ℕ) → id < count → Fragment.IsWire (record { seq = h.seq; id = id; total = count - 1 })
    fh_wire id below = record {
      seq_small = wire.seq_small;
      id_small = omega (arith, below, parts.few);
      total_small = omega (arith, parts.few, below);
    }

    -- The first fragment is read as if the entry had been there.
    pub first_piece :
        (id : ℕ) (p : List ℕ)
        → id < count
        → (buf : List ℕ) × (length buf ≡ 9 + count * e.config.fragment_size)
          × (read_packet fl u d
                (datagram u h (record { seq = h.seq; id = id; total = count - 1 }) id p)
                (e, w)
              ≡ read_packet fl u d
                  (datagram u h (record { seq = h.seq; id = id; total = count - 1 }) id p)
                  (ready buf, w))
    first_piece id p below =
        let fh : FragmentHeader = record { seq = h.seq; id = id; total = count - 1 } in
        let (buf, room, fresh) =
          find_assembly-fresh fl u be d fh e (h.seq % window) t unknown_found ran inside
            (rw last_is parts.no_wrap) in
        let handled =
          recv_assembling fl u d fh (parts_of (Header.append_to u h []) id p).0 p
            (some (h.seq % window)) (ready buf, w) in
        let direct : read_packet fl u d (datagram u h fh id p) (e, w) ≡ handled =
          read_packet-datagram fl u be d h wire fh (fh_wire id below) refl (omega (arith, below)) e
            (omega (arith, allowed, below)) w p
          ∙ ap (step fh p) (rw last_is at fresh) in
        let there : read_packet fl u d (datagram u h fh id p) (ready buf, w) ≡ handled =
          read_packet-datagram fl u be d h wire fh (fh_wire id below) refl (omega (arith, below))
            (ready buf) (omega (arith, allowed, below)) w p
          ∙ ap (step fh p) (
              find_assembly-found fl u be d fh (ready buf) (h.seq % window) (
                found_in e.assembler t h.seq wire.seq_small ins
                  (set t.entries (h.seq % window) (started_entry count buf))
                  (length-set t.entries (h.seq % window) (started_entry count buf)))) in
        (buf, rw last_is at room, direct ∙ sym there)
