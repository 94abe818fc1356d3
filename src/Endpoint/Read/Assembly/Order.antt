-- ===== src/Endpoint/Read/Assembly/Order.antt =====
-- The fragments of a payload, read one after the other in any order.
use slept.Prelude.{
  ℕ, ◌+◌, ◌-◌, ◌<◌, ◌≤◌, ◌≡◌, ◌≢◌, refl, sym, ◌∙◌, arith, true, false, List, [], ◌∷◌, ◌++◌, length,
  map, set, length-set, some, none, ◌==◌, ◌||◌, if◌then◌else◌, get_elem?, get_elem?-set_self,
  get_elem?-set_ne, All, inl, inr, ==_iff, get_elem?-lt,
}
use slept.Prelude.{Distinct}
use slept.Prelude.Results.{Result, ok, ◌>>=◌}
use slept.Floats.{Floats}
use slept.Bytes.{BytesUtil, IsBigEndian}
use slept.Packet.Header.{PacketHeader}
use slept.Packet.Header
use slept.Packet.Fragment.{FragmentHeader, Fragment}
use slept.Packet.Fragment
use slept.Packet.Fragment.Marks.{received}
use slept.Buffer.Types.{FragmentReassemblyBuffer, fragment_find, fragment_remove}
use slept.Endpoint.{Endpoint, Dispatcher}
use slept.Endpoint.Write.Fragments.{datagram}
use slept.Endpoint.Read.{read_packet, recv_assembling, recv_fragment, State, Outcome}
use slept.Endpoint.Read.Assembly.Inv.{Parted, Gathered, piece}
use slept.Endpoint.Read.Assembly.Arrival.{hand_on, Arrived, recv_fragment-Arrived}
use slept.Endpoint.Read.Assembly.Datagram.{
  parts_of, parts_of-first, read_packet-datagram, find_assembly-found,
}

-- The entries in the other slots stay.
pub record Others (i : ℕ) (es es1 : List Fragment) : Type 0 where
  pub same_length : length es1 ≡ length es
  pub same_others : (j : ℕ) → j ≢ i → get_elem? es1 j ≡ get_elem? es j

pub Others-set :
    (i : ℕ) (es es1 : List Fragment) (g : Fragment) → Others i (set es i g) es1 → Others i es es1
Others-set i es es1 g o = record {
  same_length = o.same_length ∙ length-set es i g;
  same_others = λ j other. o.same_others j other ∙ get_elem?-set_ne es i j g (λ p. other (sym p));
}

still_new :
    (f g : Fragment) (id : ℕ)
    → ((j : ℕ) → received g j ≡ (j == id || received f j))
    → (ids : List ℕ) → All (λ y. y ≢ id) ids
    → All (λ j. received f j ≡ false) ids
    → All (λ j. received g j ≡ false) ids
still_new f g id marks [] others new = tt
still_new f g id marks (j ∷ ids) others new =
    (ground (arith, marks j, others.0, new.0), still_new f g id marks ids others.1 new.1)

module _ (fl : Floats) (u : BytesUtil) {W : Type 0} (d : Dispatcher fl.Float W) where
  -- `ReadPacket` of some datagrams, whose errors are given to the caller and left.
  abbrev pub read_each : List (List ℕ) → State fl d → Result (State fl d)
  read_each [] s = ok s
  read_each (b ∷ bs) s = do (s1, error) ← read_packet fl u d b s; read_each bs s1

  -- `ReadPacket` of a header and a payload in one datagram, and then the number removed from the
  -- reassembly buffer.
  abbrev pub read_whole : PacketHeader → List ℕ → State fl d → Result (State fl d)
  read_whole h payload s = do
    ((e1, w1), error) ← read_packet fl u d (Header.append_to u h [] ++ payload) s
    assembler ← fragment_remove e1.assembler h.seq
    ok (record e1 { assembler = assembler }, w1)

  -- The state after a call that also gives an error.
  abbrev pub without_error : Outcome (State fl d) → Result (State fl d)
  without_error call = call >>= λ r. ok r.0

module _ (fl : Floats) (u : BytesUtil) (be : IsBigEndian u) {W : Type 0} (d : Dispatcher fl.Float W)
    (h : PacketHeader) (wire : Header.IsWire h) (payload : List ℕ) {size count : ℕ}
    (parted : Parted size count (Header.append_to u h []) payload) (e : Endpoint fl.Float)
    (sized : e.config.fragment_size ≡ size) (allowed : count ≤ e.config.max_fragments) (w : W)
    (t : FragmentReassemblyBuffer) (i : ℕ)
    (found : (es : List Fragment)
      → length es ≡ length t.entries
      → fragment_find (record t { entries = es }) h.seq ≡ ok (some i)) where
  -- The fragment header of piece `id`, and its datagram.
  abbrev pub header_of : ℕ → FragmentHeader
  header_of id = record { seq = h.seq; id = id; total = count - 1 }

  abbrev pub datagram_of : ℕ → List ℕ
  datagram_of id = datagram u h (header_of id) id (piece size payload id)

  abbrev pub assembling : List Fragment → Endpoint fl.Float
  assembling es = record e { assembler = record t { entries = es } }

  abbrev pub Ends : List Fragment → Result (State fl d) → Type 0
  Ends es outcome =
      (es1 : List Fragment) × Others i es es1
      × (outcome
          ≡ without_error fl u d
              (hand_on fl u d h.seq (Header.append_to u h [] ++ payload) (assembling es1, w)))

  -- One more piece, with the entry there.
  next_piece :
      (id : ℕ)
      → id < count
      → (es : List Fragment) → length es ≡ length t.entries
      → (f : Fragment) (there : get_elem? es i ≡ some f)
      → (held : Gathered size count (Header.append_to u h []) payload f) → received f id ≡ false
      → (g : Fragment) × Gathered size count (Header.append_to u h []) payload g
        × (g.recv ≡ f.recv + 1)
        × ((j : ℕ) → received g j ≡ (j == id || received f j))
        × (read_packet fl u d (datagram_of id) (assembling es, w) ≡ (
            if f.recv + 1 == count
            then hand_on fl u d h.seq
                (Header.append_to u h [] ++ payload)
                (assembling (set es i g), w)
            else ok ((assembling (set es i g), w), none)))
  unfolding Arrived recv_assembling
  next_piece id below es same f there held new =
      let last : count - 1 + 1 ≡ count = omega (arith, parted.some_count) in
      let (g, gathered, one_more, marks, ran) = accepted_only last in
      (
        g,
        gathered,
        one_more,
        marks,
        read_packet-datagram fl u be d h wire (header_of id) (fh_wire last) refl
              (omega (arith, below)) (assembling es) (omega (arith, allowed, below)) w
              (piece size payload id)
            ∙ rw (find_assembly-found fl u be d (header_of id) (assembling es) i (found es same))
                ran,
      )
    where
      fh_wire : count - 1 + 1 ≡ count → Fragment.IsWire (header_of id)
      fh_wire last = record {
        seq_small = wire.seq_small;
        id_small = omega (arith, below, parted.few);
        total_small = omega (arith, last, parted.few);
      }

      accepted_only :
          count - 1 + 1 ≡ count
          → (g : Fragment) × Gathered size count (Header.append_to u h []) payload g
            × (g.recv ≡ f.recv + 1)
            × ((j : ℕ) → received g j ≡ (j == id || received f j))
            × (recv_fragment fl u d
                  (header_of id)
                  (parts_of (Header.append_to u h []) id (piece size payload id)).0
                  (piece size payload id)
                  i
                  (assembling es, w)
                ≡ (if f.recv + 1 == count
                    then hand_on fl u d h.seq
                        (Header.append_to u h [] ++ payload)
                        (assembling (set es i g), w)
                    else ok ((assembling (set es i g), w), none)))
      accepted_only last =
          elim (recv_fragment-Arrived fl u d parted (header_of id) last below
            (parts_of (Header.append_to u h []) id (piece size payload id)).0
            (parts_of-first (Header.append_to u h []) id (piece size payload id)) (assembling es)
            sized i f there held w) [
              | inl (old, ran) ↦ absurd (cc (old, new))
              | inr (still, g, gathered, one_more, marks, ran) ↦ (g, gathered, one_more, marks, ran)
            ]

  -- The pieces that are left, in any order.
  pub remaining :
      (id : ℕ) (ids : List ℕ)
      → All (λ j. j < count) (id ∷ ids)
      → Distinct (id ∷ ids)
      → (es : List Fragment) → length es ≡ length t.entries
      → (f : Fragment) (there : get_elem? es i ≡ some f)
      → (held : Gathered size count (Header.append_to u h []) payload f)
      → All (λ j. received f j ≡ false) (id ∷ ids)
      → f.recv + length (id ∷ ids) ≡ count
      → Ends es (read_each fl u d (map datagram_of (id ∷ ids)) (assembling es, w))
  remaining id [] below distinct es same f there held new left =
      let (g, gathered, one_more, marks, ran) = next_piece id below.0 es same f there held new.0 in
      let last : (f.recv + 1 == count) ≡ true = (==_iff _ _).1 (omega (arith, left)) in
      (
        set es i g,
        Others-set i es (set es i g) g (record { same_length = refl; same_others = λ j o. refl }),
        rw (ran, last) refl,
      )
  remaining id (id1 ∷ ids) below distinct es same f there held new left =
      let (g, gathered, one_more, marks, ran) = next_piece id below.0 es same f there held new.0 in
      let more : (f.recv + 1 == count) ≡ false = ground (arith, left) in
      let (es1, others, ended) =
        remaining id1 ids below.1 distinct.1 (set es i g) (length-set es i g ∙ same) g
          (get_elem?-set_self es i g (get_elem?-lt es i there)) gathered
          (still_new f g id marks (id1 ∷ ids) distinct.0 new.1) (omega (arith, left, one_more)) in
      (es1, Others-set i es es1 g others, rw (ran, more) ended)
