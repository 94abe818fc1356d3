-- ===== src/Endpoint/Read/Assembly/Arrival.antt =====
-- One fragment of a payload arrives for the entry of its packet.
use slept.Prelude.{
  ==_iff, ℕ, ◌+◌, ◌<◌, ◌≡◌, ◌⊎◌, inl, inr, refl, sym, ◌∙◌, ap, arith, true, false, ◌||◌, List, ◌++◌,
  length, get_elem?, get_elem?-lt, set, some, none, ◌==◌, if◌then◌else◌, Bool-cases,
}
use slept.Prelude.Results.{Result, ok, err, panic, ◌>>=◌, already_received, store}
use slept.Packet.Fragment.{Fragment, FragmentHeader, mark_received}
use slept.Packet.Fragment.Marks.{received, Marks, mark_received-Marks}
use slept.Floats.{Floats}
use slept.Bytes.{BytesUtil}
use slept.Buffer.Types.{fragment_remove}
use slept.Endpoint.{Endpoint, Dispatcher}
use slept.Endpoint.Read.{
  recv_fragment, recv_compact_packet, finish_assembly, place_fragment, Outcome, State,
}
use slept.Endpoint.Read.Assembly.Inv.{Parted, Gathered, piece}
use slept.Endpoint.Read.Assembly.Place.{place_fragment-Placed}
use slept.Endpoint.Read.Assembly.Gather.{placed-Gathered, received-added}
use slept.Endpoint.Read.Assembly.Whole.{complete_slice}

-- The endpoint with another entry in slot i.
abbrev pub with_entry : {F : Type 0} → Endpoint F → ℕ → Fragment → Endpoint F
with_entry e i g = record e {
  assembler = record (e.assembler) { entries = set e.assembler.entries i g };
}

module _ (fl : Floats) (u : BytesUtil) {W : Type 0} (d : Dispatcher fl.Float W) where
  -- The packet that was put together goes on as a compact one, and its entry is removed.
  abbrev pub hand_on : ℕ → List ℕ → State fl d → Outcome (State fl d)
  hand_on seq packet s = do
    ((e1, w1), error) ← recv_compact_packet fl u d packet s
    assembler ← fragment_remove e1.assembler seq
    ok ((record e1 { assembler = assembler }, w1), error)

  -- A fragment that has arrived before is refused, and any other is put into the entry: the last
  -- one hands the packet on.
  unfoldable pub Arrived :
      ℕ
      → ℕ
      → List ℕ
      → List ℕ
      → FragmentHeader
      → Endpoint fl.Float
      → ℕ
      → Fragment
      → W
      → Outcome (State fl d)
      → Type 0
  Arrived size count front payload header e i f w outcome =
      (received f header.id ≡ true) × (outcome ≡ ok ((e, w), some already_received))
      ⊎ (received f header.id ≡ false)
        × (g : Fragment) × Gathered size count front payload g
        × (g.recv ≡ f.recv + 1)
        × ((j : ℕ) → received g j ≡ (j == header.id || received f j))
        × (outcome ≡ (
            if f.recv + 1 == count
            then hand_on header.seq (front ++ payload) (with_entry e i g, w)
            else ok ((with_entry e i g, w), none)))

  module _ {size count : ℕ} {front payload : List ℕ} (parted : Parted size count front payload)
      (header : FragmentHeader) (counted : header.total + 1 ≡ count) (h : header.id < count)
      (phb : List ℕ) (own : header.id ≡ 0 → phb ≡ front) (e : Endpoint fl.Float)
      (sized : e.config.fragment_size ≡ size) (i : ℕ) (f : Fragment)
      (there : get_elem? e.assembler.entries i ≡ some f)
      (held : Gathered size count front payload f) (w : W) where
    finishes :
        (g : Fragment)
        → Gathered size count front payload g
        → g.recv ≡ g.total
        → (s : State fl d)
        → finish_assembly fl u d header g s ≡ hand_on header.seq (front ++ payload) s
    unfolding finish_assembly
    finishes g gathered complete s = rw (complete_slice parted g gathered complete) refl

    ends :
        (g : Fragment)
        → Gathered size count front payload g
        → g.recv ≡ f.recv + 1
        → (if g.recv == g.total
            then finish_assembly fl u d header g (with_entry e i g, w)
            else ok ((with_entry e i g, w), none))
          ≡ (if f.recv + 1 == count
              then hand_on header.seq (front ++ payload) (with_entry e i g, w)
              else ok ((with_entry e i g, w), none))
    ends g gathered one_more = elim (Bool-cases (g.recv == g.total)) [
      | inl y ↦
          let full : g.recv ≡ g.total = (==_iff _ _).0 y in
          let last : (f.recv + 1 == count) ≡ true =
            (==_iff _ _).1 (sym one_more ∙ full ∙ gathered.total_is) in
          rw (y, last) (finishes g gathered full (with_entry e i g, w))
      | inr n ↦
          let more : (f.recv + 1 == count) ≡ false =
            ground (arith, n, one_more, gathered.total_is) in
          rw (n, more) refl
    ]

    matches : (header.total + 1 == f.total) ≡ true
    matches = (==_iff _ _).1 (counted ∙ sym held.total_is)

    room_there : (g : Fragment) → store e.assembler.entries i g ≡ ok (set e.assembler.entries i g)
    room_there g = ground (arith, get_elem?-lt e.assembler.entries i there)

    refused :
        mark_received f header.id ≡ err already_received
        → recv_fragment fl u d header phb (piece size payload header.id) i (e, w)
          ≡ ok ((e, w), some already_received)
    unfolding recv_fragment
    refused ran = ground (arith, there, matches, ran)

    accepted :
        (m g : Fragment)
        → mark_received f header.id ≡ ok m
        → place_fragment fl u d header e.config.fragment_size phb (piece size payload header.id) m
          ≡ ok g
        → recv_fragment fl u d header phb (piece size payload header.id) i (e, w) ≡ (
            if g.recv == g.total
            then finish_assembly fl u d header g (with_entry e i g, w)
            else ok ((with_entry e i g, w), none))
    unfolding recv_fragment
    accepted m g ran placing = ground (arith, there, matches, ran, placing, room_there g)

    arrives :
        (r : Result Fragment)
        → mark_received f header.id ≡ r
        → Marks f header.id r
        → Arrived size count front payload header e i f w
            (recv_fragment fl u d header phb (piece size payload header.id) i (e, w))
    unfolding recv_fragment Arrived
    arrives panic ran fault = elim fault [ ]
    arrives (err why) ran (old, same) = inl (old, refused (rw same at ran))
    arrives (ok m) ran (new, added, same, four) =
        let (g, placing, placed) =
          place_fragment-Placed fl u d parted header counted h m
            (ap (λ (t : Fragment). length t.buf) same ∙ held.room) phb own in
        let gathered = placed-Gathered parted header.id h f m g held new added same four placed in
        let one_more : g.recv ≡ f.recv + 1 =
          placed.one_more ∙ ap (λ (t : Fragment). t.recv + 1) same in
        inr (
          new,
          g,
          gathered,
          one_more,
          received-added parted header.id h f m g held new added same four placed,
          accepted m g ran (rw sized placing) ∙ ends g gathered one_more,
        )

    pub recv_fragment-Arrived :
        Arrived size count front payload header e i f w
          (recv_fragment fl u d header phb (piece size payload header.id) i (e, w))
    recv_fragment-Arrived =
        arrives (mark_received f header.id) refl
          (mark_received-Marks f header.id held.four_words (omega (arith, h, parted.few)))
