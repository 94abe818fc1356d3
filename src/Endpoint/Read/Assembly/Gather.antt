-- ===== src/Endpoint/Read/Assembly/Gather.antt =====
-- A fragment that arrives keeps what the entry of its packet promises, and a complete entry holds
-- the packet.
use native.Mathlib.Decide.{ℕ_discrete}
use slept.Prelude.{
  ℕ, ◌+◌, ◌-◌, ◌*◌, ◌<◌, ◌≡◌, ◌≢◌, refl, sym, ◌∙◌, ap, arith, true, false, ◌||◌, List, length,
  get_elem?, ◌==◌,
}
use slept.Packet.Fragment.{Fragment}
use slept.Packet.Fragment.Marks.{received, HasFourWords}
use slept.Endpoint.Write.{max_packet_header_size}
use slept.Endpoint.Read.Assembly.Inv.{Parted, Gathered}
use slept.Endpoint.Read.Assembly.Place.{Placed}
use slept.Endpoint.Read.Assembly.Tally.{tally-add}

received-marked : (f g : Fragment) → g.marked ≡ f.marked → (j : ℕ) → received g j ≡ received f j
unfolding received
received-marked f g e j = rw e refl

module _ {size count : ℕ} {front payload : List ℕ} (parted : Parted size count front payload)
    (id : ℕ) (h : id < count) where
  module _ (f m g : Fragment) (held : Gathered size count front payload f)
      (new : received f id ≡ false) (added : (j : ℕ) → received m j ≡ (j == id || received f j))
      (same : record m { marked = f.marked } ≡ f) (four : HasFourWords m)
      (placed : Placed size count front payload id m g) where
    pub received-added : (j : ℕ) → received g j ≡ (j == id || received f j)
    received-added j = received-marked m g placed.marks_kept j ∙ added j

    earlier : (j : ℕ) → j ≢ id → received g j ≡ true → received f j ≡ true
    earlier j other has = ground (arith, received-added j)

    buf_same : m.buf ≡ f.buf
    buf_same = ap (λ (t : Fragment). t.buf) same

    -- One more fragment is in the entry.
    pub placed-Gathered : Gathered size count front payload g
    placed-Gathered = record {
      four_words = ap length placed.marks_kept ∙ four;
      total_is = placed.total_kept ∙ ap (λ (t : Fragment). t.total) same ∙ held.total_is;
      room = placed.size_kept ∙ ap length buf_same ∙ held.room;
      counted = omega (
        arith,
        placed.one_more,
        ap (λ (t : Fragment). t.recv) same,
        held.counted,
        tally-add (received f) (received g) id count h new received-added,
      );
      front_size = λ has. elim (ℕ_discrete id 0) [
        | yes e ↦ (placed.first_front e).0
        | no e ↦
            (placed.other_front e).0
            ∙ ap (λ (t : Fragment). t.header_size) same
            ∙ held.front_size (earlier 0 (λ z. e (sym z)) has)
      ];
      front_bytes = λ has k small. elim (ℕ_discrete id 0) [
        | yes e ↦ (placed.first_front e).1 k small
        | no e ↦
            (placed.other_front e).1 _ (omega (arith, parted.front_fits))
            ∙ ap (λ (t : Fragment). get_elem? t.buf (max_packet_header_size - length front + k))
                same
            ∙ held.front_bytes (earlier 0 (λ z. e (sym z)) has) k small
      ];
      size_known = λ has. elim (ℕ_discrete (id + 1) count) [
        | yes e ↦ placed.last_size e
        | no e ↦
            placed.other_size e
            ∙ ap (λ (t : Fragment). t.packet_size) same
            ∙ held.size_known
                (earlier (count - 1) (λ z. e (omega (arith, z, parted.some_count))) has)
      ];
      bytes = λ i below has j small within. elim (ℕ_discrete i id) [
        | yes e ↦ rw e (placed.own_bytes j small (rw e at within))
        | no e ↦
            placed.other_bytes i e j small
            ∙ ap (λ (t : Fragment). get_elem? t.buf (max_packet_header_size + (i * size + j))) same
            ∙ held.bytes i below (earlier i e has) j small within
      ];
    }
