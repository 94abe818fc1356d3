-- ===== src/Endpoint/Read/Assembly/Place.antt =====
-- Placing one piece: `copy` of the header and of the piece into the entry's buffer.
use native.Mathlib.Nat.{mod-eq_of_lt}
use slept.Prelude.{
  ==_iff, ℕ, ◌+◌, ◌-◌, ◌*◌, ◌%◌, ◌<◌, ◌≤◌, ◌≡◌, ◌≢◌, refl, ◌∙◌, ap, arith, false, List, length,
  get_elem?, ◌==◌, if◌then◌else◌, Bool-cases, inl, inr,
}
use slept.Prelude.Results.{ok}
use slept.Packet.Fragment.{Fragment, FragmentHeader}
use slept.Floats.{Floats}
use slept.Bytes.{BytesUtil}
use slept.Endpoint.{Dispatcher, wrap64}
use slept.Endpoint.Write.{max_packet_header_size, copy_at}
use slept.Endpoint.Read.{place_fragment}
use slept.Endpoint.Read.Assembly.Copies.{Copied, copy_at-Copied}
use slept.Endpoint.Read.Assembly.Inv.{Parted, piece}
use slept.Endpoint.Read.Assembly.Bounds.{
  piece_size, piece-last, next_below, piece-within, piece-byte, apart,
}
use native.Mathlib.Decide.{dec_lt}

-- The header's bytes end at place 9, if this is the first fragment.
pub record Fronted (front : List ℕ) (id : ℕ) (m : Fragment) (buf : List ℕ) (header_size : ℕ)
    : Type 0 where
  pub size_kept : length buf ≡ length m.buf
  pub written :
      id ≡ 0
      → (header_size ≡ length front)
        × ((k : ℕ)
            → k < length front
            → get_elem? buf (max_packet_header_size - length front + k) ≡ get_elem? front k)
  pub left : id ≢ 0 → (header_size ≡ m.header_size) × (buf ≡ m.buf)
  pub behind : (k : ℕ) → max_packet_header_size ≤ k → get_elem? buf k ≡ get_elem? m.buf k

module _ {size count : ℕ} {front payload : List ℕ} (parted : Parted size count front payload)
    (id : ℕ) (m : Fragment) (room : length m.buf ≡ max_packet_header_size + count * size) where
  fronts :
      (phb : List ℕ)
      → (id ≡ 0 → phb ≡ front)
      → (buf : List ℕ) × (header_size : ℕ) × ((if id == 0
            then copy_at m.buf (max_packet_header_size - length phb) phb
            else ok (m.buf, m.header_size))
          ≡ ok (buf, header_size))
        × Fronted front id m buf header_size
  fronts phb own = elim (Bool-cases (id == 0)) [
    | inl y ↦
        let e : phb ≡ front = own ((==_iff id 0).0 y) in
        let (buf, ran, copied) =
          copy_at-Copied m.buf (max_packet_header_size - length front) front
            (omega (arith, parted.front_fits, room)) in
        (
          buf,
          length front,
          rw (y, e) ran,
          record {
            size_kept = copied.size_kept;
            written = λ z. (refl, copied.inside);
            left = λ n. absurd (n ((==_iff id 0).0 y));
            behind = λ k h. copied.behind k (omega (arith, parted.front_fits));
          },
        )
    | inr n ↦ (
      m.buf,
      m.header_size,
      rw n refl,
      record {
        size_kept = refl;
        written = λ z. absurd (ground (arith, z));
        left = λ z. (refl, refl);
        behind = λ k h. refl;
      },
    )
  ]

-- What the entry is after piece `id` has been placed.
pub record Placed (size count : ℕ) (front payload : List ℕ) (id : ℕ) (m g : Fragment) : Type 0 where
  pub marks_kept : g.marked ≡ m.marked
  pub total_kept : g.total ≡ m.total
  pub one_more : g.recv ≡ m.recv + 1
  pub size_kept : length g.buf ≡ length m.buf
  pub last_size : id + 1 ≡ count → g.packet_size ≡ length payload
  pub other_size : id + 1 ≢ count → g.packet_size ≡ m.packet_size
  pub first_front :
      id ≡ 0
      → (g.header_size ≡ length front)
        × ((k : ℕ)
            → k < length front
            → get_elem? g.buf (max_packet_header_size - length front + k) ≡ get_elem? front k)
  pub other_front :
      id ≢ 0
      → (g.header_size ≡ m.header_size)
        × ((k : ℕ) → k < max_packet_header_size → get_elem? g.buf k ≡ get_elem? m.buf k)
  pub own_bytes :
      (j : ℕ)
      → j < size
      → id * size + j < length payload
      → get_elem? g.buf (max_packet_header_size + (id * size + j))
        ≡ get_elem? payload (id * size + j)
  pub other_bytes :
      (i : ℕ)
      → i ≢ id
      → (j : ℕ) → j < size
      → get_elem? g.buf (max_packet_header_size + (i * size + j))
        ≡ get_elem? m.buf (max_packet_header_size + (i * size + j))

entry_after : ℕ → ℕ → List ℕ → Fragment → List ℕ → ℕ → Fragment
entry_after count id payload m buf header_size = record m {
  buf = buf;
  header_size = header_size;
  packet_size = if id + 1 == count then length payload else m.packet_size;
  recv = m.recv + 1;
}

module _ {size count : ℕ} {front payload : List ℕ} (parted : Parted size count front payload)
    (id : ℕ) (h : id < count) (m : Fragment)
    (room : length m.buf ≡ max_packet_header_size + count * size) (buf1 : List ℕ) (header_size : ℕ)
    (fronted : Fronted front id m buf1 header_size) (buf2 : List ℕ)
    (copied : Copied buf1 (max_packet_header_size + id * size) (piece size payload id) buf2) where
  elsewhere :
      (i : ℕ)
      → i ≢ id
      → (j : ℕ) → j < size
      → get_elem? buf2 (max_packet_header_size + (i * size + j))
        ≡ get_elem? buf1 (max_packet_header_size + (i * size + j))
  elsewhere i other j small = elim (dec_lt i id) [
    | yes l ↦ copied.before _ (omega (arith, apart size i id j 0 l small))
    | no l ↦ copied.behind _ (
        omega (
          arith,
          (piece_size parted id h).1,
          apart size id i (size - 1) j (omega (arith, l, other)) (omega (arith, parted.some_size)),
        ))
  ]

  entry_after-Placed :
      Placed size count front payload id m (entry_after count id payload m buf2 header_size)
  unfolding entry_after
  entry_after-Placed = record {
    marks_kept = refl;
    total_kept = refl;
    one_more = refl;
    size_kept = copied.size_kept ∙ fronted.size_kept;
    last_size = λ last. ground (arith, last);
    other_size = λ other. ground (arith, other);
    first_front = λ z. (
      (fronted.written z).0,
      λ k small. copied.before _ (omega (arith, parted.front_fits)) ∙ (fronted.written z).1 k small,
    );
    other_front = λ z. (
      (fronted.left z).0,
      λ k small.
          copied.before k (omega arith) ∙ ap (λ (t : List ℕ). get_elem? t k) (fronted.left z).1,
    );
    own_bytes = λ j small within.
        shifted (omega arith)
        ∙ copied.inside j (piece-within parted id h j small within)
        ∙ piece-byte parted id h j small;
    other_bytes = λ i other j small. elsewhere i other j small ∙ fronted.behind _ (omega arith);
  }
    where
      shifted : {a b : ℕ} → a ≡ b → get_elem? buf2 a ≡ get_elem? buf2 b
      shifted e = rw e refl

module _ (fl : Floats) (u : BytesUtil) {W : Type 0} (d : Dispatcher fl.Float W) {size count : ℕ}
    {front payload : List ℕ} (parted : Parted size count front payload) (header : FragmentHeader)
    (counted : header.total + 1 ≡ count) (h : header.id < count) (m : Fragment)
    (room : length m.buf ≡ max_packet_header_size + count * size) where
  size_after :
      (if header.id == header.total
        then (header.total * size + length (piece size payload header.id)) % 18446744073709551616
        else m.packet_size)
      ≡ (if header.id + 1 == count then length payload else m.packet_size)
  size_after = elim (Bool-cases (header.id == header.total)) [
    | inl y ↦
        let e : header.id ≡ header.total = (==_iff _ _).0 y in
        let last : header.id + 1 ≡ count = omega (arith, e, counted) in
        let whole = piece-last parted header.id h last in
        let fits : length payload < 18446744073709551616 =
          omega (arith, parted.enough, parted.no_wrap) in
        rw (y, ← e, whole, (==_iff _ _).1 last) (mod-eq_of_lt fits)
    | inr n ↦
        let other : (header.id + 1 == count) ≡ false = ground (arith, n, counted) in
        rw (n, other) refl
  ]

  -- A piece of the payload fits into its place, without a panic.
  pub place_fragment-Placed :
      (phb : List ℕ)
      → (header.id ≡ 0 → phb ≡ front)
      → (g : Fragment) × (place_fragment fl u d header size phb (piece size payload header.id) m
          ≡ ok g)
        × Placed size count front payload header.id m g
  unfolding place_fragment wrap64 entry_after
  place_fragment-Placed phb own =
      let (buf1, header_size, ran1, fronted) = fronts parted header.id m room phb own in
      let below = next_below parted header.id h in
      let sizes = piece_size parted header.id h in
      let sized = size_after in
      let (buf2, ran2, copied) =
        copy_at-Copied buf1 (max_packet_header_size + header.id * size)
          (piece size payload header.id) (omega (arith, below, sizes.1, fronted.size_kept, room)) in
      let small : header.id * size % 18446744073709551616 ≡ header.id * size =
        mod-eq_of_lt (omega (arith, below, parted.no_wrap, parted.some_size)) in
      let place : (max_packet_header_size + header.id * size) % 18446744073709551616
          ≡ max_packet_header_size + header.id * size =
        mod-eq_of_lt (omega (arith, below, parted.no_wrap, parted.some_size)) in
      (
        entry_after count header.id payload m buf2 header_size,
        rw (ran1, small, place, ran2, sized) refl,
        entry_after-Placed parted header.id h m room buf1 header_size fronted buf2 copied,
      )
