-- ===== src/Endpoint/Write/Fragments.antt =====
-- WritePacket's fragment loop: the payload is cut into pieces, each behind its fragment header.
use slept.Prelude.{
  ℕ, ==_iff, zero, suc, ◌+◌, ◌-◌, ◌*◌, ◌/◌, ◌%◌, ◌<◌, ◌≤◌, ◌≡◌, refl, sym, ap, ◌∙◌, arith, List, [],
  ◌∷◌, ◌++◌, length, take, drop, ◌==◌, if◌then◌else◌, append_assoc, length-take, length-drop,
  take-append-drop, length-append, Bool-cases, inl, inr, false,
}
use slept.Prelude.Results.{Result, ok, ◌>>=◌, bind_assoc, bind_congr, slice_from-ok, slice_to-ok}
use slept.Bytes.{BytesUtil, IsBigEndian}
use slept.Packet.Header.{PacketHeader, IsWire}
use slept.Packet.Header
use slept.Packet.Header.Encode.{append_to-encoding}
use slept.Packet.Fragment.{FragmentHeader}
use slept.Packet.Fragment
use slept.Endpoint.{Config, Dispatcher}
use slept.Endpoint.Write.{write_fragments, write_fragmented, fragment_count}
use native.Mathlib.Nat.{mod-eq_of_lt, mod-lt, div-add-mod', add-mul, lt_of_mul-lt-mul_right}
use slept.Endpoint.Write.Cut.{joined, cutoff, cutoff_facts, next_exact, Cut}

module _ {F W : Type 0} (u : BytesUtil) (d : Dispatcher F W) where
  abbrev pub transmit_all : ℕ → List (List ℕ) → W → Result W
  transmit_all seq [] w = ok w
  transmit_all seq (p ∷ ps) w = do w1 ← d.transmit seq p w; transmit_all seq ps w1

module _ (u : BytesUtil) (h : PacketHeader) where
  -- The datagram of piece `id`: its fragment header, for the first the packet header, the piece.
  abbrev pub datagram : FragmentHeader → ℕ → List ℕ → List ℕ
  datagram fh id p =
      Fragment.append_to u (record fh { id = id }) []
      ++ ((if id == 0 then Header.append_to u h [] else []) ++ p)

  abbrev pub datagrams : FragmentHeader → ℕ → List (List ℕ) → List (List ℕ)
  datagrams fh id [] = []
  datagrams fh id (p ∷ ps) = datagram fh id p ∷ datagrams fh (id + 1) ps

  module _ (be : IsBigEndian u) (wire : IsWire h) where
    header_after : (dst : List ℕ) → Header.append_to u h dst ≡ dst ++ Header.append_to u h []
    header_after dst =
        append_to-encoding u be h wire dst
        ∙ ap (λ (t : List ℕ). dst ++ t) (sym (append_to-encoding u be h wire []))

    datagram-written :
        (fh : FragmentHeader) (id : ℕ) (p : List ℕ)
        → id < 256
        → (let marked = Fragment.append_to u (record fh { id = id % 256 }) [] in
              if id == 0 then Header.append_to u h marked else marked)
            ++ p
          ≡ datagram fh id p
    datagram-written fh id p small = rw (mod-eq_of_lt small) (elim (Bool-cases (id == 0)) [
      | inl y ↦
          rw (y, header_after (Fragment.append_to u (record fh { id = id }) []))
            (append_assoc _ _ p)
      | inr n ↦ rw n refl
    ])

module _ {F W : Type 0} (u : BytesUtil) (be : IsBigEndian u) (d : Dispatcher F W)
    (config : Config F) (h : PacketHeader) (wire : IsWire h)
    (some_size : 0 < config.fragment_size) where
  -- The loop over pieces that are left.
  module _ (fh : FragmentHeader) where
    abbrev Writes : ℕ → ℕ → List ℕ → List (List ℕ) → Type 0
    Writes rounds id buf ps =
        (w : W) (written : ℕ)
        → write_fragments u d config h fh rounds id buf w written ≡ (
            transmit_all u d h.seq (datagrams u h fh id ps) w >>= λ w1.
            ok (w1, written + length (joined (datagrams u h fh id ps))))

    Writes-step :
        (rounds id : ℕ) (buf : List ℕ) (ps : List (List ℕ))
        → id < 256
        → cutoff config.fragment_size (length buf) ≤ length buf
        → Writes rounds (id + 1) (drop (cutoff config.fragment_size (length buf)) buf) ps
        → Writes (suc rounds) id buf (take (cutoff config.fragment_size (length buf)) buf ∷ ps)
    unfolding write_fragments
    Writes-step rounds id buf ps small inside later w written =
        let cut = cutoff config.fragment_size (length buf) in
        let first = datagram u h fh id (take cut buf) in
        let others = datagrams u h fh (id + 1) ps in
        let sum : written + length first + length (joined others)
            ≡ written + length (first ++ joined others) =
          omega (arith, length-append first (joined others)) in
        rw
          (
            slice_to-ok buf cut inside,
            slice_from-ok buf cut inside,
            datagram-written u h be wire fh id (take cut buf) small,
            bind_assoc {Z = W × ℕ} (d.transmit h.seq first w) (transmit_all u d h.seq others)
                (λ w1. ok (w1, written + length (first ++ joined others))),
          )
          (bind_congr (d.transmit h.seq first w) _ _
            (λ w1. rw (← sum) (later w1 (written + length first))))

    write_fragments-Cut :
        (rounds id : ℕ) (buf : List ℕ)
        → id + rounds ≤ 256
        → length buf ≤ rounds * config.fragment_size
        → rounds * config.fragment_size < length buf + config.fragment_size
        → (ps : List (List ℕ)) × Cut config.fragment_size rounds buf ps × Writes rounds id buf ps
    unfolding write_fragments
    write_fragments-Cut zero id [] few upper lower = (
      [],
      record { count_is = refl; whole = refl; sizes = tt; exact = λ i h. absurd (omega arith) },
      λ w written. ap (λ (n : ℕ). ok (w, n)) (omega arith),
    )
    write_fragments-Cut zero id (x ∷ buf) few upper lower = absurd (omega arith)
    write_fragments-Cut (suc rounds) id buf few upper lower =
        let cut = cutoff config.fragment_size (length buf) in
        let (inside, low, high, up, down) =
          cutoff_facts config.fragment_size rounds (length buf) some_size upper lower in
        let rest_length : length (drop cut buf) ≡ length buf - cut = length-drop cut buf in
        let part_length : length (take cut buf) ≡ cut =
          omega (arith, length-take cut buf, inside) in
        let (ps, cuts, ran) =
          write_fragments-Cut rounds (id + 1) (drop cut buf) (omega arith) (rw rest_length up)
            (rw rest_length down) in
        (
          take cut buf ∷ ps,
          record {
            count_is = ap suc cuts.count_is;
            whole = rw cuts.whole (take-append-drop cut buf);
            sizes = ((rw part_length low, rw part_length high), cuts.sizes);
            exact = next_exact config.fragment_size rounds buf ps lower cuts.exact;
          },
          Writes-step rounds id buf ps (omega arith) inside ran,
        )

add-mul-one : (q bound : ℕ) → (q + 1) * bound ≡ q * bound + bound
add-mul-one q bound = omega (arith, add-mul q 1 bound)

from_zero :
    {W : Type 0} (call : Result W) (n : ℕ)
    → ◌>>=◌ {Y = W × ℕ} call (λ w. ok (w, 0 + n)) ≡ ◌>>=◌ {Y = W × ℕ} call (λ w. ok (w, n))
from_zero call n = bind_congr call _ _ (λ w. ap (λ (t : ℕ). ok (w, t)) (omega arith))

-- The number of pieces: as many as are needed.
module _ (size bound : ℕ) (some : 0 < bound) (data_given : 0 < size)
    (few : size ≤ 256 * bound) where
  pub fragment_count-enough :
      (total : ℕ) × (fragment_count size bound ≡ ok total)
      × (0 < total)
      × (total ≤ 256)
      × (size ≤ total * bound)
      × (total * bound < size + bound)
  unfolding fragment_count
  fragment_count-enough =
      let q = size / bound in
      let parts : q * bound + size % bound ≡ size = div-add-mod' size bound in
      let below : size % bound < bound = mod-lt size some in
      let divisible : (bound == 0) ≡ false = ground arith in
      elim (Bool-cases (size % bound == 0)) [
        | inl y ↦
            let exact : size % bound ≡ 0 = (==_iff _ 0).0 y in
            rw (divisible, y)
              (
                q,
                refl,
                lt_of_mul-lt-mul_right bound {m = 0} {n = q} (omega (arith, exact)),
                omega
                    (arith, lt_of_mul-lt-mul_right bound {m = q} {n = 257} (omega (arith, exact))),
                omega (arith, exact),
                omega (arith, exact),
              )
        | inr n ↦
            let left : 0 < size % bound = ground arith in
            let more : (q + 1) * bound ≡ q * bound + bound = add-mul-one q bound in
            rw (divisible, n)
              (
                q + 1,
                refl,
                omega arith,
                omega (arith, lt_of_mul-lt-mul_right bound {m = q} {n = 256} (omega arith)),
                omega arith,
                omega arith,
              )
      ]

module _ {F W : Type 0} (u : BytesUtil) (be : IsBigEndian u) (d : Dispatcher F W)
    (config : Config F) (h : PacketHeader) (wire : IsWire h) (some_size : 0 < config.fragment_size)
    (buf : List ℕ) (some_data : 0 < length buf)
    (few : length buf ≤ 256 * config.fragment_size) where
  started :
      (total : ℕ) (w : W)
      → fragment_count (length buf) config.fragment_size ≡ ok total
      → (total + 255) % 256 ≡ total - 1
      → write_fragmented u d config h buf w
        ≡ write_fragments u d config h
            (record { seq = h.seq; id = 0; total = total - 1 })
            total
            0
            buf
            w
            0
  unfolding write_fragmented
  started total w counted last = rw (counted, last) refl

  -- For big-endian byte utilities, a header in range, a FragmentSize above 0 and a payload that is
  -- not empty and needs at most 256 fragments, the fragment branch cuts it
  -- into as many pieces as `WritePacket` counts, each of FragmentSize bytes but for what is left to
  -- the last, which joined are the payload, and transmits for each in
  -- order one datagram: the fragment header with the piece's number and the number of the last,
  -- before the first piece the packet header, and the piece. It counts what it handed over, and
  -- fails only if `Transmit` does.
  pub write_fragmented-pieces :
      (total : ℕ) × (ps : List (List ℕ)) × Cut config.fragment_size total buf ps
      × (fragment_count (length buf) config.fragment_size ≡ ok total)
      × (0 < total)
      × (total ≤ 256)
      × ((w : W)
          → write_fragmented u d config h buf w ≡ (
              transmit_all u d h.seq
                (datagrams u h (record { seq = h.seq; id = 0; total = total - 1 }) 0 ps)
                w
              >>= λ w1. ok (
                w1,
                length (
                    joined
                      (datagrams u h (record { seq = h.seq; id = 0; total = total - 1 }) 0 ps)),
              )))
  write_fragmented-pieces =
      let (total, counted, some, small, up, down) =
        fragment_count-enough (length buf) config.fragment_size some_size some_data few in
      let last : (total + 255) % 256 ≡ total - 1 = omega arith in
      let (ps, cuts, ran) =
        write_fragments-Cut u be d config h wire some_size
          (record { seq = h.seq; id = 0; total = total - 1 }) total 0 buf (omega arith) up down in
      (
        total,
        ps,
        cuts,
        counted,
        some,
        small,
        λ w. started total w counted last ∙ (ran w 0 ∙ from_zero _ _),
      )
