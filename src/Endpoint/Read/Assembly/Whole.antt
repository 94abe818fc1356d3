-- ===== src/Endpoint/Read/Assembly/Whole.antt =====
-- An entry before its first fragment, and one that has them all.
use native.Mathlib.Nat.{mod-eq_of_lt, div-add-mod', mod-lt, lt_of_mul-lt-mul_right}
use native.Mathlib.Decide.{dec_lt}
use slept.Prelude.{
  ℕ, zero, suc, ◌+◌, ◌-◌, ◌*◌, ◌/◌, ◌%◌, ◌<◌, ◌≤◌, ◌≡◌, refl, sym, ◌∙◌, ap, arith, true, false,
  List, [], ◌∷◌, ◌++◌, length, get_elem?, take, drop, length-append, length-take, length-drop,
}
use slept.Prelude.Bits.{testbit-zero}
use slept.Prelude.Positions.{
  get_elem?-append_left, get_elem?-append_right, get_elem?-take, get_elem?-drop, list_ext,
}
use slept.Prelude.Results.{ok, slice_to-ok, slice_from-ok}
use slept.Packet.Fragment.{Fragment, empty_fragment}
use slept.Packet.Fragment.Marks.{received, in_word}
use slept.Endpoint.{wrap64}
use slept.Endpoint.Write.{max_packet_header_size}
use slept.Endpoint.Read.{slice_between}
use slept.Endpoint.Read.Assembly.Inv.{Parted, Gathered}
use slept.Endpoint.Read.Assembly.Tally.{tally-full, tally-none}

zero_words : (q r : ℕ) → in_word (get_elem? (0 ∷ 0 ∷ 0 ∷ 0 ∷ []) q) r ≡ false
zero_words zero r = rw (testbit-zero r) refl
zero_words (suc zero) r = rw (testbit-zero r) refl
zero_words (suc (suc zero)) r = rw (testbit-zero r) refl
zero_words (suc (suc (suc zero))) r = rw (testbit-zero r) refl
zero_words (suc (suc (suc (suc q)))) r = refl

module _ (total : ℕ) (buf : List ℕ) where
  abbrev pub started_entry : Fragment
  started_entry = record empty_fragment { total = total; buf = buf }

  pub started-received : (j : ℕ) → received started_entry j ≡ false
  unfolding received
  started-received j = zero_words (j / 64) (j % 64)

module _ {size count : ℕ} {front payload : List ℕ} where
  pub started-Gathered :
      (buf : List ℕ)
      → length buf ≡ max_packet_header_size + count * size
      → Gathered size count front payload (started_entry count buf)
  started-Gathered buf room = record {
    four_words = refl;
    total_is = refl;
    room = room;
    counted = sym (tally-none _ count (λ j h. started-received count buf j));
    front_size = λ has. absurd (cc (started-received count buf 0));
    front_bytes = λ has. absurd (cc (started-received count buf 0));
    size_known = λ has. absurd (cc (started-received count buf (count - 1)));
    bytes = λ i h has. absurd (cc (started-received count buf i));
  }

  module _ (parted : Parted size count front payload) (f : Fragment)
      (held : Gathered size count front payload f) (complete : f.recv ≡ f.total) where
    everything : (j : ℕ) → j < count → received f j ≡ true
    everything = tally-full (received f) count (sym held.counted ∙ complete ∙ held.total_is)

    payload-byte :
        (k : ℕ)
        → k < length payload
        → get_elem? f.buf (max_packet_header_size + k) ≡ get_elem? payload k
    payload-byte k h =
        let split : k / size * size + k % size ≡ k = div-add-mod' k size in
        let below : k / size < count =
          lt_of_mul-lt-mul_right size (omega (arith, split, parted.enough)) in
        let (i, j, e, i_small, j_small) : (i : ℕ) × (j : ℕ) × (i * size + j ≡ k)
            × (i < count)
            × (j < size) =
          (k / size, k % size, split, below, mod-lt k parted.some_size) in
        let there = held.bytes i i_small (everything i i_small) j j_small (omega (arith, e, h)) in
        rw e at there

    upper : List ℕ
    upper = take (max_packet_header_size + length payload) f.buf

    fits : max_packet_header_size + length payload ≤ length f.buf
    fits = omega (arith, held.room, parted.enough)

    upper-byte :
        (n k : ℕ)
        → n ≡ max_packet_header_size - length front + k
        → n < max_packet_header_size + length payload
        → get_elem? (drop (max_packet_header_size - length front) upper) k ≡ get_elem? f.buf n
    unfolding upper
    upper-byte n k e h =
        get_elem?-drop (max_packet_header_size - length front) k upper
        ∙ rw (← e) (get_elem?-take (max_packet_header_size + length payload) n f.buf h)

    contents : drop (max_packet_header_size - length front) upper ≡ front ++ payload
    unfolding upper
    contents =
        list_ext _ (front ++ payload)
          (omega (
            arith,
            length-drop (max_packet_header_size - length front) upper,
            length-take (max_packet_header_size + length payload) f.buf,
            length-append front payload,
            fits,
            parted.front_fits,
          ))
          (λ k h. elim (dec_lt k (length front)) [
            | yes l ↦
                upper-byte _ k refl (omega (arith, parted.front_fits))
                ∙ held.front_bytes (everything 0 parted.some_count) k l
                ∙ sym (get_elem?-append_left front payload k l)
            | no l ↦
                let within : k < length front + length payload = omega (
                  arith,
                  h,
                  length-drop (max_packet_header_size - length front) upper,
                  length-take (max_packet_header_size + length payload) f.buf,
                  fits,
                  parted.front_fits,
                ) in
                upper-byte (max_packet_header_size + (k - length front)) k
                  (omega (arith, l, parted.front_fits)) (omega (arith, l, within))
                ∙ payload-byte (k - length front) (omega (arith, l, within))
                ∙ sym (get_elem?-append_right front payload k (k - length front) (omega (arith, l)))
          ])

    -- The bytes from the header's first to the payload's last.
    pub complete_slice :
        slice_between f.buf
          (max_packet_header_size - f.header_size)
          (wrap64 (max_packet_header_size + f.packet_size))
        ≡ ok (front ++ payload)
    unfolding slice_between wrap64 upper
    complete_slice =
        let front_known : f.header_size ≡ length front =
          held.front_size (everything 0 parted.some_count) in
        let size_known : f.packet_size ≡ length payload =
          held.size_known (everything (count - 1) (omega (arith, parted.some_count))) in
        let small : (max_packet_header_size + length payload) % 18446744073709551616
            ≡ max_packet_header_size + length payload =
          mod-eq_of_lt (omega (arith, parted.enough, parted.no_wrap)) in
        let cut : max_packet_header_size - length front ≤ length upper =
          omega (arith, length-take (max_packet_header_size + length payload) f.buf, fits) in
        rw
          (
            front_known,
            size_known,
            small,
            slice_to-ok f.buf (max_packet_header_size + length payload) fits,
            slice_from-ok upper (max_packet_header_size - length front) cut,
          )
          (ap ok contents)
