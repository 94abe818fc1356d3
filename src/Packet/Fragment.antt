-- ===== src/Packet/Fragment.antt =====
-- packet.go: Fragment, the reassembly entry, with its bitset of arrived fragments; and
-- FragmentHeader, the five bytes before each fragment.
pub mod Marks
pub mod RoundTrip
use slept.Prelude.{
  ℕ, ◌+◌, ◌/◌, ◌≤◌, ◌<◌, ◌^◌, ◌≡◌, bit_and, bit_or, not, List, [], ◌∷◌, ◌++◌, length, ltb, ◌==◌,
  if◌then◌else◌, replicate,
}
use slept.Prelude.Results.{Result, ok, err, ◌>>=◌, Error, unexpected_eof, already_received}
use slept.Prelude.Results.{id_above_total, too_many_fragments, index, store, slice_from, slice_to}
use slept.Bytes.{BytesUtil}
use slept.Packet.Header.{flag_fragment}
use slept.Seq.{IsU16}

-- `buf` is the content of the entry's ByteBuffer, and `marked` the array of four uint64.
pub record Fragment : Type 0 where
  pub recv : ℕ
  pub total : ℕ
  pub buf : List ℕ
  pub header_size : ℕ
  pub packet_size : ℕ
  pub marked : List ℕ

-- `*f = Fragment{}`
abbrev pub empty_fragment : Fragment
empty_fragment = record {
  recv = 0;
  total = 0;
  buf = [];
  header_size = 0;
  packet_size = 0;
  marked = 0 ∷ 0 ∷ 0 ∷ 0 ∷ [];
}

-- `id>>6` picks the word, `1<<(id&63)` the digit.
unfoldable pub mark_received : Fragment → ℕ → Result Fragment
mark_received f id =
    let idx = id / 2 ^ 6 in
    let pos = 2 ^ bit_and id 63 in
    (do
      word ← index f.marked idx
      if not (bit_and word pos == 0) then err already_received else (do
        marked ← store f.marked idx (bit_or word pos)
        ok (record f { marked = marked })))

pub record FragmentHeader : Type 0 where
  pub seq : ℕ
  pub id : ℕ
  pub total : ℕ

pub record IsWire (h : FragmentHeader) : Type 0 where
  pub seq_small : IsU16 h.seq
  pub id_small : h.id < 256
  pub total_small : h.total < 256

unfoldable pub validate : FragmentHeader → ℕ → Result (Unit {0})
validate f max_fragments =
    if ltb f.total f.id
    then err id_above_total
    else (if ltb max_fragments (f.total + 1) then err too_many_fragments else ok tt)

-- `FragmentHeaderSize`
abbrev pub fragment_header_size : ℕ
fragment_header_size = 5

module _ (u : BytesUtil) where
  unfoldable pub append_to : FragmentHeader → List ℕ → List ℕ
  append_to f dst =
      let dst1 = dst ++ flag_fragment ∷ [] in
      let dst2 = u.append_uint16_be dst1 f.seq in dst2 ++ f.id ∷ f.total ∷ []

  unfoldable pub unmarshal_fragment_header : List ℕ → Result (FragmentHeader × List ℕ)
  unmarshal_fragment_header buf =
      if ltb (length buf) fragment_header_size then err unexpected_eof else (do
        buf1 ← slice_from buf 1
        two ← slice_to buf1 2
        buf2 ← slice_from buf1 2
        id ← index buf2 0
        buf3 ← slice_from buf2 1
        total ← index buf3 0
        buf4 ← slice_from buf3 1
        ok (record { seq = u.uint16_be two; id = id; total = total }, buf4))
