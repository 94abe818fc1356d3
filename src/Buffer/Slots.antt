-- ===== src/Buffer/Slots.antt =====
-- The shape that PacketBuffer, RecvPacketBuffer, SentPacketBuffer and FragmentReassemblyBuffer
-- share: a SequenceBuffer and as many entries. A pointer into `entries` is its index, and nil is
-- `none`.
pub mod Laws
pub mod Fresh
pub mod Insert
pub mod Gaps
use slept.Prelude.{
  ℕ, ◌+◌, ◌%◌, Bool, List, Option, none, some, length, ◌==◌, if◌then◌else◌, replicate,
}
use slept.Prelude.Results.{Result, ok, ◌>>=◌, mod_checked, index, store}
use slept.Seq.{add16, sub16, seq_greater_than, seq_less_than}
use slept.Buffer.{SequenceBuffer, new_sequence_buffer, remove_range, empty_entry}

pub record Slots (E : Type 0) : Type 0 where
  pub buf : SequenceBuffer
  pub entries : List E

-- The step to a newer sequence number, with the stale slots emptied.
unfoldable pub advance : SequenceBuffer → ℕ → Result SequenceBuffer
advance b seq =
    if seq_greater_than (add16 seq 1) b.latest
    then (do cleared ← remove_range b b.latest seq; ok (record cleared { latest = add16 seq 1 }))
    else ok b

module _ {E : Type 0} where
  -- `uint16(cap(s.entries))`
  abbrev pub cap16 : Slots E → ℕ
  cap16 s = length s.entries % 65536

  unfoldable pub new_slots : E → ℕ → Result (Slots E)
  new_slots zero_value cap = do
    buf ← new_sequence_buffer cap
    ok (record { buf = buf; entries = replicate cap zero_value })

  unfoldable pub is_outdated : Slots E → ℕ → Bool
  is_outdated s seq = seq_less_than seq (sub16 s.buf.latest (cap16 s))

  unfoldable pub insert : Slots E → ℕ → Result (Slots E × Option ℕ)
  unfolding is_outdated
  insert s seq = if is_outdated s seq then ok (s, none) else (do
    b ← advance s.buf seq
    i ← mod_checked seq (cap16 s)
    stored ← store b.entries i seq
    pointee ← index s.entries i
    ok (record s { buf = record b { entries = stored } }, some i))

  unfoldable pub find : Slots E → ℕ → Result (Option ℕ)
  find s seq = do
    i ← mod_checked seq (cap16 s)
    entry ← index s.buf.entries i
    if entry == seq then (do pointee ← index s.entries i; ok (some i)) else ok none

  unfoldable pub remove : Slots E → ℕ → Result (Slots E)
  remove s seq = do
    i ← mod_checked seq (cap16 s)
    stored ← store s.buf.entries i empty_entry
    ok (record s { buf = record (s.buf) { entries = stored } })

  -- `Entry`
  unfoldable pub entry : Slots E → ℕ → Result (Option ℕ)
  entry s i = do
    e ← index s.buf.entries i
    if e == empty_entry then ok none else (do pointee ← index s.entries i; ok (some i))
