-- ===== src/Buffer.antt =====
-- buffer.go and memset.go: SequenceBuffer, a ring of sequence numbers; and buffer_packet.go,
-- buffer_recv.go, buffer_sent.go, buffer_fragment.go, which keep entries beside it.
pub mod Ranges
pub mod Slots
pub mod Types
pub mod Acks
mod Tests
use slept.Prelude.{
  ℕ, ◌+◌, ◌-◌, ◌%◌, List, ◌++◌, length, ltb, leb, ◌&&◌, if◌then◌else◌, take, drop, replicate,
}
use slept.Prelude.Results.{Result, ok, panic, ◌>>=◌, mod_checked}
use slept.Seq.{add16}

-- `EmptySequenceBufferEntry`
abbrev pub empty_entry : ℕ
empty_entry = 4294967295

-- `copy(b, emptySequenceBufferEntryCache[:len(b)])`: the cache holds 65535 empty entries, and a
-- longer slice of it is out of range.
unfoldable pub reset_sequence_buffer : List ℕ → Result (List ℕ)
reset_sequence_buffer b =
    if leb (length b) 65535 then ok (replicate (length b) empty_entry) else panic

-- `resetSequenceBuffer(xs[lo:hi])`, as seen in the array behind the slice.
unfoldable pub reset_slice : List ℕ → ℕ → ℕ → Result (List ℕ)
reset_slice xs lo hi =
    if leb lo hi && leb hi (length xs)
    then (do
      mid ← reset_sequence_buffer (take (hi - lo) (drop lo xs))
      ok (take lo xs ++ (mid ++ drop hi xs)))
    else panic

pub record SequenceBuffer : Type 0 where
  pub latest : ℕ
  pub entries : List ℕ

-- `Reset`
unfoldable pub reset : SequenceBuffer → Result SequenceBuffer
reset s = do
  entries ← reset_sequence_buffer s.entries
  ok (record { latest = 0; entries = entries })

unfoldable pub new_sequence_buffer : ℕ → Result SequenceBuffer
unfolding reset
new_sequence_buffer cap = reset (record { latest = 0; entries = replicate cap 0 })

-- `cap(s.entries)` is its length: the slice is made full and never resliced.
unfoldable pub remove_range : SequenceBuffer → ℕ → ℕ → Result SequenceBuffer
remove_range s start end =
    let cap = length s.entries in
    (do
      lo ← mod_checked start (add16 (cap % 65536) 1)
      hi ← mod_checked end (add16 (cap % 65536) 1)
      if ltb hi lo
          then (do
            tail_reset ← reset_slice s.entries lo cap
            both_reset ← reset_slice tail_reset 0 hi
            ok (record s { entries = both_reset }))
          else (do entries ← reset_slice s.entries lo hi; ok (record s { entries = entries })))
