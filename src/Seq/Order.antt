-- ===== src/Seq/Order.antt =====
-- The order of utils.go in terms of the distance round the circle of 65536 numbers.
use slept.Prelude.{ℕ, ◌<◌, ◌≡◌, ◌≢◌, ◌↔◌, ◌⊎◌, arith, true, false}
use slept.Seq.{add16, sub16, IsU16, half_max_uint16, seq_greater_than, seq_less_than, seq_lte}

-- `seqGreaterThan a b` exactly when a lies 1 to 32767 steps ahead of b round the circle, or 32768
-- steps ahead and numerically above it.
pub seq_greater_than_iff :
    (a b : ℕ)
    → IsU16 a
    → IsU16 b
    → (seq_greater_than a b ≡ true)
      ↔ ((0 < sub16 a b) × (sub16 a b < half_max_uint16) ⊎ (sub16 a b ≡ half_max_uint16) × (b < a))
unfolding seq_greater_than
seq_greater_than_iff a b ha hb = ground arith

-- Of two sequence numbers either both are the same and neither is greater, or they differ and
-- exactly one is greater.
pub seq_greater_than_total :
    (a b : ℕ)
    → IsU16 a
    → IsU16 b
    → (a ≡ b) × (seq_greater_than a b ≡ false) × (seq_greater_than b a ≡ false)
      ⊎ ((a ≢ b) × (seq_greater_than a b ≡ true) × (seq_greater_than b a ≡ false)
          ⊎ (a ≢ b) × (seq_greater_than a b ≡ false) × (seq_greater_than b a ≡ true))
unfolding seq_greater_than
seq_greater_than_total a b ha hb = ground arith

-- A number k steps ahead, for k from 1 to 32767, is greater, wherever the circle wraps.
pub seq_greater_than_ahead :
    (a k : ℕ)
    → IsU16 a
    → 0 < k
    → k < half_max_uint16
    → (seq_greater_than (add16 a k) a ≡ true) × (seq_less_than (add16 a k) a ≡ false)
unfolding seq_greater_than seq_less_than
seq_greater_than_ahead a k ha h0 hk = ground arith

-- The order depends on the distance alone: adding k to both numbers changes it only for numbers
-- that stand exactly 32768 apart.
pub seq_less_than_shift :
    (a b k : ℕ)
    → IsU16 a
    → IsU16 b
    → sub16 a b ≢ half_max_uint16
    → seq_less_than (add16 a k) (add16 b k) ≡ seq_less_than a b
unfolding seq_less_than
seq_less_than_shift a b k ha hb h = ground arith

-- `seqLTE` is "equal or less", and its negation is "greater".
pub seq_lte_iff :
    (a b : ℕ)
    → IsU16 a
    → IsU16 b
    → ((seq_lte a b ≡ true) ↔ ((a ≡ b) ⊎ (seq_less_than a b ≡ true)))
      × ((seq_lte a b ≡ false) ↔ (seq_greater_than a b ≡ true))
unfolding seq_lte seq_less_than seq_greater_than
seq_lte_iff a b ha hb = ground arith
