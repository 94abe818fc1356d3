-- ===== src/Seq/Tests.antt =====
-- The order of utils.go at concrete numbers, about the wrap from 65535 to 0.
use slept.Prelude.{◌<◌, ◌≡◌, ◌↔◌, ◌⊎◌, refl, arith, true, false}
use slept.Seq.{add16, sub16, half_max_uint16, seq_greater_than, seq_less_than}
use slept.Seq.Order.{seq_greater_than_iff, seq_greater_than_ahead}

over_the_wrap : seq_greater_than 3 65533 ≡ true
unfolding seq_greater_than
over_the_wrap = refl

seq_greater_than_iff_example : (seq_greater_than 3 65533 ≡ true) ↔ (
    (0 < sub16 3 65533) × (sub16 3 65533 < half_max_uint16)
    ⊎ (sub16 3 65533 ≡ half_max_uint16) × (65533 < 3))
seq_greater_than_iff_example = seq_greater_than_iff 3 65533 (omega arith) (omega arith)

seq_greater_than_ahead_example :
    (seq_greater_than (add16 65533 6) 65533 ≡ true) × (seq_less_than (add16 65533 6) 65533 ≡ false)
seq_greater_than_ahead_example =
    seq_greater_than_ahead 65533 6 (omega arith) (omega arith) (omega arith)
