-- ===== src/Seq.antt =====
-- utils.go: the order on 16-bit sequence numbers that wrap around.
pub mod Order
mod Tests
use slept.Prelude.{ℕ, ◌+◌, ◌-◌, ◌%◌, ◌<◌, Bool, ◌&&◌, ◌||◌, ltb, leb, ◌==◌}

-- `HalfMaxUint16`
abbrev pub half_max_uint16 : ℕ
half_max_uint16 = 32768

-- Addition and subtraction of uint16.
abbrev pub add16 : ℕ → ℕ → ℕ
add16 a b = (a + b) % 65536

abbrev pub sub16 : ℕ → ℕ → ℕ
sub16 a b = (a + 65536 - b) % 65536

abbrev pub IsU16 : ℕ → Type 0
IsU16 a = a < 65536

unfoldable pub seq_greater_than : ℕ → ℕ → Bool
seq_greater_than a b =
    (ltb b a && leb (sub16 a b) half_max_uint16) || (ltb a b && ltb half_max_uint16 (sub16 b a))

unfoldable pub seq_less_than : ℕ → ℕ → Bool
unfolding seq_greater_than
seq_less_than a b = seq_greater_than b a

unfoldable pub seq_lte : ℕ → ℕ → Bool
unfolding seq_greater_than
seq_lte a b = a == b || seq_greater_than b a
