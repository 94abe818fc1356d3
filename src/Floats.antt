-- ===== src/Floats.antt =====
-- float64, which the library has no model of: a type with the operations that the code uses. No law
-- of it is assumed.
use slept.Prelude.{ℕ, Bool}

pub record Floats : Type 1 where
  pub Float : Type 0
  pub of_ℕ : ℕ → Float
  -- The constants 0.1, 0.00001 and 0.0025 of the code.
  pub tenth : Float
  pub tiny : Float
  pub rtt_factor : Float
  -- `math.MaxFloat64`
  pub max_float : Float
  pub add : Float → Float → Float
  pub sub : Float → Float → Float
  pub mul : Float → Float → Float
  pub div : Float → Float → Float
  pub abs : Float → Float
  pub lt : Float → Float → Bool
  pub eq : Float → Float → Bool
