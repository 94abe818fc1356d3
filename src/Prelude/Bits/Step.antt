-- ===== src/Prelude/Bits/Step.antt =====
-- One equation for the lowest digit of `&` and `|`: the native operations stand for a recursion on
-- binary digits with fuel, which is dropped here.
use Prim.Native.Nat.{ℕ, zero, suc, ◌+◌, ◌*◌, ◌/◌, ◌%◌, ◌≤◌, bit_and, bit_or}
use Prim.Native.Nat.{min, max, digits, bitwise, bit_and-bitwise, bit_or-bitwise}
use mathlib.Core.Path.{◌≡◌, refl}
use native.Mathlib.Omega.{arith}

-- Enough fuel is as good as any.
module _ (pad : ℕ → ℕ) (f : ℕ → ℕ → ℕ) where
  fuel_irrelevant : (a b m n : ℕ) → a ≤ n → a ≤ m → digits pad f n a b ≡ digits pad f m a b
  fuel_irrelevant zero b zero zero hn hm = refl
  fuel_irrelevant zero b zero (suc n) hn hm = refl
  fuel_irrelevant zero b (suc m) zero hn hm = refl
  fuel_irrelevant zero b (suc m) (suc n) hn hm = refl
  fuel_irrelevant (suc a) b zero n hn hm = absurd (omega arith)
  fuel_irrelevant (suc a) b (suc m) zero hn hm = absurd (omega arith)
  fuel_irrelevant (suc a) b (suc m) (suc n) hn hm =
      rw (fuel_irrelevant (suc a / 2) (b / 2) m n (omega arith) (omega arith))

  lowest_digit :
      (b a : ℕ)
      → bitwise pad f (suc a) b ≡ f (suc a % 2) (b % 2) + 2 * bitwise pad f (suc a / 2) (b / 2)
  lowest_digit b a =
      let half = suc a / 2 in
      omega (arith, fuel_irrelevant half (b / 2) half a (omega arith) (omega arith))

pub bit_and_step : (b a : ℕ) → bit_and a b ≡ min (a % 2) (b % 2) + 2 * bit_and (a / 2) (b / 2)
bit_and_step b zero = simp bit_and-bitwise (omega arith)
bit_and_step b (suc a) = simp bit_and-bitwise (lowest_digit (λ rest. 0) min b a)

pub bit_or_step : (b a : ℕ) → bit_or a b ≡ max (a % 2) (b % 2) + 2 * bit_or (a / 2) (b / 2)
bit_or_step b zero = simp bit_or-bitwise (omega arith)
bit_or_step b (suc a) = simp bit_or-bitwise (lowest_digit (λ rest. rest) max b a)
