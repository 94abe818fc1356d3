-- ===== src/Prelude/Bits.antt =====
-- `&` and `|` at variables: both act digit by digit, so they act on the halves of a split number.
mod Step
use Step.{bit_or_step, bit_and_step}
use Prim.Native.Nat.{
  ℕ, zero, suc, ◌+◌, ◌*◌, ◌/◌, ◌%◌, ◌^◌, ◌≤◌, ◌<◌, min, max, bit_and, bit_or, bit_and-bitwise,
}
use mathlib.Core.Path.{◌≡◌, refl, ap}
use mathlib.Core.Logic.{◌≢◌}
use mathlib.Core.Bool.{Bool, true, ◌&&◌, ◌||◌}
use native.Mathlib.Decide.{ℕ_discrete}
use native.Mathlib.Nat.{pow-suc, pow-le-pow_right}
use native.Mathlib.Omega.{arith}
use slept.Prelude.Tests.{◌==◌}

twice_pow : (q k : ℕ) → q * 2 ^ suc k ≡ 2 * (q * 2 ^ k)
twice_pow q k = omega (arith, ap (λ (t : ℕ). q * t) (pow-suc 2 k))

-- For an operation that works on each digit by itself.
module _ (op f : ℕ → ℕ → ℕ) (step : (b a : ℕ) → op a b ≡ f (a % 2) (b % 2) + 2 * op (a / 2) (b / 2))
    (nothing : op 0 0 ≡ 0) where
  split :
      (k p q r s : ℕ)
      → r < 2 ^ k
      → s < 2 ^ k
      → op (p * 2 ^ k + r) (q * 2 ^ k + s) ≡ op p q * 2 ^ k + op r s
  split zero p q r s hr hs = ground arith
  split (suc k) p q r s hr hs = ground (
    arith,
    step (q * 2 ^ suc k + s) (p * 2 ^ suc k + r),
    step s r,
    twice_pow p k,
    twice_pow q k,
    twice_pow (op p q) k,
    pow-suc 2 k,
    split k p q (r / 2) (s / 2),
  )

pub bit_and_split :
    (k p q r s : ℕ)
    → r < 2 ^ k
    → s < 2 ^ k
    → bit_and (p * 2 ^ k + r) (q * 2 ^ k + s) ≡ bit_and p q * 2 ^ k + bit_and r s
bit_and_split = split bit_and min bit_and_step refl

pub bit_or_split :
    (k p q r s : ℕ)
    → r < 2 ^ k
    → s < 2 ^ k
    → bit_or (p * 2 ^ k + r) (q * 2 ^ k + s) ≡ bit_or p q * 2 ^ k + bit_or r s
bit_or_split = split bit_or max bit_or_step refl

-- Against a whole byte of ones, or of zeros.
unfoldable pub all_below : ℕ → (ℕ → ℕ) → (ℕ → ℕ) → Bool
all_below zero f g = true
all_below (suc bound) f g = all_below bound f g && f bound == g bound

pub all_below_sound :
    (bound : ℕ) (f g : ℕ → ℕ) → all_below bound f g ≡ true → (x : ℕ) → x < bound → f x ≡ g x
unfolding all_below
all_below_sound zero f g all_true x lt = absurd (omega arith)
all_below_sound (suc bound) f g all_true x lt =
    let below : all_below bound f g ≡ true = ground arith in
    ground (arith, all_below_sound bound f g below x)

pub bit_and_ones : (x : ℕ) → x < 256 → bit_and x 0xff ≡ x
unfolding all_below
bit_and_ones = all_below_sound 256 _ _ refl

pub ones-bit_and : (x : ℕ) → x < 256 → bit_and 0xff x ≡ x
unfolding all_below
ones-bit_and = all_below_sound 256 _ _ refl

pub bit_and_zero : (x : ℕ) → x < 256 → bit_and x 0 ≡ 0
unfolding all_below
bit_and_zero = all_below_sound 256 _ _ refl

pub bit_or_zero : (x : ℕ) → x < 256 → bit_or x 0 ≡ x
unfolding all_below
bit_or_zero = all_below_sound 256 _ _ refl

pub zero-bit_or : (x : ℕ) → x < 256 → bit_or 0 x ≡ x
unfolding all_below
zero-bit_or = all_below_sound 256 _ _ refl

bit_and-le_fuel : (n a b : ℕ) → a ≤ n → bit_and a b ≤ a
bit_and-le_fuel n zero b h = simp bit_and-bitwise (omega arith)
bit_and-le_fuel zero (suc a) b h = absurd (omega arith)
bit_and-le_fuel (suc n) (suc a) b h =
    omega (arith, bit_and_step b (suc a), bit_and-le_fuel n (suc a / 2) (b / 2) (omega arith))

pub bit_and-le : (a b : ℕ) → bit_and a b ≤ a
bit_and-le a b = bit_and-le_fuel a a b (omega arith)

-- Digit k of a number.
abbrev pub testbit : ℕ → ℕ → ℕ
testbit x zero = x % 2
testbit x (suc k) = testbit (x / 2) k

pub testbit-lt : (x k : ℕ) → testbit x k < 2
testbit-lt x zero = omega arith
testbit-lt x (suc k) = testbit-lt (x / 2) k

pub testbit-bit_or : (k x y : ℕ) → testbit (bit_or x y) k ≡ max (testbit x k) (testbit y k)
testbit-bit_or zero x y = omega (arith, bit_or_step y x)
testbit-bit_or (suc k) x y =
    let half : bit_or x y / 2 ≡ bit_or (x / 2) (y / 2) = omega (arith, bit_or_step y x) in
    rw half (testbit-bit_or k (x / 2) (y / 2))

pub testbit-zero : (k : ℕ) → testbit 0 k ≡ 0
testbit-zero zero = refl
testbit-zero (suc k) = testbit-zero k

pub testbit-pow_self : (k : ℕ) → testbit (2 ^ k) k ≡ 1
testbit-pow_self zero = refl
testbit-pow_self (suc k) =
    let e : 2 ^ suc k / 2 ≡ 2 ^ k = omega (arith, pow-suc 2 k) in rw e (testbit-pow_self k)

pub testbit-pow_ne : (k j : ℕ) → k ≢ j → testbit (2 ^ k) j ≡ 0
testbit-pow_ne zero zero h = absurd (h refl)
testbit-pow_ne zero (suc j) h = testbit-zero j
testbit-pow_ne (suc k) zero h = omega (arith, pow-suc 2 k)
testbit-pow_ne (suc k) (suc j) h =
    let e : 2 ^ suc k / 2 ≡ 2 ^ k = omega (arith, pow-suc 2 k) in
    rw e (testbit-pow_ne k j (λ p. h (ap suc p)))

-- No digit is common with zero.
and_nothing_fuel : (x n : ℕ) → x ≤ n → bit_and x 0 ≡ 0
and_nothing_fuel zero n le = refl
and_nothing_fuel (suc x) zero le = absurd (omega arith)
and_nothing_fuel (suc x) (suc n) le =
    let half = suc x / 2 in
    omega (arith, and_nothing_fuel half n (omega arith), bit_and_step 0 (suc x))

-- `x & (1 << k)` is digit k in its place.
pub bit_and-pow : (k x : ℕ) → bit_and x (2 ^ k) ≡ testbit x k * 2 ^ k
bit_and-pow zero x = omega (arith, bit_and_step 1 x, and_nothing_fuel (x / 2) (x / 2) (omega arith))
bit_and-pow (suc k) x = omega (
  arith,
  bit_and_step (2 ^ suc k) x,
  pow-suc 2 k,
  ap (bit_and (x / 2)) half_pow,
  bit_and-pow k (x / 2),
  twice_pow (testbit (x / 2) k) k,
)
  where
    half_pow : 2 ^ suc k / 2 ≡ 2 ^ k
    half_pow = omega (arith, pow-suc 2 k)

-- Setting digit k adds k to the set of the digits that are one.
pub testbit-set : (w k j : ℕ) → (testbit (bit_or w (2 ^ k)) j == 1) ≡ (j == k || testbit w j == 1)
testbit-set w k j = elim (ℕ_discrete k j) [
  | yes p ↦ ground (arith, testbit-bit_or j w (2 ^ k), rw p at (testbit-pow_self k), testbit-lt w j)
  | no p ↦ ground (arith, testbit-bit_or j w (2 ^ k), testbit-pow_ne k j p, testbit-lt w j)
]

pub bit_or-lt : (k x y : ℕ) → x < 2 ^ k → y < 2 ^ k → bit_or x y < 2 ^ k
bit_or-lt zero x y hx hy =
    let ex : x ≡ 0 = omega arith in let ey : y ≡ 0 = omega arith in rw (ex, ey) (omega arith)
bit_or-lt (suc k) x y hx hy = omega (
  arith,
  bit_or_step y x,
  pow-suc 2 k,
  bit_or-lt k (x / 2) (y / 2) (omega (arith, pow-suc 2 k)) (omega (arith, pow-suc 2 k)),
)

pub pow-lt_u32 : (k : ℕ) → k < 32 → 2 ^ k < 4294967296
pow-lt_u32 k h =
    omega (arith, pow-le-pow_right {n = 2} (omega arith) {i = k} {j = 31} (omega arith))
