-- ===== src/Endpoint/Read/Assembly/Tally.antt =====
-- How many of the first numbers are in a set.
use slept.Prelude.{
  ℕ, zero, suc, ◌+◌, ◌≤◌, ◌<◌, ◌≡◌, refl, arith, Bool, true, false, ◌||◌, ◌==◌, if◌then◌else◌,
}
use native.Mathlib.Decide.{ℕ_discrete}

unfoldable pub tally : (ℕ → Bool) → ℕ → ℕ
tally p zero = 0
tally p (suc n) = (if p n then 1 else 0) + tally p n

pub tally-le : (p : ℕ → Bool) (n : ℕ) → tally p n ≤ n
unfolding tally
tally-le p zero = omega arith
tally-le p (suc n) = ground (arith, tally-le p n)

pub tally-congr : (p q : ℕ → Bool) (n : ℕ) → ((j : ℕ) → j < n → p j ≡ q j) → tally p n ≡ tally q n
unfolding tally
tally-congr p q zero same = refl
tally-congr p q (suc n) same =
    ground (arith, same n (omega arith), tally-congr p q n (λ j h. same j (omega arith)))

-- Nothing.
pub tally-none : (p : ℕ → Bool) (n : ℕ) → ((j : ℕ) → j < n → p j ≡ false) → tally p n ≡ 0
unfolding tally
tally-none p zero none = refl
tally-none p (suc n) none =
    ground (arith, none n (omega arith), tally-none p n (λ j h. none j (omega arith)))

-- Everything.
pub tally-full : (p : ℕ → Bool) (n : ℕ) → tally p n ≡ n → (j : ℕ) → j < n → p j ≡ true
unfolding tally
tally-full p zero full j h = absurd (omega arith)
tally-full p (suc n) full j h =
    let last : p n ≡ true = ground (arith, tally-le p n) in
    let rest : tally p n ≡ n = ground (arith, tally-le p n) in
    elim (ℕ_discrete j n) [ yes e ↦ rw e last | no e ↦ tally-full p n rest j (omega (arith, e)) ]

-- One more.
pub tally-add :
    (p q : ℕ → Bool) (id n : ℕ)
    → id < n
    → p id ≡ false
    → ((j : ℕ) → q j ≡ (j == id || p j))
    → tally q n ≡ 1 + tally p n
unfolding tally
tally-add p q id zero h new add = absurd (omega arith)
tally-add p q id (suc n) h new add = elim (ℕ_discrete id n) [
  | yes e ↦
      let below : tally q n ≡ tally p n = tally-congr q p n (λ j l. ground (arith, add j)) in
      ground (arith, add n, below)
  | no e ↦ ground (arith, add n, e, tally-add p q id n (omega (arith, e)) new add)
]
