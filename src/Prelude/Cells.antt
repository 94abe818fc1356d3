-- ===== src/Prelude/Cells.antt =====
-- A store that gives each index a cell: one cell written, and sums of weights over the first cells.
use slept.Prelude.Tests.{◌==◌, if◌then◌else◌}
use Prim.Native.Nat.{ℕ, zero, suc, ◌+◌, ◌≤◌, ◌<◌}
use mathlib.Core.Path.{◌≡◌, refl}
use mathlib.Core.Logic.{◌≢◌}
use native.Mathlib.Decide.{ℕ_discrete, dec_lt}
use native.Mathlib.Omega.{arith}

module _ {ℓ} {A : Type ℓ} where
  abbrev pub overwrite : ℕ → A → (ℕ → A) → ℕ → A
  overwrite at new cells j = if j == at then new else cells j

  pub overwrite_self : (at : ℕ) (new : A) (cells : ℕ → A) → overwrite at new cells at ≡ new
  overwrite_self at new cells = ground arith

  pub overwrite_ne :
      (at j : ℕ) (new : A) (cells : ℕ → A) → j ≢ at → overwrite at new cells j ≡ cells j
  overwrite_ne at j new cells h = ground arith

  module _ (weight : A → ℕ) where
    unfoldable pub sum_cells : (ℕ → A) → ℕ → ℕ
    sum_cells cells zero = 0
    sum_cells cells (suc n) = weight (cells n) + sum_cells cells n

    sum_outside :
        (cells : ℕ → A) (at : ℕ) (new : A) (n : ℕ)
        → n ≤ at
        → sum_cells (overwrite at new cells) n ≡ sum_cells cells n
    unfolding sum_cells
    sum_outside cells at new zero h = refl
    sum_outside cells at new (suc n) h = ground (arith, sum_outside cells at new n)

    -- Writing a cell trades its old weight for the new one.
    pub sum_cells-overwrite :
        (cells : ℕ → A) (at : ℕ) (new : A) (n : ℕ)
        → at < n
        → sum_cells (overwrite at new cells) n + weight (cells at) ≡ weight new + sum_cells cells n
    unfolding sum_cells
    sum_cells-overwrite cells at new zero h = absurd (omega arith)
    sum_cells-overwrite cells at new (suc n) h = elim (ℕ_discrete n at) [
      | yes p ↦ rw p (ground (arith, sum_outside cells at new at))
      | no p ↦ ground (arith, p, sum_cells-overwrite cells at new n)
    ]

    -- A sum that is not 0 has a cell that weighs something.
    pub sum_cells-positive :
        (cells : ℕ → A) (n : ℕ) → 1 ≤ sum_cells cells n → (i : ℕ) × (i < n) × (1 ≤ weight (cells i))
    unfolding sum_cells
    sum_cells-positive cells zero h = absurd (omega (arith, h))
    sum_cells-positive cells (suc n) h = elim (dec_lt 0 (weight (cells n))) [
      | yes some_weight ↦ (n, omega arith, some_weight)
      | no nothing ↦
          let (i, below, some_weight) = sum_cells-positive cells n (omega (arith, h, nothing)) in
          (i, omega (arith, below), some_weight)
    ]

    pub sum_cells-congr :
        (f g : ℕ → A) (n : ℕ)
        → ((j : ℕ) → weight (f j) ≡ weight (g j))
        → sum_cells f n ≡ sum_cells g n
    unfolding sum_cells
    sum_cells-congr f g zero same = refl
    sum_cells-congr f g (suc n) same = omega (arith, same n, sum_cells-congr f g n same)

    -- A cell behind the others.
    pub sum_cells-suc :
        (cells : ℕ → A) (new : A) (n : ℕ)
        → sum_cells (overwrite n new cells) (suc n) ≡ weight new + sum_cells cells n
    unfolding sum_cells
    sum_cells-suc cells new n = ground (arith, sum_outside cells n new n)

    -- One cell weighs at most as much as all.
    pub cell-le-sum : (cells : ℕ → A) (at n : ℕ) → at < n → weight (cells at) ≤ sum_cells cells n
    unfolding sum_cells
    cell-le-sum cells at zero h = absurd (omega arith)
    cell-le-sum cells at (suc n) h = elim (ℕ_discrete at n) [
      | yes p ↦ rw p (omega arith)
      | no p ↦ omega (arith, p, cell-le-sum cells at n (omega (arith, p)))
    ]

    -- Two different cells weigh at most as much as all.
    pub cells-le-sum :
        (cells : ℕ → A) (i j n : ℕ)
        → i < j
        → j < n
        → weight (cells i) + weight (cells j) ≤ sum_cells cells n
    unfolding sum_cells
    cells-le-sum cells i j zero h k = absurd (omega arith)
    cells-le-sum cells i j (suc n) h k = elim (ℕ_discrete j n) [
      | yes p ↦ rw p (omega (arith, cell-le-sum cells i n (omega (arith, p))))
      | no p ↦ omega (arith, p, cells-le-sum cells i j n h (omega (arith, p)))
    ]
