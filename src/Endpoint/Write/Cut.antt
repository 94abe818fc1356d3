-- ===== src/Endpoint/Write/Cut.antt =====
-- A payload cut into pieces: the size of the next piece, and what the pieces are.
use native.Mathlib.Nat.{add-mul, mul-le-mul_right}
use slept.Prelude.{
  ℕ, zero, suc, ◌+◌, ◌-◌, ◌*◌, ◌<◌, ◌≤◌, ◌≡◌, refl, ap, arith, List, [], ◌∷◌, ◌++◌, length, take,
  drop, ltb, if◌then◌else◌, All, Bool-cases, inl, inr, get_elem?, some, true, lt→ltb,
}
use slept.Prelude.Positions.{take-more, drop-drop}

-- The payload that pieces carry, and the bytes of some datagrams.
abbrev pub joined : List (List ℕ) → List ℕ
joined [] = []
joined (p ∷ ps) = p ++ joined ps

-- Pieces that are not empty and not above a size.
abbrev pub IsPiece : ℕ → List ℕ → Type 0
IsPiece bound p = (0 < length p) × (length p ≤ bound)

-- The size of the next piece.
abbrev pub cutoff : ℕ → ℕ → ℕ
cutoff bound n = if ltb bound n then bound else n

pub cutoff_facts :
    (bound rounds n : ℕ)
    → 0 < bound
    → n ≤ suc rounds * bound
    → suc rounds * bound < n + bound
    → (cutoff bound n ≤ n)
      × (0 < cutoff bound n)
      × (cutoff bound n ≤ bound)
      × (n - cutoff bound n ≤ rounds * bound)
      × (rounds * bound < n - cutoff bound n + bound)
cutoff_facts bound zero n positive upper lower = ground arith
cutoff_facts bound (suc rounds) n positive upper lower = ground arith

-- The next piece, and the others behind it.
take-cutoff : (bound : ℕ) (buf : List ℕ) → take (cutoff bound (length buf)) buf ≡ take bound buf
take-cutoff bound buf = elim (Bool-cases (ltb bound (length buf))) [
  | inl y ↦ rw y refl
  | inr n ↦
      rw (n, take-more bound buf (ground (arith, n)), take-more (length buf) buf (omega arith)) refl
]

pub next_exact :
    (bound rounds : ℕ) (buf : List ℕ) (ps : List (List ℕ))
    → suc rounds * bound < length buf + bound
    → ((i : ℕ)
        → i < rounds
        → get_elem? ps i
          ≡ some (take bound (drop (i * bound) (drop (cutoff bound (length buf)) buf))))
    → (i : ℕ) → i < suc rounds
    → get_elem? (take (cutoff bound (length buf)) buf ∷ ps) i
      ≡ some (take bound (drop (i * bound) buf))
next_exact bound rounds buf ps lower rest zero h =
    let none_before : 0 * bound ≡ 0 = omega arith in
    rw none_before (ap some (take-cutoff bound buf))
next_exact bound rounds buf ps lower rest (suc i) h =
    let one : suc i * bound ≡ bound + i * bound = omega (arith, add-mul 1 i bound) in
    let more : ltb bound (length buf) ≡ true = lt→ltb bound (length buf) (
      omega (
        arith,
        add-mul 1 rounds bound,
        mul-le-mul_right {m = 1} {n = rounds} bound (omega (arith, h)),
      )) in
    rw (one, ← drop-drop bound (i * bound) buf) (rw more at (rest i (omega (arith, h))))

-- What the pieces are.
pub record Cut (bound count : ℕ) (buf : List ℕ) (ps : List (List ℕ)) : Type 0 where
  pub count_is : length ps ≡ count
  pub whole : joined ps ≡ buf
  pub sizes : All (IsPiece bound) ps
  pub exact : (i : ℕ) → i < count → get_elem? ps i ≡ some (take bound (drop (i * bound) buf))
