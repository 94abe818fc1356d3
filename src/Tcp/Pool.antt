-- ===== src/Tcp/Pool.antt =====
-- sync.Pool: a pool gives back an object that was put into it, which it chooses, or nothing.
use slept.Prelude.{
  ℕ, zero, suc, ◌<◌, ◌≡◌, ◌≢◌, inl, inr, sym, List, [], ◌∷◌, Option, none, some, All, Distinct,
  Option-cases,
}

-- What `Get` takes from a pool: the object at a place, or nothing.
unfoldable pub pick : ℕ → List ℕ → Option (ℕ × List ℕ)
pick at [] = none
pick zero (x ∷ pool) = some (x, pool)
pick (suc at) (x ∷ pool) = elim (pick at pool) [ none ↦ none | some (y, rest) ↦ some (y, x ∷ rest) ]

-- Not in the list.
abbrev pub Absent : ℕ → List ℕ → Type 0
Absent p pool = All (λ q. q ≢ p) pool

-- What the pool gives was in it once, and is not among the rest.
pub record Picked (p : ℕ) (pool rest : List ℕ) : Type 0 where
  pub made : (n : ℕ) → All (λ q. q < n) pool → (p < n) × All (λ q. q < n) rest
  pub apart : (q : ℕ) → Absent q pool → (p ≢ q) × Absent q rest
  pub once : Distinct pool → Absent p rest × Distinct rest

deeper : (x : ℕ) {p : ℕ} {pool rest : List ℕ} → Picked p pool rest → Picked p (x ∷ pool) (x ∷ rest)
deeper x inner = record {
  made = λ n h. ((inner.made n h.1).0, (h.0, (inner.made n h.1).1));
  apart = λ q h. ((inner.apart q h.1).0, (h.0, (inner.apart q h.1).1));
  once = λ h. (
    (λ e. (inner.apart x h.0).0 (sym e), (inner.once h.1).0),
    ((inner.apart x h.0).1, (inner.once h.1).1),
  );
}

pub pick-Picked :
    (at : ℕ) (pool : List ℕ) (p : ℕ) (rest : List ℕ)
    → pick at pool ≡ some (p, rest)
    → Picked p pool rest
unfolding pick
pick-Picked at [] p rest e = absurd (cc (e))
pick-Picked zero (x ∷ pool) p rest e =
    let first : x ≡ p = cc (e) in
    let left : pool ≡ rest = cc (e) in
    rw (← first, ← left) (record { made = λ n h. h; apart = λ q h. h; once = λ h. h })
pick-Picked (suc at) (x ∷ pool) p rest e = elim (Option-cases (pick at pool)) [
  | inl nothing ↦ absurd (cc (rw nothing at e))
  | inr ((y, left), found) ↦
      let first : y ≡ p = cc (rw found at e) in
      let all : x ∷ left ≡ rest = cc (rw found at e) in
      rw (← first, ← all) (deeper x (pick-Picked at pool y left found))
]

-- What holds of all objects in the pool holds of the one that it gives, and of the rest.
pub pick-All :
    (P : ℕ → Type 0) (at : ℕ) (pool : List ℕ) (p : ℕ) (rest : List ℕ)
    → pick at pool ≡ some (p, rest)
    → All P pool
    → P p × All P rest
unfolding pick
pick-All P at [] p rest e h = absurd (cc (e))
pick-All P zero (x ∷ pool) p rest e h =
    let first : x ≡ p = cc (e) in let left : pool ≡ rest = cc (e) in rw (← first, ← left) h
pick-All P (suc at) (x ∷ pool) p rest e h = elim (Option-cases (pick at pool)) [
  | inl nothing ↦ absurd (cc (rw nothing at e))
  | inr ((y, left), found) ↦
      let first : y ≡ p = cc (rw found at e) in
      let all : x ∷ left ≡ rest = cc (rw found at e) in
      let inner = pick-All P at pool y left found h.1 in
      rw (← first, ← all) (inner.0, (h.0, inner.1))
]
