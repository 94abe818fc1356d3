-- ===== src/Tcp/Frame/Owned.antt =====
-- A body has one owner: a frame, or the pool.
use slept.Prelude.{ℕ, ◌<◌, ◌≡◌, some, All, Distinct}
use slept.Tcp.Pool.{Absent}
use slept.Tcp.Frame.{Store, empty_store}

pub record IsSound (s : Store) : Type 0 where
  pub pool_distinct : Distinct s.body_pool
  pub pool_made : All (λ p. p < s.bodies_made) s.body_pool
  pub held_made : (r p : ℕ) → (s.frames r).body ≡ some p → p < s.bodies_made
  pub held_only : (r p : ℕ) → (s.frames r).body ≡ some p → Absent p s.body_pool
  pub held_once : (r q p : ℕ) → (s.frames r).body ≡ some p → (s.frames q).body ≡ some p → r ≡ q

pub empty_store-IsSound : IsSound empty_store
empty_store-IsSound = record {
  pool_distinct = tt;
  pool_made = tt;
  held_made = λ r p e. absurd (cc (e));
  held_only = λ r p e. absurd (cc (e));
  held_once = λ r q p e. absurd (cc (e));
}
