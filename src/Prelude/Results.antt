-- ===== src/Prelude/Results.antt =====
-- What a Go call does: it returns, returns an error, or panics (an index or slice out of range, a nil
-- dereference, a division by zero).
use slept.Prelude.Tests.{ltb, leb, if◌then◌else◌, ◌==◌}
use slept.Prelude.Lists.{length, get_elem?, take, drop, set}
use Prim.Native.Nat.{ℕ, ◌%◌, ◌≤◌}
use mathlib.Core.Path.{◌≡◌, refl}
use mathlib.Core.Option.{Option, none, some}
use mathlib.Core.List.{List}
use native.Mathlib.Omega.{arith}

-- The errors that the code makes, by their place.
pub data Error : Type 0 where
  unexpected_eof : Error
  already_received : Error
  id_above_total : Error
  too_many_fragments : Error
  seq_mismatch : Error
  reassembly_insert : Error
  total_mismatch : Error
  stale : Error

pub data Result {ℓ} (A : Type ℓ) : Type ℓ where
  ok : A → Result A
  err : Error → Result A
  panic : Result A

-- What follows a call runs when the call has returned.
infixl 5 ◌>>=◌ ◌>>◌
abbrev pub ◌>>=◌ {κ ℓ} :
    {X : Type κ} {Y : Type ℓ} (call : Result X) (next : X → Result Y) → Result Y
panic >>= next = panic
err why >>= next = err why
ok x >>= next = next x

abbrev pub ◌>>◌ {κ} : {Y : Type κ} (call : Result (Unit {0})) (next : Result Y) → Result Y
call >> next = call >>= (λ done. next)

-- Calls in a row.
pub bind_assoc {κ ℓ μ} :
    {X : Type κ} {Y : Type ℓ} {Z : Type μ} (call : Result X) (f : X → Result Y) (g : Y → Result Z)
    → ((call >>= f) >>= g) ≡ (call >>= λ x. f x >>= g)
bind_assoc panic f g = refl
bind_assoc (err why) f g = refl
bind_assoc (ok x) f g = refl

pub bind_congr {κ ℓ} :
    {X : Type κ} {Y : Type ℓ} (call : Result X) (f g : X → Result Y)
    → ((x : X) → f x ≡ g x)
    → (call >>= f) ≡ (call >>= g)
bind_congr panic f g same = refl
bind_congr (err why) f g same = refl
bind_congr (ok x) f g same = same x

module _ {ℓ} {A : Type ℓ} where
  -- `xs[i]`
  abbrev pub index : List A → ℕ → Result A
  index xs i = elim (get_elem? xs i) [ none ↦ panic | some a ↦ ok a ]

  -- `xs[i] = a`
  abbrev pub store : List A → ℕ → A → Result (List A)
  store xs i a = if ltb i (length xs) then ok (set xs i a) else panic

  -- `xs[n:]`
  abbrev pub slice_from : List A → ℕ → Result (List A)
  slice_from xs n = if leb n (length xs) then ok (drop n xs) else panic

  -- `xs[:n]`, for a slice whose capacity is its length
  abbrev pub slice_to : List A → ℕ → Result (List A)
  slice_to xs n = if leb n (length xs) then ok (take n xs) else panic

  -- A nil pointer that is dereferenced.
  abbrev pub deref : Option A → Result A
  deref none = panic
  deref (some a) = ok a

-- `a % n`, which panics at zero.
abbrev pub mod_checked : ℕ → ℕ → Result ℕ
mod_checked a n = if n == 0 then panic else ok (a % n)

module _ {ℓ} {A : Type ℓ} (xs : List A) (n : ℕ) (h : n ≤ length xs) where
  pub slice_from-ok : slice_from xs n ≡ ok (drop n xs)
  slice_from-ok = ground arith

  pub slice_to-ok : slice_to xs n ≡ ok (take n xs)
  slice_to-ok = ground arith
