-- ===== src/Tcp/Request/Attempts.antt =====
-- How many attempts a request takes.
use slept.Prelude.{
  ℕ, zero, suc, ◌+◌, ◌<◌, ◌≤◌, ◌≡◌, ◌%◌, ◌^◌, refl, arith, Bool, true, false, Option, none, some,
  ◌≢◌, ◌⊎◌, inl, inr, Bool-cases,
}
use native.Mathlib.Decide.{ℕ_discrete}
use slept.Tcp.Caller.{end_of_file}
use slept.Tcp.Request.{Outcome, is_final, is_positive, do_loop, do_all, reported, max_attempts}

module _ (idempotent : Bool) (outcomes : ℕ → Outcome) where
  do_loop-first :
      (fuel k bits m : ℕ) (last : Option Outcome)
      → k ≤ m
      → m < fuel + k
      → 0 < bits
      → bits + m < 2 ^ 63 + k
      → ((j : ℕ) → k ≤ j → j < m → is_final idempotent (outcomes j) ≡ false)
      → is_final idempotent (outcomes m) ≡ true
      → do_loop idempotent outcomes fuel k bits last ≡ some (some (outcomes m), m + 1)
  unfolding do_loop
  do_loop-first zero k bits m last le f p b before final = absurd (omega arith)
  do_loop-first (suc fuel) k bits m last le f p b before final =
      let test : is_positive bits ≡ true = ground arith in
      elim (ℕ_discrete k m) [
        | yes at_last ↦
            let done : is_final idempotent (outcomes k) ≡ true = rw at_last final in
            rw (test, done) (rw at_last refl)
        | no earlier ↦
            let on = before k (omega arith) (omega (arith, earlier)) in
            let small : (bits + 1) % 2 ^ 64 ≡ bits + 1 = omega arith in
            rw (test, on)
              (rw small (
                do_loop-first fuel (k + 1) (bits + 1) m (some (outcomes k)) (omega (arith, earlier))
                  (omega arith) (omega arith) (omega arith) (λ j h. before j (omega (arith, h)))
                  final))
      ]

-- The attempt failed with `retry`, and not with EOF unless the request is idempotent.
abbrev pub IsRetried : Bool → Outcome → Type 0
IsRetried idempotent o =
    (o.err ≢ none) × (o.retry ≡ true) × ((idempotent ≡ true) ⊎ (o.err ≢ some end_of_file))

is_final-IsRetried :
    (idempotent : Bool) (o : Outcome) → is_final idempotent o ≡ false → IsRetried idempotent o
unfolding is_final
is_final-IsRetried idempotent o goes_on =
    let retried : o.retry ≡ true = ground (arith, goes_on) in
    let failed : o.err ≢ none = λ e. absurd (cc (rw e at goes_on)) in
    (
      failed,
      retried,
      elim (Bool-cases idempotent) [
        | inl y ↦ inl y
        | inr n ↦ inr (λ e. absurd (cc (rw (e, retried, n) at goes_on)))
      ],
    )

-- If attempt m is the first that ends the request (no error, no retry, or EOF of a request that is not
-- idempotent), and the limit with m added fits an int64, then Do makes all m + 1 attempts, whatever
-- MaxIdempotentCallAttempts is, and reports that attempt's error, ErrConnectionClosed for an EOF.
-- Each attempt before failed with retry, and not with EOF unless the request is idempotent: so one
-- that is not idempotent is tried again after every failure with retry but EOF.
pub do_all-first_final :
    (fuel configured m : ℕ) (idempotent : Bool) (outcomes : ℕ → Outcome)
    → m < fuel
    → max_attempts configured + m < 2 ^ 63
    → ((j : ℕ) → j < m → is_final idempotent (outcomes j) ≡ false)
    → is_final idempotent (outcomes m) ≡ true
    → (do_all fuel configured idempotent outcomes ≡ some (reported (outcomes m).err, m + 1))
      × ((j : ℕ) → j < m → IsRetried idempotent (outcomes j))
unfolding do_all
do_all-first_final fuel configured m idempotent outcomes f b before final =
    let ran =
      do_loop-first idempotent outcomes fuel 0 (max_attempts configured) m none (omega arith)
        (omega (arith, f)) (ground arith) (omega (arith, b)) (λ j h. before j) final in
    (rw (ran, do_all) refl, λ j below. is_final-IsRetried idempotent (outcomes j) (before j below))
