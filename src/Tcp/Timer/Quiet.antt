-- ===== src/Tcp/Timer/Quiet.antt =====
-- The pool of timers: those in it are stopped, and drained unless they were released while a time
-- was under way.
use slept.Prelude.{
  ℕ, ◌<◌, ◌≡◌, ◌≢◌, inl, inr, refl, sym, ◌∙◌, ap, Bool, true, false, List, [], ◌∷◌, some, All,
  Distinct, Bool-cases,
}
use slept.Prelude.Results.{ok}
use slept.Prelude.Cells.{overwrite, overwrite_self, overwrite_ne}
use native.Mathlib.Decide.{ℕ_discrete}
use slept.Tcp.Pool.{Absent}
use slept.Tcp.Timer.{Timer, init_timer, stop_timer, Timers}

-- A timer that waits in the pool.
abbrev pub idle : Timer
idle = record { active = false; sending = 0; sent = false }

-- `late` has the timers that were released while a time was under way: of the others nothing is left.
abbrev pub IsStopped : Bool → Timer → Type 0
IsStopped late t = (t.active ≡ false) × (late ≡ false → t ≡ idle)

abbrev pub Waits : (ℕ → Bool) → Timers → ℕ → Type 0
Waits late s r = IsStopped (late r) (s.timers r) × (s.held r ≡ false) × (r < s.timers_made)

-- For a timer that runs no time is under way or in the channel.
abbrev pub Calm : Bool → Timer → Type 0
Calm late t = late ≡ false → t.active ≡ true → (t.sending ≡ 0) × (t.sent ≡ false)

pub record Quiet (late : ℕ → Bool) (s : Timers) : Type 0 where
  pub distinct : Distinct s.timer_pool
  pub calm : (r : ℕ) → Calm (late r) (s.timers r)
  pub held_made : (r : ℕ) → s.held r ≡ true → r < s.timers_made
  pub waits : All (Waits late s) s.timer_pool

-- Who does not wait is not in the pool.
pub absent : (P : ℕ → Type 0) (r : ℕ) (pool : List ℕ) → All P pool → (P r → ⊥) → Absent r pool
absent P r [] h busy = tt
absent P r (q ∷ pool) h busy = (λ e. busy (rw e at h.0), absent P r pool h.1 busy)

-- Waiting timers stay as they are.
pub everywhere :
    (P Q : ℕ → Type 0) (pool : List ℕ) → ((q : ℕ) → P q → Q q) → All P pool → All Q pool
everywhere P Q [] keeps h = tt
everywhere P Q (q ∷ pool) keeps h = (keeps q h.0, everywhere P Q pool keeps h.1)

-- All but one, which is not in the list.
pub elsewhere :
    (P Q : ℕ → Type 0) (r : ℕ) (pool : List ℕ)
    → ((q : ℕ) → q ≢ r → P q → Q q)
    → Absent r pool
    → All P pool
    → All Q pool
elsewhere P Q r [] keeps away h = tt
elsewhere P Q r (q ∷ pool) keeps away h =
    (keeps q away.0 h.0, elsewhere P Q r pool keeps away.1 h.1)

-- A timer that is released, and one that is given again.
pub stopped : (t : Timer) → (stop_timer t).active ≡ false
unfolding stop_timer
stopped t = elim (Bool-cases t.active) [ inl y ↦ rw y refl | inr n ↦ rw n refl ]

pub stopped-idle :
    (t : Timer) → t.sending ≡ 0 → (t.active ≡ true → t.sent ≡ false) → stop_timer t ≡ idle
unfolding stop_timer
stopped-idle t none_sent kept = elim (Bool-cases t.active) [
  | inl y ↦ rw (y, none_sent) (ap (λ (b : Bool). record idle { sent = b }) (kept y))
  | inr n ↦ rw (n, none_sent) refl
]

pub init-stopped :
    (t : Timer) → t.active ≡ false → init_timer (some t) ≡ ok (record t { active = true })
unfolding init_timer
init-stopped t e = rw e refl

-- One timer written.
pub Calm-overwrite :
    (late : ℕ → Bool) (s : Timers) (r : ℕ) (t : Timer)
    → ((q : ℕ) → Calm (late q) (s.timers q))
    → Calm (late r) t
    → (q : ℕ) → Calm (late q) (overwrite r t s.timers q)
Calm-overwrite late s r t calm new q = elim (ℕ_discrete q r) [
  | yes e ↦ rw (e, overwrite_self r t s.timers) new
  | no e ↦ rw (overwrite_ne r q t s.timers e) (calm q)
]

-- One mark written.
pub made-overwrite :
    (s : Timers) (r n : ℕ) (b : Bool)
    → ((q : ℕ) → s.held q ≡ true → q < n)
    → r < n
    → (q : ℕ) → overwrite r b s.held q ≡ true
    → q < n
made-overwrite s r n b made new q e = elim (ℕ_discrete q r) [
  | yes same ↦ rw same new
  | no other ↦ made q (sym (overwrite_ne r q b s.held other) ∙ e)
]
