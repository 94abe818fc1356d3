-- ===== src/Tcp/Timer/Reach.antt =====
-- Whoever uses timers, and whenever they expire and their times are sent.
use slept.Prelude.{
  ℕ, ◌≡◌, inl, inr, refl, ap, arith, Bool, true, false, not, ◌||◌, ◌==◌, Bool-cases,
}
use slept.Prelude.Results.{ok}
use slept.Prelude.Cells.{overwrite}
use slept.Tcp.Timer.{Timer, expire, send, drain, Timers, no_timers, acquire_timer, release_timer}
use slept.Tcp.Timer.Quiet.{Quiet, Calm, IsStopped}
use slept.Tcp.Timer.Acquired.{Running, acquires}
use slept.Tcp.Timer.Released.{release-Quiet, touched-Quiet}

-- What can happen: a timer is acquired; one that runs expires; a time that is under way is sent; the
-- user of a timer receives the time, or releases it. Only a timer that is in use is received from or
-- released. `late` has the timers that were ever released while a time was under way.
pub data TimerReach : (ℕ → Bool) → Timers → Type 0 where
  started : TimerReach (λ r. false) no_timers
  was_acquired :
      (at r : ℕ) {late : ℕ → Bool} {s s1 : Timers}
      → TimerReach late s
      → acquire_timer at s ≡ ok (s1, r)
      → TimerReach late s1
  expired :
      (r : ℕ) {late : ℕ → Bool} {s : Timers}
      → TimerReach late s
      → TimerReach late (record s { timers = overwrite r (expire (s.timers r)) s.timers })
  was_sent :
      (r : ℕ) {late : ℕ → Bool} {s : Timers}
      → TimerReach late s
      → TimerReach late (record s { timers = overwrite r (send (s.timers r)) s.timers })
  was_received :
      (r : ℕ) {late : ℕ → Bool} {s : Timers}
      → TimerReach late s
      → s.held r ≡ true
      → TimerReach late (record s { timers = overwrite r (drain (s.timers r)) s.timers })
  was_released :
      (r : ℕ) {late : ℕ → Bool} {s : Timers}
      → TimerReach late s
      → s.held r ≡ true
      → TimerReach
          (overwrite r (late r || not ((s.timers r).sending == 0)) late)
          (release_timer r s)

module _ (late : Bool) (t : Timer) where
  expire-Calm : Calm late (expire t)
  expire-Calm on_time = elim (Bool-cases t.active) [
    | inl y ↦ rw y (λ e. absurd (cc (e)))
    | inr n ↦ rw n (λ e. absurd (cc (e)))
  ]

  expire-IsStopped : IsStopped late t → IsStopped late (expire t)
  expire-IsStopped h = let same : expire t ≡ t = ground (arith, h.0) in rw same h

  send-Calm : Calm late t → Calm late (send t)
  send-Calm h on_time = elim (Bool-cases (t.sending == 0)) [
    | inl y ↦ rw y (h on_time)
    | inr n ↦ rw n (λ e. absurd (ground (arith, (h on_time e).0, n)))
  ]

  send-IsStopped : IsStopped late t → IsStopped late (send t)
  send-IsStopped h = elim (Bool-cases (t.sending == 0)) [
    | inl y ↦ rw y h
    | inr n ↦ rw n (
      h.0,
      λ on_time.
          let nothing = ap Timer.sending (h.1 on_time) in absurd (ground (arith, nothing, n)),
    )
  ]

  drain-IsStopped : IsStopped late t → IsStopped late (drain t)
  drain-IsStopped h = (h.0, λ on_time. ap drain (h.1 on_time))

TimerReach-Quiet : (late : ℕ → Bool) (s : Timers) → TimerReach late s → Quiet late s
TimerReach-Quiet late s started = record {
  distinct = tt;
  calm = λ r on_time e. (refl, refl);
  held_made = λ r e. absurd (cc (e));
  waits = tt;
}
TimerReach-Quiet late s (was_acquired at r {s = s0} reached ran) =
    let (s1, r1, ran1, quiet, running, free) =
      acquires late s0 (TimerReach-Quiet late s0 reached) at in
    let same : s1 ≡ s = cc (ran, ran1) in rw same at quiet
TimerReach-Quiet late s (expired r {s = s0} reached) =
    let t = s0.timers r in
    touched-Quiet late s0 (TimerReach-Quiet late s0 reached) r (expire t) (expire-Calm (late r) t)
      (expire-IsStopped (late r) t)
TimerReach-Quiet late s (was_sent r {s = s0} reached) =
    let t = s0.timers r in
    let quiet = TimerReach-Quiet late s0 reached in
    touched-Quiet late s0 quiet r (send t) (send-Calm (late r) t (quiet.calm r))
      (send-IsStopped (late r) t)
TimerReach-Quiet late s (was_received r {s = s0} reached used) =
    let t = s0.timers r in
    let quiet = TimerReach-Quiet late s0 reached in
    touched-Quiet late s0 quiet r (drain t) (λ on_time runs. ((quiet.calm r on_time runs).0, refl))
      (drain-IsStopped (late r) t)
TimerReach-Quiet late s (was_released r {late = late0} {s = s0} reached used) =
    let quiet = TimerReach-Quiet late0 s0 reached in
    release-Quiet late0 s0 quiet r used (quiet.held_made r used)

-- Whoever acquires, receives from and releases timers, and whenever they expire and their times are
-- sent, if timers are released and received from only while they are in use: `AcquireTimer` does
-- not panic, and its timer runs and was not in use; and if it was never released while a time was
-- under way to its channel, nothing from an earlier use is in the channel or on the way there.
pub acquire_timer-Running :
    (late : ℕ → Bool) (s : Timers) (at : ℕ)
    → TimerReach late s
    → (s1 : Timers) × (r : ℕ) × (acquire_timer at s ≡ ok (s1, r))
      × Running late s1 r
      × (s.held r ≡ false)
acquire_timer-Running late s at reached =
    let (s1, r, ran, quiet, running, free) = acquires late s (TimerReach-Quiet late s reached) at in
    (s1, r, ran, running, free)
