-- ===== src/Tcp/Timer/Acquired.antt =====
-- AcquireTimer on a quiet pool.
use slept.Prelude.{
  ℕ, ◌+◌, ◌≡◌, ◌≢◌, inl, inr, refl, ◌∙◌, ap, arith, Bool, true, false, List, none, some, All,
  Distinct, Option-cases, Bool-cases,
}
use slept.Prelude.Results.{Result, ok}
use slept.Prelude.Cells.{overwrite, overwrite_self, overwrite_ne}
use slept.Tcp.Pool.{pick, Absent, pick-Picked, pick-All}
use slept.Tcp.Timer.{Timer, new_timer, Timers, timer_got, acquire_timer}
use slept.Tcp.Timer.Quiet.{
  Waits, Quiet, everywhere, elsewhere, init-stopped, Calm-overwrite, made-overwrite,
}

-- A timer that is acquired: it runs and is in use; and nothing is in its channel or under way, unless
-- it was late.
pub record Running (late : ℕ → Bool) (s1 : Timers) (r : ℕ) : Type 0 where
  pub runs : (s1.timers r).active ≡ true
  pub fresh : late r ≡ false → s1.timers r ≡ new_timer
  pub in_use : s1.held r ≡ true

module _ (late : ℕ → Bool) (s : Timers) (quiet : Quiet late s) where
  abbrev Acquires : Result (Timers × ℕ) → Type 0
  Acquires call =
      (s1 : Timers) × (r : ℕ) × (call ≡ ok (s1, r))
      × Quiet late s1
      × Running late s1 r
      × (s.held r ≡ false)

  acquired-new : Acquires (timer_got none s)
  unfolding timer_got
  acquired-new =
      let s1 : Timers = record {
        timers = overwrite s.timers_made new_timer s.timers;
        timers_made = s.timers_made + 1;
        timer_pool = s.timer_pool;
        held = overwrite s.timers_made true s.held;
      } in
      (
        s1,
        s.timers_made,
        refl,
        record {
          distinct = quiet.distinct;
          calm =
              Calm-overwrite late s s.timers_made new_timer quiet.calm (λ on_time e. (refl, refl));
          held_made =
              made-overwrite s s.timers_made (s.timers_made + 1) true
                (λ q e. omega (arith, quiet.held_made q e)) (omega arith);
          waits =
              everywhere (Waits late s) (Waits late s1) s.timer_pool
                (λ q h.
                  let other : q ≢ s.timers_made = λ e. absurd (omega (arith, h.2, e)) in
                  (
                    rw (overwrite_ne s.timers_made q new_timer s.timers other) h.0,
                    overwrite_ne s.timers_made q true s.held other ∙ h.1,
                    omega (arith, h.2),
                  ))
                quiet.waits;
        },
        record {
          runs = rw (overwrite_self s.timers_made new_timer s.timers) refl;
          fresh = λ on_time. overwrite_self s.timers_made new_timer s.timers;
          in_use = overwrite_self s.timers_made true s.held;
        },
        elim (Bool-cases (s.held s.timers_made)) [
          | inl y ↦ absurd (omega (arith, quiet.held_made s.timers_made y))
          | inr n ↦ n
        ],
      )

  acquired-pooled :
      (r : ℕ) (rest : List ℕ)
      → Waits late s r
      → All (Waits late s) rest
      → Absent r rest
      → Distinct rest
      → Acquires (timer_got (some (r, rest)) s)
  unfolding timer_got
  acquired-pooled r rest waits others away distinct =
      let again : Timer = record (s.timers r) { active = true } in
      let renewed : late r ≡ false → again ≡ new_timer =
        λ on_time. ap (λ (t : Timer). record t { active = true }) (waits.0.1 on_time) in
      let s1 : Timers = record {
        timers = overwrite r again s.timers;
        timers_made = s.timers_made;
        timer_pool = rest;
        held = overwrite r true s.held;
      } in
      (
        s1,
        r,
        rw (init-stopped (s.timers r) waits.0.0) refl,
        record {
          distinct = distinct;
          calm =
              Calm-overwrite late s r again quiet.calm (λ on_time e.
                (ap Timer.sending (renewed on_time), ap Timer.sent (renewed on_time)));
          held_made = made-overwrite s r s.timers_made true quiet.held_made waits.2;
          waits =
              elsewhere (Waits late s) (Waits late s1) r rest
                (λ q other h. (
                  rw (overwrite_ne r q again s.timers other) h.0,
                  overwrite_ne r q true s.held other ∙ h.1,
                  h.2,
                ))
                away others;
        },
        record {
          runs = rw (overwrite_self r again s.timers) refl;
          fresh = λ on_time. overwrite_self r again s.timers ∙ renewed on_time;
          in_use = overwrite_self r true s.held;
        },
        waits.1,
      )

  pub acquires : (at : ℕ) → Acquires (acquire_timer at s)
  unfolding acquire_timer
  acquires at = elim (Option-cases (pick at s.timer_pool)) [
    | inl nothing ↦ rw nothing acquired-new
    | inr ((r, rest), found) ↦
        let (waits, others) = pick-All (Waits late s) at s.timer_pool r rest found quiet.waits in
        let (away, distinct) = (pick-Picked at s.timer_pool r rest found).once quiet.distinct in
        rw found (acquired-pooled r rest waits others away distinct)
  ]
