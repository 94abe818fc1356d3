-- ===== src/Tcp/Timer/Tests.antt =====
-- A timer that has expired is released, after its time was sent or before, and acquired again.
use slept.Prelude.{ℕ, ◌≡◌, refl, ◌==◌, ◌||◌, not, Bool, true, false, [], ◌∷◌}
use slept.Prelude.Results.{ok, err, panic}
use slept.Prelude.Cells.{overwrite}
use slept.Tcp.Pool.{pick}
use slept.Tcp.Timer.{
  new_timer, Timers, no_timers, expire, send, acquire_timer, timer_got, release_timer, stop_timer,
  init_timer,
}
use slept.Tcp.Timer.Acquired.{Running}
use slept.Tcp.Timer.Reach.{
  TimerReach, started, was_acquired, expired, was_sent, was_released, acquire_timer-Running,
}

abbrev never : ℕ → Bool
never r = false

abbrev in_use : Timers
in_use = record {
  timers = overwrite 0 new_timer no_timers.timers;
  timers_made = 1;
  timer_pool = [];
  held = overwrite 0 true no_timers.held;
}

in_use-TimerReach : TimerReach never in_use
unfolding acquire_timer timer_got pick
in_use-TimerReach = was_acquired 0 0 started refl

abbrev late : Timers
late = release_timer 0 (record in_use {
  timers = overwrite 0 (send (expire new_timer)) (overwrite 0 (expire new_timer) in_use.timers);
})

late-TimerReach : TimerReach (overwrite 0 (never 0 || not (◌==◌ 0 0)) never) late
late-TimerReach = was_released 0 (was_sent 0 (expired 0 in_use-TimerReach)) refl

acquire_timer-Running_example :
    (s1 : Timers) × (r : ℕ) × (acquire_timer 0 late ≡ ok (s1, r))
    × Running (overwrite 0 (never 0 || not (◌==◌ 0 0)) never) s1 r
    × (late.held r ≡ false)
acquire_timer-Running_example = acquire_timer-Running _ late 0 late-TimerReach

-- It is the timer that expired.
again :
    (late.timers 0 ≡ record { active = false; sending = 0; sent = false })
    × (late.timer_pool ≡ 0 ∷ [])
unfolding release_timer stop_timer
again = (refl, refl)

-- Released before its time was sent, it has this time in its channel when it runs again.
abbrev too_soon : Timers
too_soon = release_timer 0 (record in_use { timers = overwrite 0 (expire new_timer) in_use.timers })

stale_time :
    (elim (acquire_timer 0
      (record too_soon { timers = overwrite 0 (send (too_soon.timers 0)) too_soon.timers })) [
        | ok (s1, r) ↦ s1.timers r
        | err why ↦ new_timer
        | panic ↦ new_timer
      ])
    ≡ record { active = true; sending = 0; sent = true }
unfolding acquire_timer timer_got pick init_timer release_timer stop_timer
stale_time = refl
