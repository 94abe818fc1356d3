-- ===== src/Tcp/Timer.antt =====
-- sleepytcp/timer.go: the pool of timers. A timer is the number under which it was made; a time.Timer
-- is whether it runs, how many times are under way to its channel, and whether one is in the channel,
-- which has room for one: the runtime takes an expired timer off first, and sends the time after.
pub mod Quiet
pub mod Acquired
pub mod Released
pub mod Reach
mod Tests
use slept.Prelude.{
  ℕ, ◌+◌, ◌-◌, ◌==◌, Bool, true, false, if◌then◌else◌, List, [], ◌∷◌, Option, none, some,
}
use slept.Prelude.Results.{Result, ok, panic, ◌>>=◌}
use slept.Prelude.Cells.{overwrite}
use slept.Tcp.Pool.{pick}

pub record Timer : Type 0 where
  pub active : Bool
  pub sending : ℕ
  pub sent : Bool

-- `time.NewTimer`
abbrev pub new_timer : Timer
new_timer = record { active = true; sending = 0; sent = false }

-- `t.Reset` and `t.Stop`, which tell whether the timer ran. The channel stays as it is.
abbrev pub reset_timer : Timer → Timer × Bool
reset_timer t = (record t { active = true }, t.active)

abbrev pub halt : Timer → Timer × Bool
halt t = (record t { active = false }, t.active)

-- The time is up: only a timer that runs expires.
abbrev pub expire : Timer → Timer
expire t = if t.active then record t { active = false; sending = t.sending + 1 } else t

-- A time that is under way is sent, or lost when the channel is full.
abbrev pub send : Timer → Timer
send t = if t.sending == 0 then t else record t { sending = t.sending - 1; sent = true }

-- A receive from the channel, if the time is there.
abbrev pub drain : Timer → Timer
drain t = record t { sent = false }

unfoldable pub init_timer : Option Timer → Result Timer
init_timer none = ok new_timer
init_timer (some t) = let (t1, ran) = reset_timer t in if ran then panic else ok t1

unfoldable pub stop_timer : Timer → Timer
stop_timer t = let (t1, ran) = halt t in if ran then t1 else drain t1

-- The timers that were made, the pool, and which timers are in use.
pub record Timers : Type 0 where
  pub timers : ℕ → Timer
  pub timers_made : ℕ
  pub timer_pool : List ℕ
  pub held : ℕ → Bool

abbrev pub no_timers : Timers
no_timers = record { timers = λ r. new_timer; timers_made = 0; timer_pool = []; held = λ r. false }

unfoldable pub timer_got : Option (ℕ × List ℕ) → Timers → Result (Timers × ℕ)
unfolding init_timer
timer_got none s = ok (
  record {
    timers = overwrite s.timers_made new_timer s.timers;
    timers_made = s.timers_made + 1;
    timer_pool = s.timer_pool;
    held = overwrite s.timers_made true s.held;
  },
  s.timers_made,
)
timer_got (some (r, rest)) s = do
  t ← init_timer (some (s.timers r))
  ok (
    record {
      timers = overwrite r t s.timers;
      timers_made = s.timers_made;
      timer_pool = rest;
      held = overwrite r true s.held;
    },
    r,
  )

unfoldable pub acquire_timer : ℕ → Timers → Result (Timers × ℕ)
unfolding timer_got pick
acquire_timer at s = timer_got (pick at s.timer_pool) s

unfoldable pub release_timer : ℕ → Timers → Timers
unfolding stop_timer
release_timer r s = record {
  timers = overwrite r (stop_timer (s.timers r)) s.timers;
  timers_made = s.timers_made;
  timer_pool = r ∷ s.timer_pool;
  held = overwrite r false s.held;
}
