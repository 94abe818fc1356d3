-- ===== src/Tcp/Tests.antt =====
-- The queue of waiting callers, a caller, a request and a client at concrete states.
use slept.Prelude.{
  ℕ, ◌<◌, ◌==◌, ◌≡◌, ◌⊎◌, refl, arith, true, false, ltb, if◌then◌else◌, List, [], ◌∷◌, none, some,
}
use slept.Prelude.Results.{ok}
use slept.Tcp.Queue.{Queue, len, pop_front, peek_front, clear_front}
use slept.Tcp.Queue.Fifo.{Holds, pop_front-Holds, peek_front-Holds, len-Holds}
use slept.Tcp.Queue.Clear.{from_waiting, clear_front-Holds}
use slept.Tcp.Caller.{Caller, new_caller, waiting, try_deliver, IsSound, broken}
use slept.Tcp.Caller.Once.{new_caller-IsSound, try_deliver-once}
use slept.Tcp.Request.{Outcome, destroyed, given_back, is_final, do_all}
use slept.Tcp.Request.Attempts.{IsRetried, do_all-first_final}
use slept.Tcp.Client.{
  Limits, Pool, PoolReach, fresh, after, request, find_client, lookup, new_entry,
}
use slept.Tcp.Client.Cleaner.{Kept, PoolReach-Kept}

-- One caller popped from the first stage, 2 left there, and 3 in the second.
abbrev two_stages : Queue ℕ
two_stages = record { head = none ∷ some 2 ∷ []; head_pos = 1; tail = some 3 ∷ [] }

abbrev two : List ℕ
two = 2 ∷ 3 ∷ []

two-Holds : Holds two_stages two
two-Holds = record { pos_small = omega arith; callers = refl }

pop_front-Holds_example :
    (two ≡ []) × (pop_front two_stages ≡ ok (none, two_stages))
    ⊎ (w : ℕ) × (r : List ℕ) × (q : Queue ℕ) × (two ≡ w ∷ r)
      × (pop_front two_stages ≡ ok (some w, q))
      × Holds q r
pop_front-Holds_example = pop_front-Holds two_stages two two-Holds

peek_front-Holds_example : peek_front two_stages ≡ ok (some 2)
peek_front-Holds_example = peek_front-Holds two_stages two two-Holds

len-Holds_example : len two_stages ≡ 2
len-Holds_example = len-Holds two_stages two two-Holds

clear_front-Holds_example :
    (q : Queue ℕ) × (clear_front (λ w. ltb 2 w) two_stages ≡ ok (some (true, q)))
    × Holds q (from_waiting (λ w. ltb 2 w) two)
clear_front-Holds_example = clear_front-Holds (λ w. ltb 2 w) two_stages two two-Holds

try_deliver-once_example :
    (waiting new_caller ≡ false) × (try_deliver (some 3) none new_caller ≡ ok (false, new_caller))
    ⊎ (waiting new_caller ≡ true)
      × (c1 : Caller) × (try_deliver (some 3) none new_caller ≡ ok (true, c1))
      × IsSound c1
      × (waiting c1 ≡ false)
      × (c1.conn ≡ some 3)
      × (c1.err ≡ none)
try_deliver-once_example = try_deliver-once (some 3) none new_caller new_caller-IsSound refl

-- Seven attempts of a request that is not idempotent fail on broken connections, and the eighth
-- succeeds.
abbrev eighth : ℕ → Outcome
eighth j =
    if j == 7
    then record { retry = false; err = none; fate = given_back }
    else record { retry = true; err = some broken; fate = destroyed }

eighth-before : (j : ℕ) → j < 7 → is_final false (eighth j) ≡ false
unfolding is_final
eighth-before j h = ground arith

eighth-final : is_final false (eighth 7) ≡ true
unfolding is_final
eighth-final = refl

do_all-first_final_example :
    (do_all 20 3 false eighth ≡ some (none, 8)) × ((j : ℕ) → j < 7 → IsRetried false (eighth j))
do_all-first_final_example =
    do_all-first_final 20 3 7 false eighth (omega arith) (omega arith) eighth-before eighth-final

abbrev small_limits : Limits
small_limits = record {
  max_conns_per_host = 2;
  max_conn_wait = 0;
  max_idle_duration = 5;
  max_idempotent_call_attempts = 0;
}

-- Requests to two addresses.
abbrev two_hosts : Pool
two_hosts = record {
  clients = new_entry small_limits 8 ∷ new_entry small_limits 6 ∷ [];
  cleaners = 1;
}

two_hosts-PoolReach : PoolReach small_limits two_hosts
unfolding find_client lookup new_entry
two_hosts-PoolReach = after (after fresh (request 6)) (request 8)

PoolReach-Kept_example : Kept two_hosts
PoolReach-Kept_example = PoolReach-Kept two_hosts-PoolReach
