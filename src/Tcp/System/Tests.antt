-- ===== src/Tcp/System/Tests.antt =====
-- A host that allows two connections: one that was used becomes idle while another is used.
use slept.Prelude.{
  ◌<◌, get_elem?, ◌⊎◌, some, List, ℕ, ◌≤◌, ◌≡◌, refl, arith, true, false, [], ◌∷◌, All,
  if◌then◌else◌, ◌==◌,
}
use slept.Prelude.Int.{pos}
use slept.Tcp.Caller.{new_caller, waiting}
use slept.Tcp.Queue.{empty, push_back, clear_front, len, peek_front, clear_front_loop}
use slept.Tcp.Host.{queue_waiting_caller}
use slept.Tcp.Host.Waiting.{Queued}
use slept.Tcp.System.Store.{target_of}
use slept.Tcp.System.Forgotten.{Reach_never_forgets}
use slept.Tcp.System.{put, awaiting, full, take_none, enqueue}
use slept.Tcp.Host.{
  Host, new_host, conn_limit, take_conn, recycle, push_idle, drop_slot, sweep,
  default_max_conns_per_host,
}
use slept.Tcp.System.{
  start, dialing, using, recycling, finished, System, callers_of, with_callers, go, spawn,
  spawn_cleaner, on_host, connect, arrive, take_slot, dialed, release, recycled, Reach, here, later,
}
use slept.Tcp.System.Totals.{initial, total, OtherThan, Reach-count, Reach_exclusive}
use slept.Tcp.System.Returns.{Returns, Ends, Reach-Returns}

abbrev one_taken : Host
one_taken = record (new_host 2 0 0) { count = pos 1; cleaner_running = true }

abbrev two_taken : Host
two_taken = record (new_host 2 0 0) { count = pos 2; cleaner_running = true }

abbrev first_idle : Host
first_idle = record two_taken { conns = record { conn = 0; last_use = 7 } ∷ [] }

-- Task 0 has dialed connection 0, and task 1 is the cleaner.
abbrev s1 : System
s1 = spawn_cleaner true (go 0 dialing (on_host one_taken (spawn start (initial 2 0 0))))

abbrev s2 : System
s2 = go 0 (using 0) (connect s1)

s2-Reach : Reach (initial 2 0 0) s2
unfolding take_conn conn_limit
s2-Reach =
    later (later (later here arrive) (take_slot 0 one_taken true (omega arith) refl refl))
      (dialed 0 (omega arith) refl)

-- Task 2 has dialed connection 1.
abbrev s3 : System
s3 = go 2 (using 1) (connect (go 2 dialing (on_host two_taken (spawn start s2))))

s3-Reach : Reach (initial 2 0 0) s3
unfolding take_conn conn_limit
s3-Reach =
    later (later (later s2-Reach arrive) (take_slot 2 two_taken false (omega arith) refl refl))
      (dialed 2 (omega arith) refl)

-- Connection 0 is idle.
abbrev s4 : System
s4 = go 0 (recycling 0) s3

abbrev s5 : System
s5 =
    go 0 finished
      (record s4 { host = first_idle; cells = with_callers (callers_of s4.cells) s4.cells })

s5-Reach : Reach (initial 2 0 0) s5
unfolding recycle push_idle
s5-Reach = later (later s3-Reach (release 0 0 (omega arith) refl)) (
    recycled 0 0 7 (λ w. true) first_idle (callers_of s4.cells) (omega arith) refl
      (λ w c made waits. refl) refl)

Reach-count_example :
    (s5.host.count ≡ pos (total s5))
    × (total s5 ≤ (if ◌==◌ 2 0 then default_max_conns_per_host else 2))
Reach-count_example = Reach-count 2 0 0 s5-Reach

Reach_exclusive_example : (◌≡◌ {A = ℕ} 2 2) × All (OtherThan 1) s5.host.conns
Reach_exclusive_example = Reach_exclusive 2 0 0 s5-Reach 2 2 1 (omega arith) (omega arith) refl refl

Reach-Returns_example :
    Returns (take_conn s5.host)
    × Ends (queue_waiting_caller (λ w. true) 4 s5.host)
    × Ends (recycle (λ w. true) 9 1 (callers_of s5.cells) s5.host)
    × Ends (drop_slot (λ w. true) s5.host)
    × Returns (sweep 9 s5.host)
Reach-Returns_example = Reach-Returns 2 0 0 s5-Reach (λ w. true) 9 1 4

-- One connection at most, and a request that waits for it.
abbrev one_host : Host
one_host = new_host 1 5 0

abbrev one_used : Host
one_used = record one_host { count = pos 1; cleaner_running = true }

abbrev t1 : System
t1 = spawn_cleaner true (go 0 dialing (on_host one_used (spawn start (initial 1 5 0))))

abbrev t2 : System
t2 = go 2 full (on_host one_used (spawn start t1))

abbrev queue_of_2 : Host
queue_of_2 = record one_used { queue = some (push_back empty 2) }

abbrev t3 : System
t3 = put 2 (record { task = awaiting; caller = some new_caller }) (on_host queue_of_2 t2)

t3-Reach : Reach (initial 1 5 0) t3
unfolding take_conn conn_limit queue_waiting_caller push_back clear_front len peek_front
    clear_front_loop
t3-Reach =
    later
      (later
        (later (later (later here arrive) (take_slot 0 one_used true (omega arith) refl refl))
          arrive)
        (take_none 2 one_used (omega arith) refl refl))
      (enqueue 2 (λ w. true) queue_of_2 (omega arith) refl (λ w c made waits. refl) refl)

t3-waiting : waiting new_caller ≡ true
unfolding waiting
t3-waiting = refl

Reach_never_forgets_example :
    (ws : List ℕ) × Queued t3.host.queue ws
    × (((k : ℕ) × (get_elem? ws k ≡ some 2))
        ⊎ ((i : ℕ) × (i < t3.size) × (target_of (t3.cells i).task ≡ some 2)))
Reach_never_forgets_example =
    Reach_never_forgets 1 5 0 t3-Reach 2 new_caller (omega arith) refl t3-waiting
