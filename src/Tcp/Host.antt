-- ===== src/Tcp/Host.antt =====
-- sleepytcp/client_host.go: what HostClient does under its lock, one function for each critical
-- section. Durations and times are numbers of nanoseconds; a limit that is not positive is 0.
pub mod Waiting
pub mod Idles
pub mod Sections
pub mod Recycle
pub mod Usage
pub mod Tests
use slept.Prelude.{
  ℕ, zero, suc, ◌+◌, ◌-◌, ◌*◌, Bool, true, false, not, ◌&&◌, ◌==◌, ltb, if◌then◌else◌, List, [],
  ◌∷◌, ◌++◌, length, take, drop, Option, none, some,
}
use slept.Prelude.Int.{ℤ, pos, increment, decrement, is_below, is_zero}
use slept.Prelude.Cells.{overwrite}
use slept.Prelude.Results.{Result, ok, ◌>>=◌, index, slice_to, slice_from, deref}
use slept.Tcp.Queue.{Queue, empty, len, push_back, pop_front, clear_front}
use slept.Tcp.Caller.{Failure, no_free_conns, timed_out, Caller, try_deliver}

-- An idle connection and the time of its last use: clientConn of client_conn.go.
pub record Idle : Type 0 where
  pub conn : ℕ
  pub last_use : ℕ

pub record Host : Type 0 where
  pub max_conns : ℕ
  pub max_conn_wait : ℕ
  pub max_idle_duration : ℕ
  pub conns : List Idle
  pub count : ℤ
  pub queue : Option (Queue ℕ)
  pub cleaner_running : Bool

-- A HostClient with these limits, before its first request.
abbrev pub new_host : ℕ → ℕ → ℕ → Host
new_host max_conns max_conn_wait max_idle_duration = record {
  max_conns = max_conns;
  max_conn_wait = max_conn_wait;
  max_idle_duration = max_idle_duration;
  conns = [];
  count = pos 0;
  queue = none;
  cleaner_running = false;
}

-- `DefaultMaxConnsPerHost` and `DefaultMaxIdleConnDuration`
abbrev pub default_max_conns_per_host : ℕ
default_max_conns_per_host = 512

abbrev pub default_max_idle_conn_duration : ℕ
default_max_idle_conn_duration = 10 * 1000000000

unfoldable pub conn_limit : Host → ℕ
conn_limit h = if h.max_conns == 0 then default_max_conns_per_host else h.max_conns

-- What a request gets at first: an idle connection, the right to open one (and whether it starts
-- the cleaner), or nothing.
pub data Taken : Type 0 where
  reused : ℕ → Taken
  created : Bool → Taken
  exhausted : Taken

unfoldable pub take_conn : Host → Result (Host × Taken)
unfolding conn_limit
take_conn h =
    let n = length h.conns in
    if n == 0
    then (if is_below h.count (conn_limit h)
        then ok (
          record h { count = increment h.count; cleaner_running = true },
          created (not h.cleaner_running),
        )
        else ok (h, exhausted))
    else (do
      cc ← index h.conns (n - 1)
      rest ← slice_to h.conns (n - 1)
      ok (record h { conns = rest }, reused cc.conn))

-- How long a request waits, and the error if it waits in vain; none is no wait at all.
unfoldable pub wait_plan : ℕ → ℕ → Option (ℕ × Failure)
wait_plan max_wait timeout =
    if max_wait == 0
    then none
    else (if ltb 0 timeout && ltb timeout max_wait
        then some (timeout, timed_out)
        else some (max_wait, no_free_conns))

abbrev pub queue_or_empty : Option (Queue ℕ) → Queue ℕ
queue_or_empty none = empty
queue_or_empty (some q) = q

-- `tryRecycleClientConn`: the connection goes to the first caller that waits, or becomes idle.
unfoldable pub push_idle : ℕ → ℕ → Host → Host
push_idle now cc h = record h { conns = h.conns ++ record { conn = cc; last_use = now } ∷ [] }

unfoldable pub hand_over :
    ℕ → ℕ → ℕ → (ℕ → Option Caller) → Host → Result (Host × (ℕ → Option Caller))
hand_over now cc caller callers h = do
  c ← deref (callers caller)
  (delivered, c1) ← try_deliver (some cc) none c
  ok (if delivered then h else push_idle now cc h, overwrite caller (some c1) callers)

-- `seen` is what `waiting` told of each caller when the section asked. The sections that follow give
-- none if their loop does not end.
module _ (seen : ℕ → Bool) where
  unfoldable pub queue_waiting_caller : ℕ → Host → Result (Option Host)
  queue_waiting_caller caller h = clear_front seen (queue_or_empty h.queue) >>= λ cleared.
      ok (elim cleared [
        | none ↦ none
        | some (dropped, q1) ↦ some (record h { queue = some (push_back q1 caller) })
      ])

  -- `for queue.len() > 0 { if caller := queue.popFront(); caller.waiting() { ...; break } }`
  unfoldable pub next_waiting : ℕ → Queue ℕ → Result (Option (Option ℕ × Queue ℕ))
  next_waiting zero q = ok none
  next_waiting (suc fuel) q = elim (ltb 0 (len q)) [
    | false ↦ ok (some (none, q))
    | true ↦ pop_front q >>= λ popped. deref popped.0 >>= λ caller. elim (seen caller) [
      | true ↦ ok (some (some caller, popped.1))
      | false ↦ next_waiting fuel popped.1
    ]
  ]

  unfoldable pub search_queue : Option (Queue ℕ) → Result (Option (Option ℕ × Option (Queue ℕ)))
  unfolding next_waiting
  search_queue none = ok (some (none, none))
  search_queue (some q) = next_waiting (len q + 1) q >>= λ found.
      ok (elim found [ none ↦ none | some (caller, q1) ↦ some (caller, some q1) ])

  unfoldable pub find_waiting : Host → Result (Option (Option ℕ × Host))
  unfolding search_queue
  find_waiting h = search_queue h.queue >>= λ found. ok (elim found [
    | none ↦ none
    | some (caller, queue) ↦ some (caller, record h { queue = queue })
  ])

  unfoldable pub recycle :
      ℕ → ℕ → (ℕ → Option Caller) → Host → Result (Option (Host × (ℕ → Option Caller)))
  recycle now cc callers h =
      if h.max_conn_wait == 0
      then ok (some (push_idle now cc h, callers))
      else find_waiting h >>= λ found. elim found [
        | none ↦ ok none
        | some (none, h1) ↦ ok (some (push_idle now cc h1, callers))
        | some (some caller, h1) ↦ hand_over now cc caller callers h1 >>= λ handed. ok (some handed)
      ]

  -- `decrementCountOrTryDialForWaitingCaller`; the caller is the one to dial for.
  unfoldable pub drop_slot : Host → Result (Option (Host × Option ℕ))
  drop_slot h =
      let fewer = λ (g : Host). record g { count = decrement g.count } in
      if h.max_conn_wait == 0
      then ok (some (fewer h, none))
      else find_waiting h >>= λ found. ok (elim found [
        | none ↦ none
        | some (none, h1) ↦ some (fewer h1, none)
        | some (some caller, h1) ↦ some (h1, some caller)
      ])

-- `cleanupIdleConnections`: how many connections at the front have been idle for too long.
unfoldable pub count_expired : ℕ → ℕ → List Idle → ℕ
count_expired now limit [] = 0
count_expired now limit (cc ∷ ccs) =
    let more = count_expired now limit ccs in if ltb limit (now - cc.last_use) then suc more else 0

unfoldable pub idle_limit : Host → ℕ
idle_limit h =
    if h.max_idle_duration == 0 then default_max_idle_conn_duration else h.max_idle_duration

-- One round of the cleaner: what stays, what it closes, and how long it sleeps then.
pub record Sweep : Type 0 where
  pub host : Host
  pub scratch : List Idle
  pub duration : ℕ

unfoldable pub sweep_pause : ℕ → ℕ → ℕ → List Idle → Result ℕ
sweep_pause now limit i ccs =
    if ltb i (length ccs)
    then (do cc ← index ccs i; ok (limit + cc.last_use - now + 1))
    else ok limit

unfoldable pub sweep : ℕ → Host → Result Sweep
unfolding idle_limit
sweep now h =
    let limit = idle_limit h in
    let i = count_expired now limit h.conns in
    (do
      scratch ← slice_to h.conns i
      rest ← slice_from h.conns i
      duration ← sweep_pause now limit i h.conns
      ok (record { host = record h { conns = rest }; scratch = scratch; duration = duration }))
