-- ===== src/Tcp/System/Returns.antt =====
-- No section panics, and the loops over the queue end.
use slept.Prelude.{ℕ, ◌≡◌, Bool, Option, some}
use slept.Prelude.Results.{Result, ok}
use slept.Tcp.Host.{take_conn, queue_waiting_caller, recycle, drop_slot, sweep}
use slept.Tcp.Host.Sections.{take_conn-TakeOutcome, drop_slot-DropOutcome}
use slept.Tcp.Host.Waiting.{queue_waiting_caller-Queued}
use slept.Tcp.Host.Recycle.{recycle-RecycleOutcome, sweep-SweepOutcome}
use slept.Tcp.System.{System, Reach, callers_of}
use slept.Tcp.System.Store.{IsCaller}
use slept.Tcp.System.Parts.{callers-IsSound}
use slept.Tcp.System.Totals.{initial, Reach-Inv}

-- The call returns a value.
abbrev pub Returns {ℓ} : {A : Type ℓ} → Result A → Type ℓ
Returns {A} call = (a : A) × (call ≡ ok a)

-- The call returns, and its loop has ended.
abbrev pub Ends {ℓ} : {A : Type ℓ} → Result (Option A) → Type ℓ
Ends {A} call = (a : A) × (call ≡ ok (some a))

module _ (max_conns max_conn_wait max_idle_duration : ℕ) {t : System}
    (r : Reach (initial max_conns max_conn_wait max_idle_duration) t) where
  -- In every reachable state, whatever `waiting` tells, no section panics and the loops over the queue
  -- end: looking for a connection, queueing a caller (whose loop clears the front of the queue),
  -- recycling a connection, dropping a slot, and a round of the cleaner.
  pub Reach-Returns :
      (seen : ℕ → Bool) (now conn caller : ℕ)
      → Returns (take_conn t.host)
        × Ends (queue_waiting_caller seen caller t.host)
        × Ends (recycle seen now conn (callers_of t.cells) t.host)
        × Ends (drop_slot seen t.host)
        × Returns (sweep now t.host)
  Reach-Returns seen now conn caller =
      let inv = Reach-Inv max_conns max_conn_wait max_idle_duration r in
      let (x, took, o1) = take_conn-TakeOutcome (λ c. 0) t.host in
      let (q, queued, kept) =
        queue_waiting_caller-Queued seen t.host inv.queue.waiters caller inv.queue.queued in
      let (y, recycled, o2) =
        recycle-RecycleOutcome (λ c. 0) (IsCaller t) seen now conn (callers_of t.cells) t.host
          inv.queue (callers-IsSound t inv) in
      let (z, dropped, o3) = drop_slot-DropOutcome (IsCaller t) seen t.host inv.queue in
      let (s, swept, o4) = sweep-SweepOutcome (λ c. 0) now t.host in
      ((x, took), (record (t.host) { queue = q }, queued), (y, recycled), (z, dropped), (s, swept))
