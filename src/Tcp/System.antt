-- ===== src/Tcp/System.antt =====
-- sleepytcp/client_host.go: all that runs on one HostClient, interleaved in any order. Each goroutine
-- is a task; a step is one critical section, one dial, or one operation of a waitingCaller.
pub mod Store
pub mod Known
pub mod Parts
pub mod Amount
pub mod Balance
pub mod Answers
pub mod Steps
pub mod Invariant
pub mod Totals
pub mod Returns
pub mod Popped
pub mod Served
pub mod Attended
pub mod Offers
pub mod Forgotten
mod Tests
use slept.Prelude.{
  ℕ, zero, suc, ◌<◌, ◌≡◌, Bool, true, false, ◌==◌, if◌then◌else◌, List, [], ◌∷◌, map, Option, none,
  some,
}
use slept.Prelude.Int.{is_zero}
use slept.Prelude.Cells.{overwrite}
use slept.Prelude.Results.{ok}
use slept.Tcp.Caller.{Failure, Caller, new_caller, waiting, try_deliver, cancel}
use slept.Tcp.Host.{Idle, Host, Taken, reused, created, exhausted, take_conn, queue_waiting_caller}
use slept.Tcp.Host.{recycle, drop_slot, Sweep, sweep}

-- Where a goroutine stands. Of a request: `start` and `full` before and after it has found no
-- connection, `dialing` with a slot of its own, `awaiting` an answer, `using` a connection. Of the
-- goroutine that dials for a caller: `dialing_for` and `delivering`. Of the cleaner: `sweeping`,
-- `closing` what it has swept, `stopping`. Of any of them: `recycling` a connection, and `dropping`
-- the slot of one that was never opened. A connection is destroyed in two steps: it gives up its
-- slot (`discarding`, or the first of `closing`) and is closed after (`shutting`, `shutting_swept`).
pub data Task : Type 0 where
  start : Task
  full : Task
  dialing : Task
  awaiting : Task
  using : ℕ → Task
  dialing_for : ℕ → Task
  delivering : ℕ → ℕ → Task
  recycling : ℕ → Task
  discarding : ℕ → Task
  shutting : ℕ → Task
  dropping : Task
  sweeping : Task
  closing : List ℕ → Task
  shutting_swept : ℕ → List ℕ → Task
  stopping : Task
  finished : Task

-- A task, and the waitingCaller of a request that has made one.
pub record Cell : Type 0 where
  pub task : Task
  pub caller : Option Caller

-- The cells from `size` on are no tasks yet. Connections are numbered as they are opened.
pub record System : Type 0 where
  pub host : Host
  pub size : ℕ
  pub cells : ℕ → Cell
  pub opened : ℕ

abbrev pub callers_of : (ℕ → Cell) → ℕ → Option Caller
callers_of cells j = (cells j).caller

abbrev pub with_callers : (ℕ → Option Caller) → (ℕ → Cell) → ℕ → Cell
with_callers callers cells j = record (cells j) { caller = callers j }

abbrev pub put : ℕ → Cell → System → System
put i c s = record s { cells = overwrite i c s.cells }

-- Task i goes on at `t`.
abbrev pub go : ℕ → Task → System → System
go i t s = put i (record (s.cells i) { task = t }) s

abbrev pub answer : ℕ → Caller → System → System
answer w c s = put w (record (s.cells w) { caller = some c }) s

-- `go f()`
abbrev pub spawn : Task → System → System
spawn t s = record s {
  size = suc s.size;
  cells = overwrite s.size (record { task = t; caller = none }) s.cells;
}

abbrev pub spawn_cleaner : Bool → System → System
spawn_cleaner true s = spawn sweeping s
spawn_cleaner false s = s

abbrev pub dial_for : Option ℕ → System → System
dial_for none s = s
dial_for (some w) s = spawn (dialing_for w) s

abbrev pub on_host : Host → System → System
on_host h s = record s { host = h }

-- A connection is opened.
abbrev pub connect : System → System
connect s = record s { opened = suc s.opened }

abbrev pub after_cancel : Option ℕ → Task
after_cancel none = finished
after_cancel (some cc) = recycling cc

-- What `waiting` told of the callers in the course of a section that ends now: a caller that still
-- waits was seen to wait.
abbrev pub IsHonest : (ℕ → Bool) → System → Type 0
IsHonest seen s =
    (w : ℕ) (c : Caller) → (s.cells w).caller ≡ some c → waiting c ≡ true → seen w ≡ true

pub data Step (s : System) : System → Type 0 where
  -- tryAcquireClientConn
  arrive : Step s (spawn start s)
  take_idle :
      (i : ℕ) (h : Host) (cc : ℕ)
      → i < s.size
      → (s.cells i).task ≡ start
      → take_conn s.host ≡ ok (h, reused cc)
      → Step s (go i (using cc) (on_host h s))
  take_slot :
      (i : ℕ) (h : Host) (starts : Bool)
      → i < s.size
      → (s.cells i).task ≡ start
      → take_conn s.host ≡ ok (h, created starts)
      → Step s (spawn_cleaner starts (go i dialing (on_host h s)))
  take_none :
      (i : ℕ) (h : Host)
      → i < s.size
      → (s.cells i).task ≡ start
      → take_conn s.host ≡ ok (h, exhausted)
      → Step s (go i (if h.max_conn_wait == 0 then finished else full) (on_host h s))
  enqueue :
      (i : ℕ) (seen : ℕ → Bool) (h : Host)
      → i < s.size
      → (s.cells i).task ≡ full
      → IsHonest seen s
      → queue_waiting_caller seen i s.host ≡ ok (some h)
      → Step s (put i (record { task = awaiting; caller = some new_caller }) (on_host h s))
  answered :
      (i : ℕ) (c : Caller) (cc : ℕ)
      → i < s.size
      → (s.cells i).task ≡ awaiting
      → (s.cells i).caller ≡ some c
      → waiting c ≡ false
      → c.conn ≡ some cc
      → c.err ≡ none
      → Step s (go i (using cc) s)
  -- The timer has fired, or the answer is an error.
  give_up :
      (i : ℕ) (c c1 : Caller) (err : Failure) (conn : Option ℕ)
      → i < s.size
      → (s.cells i).task ≡ awaiting
      → (s.cells i).caller ≡ some c
      → cancel err c ≡ ok (conn, c1)
      → Step s (put i (record { task = after_cancel conn; caller = some c1 }) s)
  dialed :
      (i : ℕ) → i < s.size → (s.cells i).task ≡ dialing → Step s (go i (using s.opened) (connect s))
  refused : (i : ℕ) → i < s.size → (s.cells i).task ≡ dialing → Step s (go i dropping s)
  -- tryDialForWaitingCaller
  dialed_for :
      (i w : ℕ)
      → i < s.size
      → (s.cells i).task ≡ dialing_for w
      → Step s (go i (delivering w s.opened) (connect s))
  refused_for :
      (i w : ℕ) (c c1 : Caller) (err : Failure) (delivered : Bool)
      → i < s.size
      → (s.cells i).task ≡ dialing_for w
      → (s.cells w).caller ≡ some c
      → try_deliver none (some err) c ≡ ok (delivered, c1)
      → Step s (answer w c1 (go i dropping s))
  deliver :
      (i w cc : ℕ) (c c1 : Caller) (delivered : Bool)
      → i < s.size
      → (s.cells i).task ≡ delivering w cc
      → (s.cells w).caller ≡ some c
      → try_deliver (some cc) none c ≡ ok (delivered, c1)
      → Step s (answer w c1 (go i (if delivered then finished else recycling cc) s))
  -- do: the request is done, or its connection is broken and destroyed.
  release : (i cc : ℕ) → i < s.size → (s.cells i).task ≡ using cc → Step s (go i (recycling cc) s)
  destroy : (i cc : ℕ) → i < s.size → (s.cells i).task ≡ using cc → Step s (go i (discarding cc) s)
  -- destroyClientConn: the slot first, then the connection.
  discarded :
      (i cc : ℕ) (seen : ℕ → Bool) (h : Host) (next : Option ℕ)
      → i < s.size
      → (s.cells i).task ≡ discarding cc
      → IsHonest seen s
      → drop_slot seen s.host ≡ ok (some (h, next))
      → Step s (dial_for next (go i (shutting cc) (on_host h s)))
  shut : (i cc : ℕ) → i < s.size → (s.cells i).task ≡ shutting cc → Step s (go i finished s)
  -- tryRecycleClientConn
  recycled :
      (i cc now : ℕ) (seen : ℕ → Bool) (h : Host) (callers : ℕ → Option Caller)
      → i < s.size
      → (s.cells i).task ≡ recycling cc
      → IsHonest seen s
      → recycle seen now cc (callers_of s.cells) s.host ≡ ok (some (h, callers))
      → Step s (go i finished (record s { host = h; cells = with_callers callers s.cells }))
  -- decrementCountOrTryDialForWaitingCaller
  dropped :
      (i : ℕ) (seen : ℕ → Bool) (h : Host) (next : Option ℕ)
      → i < s.size
      → (s.cells i).task ≡ dropping
      → IsHonest seen s
      → drop_slot seen s.host ≡ ok (some (h, next))
      → Step s (dial_for next (go i finished (on_host h s)))
  -- cleanupIdleConnections
  swept :
      (i now : ℕ) (r : Sweep)
      → i < s.size
      → (s.cells i).task ≡ sweeping
      → sweep now s.host ≡ ok r
      → Step s (go i (closing (map Idle.conn r.scratch)) (on_host r.host s))
  given_up :
      (i cc : ℕ) (ccs : List ℕ) (seen : ℕ → Bool) (h : Host) (next : Option ℕ)
      → i < s.size
      → (s.cells i).task ≡ closing (cc ∷ ccs)
      → IsHonest seen s
      → drop_slot seen s.host ≡ ok (some (h, next))
      → Step s (dial_for next (go i (shutting_swept cc ccs) (on_host h s)))
  closed_one :
      (i cc : ℕ) (ccs : List ℕ)
      → i < s.size
      → (s.cells i).task ≡ shutting_swept cc ccs
      → Step s (go i (closing ccs) s)
  closed_all :
      (i : ℕ)
      → i < s.size
      → (s.cells i).task ≡ closing []
      → Step s (go i (if is_zero s.host.count then stopping else sweeping) s)
  stopped :
      (i : ℕ)
      → i < s.size
      → (s.cells i).task ≡ stopping
      → Step s (go i finished (on_host (record (s.host) { cleaner_running = false }) s))

-- The states that a HostClient with this configuration can come to.
pub data Reach (s : System) : System → Type 0 where
  here : Reach s s
  later : {t u : System} → Reach s t → Step t u → Reach s u
