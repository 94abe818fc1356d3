-- ===== src/Tcp/Caller.antt =====
-- sleepytcp/client_wait.go: waitingCaller, a request that waits for a connection. A connection is
-- its number among those that have been opened; `closed` tells of the channel `ready`.
pub mod Once
use slept.Prelude.{ℕ, Bool, true, false, not, ◌&&◌, ◌≡◌, Option, none, some, if◌then◌else◌}
use slept.Prelude.Results.{Result, ok, panic, ◌>>=◌}

-- The errors that a request ends with: ErrNoFreeConns, ErrTimeout, what the DialFunc returns, and
-- what reading from and writing to the connection returns.
pub data Failure : Type 0 where
  no_free_conns : Failure
  timed_out : Failure
  dial_failed : Failure
  end_of_file : Failure
  connection_closed : Failure
  broken : Failure

pub record Caller : Type 0 where
  pub closed : Bool
  pub conn : Option ℕ
  pub err : Option Failure

-- `&waitingCaller{ready: make(chan struct{}, 1)}`
abbrev pub new_caller : Caller
new_caller = record { closed = false; conn = none; err = none }

abbrev pub is_nil {ℓ} : {A : Type ℓ} → Option A → Bool
is_nil none = true
is_nil (some a) = false

-- `close(ready)`, which panics on a closed channel.
abbrev pub close_ready : Caller → Result Caller
close_ready c = if c.closed then panic else ok (record c { closed = true })

-- Nothing is ever sent on `ready`, so it can be received from once it is closed.
unfoldable pub waiting : Caller → Bool
waiting c = not c.closed

-- `conn` or `err` is not nil.
abbrev pub is_answered : Caller → Bool
is_answered c = not (is_nil c.conn && is_nil c.err)

unfoldable pub try_deliver : Option ℕ → Option Failure → Caller → Result (Bool × Caller)
try_deliver conn err c =
    if is_answered c
    then ok (false, c)
    else (do c1 ← close_ready (record c { conn = conn; err = err }); ok (true, c1))

-- What `cancel` does under the caller's lock; the connection is the one to recycle.
unfoldable pub cancel : Failure → Caller → Result (Option ℕ × Caller)
cancel err c = do
  c1 ← (if is_answered c then ok c else close_ready c)
  ok (c.conn, record c1 { conn = none; err = some err })

-- The channel is closed exactly when there is an answer.
abbrev pub IsSound : Caller → Type 0
IsSound c = c.closed ≡ is_answered c
