-- ===== src/Tcp/Request.antt =====
-- sleepytcp/client_host.go: one request of HostClient.do, and the loop of HostClient.Do over its
-- attempts. What the network does in an attempt is given.
pub mod Attempts
use slept.Prelude.{
  ℕ, zero, suc, ◌+◌, ◌*◌, ◌%◌, ◌^◌, Bool, true, false, not, ◌&&◌, ◌||◌, ◌==◌, ltb, if◌then◌else◌,
  Option, none, some,
}
use slept.Tcp.Caller.{
  Failure, no_free_conns, timed_out, dial_failed, end_of_file, connection_closed, broken, is_nil,
}

-- The errors in an attempt: of tryAcquireClientConn, of the two deadlines, and of writing the frame
-- and flushing it.
pub record Attempt : Type 0 where
  pub acquired : Option Failure
  pub write_deadline : Option Failure
  pub written : Option Failure
  pub read_deadline : Option Failure

-- What becomes of the connection.
pub data Fate : Type 0 where
  never_had : Fate
  destroyed : Fate
  given_back : Fate

pub record Outcome : Type 0 where
  pub retry : Bool
  pub err : Option Failure
  pub fate : Fate

-- `SetWriteDeadline` and `SetReadDeadline` are called for a timeout only.
abbrev deadline : ℕ → Option Failure → Option Failure
deadline timeout err = if timeout == 0 then none else err

-- A connection on which something failed is destroyed, and the request may be tried again.
abbrev destroy_with : Failure → Outcome
destroy_with e = record { retry = true; err = some e; fate = destroyed }

-- `HostClient.do` for these timeouts.
unfoldable pub do_request : ℕ → ℕ → Attempt → Outcome
do_request write_timeout read_timeout a = elim a.acquired [
  | some e ↦ record { retry = false; err = some e; fate = never_had }
  | none ↦ elim (deadline write_timeout a.write_deadline) [
    | some e ↦ destroy_with e
    | none ↦ elim a.written [
      | some e ↦ destroy_with e
      | none ↦ elim (deadline read_timeout a.read_deadline) [
        | some e ↦ destroy_with e
        | none ↦ record { retry = false; err = none; fate = given_back }
      ]
    ]
  ]
]

abbrev pub is_eof : Option Failure → Bool
is_eof none = false
is_eof (some no_free_conns) = false
is_eof (some timed_out) = false
is_eof (some dial_failed) = false
is_eof (some end_of_file) = true
is_eof (some connection_closed) = false
is_eof (some broken) = false

-- The two breaks of the loop.
unfoldable pub is_final : Bool → Outcome → Bool
is_final idempotent o = is_nil o.err || not o.retry || not idempotent && is_eof o.err

abbrev pub default_max_attempts : ℕ
default_max_attempts = 5

-- `maxAttempts`; an attempt count that is not positive is 0.
abbrev pub max_attempts : ℕ → ℕ
max_attempts configured = if configured == 0 then default_max_attempts else configured

-- `0 < maxAttempts` for the int64 with these bits
abbrev pub is_positive : ℕ → Bool
is_positive bits = ltb 0 bits && ltb bits (2 ^ 63)

-- `for attempts := 0; attempts < maxAttempts; maxAttempts++`: attempts stays 0. The loop gives the
-- last outcome and how many attempts it took, or none if it has not ended.
module _ (idempotent : Bool) (outcomes : ℕ → Outcome) where
  unfoldable pub do_loop : ℕ → ℕ → ℕ → Option Outcome → Option (Option Outcome × ℕ)
  do_loop zero k bits last = none
  do_loop (suc fuel) k bits last =
      let more = do_loop fuel (k + 1) ((bits + 1) % 2 ^ 64) (some (outcomes k)) in
      if is_positive bits
      then (if is_final idempotent (outcomes k) then some (some (outcomes k), k + 1) else more)
      else some (last, k)

-- An EOF is reported as ErrConnectionClosed.
abbrev pub reported : Option Failure → Option Failure
reported err = if is_eof err then some connection_closed else err

abbrev result_of : Option Outcome → Option Failure
result_of none = none
result_of (some o) = reported o.err

-- `HostClient.Do`: the error it returns, and the number of attempts.
unfoldable pub do_all : ℕ → ℕ → Bool → (ℕ → Outcome) → Option (Option Failure × ℕ)
do_all fuel configured idempotent outcomes =
    elim (do_loop idempotent outcomes fuel 0 (max_attempts configured) none) [
      | none ↦ none
      | some (last, k) ↦ some (result_of last, k)
    ]
