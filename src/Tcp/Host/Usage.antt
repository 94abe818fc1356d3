-- ===== src/Tcp/Host/Usage.antt =====
-- sleepytcp/client_host.go: the atomic counters of a HostClient, which Do changes outside the lock
-- and the cleaner of a Client reads. A time is a number of seconds since 1970.
use slept.Prelude.{ℕ, suc, ◌+◌, ◌-◌, ◌%◌, ◌<◌, ◌≤◌, ◌≡◌, refl, arith, ltb, if◌then◌else◌}
use slept.Prelude.Int.{ℤ, pos, negsuc}

-- An int32, by its 32 bits, and a uint32.
pub record Usage : Type 0 where
  pub pending : ℕ
  pub last_use : ℕ

-- `atomic.AddInt32(&c.pendingRequests, 1)` and `atomic.AddInt32(&c.pendingRequests, -1)`
abbrev pub enter : Usage → Usage
enter u = record u { pending = (u.pending + 1) % 4294967296 }

abbrev pub leave : Usage → Usage
leave u = record u { pending = (u.pending + 4294967295) % 4294967296 }

-- `uint32(now - start)`
abbrev pub since_start : ℕ → ℕ → ℕ
since_start start now = (now % 4294967296 + (4294967296 - start % 4294967296)) % 4294967296

abbrev pub note_use : ℕ → ℕ → Usage → Usage
note_use start now u = record u { last_use = since_start start now }

abbrev pub pending_requests : Usage → ℤ
pending_requests u =
    if ltb u.pending 2147483648 then pos u.pending else negsuc (4294967295 - u.pending)

abbrev pub last_use_time : ℕ → Usage → ℕ
last_use_time start u = start + u.last_use

-- What goroutines do to the counters of a new HostClient: `running` calls of Do have begun and not
-- ended, and the last attempt, if any, began at `last`.
pub data UsageReach (start : ℕ) : Usage → ℕ → ℕ → Type 0 where
  unused : UsageReach start (record { pending = 0; last_use = 0 }) 0 start
  begins :
      {u : Usage} {running last : ℕ}
      → UsageReach start u running last
      → UsageReach start (enter u) (suc running) last
  attempts :
      {u : Usage} {running last : ℕ} (now : ℕ)
      → UsageReach start u (suc running) last
      → UsageReach start (note_use start now u) (suc running) now
  ends :
      {u : Usage} {running last : ℕ}
      → UsageReach start u (suc running) last
      → UsageReach start (leave u) running last

record Counted (start : ℕ) (u : Usage) (running last : ℕ) : Type 0 where
  pending_lem : u.pending ≡ running % 4294967296
  last_use_lem : u.last_use ≡ since_start start last

module _ (start : ℕ) where
  counts :
      (u : Usage) (running last : ℕ)
      → UsageReach start u running last
      → Counted start u running last
  counts u running last unused = record { pending_lem = refl; last_use_lem = omega arith }
  counts u running last (begins {u = u0} {running = r} reached) =
      let before = counts u0 r last reached in
      record { pending_lem = omega (arith, before.pending_lem); last_use_lem = before.last_use_lem }
  counts u running last (attempts {u = u0} {running = r} {last = l} now reached) =
      let before = counts u0 (suc r) l reached in
      record { pending_lem = before.pending_lem; last_use_lem = refl }
  counts u running last (ends {u = u0} reached) =
      let before = counts u0 (suc running) last reached in
      record { pending_lem = omega (arith, before.pending_lem); last_use_lem = before.last_use_lem }

  -- Whatever goroutines call Do on a new HostClient, and in whatever order their atomic operations
  -- are: if fewer than 2^31 calls of Do run, PendingRequests gives their number; and if the last
  -- attempt began less than 2^32 seconds after the program, LastUseTime gives its time, or that of
  -- the program's start if there was none.
  pub UsageReach-exact :
      (u : Usage) (running last : ℕ)
      → UsageReach start u running last
      → running < 2147483648
      → start ≤ last
      → last < start + 4294967296
      → (pending_requests u ≡ pos running) × (last_use_time start u ≡ last)
  UsageReach-exact u running last reached few after_start soon =
      let counted = counts u running last reached in
      let same : u.pending ≡ running = omega (arith, counted.pending_lem, few) in
      (rw same (ground arith), omega (arith, counted.last_use_lem, after_start, soon))
