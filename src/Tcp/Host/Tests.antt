-- ===== src/Tcp/Host/Tests.antt =====
-- A HostClient in a program that started at second 100: two calls of Do, of which one has ended.
use slept.Prelude.{◌≡◌, arith}
use slept.Prelude.Int.{pos}
use slept.Tcp.Host.Usage.{
  Usage, UsageReach, unused, begins, attempts, ends, pending_requests, last_use_time,
  UsageReach-exact,
}

abbrev one_left : Usage
one_left = record { pending = 1; last_use = 23 }

one_left-UsageReach : UsageReach 100 one_left 1 123
one_left-UsageReach = ends (attempts 123 (begins (attempts 105 (begins unused))))

UsageReach-exact_example : (pending_requests one_left ≡ pos 1) × (last_use_time 100 one_left ≡ 123)
UsageReach-exact_example =
    UsageReach-exact 100 one_left 1 123 one_left-UsageReach (omega arith) (omega arith)
      (omega arith)
