-- ===== src/Tcp/Dial/Tokens.antt =====
-- sleepytcp/dial_tcp.go: the goroutines that `tryDial` starts, and the tokens of concurrencyCh. A
-- try is its number among those that have got their token.
use slept.Prelude.{ℕ, zero, suc, ◌+◌, ◌-◌, ◌<◌, ◌≤◌, ◌≡◌, refl, arith, Option}
use slept.Prelude.Cells.{overwrite, sum_cells, sum_cells-overwrite, sum_cells-suc}

-- Where a try is: `net.DialTCP` runs, its result is in the channel `ch`, or the caller has it; the
-- goroutine still has its token or has given it back; and the caller may have timed out. A result
-- is a connection, or none for an error.
pub data Phase (Conn : Type 0) : Type 0 where
  dials : Phase Conn
  dials_late : Phase Conn
  sent : Option Conn → Phase Conn
  sent_late : Option Conn → Phase Conn
  received : Option Conn → Phase Conn
  sent_freed : Option Conn → Phase Conn
  late_freed : Option Conn → Phase Conn
  received_freed : Option Conn → Phase Conn

-- The goroutine sends its result; the caller receives it, or its timer is first.
pub data Moves {Conn : Type 0} : Phase Conn → Phase Conn → Type 0 where
  sends : (c : Option Conn) → Moves dials (sent c)
  sends_late : (c : Option Conn) → Moves dials_late (sent_late c)
  receives : (c : Option Conn) → Moves (sent c) (received c)
  receives_freed : (c : Option Conn) → Moves (sent_freed c) (received_freed c)
  times_out : Moves dials dials_late
  times_out_sent : (c : Option Conn) → Moves (sent c) (sent_late c)
  times_out_freed : (c : Option Conn) → Moves (sent_freed c) (late_freed c)

-- The goroutine takes its token out of concurrencyCh, the last thing that it does.
pub data Frees {Conn : Type 0} : Phase Conn → Phase Conn → Type 0 where
  frees : (c : Option Conn) → Frees (sent c) (sent_freed c)
  frees_late : (c : Option Conn) → Frees (sent_late c) (late_freed c)
  frees_received : (c : Option Conn) → Frees (received c) (received_freed c)

-- `tokens` is the number of tokens in the channel.
pub record Dials (Conn : Type 0) : Type 0 where
  pub tries : ℕ → Phase Conn
  pub begun : ℕ
  pub tokens : ℕ

-- The capacity of concurrencyCh is `Concurrency`.
pub data DialStep {Conn : Type 0} (capacity : ℕ) (s : Dials Conn) : Dials Conn → Type 0 where
  begins :
      s.tokens < capacity
      → DialStep capacity s (record {
        tries = overwrite s.begun dials s.tries;
        begun = s.begun + 1;
        tokens = s.tokens + 1;
      })
  moves :
      (k : ℕ) (p : Phase Conn)
      → k < s.begun
      → Moves (s.tries k) p
      → DialStep capacity s (record s { tries = overwrite k p s.tries })
  gives_back :
      (k : ℕ) (p : Phase Conn)
      → k < s.begun
      → Frees (s.tries k) p
      → DialStep capacity s (record s { tries = overwrite k p s.tries; tokens = s.tokens - 1 })

pub data DialReach {Conn : Type 0} (capacity : ℕ) : Dials Conn → Type 0 where
  none_yet :
      (tries : ℕ → Phase Conn)
      → DialReach capacity (record { tries = tries; begun = 0; tokens = 0 })
  stepped :
      {s s1 : Dials Conn} → DialReach capacity s → DialStep capacity s s1 → DialReach capacity s1

-- Whether a try has a token, and whether its `net.DialTCP` runs.
abbrev pub has_token : {Conn : Type 0} → Phase Conn → ℕ
has_token dials = 1
has_token dials_late = 1
has_token (sent c) = 1
has_token (sent_late c) = 1
has_token (received c) = 1
has_token (sent_freed c) = 0
has_token (late_freed c) = 0
has_token (received_freed c) = 0

abbrev pub is_dialing : {Conn : Type 0} → Phase Conn → ℕ
is_dialing dials = 1
is_dialing dials_late = 1
is_dialing (sent c) = 0
is_dialing (sent_late c) = 0
is_dialing (received c) = 0
is_dialing (sent_freed c) = 0
is_dialing (late_freed c) = 0
is_dialing (received_freed c) = 0

module _ {Conn : Type 0} where
  Moves-token : (p q : Phase Conn) → Moves p q → has_token p ≡ has_token q
  Moves-token p q (sends c) = refl
  Moves-token p q (sends_late c) = refl
  Moves-token p q (receives c) = refl
  Moves-token p q (receives_freed c) = refl
  Moves-token p q times_out = refl
  Moves-token p q (times_out_sent c) = refl
  Moves-token p q (times_out_freed c) = refl

  Frees-token : (p q : Phase Conn) → Frees p q → (has_token p ≡ 1) × (has_token q ≡ 0)
  Frees-token p q (frees c) = (refl, refl)
  Frees-token p q (frees_late c) = (refl, refl)
  Frees-token p q (frees_received c) = (refl, refl)

  dialing-le-token : (p : Phase Conn) → is_dialing p ≤ has_token p
  dialing-le-token dials = omega arith
  dialing-le-token dials_late = omega arith
  dialing-le-token (sent c) = omega arith
  dialing-le-token (sent_late c) = omega arith
  dialing-le-token (received c) = omega arith
  dialing-le-token (sent_freed c) = omega arith
  dialing-le-token (late_freed c) = omega arith
  dialing-le-token (received_freed c) = omega arith

  sum-le : (f : ℕ → Phase Conn) (n : ℕ) → sum_cells is_dialing f n ≤ sum_cells has_token f n
  unfolding sum_cells
  sum-le f zero = omega arith
  sum-le f (suc n) = omega (arith, dialing-le-token (f n), sum-le f n)

-- The tokens are those of the tries.
record Counted {Conn : Type 0} (capacity : ℕ) (s : Dials Conn) : Type 0 where
  exact : sum_cells has_token s.tries s.begun ≡ s.tokens
  within : s.tokens ≤ capacity

module _ {Conn : Type 0} (capacity : ℕ) where
  counts : (s : Dials Conn) → DialReach capacity s → Counted capacity s
  unfolding sum_cells
  counts s (none_yet tries) = record { exact = refl; within = omega arith }
  counts s (stepped {s = s0} reached (begins room)) =
      let before = counts s0 reached in
      record {
        exact =
            let next : s0.begun + 1 ≡ suc s0.begun = omega arith in
            rw next (omega (arith, sum_cells-suc has_token s0.tries dials s0.begun, before.exact));
        within = omega (arith, room);
      }
  counts s (stepped {s = s0} reached (moves k p below move)) =
      let before = counts s0 reached in
      record {
        exact = omega (
          arith,
          sum_cells-overwrite has_token s0.tries k p s0.begun below,
          Moves-token (s0.tries k) p move,
          before.exact,
        );
        within = before.within;
      }
  counts s (stepped {s = s0} reached (gives_back k p below freed)) =
      let before = counts s0 reached in
      let (had, has) = Frees-token (s0.tries k) p freed in
      record {
        exact = omega (
          arith,
          sum_cells-overwrite has_token s0.tries k p s0.begun below,
          had,
          has,
          before.exact,
        );
        within = omega (arith, before.within);
      }

  -- Whatever the goroutines of a dialer with a Concurrency do, in any order, its concurrencyCh has
  -- exactly the tokens of the tries that have not given theirs back, and at most Concurrency calls
  -- of `net.DialTCP` run at a time, those that their callers no longer wait for included.
  pub DialReach-bounded :
      (s : Dials Conn)
      → DialReach capacity s
      → (sum_cells has_token s.tries s.begun ≡ s.tokens)
        × (sum_cells is_dialing s.tries s.begun ≤ capacity)
  DialReach-bounded s reached =
      let counted = counts s reached in
      (counted.exact, omega (arith, counted.exact, counted.within, sum-le s.tries s.begun))
