-- ===== src/Tcp/System/Totals.antt =====
-- What holds of every state that a HostClient can come to: its count, and who has each connection.
use slept.Prelude.{
  ℕ, suc, ◌+◌, ◌<◌, ◌≤◌, ◌≡◌, ◌≢◌, refl, arith, true, ◌==◌, if◌then◌else◌, none, List, [], ◌∷◌, ap,
  ltb, ltb→lt, All,
}
use slept.Prelude.Int.{ℤ, pos, increment, decrement, is_below}
use slept.Prelude.Cells.{sum_cells, cell-le-sum, cells-le-sum}
use mathlib.Core.Path.{subst}
use native.Mathlib.Decide.{dec_lt}
use slept.Tcp.Host.{Host, Idle, new_host, conn_limit, default_max_conns_per_host}
use slept.Tcp.Host.Idles.{idle_price, prices}
use slept.Tcp.System.{Task, using, System, Step, Reach, here, later, finished}
use slept.Tcp.System.Store.{Inv}
use slept.Tcp.System.Invariant.{Step-Inv}
use slept.Tcp.System.Amount.{load, weight, held, amount}
use slept.Tcp.System.Balance.{Change, same, reserved, connected, lost, freed, closed}
use slept.Tcp.System.Steps.{Step-Balance}

-- A HostClient before its first request.
abbrev pub new_system : Host → System
new_system h = record {
  host = h;
  size = 0;
  cells = λ i. record { task = finished; caller = none };
  opened = 0;
}

-- The slots that are reserved, and the open connections that have not given up theirs.
abbrev pub total : System → ℕ
total s = amount 1 (λ conn. 1) s

record Counted (s : System) : Type 0 where
  count : s.host.count ≡ pos (total s)
  bounded : total s ≤ conn_limit s.host

abbrev one_if : ℕ → ℕ → ℕ
one_if conn k = if k == conn then 1 else 0

-- In how many places a connection is.
abbrev pub places : ℕ → System → ℕ
places conn s = amount 0 (one_if conn) s

record Owned (s : System) : Type 0 where
  bound : (conn : ℕ) → places conn s ≤ (if ltb conn s.opened then 1 else 0)

fewer : (a b : ℕ) {x y : ℤ} → x ≡ pos a → y ≡ decrement x → b + 1 ≡ a → y ≡ pos b
fewer a b p q e =
    let more : a ≡ suc b = omega (arith, e) in cc (p, q, ap (λ (n : ℕ). decrement (pos n)) more)

more : (a b : ℕ) {x y : ℤ} → x ≡ pos a → y ≡ increment x → b ≡ a + 1 → y ≡ pos b
more a b p q e = let more : b ≡ suc a = omega (arith, e) in cc (p, q, ap (λ (n : ℕ). pos n) more)

below : (a limit : ℕ) {x : ℤ} → x ≡ pos a → is_below x limit ≡ true → a < limit
below a limit p q = ltb→lt a limit (subst (λ (z : ℤ). is_below z limit ≡ true) p q)

Change-Counted :
    (s t : System)
    → conn_limit t.host ≡ conn_limit s.host
    → Counted s
    → Change 1 (λ conn. 1) s t
    → Counted t
Change-Counted s t limit c (same e o h) = record {
  count = cc (c.count, e, h);
  bounded = omega (arith, c.bounded, limit, h);
}
Change-Counted s t limit c (reserved e b o h) =
    let room = below (total s) (conn_limit s.host) c.count b in
    record { count = more (total s) (total t) c.count e h; bounded = omega (arith, room, limit, h) }
Change-Counted s t limit c (connected e o h) =
    let kept : total t ≡ total s = omega (arith, h) in
    record { count = cc (c.count, e, ap pos kept); bounded = omega (arith, c.bounded, limit, kept) }
Change-Counted s t limit c (lost conn e o h) =
    let kept : total t ≡ total s = omega (arith, h) in
    record { count = cc (c.count, e, ap pos kept); bounded = omega (arith, c.bounded, limit, kept) }
Change-Counted s t limit c (freed e o h) = record {
  count = fewer (total s) (total t) c.count e h;
  bounded = omega (arith, c.bounded, limit, h);
}
Change-Counted s t limit c (closed conn e o h) = record {
  count = fewer (total s) (total t) c.count e h;
  bounded = omega (arith, c.bounded, limit, h);
}

places-bound :
    (conn : ℕ) (s t : System)
    → places conn s ≤ (if ltb conn s.opened then 1 else 0)
    → Change 0 (one_if conn) s t
    → places conn t ≤ (if ltb conn t.opened then 1 else 0)
places-bound conn s t b (same e o h) = ground (arith, b, h, o)
places-bound conn s t b (reserved e r o h) = ground (arith, b, h, o)
places-bound conn s t b (connected e o h) = ground (arith, b, h, o)
places-bound conn s t b (lost k e o h) = ground (arith, b, h, o)
places-bound conn s t b (freed e o h) = ground (arith, b, h, o)
places-bound conn s t b (closed k e o h) = ground (arith, b, h, o)

-- What every reachable state has.
record Total (limit : ℕ) (s : System) : Type 0 where
  fixed : conn_limit s.host ≡ limit
  inv : Inv s
  counted : Counted s
  owned : Owned s

Step-Total : {limit : ℕ} {s t : System} → Total limit s → Step s t → Total limit t
Step-Total {limit} {s} {t} g step =
    let b = Step-Balance 1 (λ conn. 1) g.inv step in
    record {
      fixed = cc (b.limit, g.fixed);
      inv = Step-Inv g.inv step;
      counted = Change-Counted s t b.limit g.counted b.change;
      owned = record {
        bound = λ conn.
            places-bound conn s t (g.owned.bound conn)
              (Step-Balance 0 (one_if conn) g.inv step).change;
      };
    }

module _ (max_conns max_conn_wait max_idle_duration : ℕ) where
  abbrev pub initial : System
  initial = new_system (new_host max_conns max_conn_wait max_idle_duration)

  initial-Total : Total (conn_limit initial.host) initial
  unfolding amount held idle_price prices sum_cells
  initial-Total = record {
    fixed = refl;
    inv = record {
      good = λ i h. absurd (omega (arith, h));
      queue = record { waiters = []; queued = refl; each = tt };
    };
    counted = record { count = refl; bounded = omega arith };
    owned = record { bound = λ conn. omega arith };
  }

  Reach-Total : {t : System} → Reach initial t → Total (conn_limit initial.host) t
  Reach-Total here = initial-Total
  Reach-Total (later r step) = Step-Total (Reach-Total r) step

-- A connection that a task uses has a place there.
uses-place :
    (conn i : ℕ) (s : System)
    → (s.cells i).task ≡ using conn
    → weight 0 (one_if conn) (s.cells i) ≡ 1
uses-place conn i s task =
    let e = ap (λ (x : Task). load 0 (one_if conn) x (s.cells i).caller) task in ground (arith, e)

-- No idle connection is this one.
abbrev pub OtherThan : ℕ → Idle → Type 0
OtherThan conn x = x.conn ≢ conn

idle-place :
    (conn : ℕ) (ccs : List Idle) → idle_price (one_if conn) ccs ≡ 0 → All (OtherThan conn) ccs
unfolding idle_price prices
idle-place conn [] h = tt
idle-place conn (x ∷ xs) h =
    let ne : x.conn ≢ conn = (λ e. ground (arith, h, e)) in
    (ne, idle-place conn xs (ground (arith, h)))

apart-places :
    (conn i j : ℕ) (s : System)
    → i < j
    → j < s.size
    → (s.cells i).task ≡ using conn
    → (s.cells j).task ≡ using conn
    → 2 ≤ places conn s
unfolding amount held
apart-places conn i j s h k p q = omega (
  arith,
  uses-place conn i s p,
  uses-place conn j s q,
  cells-le-sum (weight 0 (one_if conn)) s.cells i j s.size h k,
)

alone :
    (conn i : ℕ) (s : System)
    → i < s.size
    → (s.cells i).task ≡ using conn
    → places conn s ≤ 1
    → All (OtherThan conn) s.host.conns
unfolding amount held
alone conn i s known p few = idle-place conn s.host.conns (
    omega (
      arith,
      uses-place conn i s p,
      few,
      cell-le-sum (weight 0 (one_if conn)) s.cells i s.size known,
    ))

module _ (max_conns max_conn_wait max_idle_duration : ℕ) {t : System}
    (r : Reach (initial max_conns max_conn_wait max_idle_duration) t) where
  reached : Total (conn_limit (initial max_conns max_conn_wait max_idle_duration).host) t
  reached = Reach-Total max_conns max_conn_wait max_idle_duration r

  pub Reach-Inv : Inv t
  Reach-Inv = reached.inv

  -- Whatever the requests, dials, answers, timers and cleaners of a new HostClient do, in any order,
  -- its count is the number of the slots that are reserved for dialing and the open connections that
  -- have not given up their slot to be closed, wherever they are, so it is never negative; and it is
  -- at most MaxConns, or 512 when that is 0. What is about to be closed is not in it.
  pub Reach-count :
      (t.host.count ≡ pos (total t))
      × (total t ≤ (if max_conns == 0 then default_max_conns_per_host else max_conns))
  unfolding conn_limit
  Reach-count = (reached.counted.count, rw (← reached.fixed) reached.counted.bounded)

  places_few : (conn : ℕ) → places conn t ≤ 1
  places_few conn = ground (arith, reached.owned.bound conn)

  -- In every reachable state two tasks that use one connection are one task, and that connection is
  -- not idle.
  pub Reach_exclusive :
      (i j conn : ℕ)
      → i < t.size
      → j < t.size
      → (t.cells i).task ≡ using conn
      → (t.cells j).task ≡ using conn
      → (i ≡ j) × All (OtherThan conn) t.host.conns
  Reach_exclusive i j conn h k p q = (
    elim (dec_lt i j) [
      | yes lower ↦ absurd (omega (arith, places_few conn, apart-places conn i j t lower k p q))
      | no others ↦ elim (dec_lt j i) [
        | yes higher ↦ absurd (omega (arith, places_few conn, apart-places conn j i t higher h q p))
        | no neither ↦ omega arith
      ]
    ],
    alone conn i t h p (places_few conn),
  )
