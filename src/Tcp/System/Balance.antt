-- ===== src/Tcp/System/Balance.antt =====
-- The balance of a step: which slots and connections it makes, hands on or gives up, with the count.
use slept.Prelude.{ℕ, suc, ◌+◌, ◌<◌, ◌≡◌, refl, arith, Bool, true, false, if◌then◌else◌, ap}
use slept.Prelude.Int.{increment, decrement, is_below}
use slept.Tcp.Host.{Host, conn_limit}
use slept.Tcp.Host.Idles.{idle_price}
use slept.Tcp.System.{Task, start, dialing, sweeping, System, go, spawn_cleaner, on_host}
use slept.Tcp.System.Amount.{load, held, amount, held-spawn, held-go}

module _ (slot : ℕ) (price : ℕ → ℕ) where
  pub data Change (s t : System) : Type 0 where
    same :
        t.host.count ≡ s.host.count
        → t.opened ≡ s.opened
        → amount slot price t ≡ amount slot price s
        → Change s t
    reserved :
        t.host.count ≡ increment s.host.count
        → is_below s.host.count (conn_limit s.host) ≡ true
        → t.opened ≡ s.opened
        → amount slot price t ≡ amount slot price s + slot
        → Change s t
    connected :
        t.host.count ≡ s.host.count
        → t.opened ≡ suc s.opened
        → amount slot price t + slot ≡ amount slot price s + price s.opened
        → Change s t
    lost :
        (conn : ℕ)
        → t.host.count ≡ s.host.count
        → t.opened ≡ s.opened
        → amount slot price t + price conn ≡ amount slot price s + slot
        → Change s t
    freed :
        t.host.count ≡ decrement s.host.count
        → t.opened ≡ s.opened
        → amount slot price t + slot ≡ amount slot price s
        → Change s t
    closed :
        (conn : ℕ)
        → t.host.count ≡ decrement s.host.count
        → t.opened ≡ s.opened
        → amount slot price t + price conn ≡ amount slot price s
        → Change s t

  pub record Balance (s t : System) : Type 0 where
    pub limit : conn_limit t.host ≡ conn_limit s.host
    pub change : Change s t

  -- A task goes on, and the host too.
  pub went_on :
      (s : System) (h : Host) (i : ℕ) (t t0 : Task)
      → i < s.size
      → (s.cells i).task ≡ t0
      → conn_limit h ≡ conn_limit s.host
      → h.count ≡ s.host.count
      → idle_price price h.conns + load slot price t (s.cells i).caller
        ≡ idle_price price s.host.conns + load slot price t0 (s.cells i).caller
      → Balance s (go i t (on_host h s))
  unfolding amount held
  went_on s h i t t0 known task limit count e = record {
    limit = limit;
    change = same count refl (omega (arith, held-go slot price i t t0 (on_host h s) known task, e));
  }

  pub went :
      (s : System) (i : ℕ) (t t0 : Task)
      → i < s.size
      → (s.cells i).task ≡ t0
      → load slot price t (s.cells i).caller ≡ load slot price t0 (s.cells i).caller
      → Balance s (go i t s)
  went s i t t0 known task e =
      went_on s s.host i t t0 known task refl refl
        (ap (λ (n : ℕ). idle_price price s.host.conns + n) e)

  pub branch :
      (b : Bool) (i : ℕ) (t u : Task) (s r : System)
      → Balance r (go i t s)
      → Balance r (go i u s)
      → Balance r (go i (if b then t else u) s)
  branch true i t u s r p q = p
  branch false i t u s r p q = q

  -- A slot is reserved, and a cleaner may start.
  pub reserving :
      (starts : Bool) (s : System) (h : Host) (i : ℕ)
      → i < s.size
      → (s.cells i).task ≡ start
      → conn_limit h ≡ conn_limit s.host
      → h.count ≡ increment s.host.count
      → is_below s.host.count (conn_limit s.host) ≡ true
      → h.conns ≡ s.host.conns
      → Balance s (spawn_cleaner starts (go i dialing (on_host h s)))
  unfolding amount held
  reserving true s h i known task limit count below conns = record {
    limit = limit;
    change = reserved count below refl (
        omega (
          arith,
          ap (idle_price price) conns,
          held-go slot price i dialing start (on_host h s) known task,
          held-spawn slot price sweeping (go i dialing (on_host h s)),
        ));
  }
  reserving false s h i known task limit count below conns = record {
    limit = limit;
    change = reserved count below refl (
        omega (
          arith,
          ap (idle_price price) conns,
          held-go slot price i dialing start (on_host h s) known task,
        ));
  }
