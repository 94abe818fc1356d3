-- ===== src/Tcp/System/Answers.antt =====
-- The balance of the steps that answer a caller.
use slept.Prelude.{ℕ, ◌+◌, ◌<◌, ◌≡◌, ◌≢◌, refl, arith, Bool, if◌then◌else◌, Option, none, some, ap}
use slept.Prelude.Cells.{overwrite_ne, sum_cells}
use slept.Tcp.Caller.{Caller, IsSound}
use slept.Tcp.Caller.Once.{waiting-empty}
use slept.Tcp.Host.{Host, conn_limit}
use slept.Tcp.Host.Idles.{idle_price}
use slept.Tcp.Host.Recycle.{Recycles, became_idle, handed_over}
use slept.Tcp.System.{
  Task, start, full, dialing, awaiting, using, dialing_for, delivering, recycling, dropping,
  sweeping, closing, stopping, finished, Cell, System, callers_of, with_callers, go, answer,
  discarding, shutting, shutting_swept,
}
use slept.Tcp.System.Store.{IsCaller, Inv}
use slept.Tcp.System.Known.{declined, accepted, Offered}
use slept.Tcp.System.Parts.{with_callers-same, with_callers-answer}
use slept.Tcp.System.Amount.{price_of, load, weight, held, amount, held-go, held-answer}
use slept.Tcp.System.Balance.{Balance, same}

module _ (slot : ℕ) (price : ℕ → ℕ) where
  load-same_conn :
      (t : Task) (c c1 : Caller)
      → c1.conn ≡ c.conn
      → load slot price t (some c1) ≡ load slot price t (some c)
  load-same_conn start c c1 e = refl
  load-same_conn full c c1 e = refl
  load-same_conn dialing c c1 e = refl
  load-same_conn awaiting c c1 e = ap (price_of slot price) e
  load-same_conn (using conn) c c1 e = refl
  load-same_conn (dialing_for w) c c1 e = refl
  load-same_conn (delivering w conn) c c1 e = refl
  load-same_conn (recycling conn) c c1 e = refl
  load-same_conn (discarding conn) c c1 e = refl
  load-same_conn (shutting conn) c c1 e = refl
  load-same_conn (shutting_swept conn ccs) c c1 e = refl
  load-same_conn dropping c c1 e = refl
  load-same_conn sweeping c c1 e = refl
  load-same_conn (closing ccs) c c1 e = refl
  load-same_conn stopping c c1 e = refl
  load-same_conn finished c c1 e = refl

  -- A caller that keeps its connection, if it has one.
  same_conn-held :
      (s : System) (w : ℕ) (c c1 : Caller)
      → w < s.size
      → (s.cells w).caller ≡ some c
      → c1.conn ≡ c.conn
      → held slot price (answer w c1 s) ≡ held slot price s
  same_conn-held s w c c1 known made e =
      omega
        (arith, held-answer slot price w c c1 s known made, load-same_conn (s.cells w).task c c1 e)

  -- A caller that waited is given a connection.
  given-held :
      (s : System) (w conn : ℕ) (c c1 : Caller)
      → w < s.size
      → (s.cells w).caller ≡ some c
      → (s.cells w).task ≡ awaiting
      → c.conn ≡ none
      → c1.conn ≡ some conn
      → held slot price (answer w c1 s) ≡ held slot price s + price conn
  given-held s w conn c c1 known made task empty given = omega (
    arith,
    held-answer slot price w c c1 s known made,
    ap (λ (x : Task). load slot price x (some c)) task,
    ap (λ (x : Task). load slot price x (some c1)) task,
    ap (price_of slot price) empty,
    ap (price_of slot price) given,
  )

  go-caller :
      (s : System) (i : ℕ) (t : Task) (w : ℕ) {c : Caller}
      → (s.cells w).caller ≡ some c
      → ((go i t s).cells w).caller ≡ some c
  go-caller s i t w made = ground arith

  Offered-conn :
      {c c1 : Caller} {delivered : Bool}
      → IsSound c
      → Offered none c delivered c1
      → c1.conn ≡ c.conn
  Offered-conn sound (declined e done) = ap Caller.conn e
  Offered-conn {c} sound (accepted waits sound1 done got) = cc (got, waiting-empty c sound waits)

  pub refused_for-Balance :
      (s : System) (i w : ℕ) (c : Caller) {delivered : Bool} {c1 : Caller}
      → i < s.size
      → (s.cells i).task ≡ dialing_for w
      → w < s.size
      → (s.cells w).caller ≡ some c
      → IsSound c
      → Offered none c delivered c1
      → Balance slot price s (answer w c1 (go i dropping s))
  unfolding amount
  refused_for-Balance s i w c {delivered} {c1} known task there made sound offered = record {
    limit = refl;
    change = same refl refl (
        omega (
          arith,
          held-go slot price i dropping (dialing_for w) s known task,
          same_conn-held (go i dropping s) w c c1 there (go-caller s i dropping w made)
              (Offered-conn sound offered),
        ));
  }

  pub deliver-Balance :
      (s : System) (i w conn : ℕ) (c : Caller) {delivered : Bool} {c1 : Caller}
      → Inv s
      → i < s.size
      → (s.cells i).task ≡ delivering w conn
      → w < s.size
      → (s.cells w).caller ≡ some c
      → IsSound c
      → Offered (some conn) c delivered c1
      → Balance slot price s (answer w c1 (go i (if delivered then finished else recycling conn) s))
  unfolding amount
  deliver-Balance s i w conn c {delivered} {c1} inv known task there made sound (declined e done) =
      let t : Task = recycling conn in
      record {
        limit = refl;
        change = same refl refl (
            omega (
              arith,
              held-go slot price i t (delivering w conn) s known task,
              same_conn-held (go i t s) w c c1 there (go-caller s i t w made) (ap Caller.conn e),
            ));
      }
  deliver-Balance s i w conn c {delivered} {c1} inv known task there made sound
        (accepted waits sound1 done got) =
      let awaits = (inv.good w there).waits c made waits in
      let apart : w ≢ i = (λ e. cc (ap (λ (j : ℕ). (s.cells j).task) e, awaits, task)) in
      let new : Cell = record (s.cells i) { task = finished } in
      let still : ((go i finished s).cells w).task ≡ awaiting =
        rw (overwrite_ne i w new s.cells apart) awaits in
      record {
        limit = refl;
        change = same refl refl (
            omega (
              arith,
              held-go slot price i finished (delivering w conn) s known task,
              given-held (go i finished s) w conn c c1 there (go-caller s i finished w made) still
                  (waiting-empty c sound waits) got,
            ));
      }

  pub recycled-Balance :
      (s : System) (i conn : ℕ) (h : Host) (after : ℕ → Option Caller)
      → Inv s
      → i < s.size
      → (s.cells i).task ≡ recycling conn
      → conn_limit h ≡ conn_limit s.host
      → h.count ≡ s.host.count
      → Recycles price (IsCaller s) conn (callers_of s.cells) s.host h after
      → Balance slot price s
          (go i finished (record s { host = h; cells = with_callers after s.cells }))
  unfolding amount held
  recycled-Balance s i conn h after inv known task limit count (became_idle e idle) =
      let r = record s { host = h; cells = with_callers after s.cells } in
      let cells_same = with_callers-same s.cells after e in
      record {
        limit = limit;
        change = same count refl (
            omega (
              arith,
              idle,
              ap (λ (x : ℕ → Cell). sum_cells (weight slot price) x s.size) cells_same,
              held-go slot price i finished (recycling conn) r known task,
            ));
      }
  recycled-Balance s i conn h after inv known task limit count
        (handed_over k c c1 p e idle was waits sound done got) =
      let r = record s { host = h; cells = with_callers after s.cells } in
      let cells_same = with_callers-answer s.cells after k c1 e in
      record {
        limit = limit;
        change = same count refl (
            omega (
              arith,
              ap (idle_price price) idle,
              ap (λ (x : ℕ → Cell). sum_cells (weight slot price) x s.size) cells_same,
              given-held s k conn c c1 p.known was ((inv.good k p.known).waits c was waits)
                  (waiting-empty c ((inv.good k p.known).sound c was) waits) got,
              held-go slot price i finished (recycling conn) r known task,
            ));
      }
