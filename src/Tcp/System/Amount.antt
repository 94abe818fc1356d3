-- ===== src/Tcp/System/Amount.antt =====
-- What a system holds: a slot is held by a task that dials or has failed to, and each connection
-- that has a slot is held by a task, by the caller that it was delivered to, or it is idle. One that
-- is to be closed, and has given up its slot, is held no more.
use slept.Prelude.{ℕ, ◌+◌, ◌<◌, ◌≡◌, Option, none, some}
use slept.Prelude.Cells.{sum_cells, sum_cells-overwrite, sum_cells-suc}
use mathlib.Core.Path.{subst}
use slept.Tcp.Caller.{Caller}
use slept.Tcp.Host.Idles.{prices, idle_price}
use slept.Tcp.System.{
  Task, start, full, dialing, awaiting, using, dialing_for, delivering, recycling, dropping,
  sweeping, closing, stopping, finished, Cell, System, put, go, answer, spawn, discarding, shutting,
  shutting_swept,
}

-- `slot` for each slot, and `price` for each connection.
module _ (slot : ℕ) (price : ℕ → ℕ) where
  abbrev pub price_of : Option ℕ → ℕ
  price_of none = 0
  price_of (some conn) = price conn

  abbrev pub kept : Option Caller → ℕ
  kept none = 0
  kept (some c) = price_of c.conn

  abbrev pub load : Task → Option Caller → ℕ
  load start c = 0
  load full c = 0
  load dialing c = slot
  load awaiting c = kept c
  load (using conn) c = price conn
  load (dialing_for w) c = slot
  load (delivering w conn) c = price conn
  load (recycling conn) c = price conn
  load (discarding conn) c = price conn
  load (shutting conn) c = 0
  load dropping c = slot
  load sweeping c = 0
  load (closing ccs) c = prices price ccs
  load (shutting_swept conn ccs) c = prices price ccs
  load stopping c = 0
  load finished c = 0

  abbrev pub weight : Cell → ℕ
  weight c = load c.task c.caller

  -- What the tasks hold, and with the idle connections what there is.
  unfoldable pub held : System → ℕ
  held s = sum_cells weight s.cells s.size

  unfoldable pub amount : System → ℕ
  amount s = idle_price price s.host.conns + held s

  pub held-put :
      (i : ℕ) (c : Cell) (s : System)
      → i < s.size
      → held (put i c s) + weight (s.cells i) ≡ weight c + held s
  unfolding held
  held-put i c s known = sum_cells-overwrite weight s.cells i c s.size known

  pub held-spawn : (t : Task) (s : System) → held (spawn t s) ≡ load t none + held s
  unfolding held
  held-spawn t s = sum_cells-suc weight s.cells (record { task = t; caller = none }) s.size

  -- A task goes on from t0.
  pub held-go :
      (i : ℕ) (t t0 : Task) (s : System)
      → i < s.size
      → (s.cells i).task ≡ t0
      → held (go i t s) + load t0 (s.cells i).caller ≡ load t (s.cells i).caller + held s
  held-go i t t0 s known task =
      subst
        (λ (x : Task).
          held (go i t s) + load x (s.cells i).caller ≡ load t (s.cells i).caller + held s)
        task (held-put i (record (s.cells i) { task = t }) s known)

  -- A caller has another answer.
  pub held-answer :
      (w : ℕ) (c c1 : Caller) (s : System)
      → w < s.size
      → (s.cells w).caller ≡ some c
      → held (answer w c1 s) + load (s.cells w).task (some c)
        ≡ load (s.cells w).task (some c1) + held s
  held-answer w c c1 s known made =
      subst
        (λ (x : Option Caller).
          held (answer w c1 s) + load (s.cells w).task x ≡ load (s.cells w).task (some c1) + held s)
        made (held-put w (record (s.cells w) { caller = some c1 }) s known)
