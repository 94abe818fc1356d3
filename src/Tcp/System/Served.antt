-- ===== src/Tcp/System/Served.antt =====
-- No caller that waits is forgotten: it is in the queue, or a goroutine dials for it.
use slept.Prelude.{
  ℕ, ◌+◌, ◌<◌, ◌≤◌, ◌≡◌, ◌≢◌, refl, ap, arith, true, false, List, Option, none, some,
}
use slept.Prelude.Cells.{
  overwrite, overwrite_self, sum_cells, sum_cells-overwrite, sum_cells-suc, sum_cells-congr,
  sum_cells-positive,
}
use mathlib.Core.Path.{subst}
use native.Mathlib.Decide.{ℕ_discrete}
use slept.Tcp.Caller.{Caller, waiting}
use slept.Tcp.Host.{Host}
use slept.Tcp.System.{
  Task, Cell, System, callers_of, with_callers, put, go, spawn, on_host, connect,
}
use slept.Tcp.System.Store.{target_of}
use slept.Tcp.System.Popped.{is_it, count, StillWait}

-- How many goroutines dial for a caller, or deliver what they dialed.
abbrev pub aims : ℕ → Task → ℕ
aims w t = is_it w (target_of t)

abbrev aim : ℕ → Cell → ℕ
aim w c = aims w c.task

unfoldable pub dials : ℕ → System → ℕ
dials w s = sum_cells (aim w) s.cells s.size

pub dials-task :
    (w : ℕ) (s : System) → 1 ≤ dials w s → (i : ℕ) × (i < s.size) × (1 ≤ aims w (s.cells i).task)
unfolding dials
dials-task w s h = sum_cells-positive (aim w) s.cells s.size h

-- A caller that waits.
pub record Waiting (s : System) (w : ℕ) : Type 0 where
  pub known : w < s.size
  pub caller : Caller
  pub made : (s.cells w).caller ≡ some caller
  pub waits : waiting caller ≡ true

-- With this queue, each caller that waits is in it or is dialed for.
abbrev pub Serves : System → List ℕ → Type 0
Serves s ws = (w : ℕ) → Waiting s w → 1 ≤ count w ws + dials w s

-- A step serves its waiting callers, if they waited before and have as many places as before.
pub Serves-by :
    (s t : System) (ws ws1 : List ℕ)
    → Serves s ws
    → ((w : ℕ) → Waiting t w → Waiting s w × (count w ws + dials w s ≤ count w ws1 + dials w t))
    → Serves t ws1
Serves-by s t ws ws1 serves more w here =
    let (before, places) = more w here in omega (arith, serves w before, places)

pub dials-put :
    (s : System) (i : ℕ) (c : Cell) (w : ℕ)
    → i < s.size
    → dials w (put i c s) + aims w (s.cells i).task ≡ aims w c.task + dials w s
unfolding dials
dials-put s i c w known = sum_cells-overwrite (aim w) s.cells i c s.size known

module _ (s : System) (i : ℕ) (t : Task) where
  dials-go :
      (w : ℕ) (t0 : Task)
      → i < s.size
      → (s.cells i).task ≡ t0
      → dials w (go i t s) + aims w t0 ≡ aims w t + dials w s
  dials-go w t0 known task =
      omega (arith, ap (aims w) task, dials-put s i (record (s.cells i) { task = t }) w known)

  go-caller_back :
      (w : ℕ) (c : Caller) → ((go i t s).cells w).caller ≡ some c → (s.cells w).caller ≡ some c
  go-caller_back w c made = ground (arith, made)

  pub Waiting-go : (w : ℕ) → Waiting (go i t s) w → Waiting s w
  Waiting-go w x = record {
    known = x.known;
    caller = x.caller;
    made = go-caller_back w x.caller x.made;
    waits = x.waits;
  }

  pub go-Serves :
      (t0 : Task) (ws : List ℕ)
      → Serves s ws
      → i < s.size
      → (s.cells i).task ≡ t0
      → ((w : ℕ) → Waiting s w → aims w t0 ≤ aims w t)
      → Serves (go i t s) ws
  go-Serves t0 ws serves known task more =
      Serves-by s (go i t s) ws ws serves
        (λ w x. let y = Waiting-go w x in (y, omega (arith, dials-go w t0 known task, more w y)))

-- A cell is written whose caller does not wait.
module _ (s : System) (i : ℕ) (t : Task) (c : Caller) (done : waiting c ≡ false) where
  pub Waiting-answered :
      (w : ℕ) → Waiting (put i (record { task = t; caller = some c }) s) w → (w ≢ i) × Waiting s w
  Waiting-answered w x = elim (ℕ_discrete w i) [
    | yes is_i ↦
        let new : Cell = record { task = t; caller = some c } in
        let held : (overwrite i new s.cells i).caller ≡ some x.caller =
          subst (λ (j : ℕ). (overwrite i new s.cells j).caller ≡ some x.caller) is_i x.made in
        let same : c ≡ x.caller = cc (held, ap Cell.caller (overwrite_self i new s.cells)) in
        absurd (cc (done, x.waits, same))
    | no other ↦ (
      other,
      record {
        known = x.known;
        caller = x.caller;
        made = ground (arith, x.made, other);
        waits = x.waits;
      },
    )
  ]

  pub answered-Serves :
      (t0 : Task) (ws : List ℕ)
      → Serves s ws
      → i < s.size
      → (s.cells i).task ≡ t0
      → ((w : ℕ) → w ≢ i → aims w t0 ≤ aims w t)
      → Serves (put i (record { task = t; caller = some c }) s) ws
  answered-Serves t0 ws serves known task more =
      let new : Cell = record { task = t; caller = some c } in
      Serves-by s (put i new s) ws ws serves (λ w x.
        let (other, before) = Waiting-answered w x in
        (before, omega (arith, dials-put s i new w known, ap (aims w) task, more w other)))

-- A goroutine starts.
module _ (s : System) (t : Task) where
  dials-spawn : (w : ℕ) → dials w (spawn t s) ≡ aims w t + dials w s
  unfolding dials
  dials-spawn w = sum_cells-suc (aim w) s.cells (record { task = t; caller = none }) s.size

  Waiting-spawn : (w : ℕ) → Waiting (spawn t s) w → Waiting s w
  Waiting-spawn w x = elim (ℕ_discrete w s.size) [
    | yes last ↦
        let new : Cell = record { task = t; caller = none } in
        let held : (overwrite s.size new s.cells s.size).caller ≡ some x.caller =
          subst (λ (j : ℕ). (overwrite s.size new s.cells j).caller ≡ some x.caller) last x.made in
        absurd (cc (held, ap Cell.caller (overwrite_self s.size new s.cells)))
    | no other ↦ record {
      known = omega (arith, x.known, other);
      caller = x.caller;
      made = ground (arith, x.made, other);
      waits = x.waits;
    }
  ]

  pub spawn-Serves :
      (ws ws1 : List ℕ)
      → Serves s ws
      → ((w : ℕ) → Waiting s w → count w ws ≤ count w ws1 + aims w t)
      → Serves (spawn t s) ws1
  spawn-Serves ws ws1 serves more =
      Serves-by s (spawn t s) ws ws1 serves
        (λ w x. let y = Waiting-spawn w x in (y, omega (arith, dials-spawn w, more w y)))

-- The host goes on, or a connection is opened.
module _ (s : System) where
  pub on_host-Serves : (h : Host) (ws : List ℕ) → Serves s ws → Serves (on_host h s) ws
  unfolding dials
  on_host-Serves h ws serves w x =
      serves w (record { known = x.known; caller = x.caller; made = x.made; waits = x.waits })

  pub dials-on_host : (h : Host) (w : ℕ) → dials w (on_host h s) ≡ dials w s
  unfolding dials
  dials-on_host h w = refl

  pub Waiting-on_host : (h : Host) (w : ℕ) → Waiting (on_host h s) w → Waiting s w
  Waiting-on_host h w x = record {
    known = x.known;
    caller = x.caller;
    made = x.made;
    waits = x.waits;
  }

  pub connect-Serves : (ws : List ℕ) → Serves s ws → Serves (connect s) ws
  unfolding dials
  connect-Serves ws serves w x =
      serves w (record { known = x.known; caller = x.caller; made = x.made; waits = x.waits })

  -- The queue is exchanged for one in which each caller that waits is as often.
  pub requeued-Serves :
      (ws ws1 : List ℕ)
      → Serves s ws
      → ((w : ℕ) → Waiting s w → count w ws ≤ count w ws1)
      → Serves s ws1
  requeued-Serves ws ws1 serves more w x = omega (arith, serves w x, more w x)

  -- What the callers are after a connection was recycled.
  pub with_callers-Serves :
      (after : ℕ → Option Caller) (ws ws1 : List ℕ)
      → Serves s ws
      → StillWait (callers_of s.cells) ws ws1 after
      → Serves (record s { cells = with_callers after s.cells }) ws1
  unfolding dials
  with_callers-Serves after ws ws1 serves still w x =
      let (before, places) = still w x.caller x.made x.waits in
      let same_tasks =
        sum_cells-congr (aim w) (with_callers after s.cells) s.cells s.size (λ j. refl) in
      let was : Waiting s w = record {
        known = x.known;
        caller = x.caller;
        made = before;
        waits = x.waits;
      } in
      omega (arith, serves w was, places, same_tasks)
