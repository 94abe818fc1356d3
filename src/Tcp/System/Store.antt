-- ===== src/Tcp/System/Store.antt =====
-- The cells of a system: which are callers, what holds of each, and how single writes keep it.
use slept.Prelude.{
  ℕ, ◌<◌, ◌≡◌, ◌≢◌, refl, arith, Bool, true, false, Option, none, some, All, List, [], ◌∷◌,
}
use mathlib.Core.Path.{subst}
use native.Mathlib.Decide.{ℕ_discrete}
use slept.Prelude.Cells.{overwrite_self, overwrite_ne}
use slept.Tcp.Caller.{Caller, waiting, IsSound}
use slept.Tcp.Host.{Host}
use slept.Tcp.Host.Sections.{Waits}
use slept.Tcp.System.{
  Task, start, full, dialing, awaiting, using, dialing_for, delivering, recycling, dropping,
  sweeping, closing, stopping, finished, Cell, System, put, go, answer, spawn, on_host, connect,
  discarding, shutting, shutting_swept,
}

-- The request that a dialed connection is for.
abbrev pub target_of : Task → Option ℕ
target_of start = none
target_of full = none
target_of dialing = none
target_of awaiting = none
target_of (using cc) = none
target_of (dialing_for w) = some w
target_of (delivering w cc) = some w
target_of (recycling cc) = none
target_of (discarding cc) = none
target_of (shutting cc) = none
target_of dropping = none
target_of sweeping = none
target_of (closing ccs) = none
target_of (shutting_swept cc ccs) = none
target_of stopping = none
target_of finished = none

-- Task w has made a waitingCaller.
pub record IsCaller (s : System) (w : ℕ) : Type 0 where
  pub known : w < s.size
  pub caller : Caller
  pub made : (s.cells w).caller ≡ some caller

-- A caller is sound, only a task that awaits its answer has a caller that waits, and what is dialed
-- is for a caller.
pub record Good (s : System) (c : Cell) : Type 0 where
  pub sound : (k : Caller) → c.caller ≡ some k → IsSound k
  pub waits : (k : Caller) → c.caller ≡ some k → waiting k ≡ true → c.task ≡ awaiting
  pub target : (w : ℕ) → target_of c.task ≡ some w → IsCaller s w

pub record Inv (s : System) : Type 0 where
  pub good : (i : ℕ) → i < s.size → Good s (s.cells i)
  pub queue : Waits (IsCaller s) s.host

module _ (s t : System) (more : (w : ℕ) → IsCaller s w → IsCaller t w) where
  Good-more : (c : Cell) → Good s c → Good t c
  Good-more c g = record { sound = g.sound; waits = g.waits; target = λ w e. more w (g.target w e) }

  All-more : (ws : List ℕ) → All (IsCaller s) ws → All (IsCaller t) ws
  All-more [] a = tt
  All-more (w ∷ ws) a = (more w a.0, All-more ws a.1)

  Waits-more : (h : Host) → Waits (IsCaller s) h → Waits (IsCaller t) h
  Waits-more h q = record {
    waiters = q.waiters;
    queued = q.queued;
    each = All-more q.waiters q.each;
  }

-- One cell is written; a task that has made a caller keeps one.
module _ (s : System) (i : ℕ) (c : Cell) where
  pub IsCaller-put :
      ((k : Caller) → (s.cells i).caller ≡ some k → (k1 : Caller) × (c.caller ≡ some k1))
      → (w : ℕ) → IsCaller s w
      → IsCaller (put i c s) w
  IsCaller-put keeps w here = elim (ℕ_discrete w i) [
    | yes same ↦
        let (k1, is) = keeps here.caller (rw (← same) here.made) in
        record { known = here.known; caller = k1; made = rw (same, overwrite_self i c s.cells) is }
    | no other ↦ record {
      known = here.known;
      caller = here.caller;
      made = rw (overwrite_ne i w c s.cells other) here.made;
    }
  ]

  pub put-Inv :
      Inv s
      → ((k : Caller) → (s.cells i).caller ≡ some k → (k1 : Caller) × (c.caller ≡ some k1))
      → Good s c
      → Inv (put i c s)
  put-Inv inv keeps g =
      let more = IsCaller-put keeps in
      record {
        good = λ j h. elim (ℕ_discrete j i) [
          | yes same ↦ rw (same, overwrite_self i c s.cells) (Good-more s (put i c s) more c g)
          | no other ↦
              rw (overwrite_ne i j c s.cells other)
                (Good-more s (put i c s) more (s.cells j) (inv.good j h))
        ];
        queue = Waits-more s (put i c s) more s.host inv.queue;
      }

-- A task goes on; it keeps the caller that it has made.
module _ (s : System) (i : ℕ) (t : Task) where
  pub go-Inv :
      Inv s
      → i < s.size
      → ((k : Caller) → (s.cells i).caller ≡ some k → waiting k ≡ true → t ≡ awaiting)
      → ((w : ℕ) → target_of t ≡ some w → IsCaller s w)
      → Inv (go i t s)
  go-Inv inv here waits target =
      put-Inv s i (record (s.cells i) { task = t }) inv (λ k e. (k, e))
        (record { sound = (inv.good i here).sound; waits = waits; target = target })

  -- A caller that waits is that of a task that awaits; so any other task may go on.
  pub went-Inv :
      {t0 : Task}
      → Inv s
      → i < s.size
      → (s.cells i).task ≡ t0
      → t0 ≢ awaiting
      → ((w : ℕ) → target_of t ≡ some w → IsCaller s w)
      → Inv (go i t s)
  went-Inv inv here task moved target =
      go-Inv inv here (λ k e h. absurd (moved (cc ((inv.good i here).waits k e h, task)))) target

pub open_and_done : {b : Bool} → b ≡ false → ¬ (b ≡ true)
open_and_done f t = absurd (cc (f, t))

-- A caller is answered: it stays sound, and waits no more.
module _ (s : System) (w : ℕ) (t : Task) (c : Caller) where
  pub answered-Inv :
      Inv s
      → IsSound c
      → waiting c ≡ false
      → ((j : ℕ) → target_of t ≡ some j → IsCaller s j)
      → Inv (put w (record { task = t; caller = some c }) s)
  answered-Inv inv sound done target =
      put-Inv s w (record { task = t; caller = some c }) inv (λ k e. (c, refl))
        (record {
          sound = λ k e. let same : c ≡ k = cc e in subst (λ (x : Caller). IsSound x) same sound;
          waits = λ k e h.
              let same : c ≡ k = cc e in
              absurd (open_and_done (subst (λ (x : Caller). waiting x ≡ false) same done) h);
          target = target;
        })

module _ (s : System) (w : ℕ) (c : Caller) where
  pub answer-Inv : Inv s → IsCaller s w → IsSound c → waiting c ≡ false → Inv (answer w c s)
  answer-Inv inv here sound done =
      answered-Inv s w (s.cells w).task c inv sound done (inv.good w here.known).target

-- A goroutine starts.
module _ (s : System) (t : Task) where
  IsCaller-spawn : (w : ℕ) → IsCaller s w → IsCaller (spawn t s) w
  IsCaller-spawn w here = record {
    known = omega (arith, here.known);
    caller = here.caller;
    made =
        rw
          (overwrite_ne s.size w (record { task = t; caller = none }) s.cells
            (omega (arith, here.known)))
          here.made;
  }

  pub spawn-Inv : Inv s → ((w : ℕ) → target_of t ≡ some w → IsCaller s w) → Inv (spawn t s)
  spawn-Inv inv target =
      let more = IsCaller-spawn in
      let new : Cell = record { task = t; caller = none } in
      record {
        good = λ j h. elim (ℕ_discrete j s.size) [
          | yes same ↦
              rw (same, overwrite_self s.size new s.cells)
                (record {
                  sound = λ k e. absurd (cc e);
                  waits = λ k e h. absurd (cc e);
                  target = λ w e. more w (target w e);
                })
          | no other ↦
              rw (overwrite_ne s.size j new s.cells other)
                (Good-more s (spawn t s) more (s.cells j) (inv.good j (omega (arith, h, other))))
        ];
        queue = Waits-more s (spawn t s) more s.host inv.queue;
      }

-- The host goes on.
module _ (s : System) where
  pub on_host-Inv : (h : Host) → Inv s → Waits (IsCaller s) h → Inv (on_host h s)
  on_host-Inv h inv q =
      let more = λ (w : ℕ) (x : IsCaller s w).
        (let y : IsCaller (on_host h s) w = record {
          known = x.known;
          caller = x.caller;
          made = x.made;
        } in
          y) in
      record {
        good = λ i e. Good-more s (on_host h s) more (s.cells i) (inv.good i e);
        queue = Waits-more s (on_host h s) more h q;
      }

  pub connect-Inv : Inv s → Inv (connect s)
  connect-Inv inv =
      let more = λ (w : ℕ) (x : IsCaller s w).
        (let y : IsCaller (connect s) w = record {
          known = x.known;
          caller = x.caller;
          made = x.made;
        } in
          y) in
      record {
        good = λ i e. Good-more s (connect s) more (s.cells i) (inv.good i e);
        queue = Waits-more s (connect s) more s.host inv.queue;
      }
