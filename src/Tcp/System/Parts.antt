-- ===== src/Tcp/System/Parts.antt =====
-- The parts that steps share: branches, dropped slots, recycled connections and offered answers
-- keep what holds of every cell.
use slept.Prelude.{
  ℕ, ◌<◌, ◌≡◌, ◌≢◌, refl, arith, Bool, true, false, if◌then◌else◌, Option, none, some,
}
use slept.Prelude.Cells.{overwrite, overwrite_self}
use slept.Prelude.Results.{ok}
use mathlib.Core.Path.{subst, fun_ext, sym}
use native.Mathlib.Decide.{ℕ_discrete}
use slept.Tcp.Caller.{Caller, new_caller, waiting, IsSound}
use slept.Tcp.Caller.Once.{new_caller-IsSound}
use slept.Tcp.Host.{Host, drop_slot, queue_waiting_caller}
use slept.Tcp.Host.Sections.{Waits, Drops, QueueOutcome}
use slept.Tcp.Host.Recycle.{Recycles, became_idle, handed_over}
use slept.Tcp.System.{
  Task, awaiting, dialing_for, sweeping, Cell, System, callers_of, with_callers, put, go, answer,
  spawn_cleaner, dial_for, on_host, connect, after_cancel,
}
use slept.Tcp.System.Store.{
  target_of, IsCaller, Inv, put-Inv, went-Inv, answer-Inv, spawn-Inv, on_host-Inv, IsCaller-put,
}
use slept.Tcp.System.Known.{declined, accepted, drop_slot-known, queue-known, Offered}

-- The callers after a connection was recycled: the same, or one of them answered.
pub with_callers-same :
    (cells : ℕ → Cell) (after : ℕ → Option Caller)
    → after ≡ callers_of cells
    → with_callers after cells ≡ cells
with_callers-same cells after e = rw e refl

answer_at :
    (cells : ℕ → Cell) (k : ℕ) (c1 : Caller) (j : ℕ)
    → with_callers (overwrite k (some c1) (callers_of cells)) cells j
      ≡ overwrite k (record (cells k) { caller = some c1 }) cells j
answer_at cells k c1 j = elim (ℕ_discrete j k) [ yes p ↦ rw p (ground arith) | no p ↦ ground arith ]

pub with_callers-answer :
    (cells : ℕ → Cell) (after : ℕ → Option Caller) (k : ℕ) (c1 : Caller)
    → after ≡ overwrite k (some c1) (callers_of cells)
    → with_callers after cells ≡ overwrite k (record (cells k) { caller = some c1 }) cells
with_callers-answer cells after k c1 e = rw e (fun_ext (answer_at cells k c1))

pub Waits-same_queue : {P : ℕ → Type 0} {g h : Host} → g.queue ≡ h.queue → Waits P h → Waits P g
Waits-same_queue e w = record { waiters = w.waiters; queued = rw e w.queued; each = w.each }

pub branch-Inv :
    (b : Bool) (i : ℕ) (t u : Task) (s : System)
    → Inv (go i t s)
    → Inv (go i u s)
    → Inv (go i (if b then t else u) s)
branch-Inv true i t u s p q = p
branch-Inv false i t u s p q = q

pub spawn_cleaner-Inv : (b : Bool) (s : System) → Inv s → Inv (spawn_cleaner b s)
spawn_cleaner-Inv true s inv = spawn-Inv s sweeping inv (λ w e. absurd (cc e))
spawn_cleaner-Inv false s inv = inv

pub dial_for-Inv :
    (next : Option ℕ) (s : System)
    → Inv s
    → ((w : ℕ) → next ≡ some w → IsCaller s w)
    → Inv (dial_for next s)
dial_for-Inv none s inv p = inv
dial_for-Inv (some w) s inv p = spawn-Inv s (dialing_for w) inv p

-- The cells and the host after a connection was recycled.
pub recycled-Inv :
    (price : ℕ → ℕ) (cc : ℕ) (s : System) (h : Host) (after : ℕ → Option Caller)
    → Inv s
    → Waits (IsCaller s) h
    → Recycles price (IsCaller s) cc (callers_of s.cells) s.host h after
    → Inv (record s { host = h; cells = with_callers after s.cells })
recycled-Inv price cc s h after inv w (became_idle same e) =
    subst (λ (x : ℕ → Cell). Inv (record s { host = h; cells = x }))
      (sym (with_callers-same s.cells after same)) (on_host-Inv s h inv w)
recycled-Inv price cc s h after inv w (handed_over k c c1 p same e is open_then sound done got) =
    subst (λ (x : ℕ → Cell). Inv (record s { host = h; cells = x }))
      (sym (with_callers-answer s.cells after k c1 same))
      (answer-Inv (on_host h s) k c1 (on_host-Inv s h inv w)
        (record { known = p.known; caller = p.caller; made = p.made }) sound done)

pub IsCaller-on_host : (s : System) (h : Host) (w : ℕ) → IsCaller s w → IsCaller (on_host h s) w
IsCaller-on_host s h w x = record { known = x.known; caller = x.caller; made = x.made }

-- What is dialed for the caller that a section has found.
pub drops_for :
    (P : ℕ → Type 0) (h g : Host) (next : Option ℕ)
    → Drops P h g next
    → (w : ℕ) → next ≡ some w
    → P w
drops_for P h g none d w e = absurd (cc e)
drops_for P h g (some k) d w e = let same : k ≡ w = cc e in subst P same d.1

-- A task drops a slot and goes on.
pub dropping-Inv :
    (s : System) (i : ℕ) (t t0 : Task) (seen : ℕ → Bool) (h : Host) (next : Option ℕ)
    → Inv s
    → i < s.size
    → (s.cells i).task ≡ t0
    → t0 ≢ awaiting
    → target_of t ≡ none
    → drop_slot seen s.host ≡ ok (some (h, next))
    → Inv (dial_for next (go i t (on_host h s)))
dropping-Inv s i t t0 seen h next inv known task moved none_there ran =
    let o = drop_slot-known (IsCaller s) seen s.host inv.queue ran in
    let went =
      went-Inv (on_host h s) i t (on_host-Inv s h inv o.waits) known task moved
        (λ w e. absurd (cc (none_there, e))) in
    dial_for-Inv next (go i t (on_host h s)) went (λ w e.
      IsCaller-put (on_host h s) i (record (s.cells i) { task = t }) (λ k m. (k, m)) w
        (IsCaller-on_host s h w (drops_for (IsCaller s) s.host h next o.drops w e)))

pub after_cancel-target : (conn : Option ℕ) → target_of (after_cancel conn) ≡ none
after_cancel-target none = refl
after_cancel-target (some k) = refl

pub IsCaller-connect : (s : System) (w : ℕ) → IsCaller s w → IsCaller (connect s) w
IsCaller-connect s w x = record { known = x.known; caller = x.caller; made = x.made }

pub target-IsCaller :
    (s : System) (i : ℕ) {t : Task} {w : ℕ}
    → Inv s
    → i < s.size
    → (s.cells i).task ≡ t
    → target_of t ≡ some w
    → IsCaller s w
target-IsCaller s i {t} {w} inv known task e = (inv.good i known).target w (rw task e)

pub callers-IsSound :
    (s : System)
    → Inv s
    → (k : ℕ) → IsCaller s k
    → (c : Caller) × (callers_of s.cells k ≡ some c) × IsSound c
callers-IsSound s inv k x = (x.caller, x.made, (inv.good k x.known).sound x.caller x.made)

pub Offered-Inv :
    (s : System) (w : ℕ) (conn : Option ℕ) (c : Caller) {delivered : Bool} {c1 : Caller}
    → Inv s
    → IsCaller s w
    → IsSound c
    → Offered conn c delivered c1
    → Inv (answer w c1 s)
Offered-Inv s w conn c {delivered} {c1} inv there sound (declined same done) =
    answer-Inv s w c1 inv there (subst (λ (x : Caller). IsSound x) (sym same) sound)
      (subst (λ (x : Caller). waiting x ≡ false) (sym same) done)
Offered-Inv s w conn c {delivered} {c1} inv there sound (accepted waited sound1 done got) =
    answer-Inv s w c1 inv there sound1 done

-- A request that has found no connection is a caller when it queues.
pub enqueued-QueueOutcome :
    (s : System) (i : ℕ) (seen : ℕ → Bool) (h : Host)
    → Inv s
    → i < s.size
    → queue_waiting_caller seen i s.host ≡ ok (some h)
    → Inv (put i (record { task = awaiting; caller = some new_caller }) s)
      × QueueOutcome
          (IsCaller (put i (record { task = awaiting; caller = some new_caller }) s))
          s.host
          h
enqueued-QueueOutcome s i seen h inv known ran =
    let c : Cell = record { task = awaiting; caller = some new_caller } in
    let t = put i c s in
    let inv1 =
      put-Inv s i c inv (λ k e. (new_caller, refl))
        (record {
          sound = λ k e.
              let same : new_caller ≡ k = cc e in
              subst (λ (x : Caller). IsSound x) same new_caller-IsSound;
          waits = λ k e h. refl;
          target = λ w e. absurd (cc e);
        }) in
    let self : IsCaller t i = record {
      known = known;
      caller = new_caller;
      made = rw (overwrite_self i c s.cells) refl;
    } in
    (inv1, queue-known (IsCaller t) seen s.host inv1.queue i self ran)
