-- ===== src/Tcp/System/Offers.antt =====
-- The callers that wait when a request queues, a caller is offered an answer, or a connection is
-- recycled.
use slept.Prelude.{ℕ, ◌+◌, ◌<◌, ◌≤◌, ◌≡◌, refl, ap, arith, Bool, false, Option, some, All}
use slept.Prelude.Results.{ok}
use mathlib.Core.Path.{subst, sym, fun_ext}
use native.Mathlib.Decide.{ℕ_discrete}
use slept.Tcp.Caller.{Caller, new_caller, waiting}
use slept.Tcp.Host.{Host}
use slept.Tcp.System.{
  Task, full, awaiting, recycling, finished, Cell, System, callers_of, with_callers, put, go,
  answer, on_host, IsHonest,
}
use slept.Tcp.System.Store.{target_of, IsCaller, Inv}
use slept.Tcp.System.Known.{declined, accepted, Offered}
use slept.Tcp.System.Parts.{callers-IsSound}
use slept.Tcp.System.Popped.{is_it, count, queue-popped, recycle-popped}
use slept.Tcp.System.Served.{
  aims, dials, Waiting, go-Serves, answered-Serves, on_host-Serves, dials-put, Waiting-answered,
  dials-on_host, with_callers-Serves,
}
use slept.Tcp.Host.{queue_waiting_caller, recycle}
use slept.Tcp.Host.Waiting.{first_seen-All, Queued-eq}
use slept.Tcp.System.Attended.{Attended, honest_seen}

-- A request becomes a caller behind the others.
pub enqueued :
    (s : System) (i : ℕ) (seen : ℕ → Bool) (h : Host)
    → Attended s
    → i < s.size
    → (s.cells i).task ≡ full
    → IsHonest seen s
    → queue_waiting_caller seen i s.host ≡ ok (some h)
    → Attended (put i (record { task = awaiting; caller = some new_caller }) (on_host h s))
enqueued s i seen h a known task honest ran =
    let (ws, queued, self, places) = queue-popped seen s.host a.waiters a.queued i h ran in
    let new : Cell = record { task = awaiting; caller = some new_caller } in
    record {
      waiters = ws;
      queued = queued;
      serves = λ w x. elim (ℕ_discrete w i) [
        | yes same ↦
            subst (λ (j : ℕ). 1 ≤ count j ws + dials j (put i new (on_host h s))) (sym same)
              (omega (arith, self))
        | no other ↦
            let before : Waiting s w = record {
              known = x.known;
              caller = x.caller;
              made = ground (arith, x.made, other);
              waits = x.waits;
            } in
            omega (
              arith,
              a.serves w before,
              places w (honest_seen s seen w honest before),
              dials-put (on_host h s) i new w known,
              ap (aims w) task,
              dials-on_host s h w,
            )
      ];
    }

-- A caller is offered an answer by a task that then goes on.
answer-go_at :
    (s : System) (w i : ℕ) (t : Task) (c : Caller) (j : ℕ)
    → (answer w c (go i t s)).cells j ≡ (go i t (answer w c s)).cells j
answer-go_at s w i t c j = elim (ℕ_discrete w i) [
  | yes same ↦ rw same (ground arith)
  | no other ↦ ground (arith, other)
]

answer-go :
    (s : System) (w i : ℕ) (t : Task) (c : Caller) → answer w c (go i t s) ≡ go i t (answer w c s)
answer-go s w i t c =
    let cells_same = fun_ext (answer-go_at s w i t c) in
    ap (λ (x : ℕ → Cell). record s { cells = x }) cells_same

pub offered :
    (s : System) (i w : ℕ) (t t0 : Task) (c1 : Caller)
    → Attended s
    → i < s.size
    → (s.cells i).task ≡ t0
    → target_of t0 ≡ some w
    → w < s.size
    → waiting c1 ≡ false
    → Attended (answer w c1 (go i t s))
offered s i w t t0 c1 a known task for_w there done =
    let s1 = answer w c1 s in
    let after =
      answered-Serves s w (s.cells w).task c1 done (s.cells w).task a.waiters a.serves there refl
        (λ v ne. omega arith) in
    let task1 : (s1.cells i).task ≡ t0 = ground (arith, task) in
    subst Attended (sym (answer-go s w i t c1)) (record {
      waiters = a.waiters;
      queued = a.queued;
      serves = go-Serves s1 i t t0 a.waiters after known task1 (λ v x.
          let (ne, was) = Waiting-answered s w (s.cells w).task c1 done v x in
          ground (arith, ap (is_it v) for_w, ne));
    })

pub Offered-done :
    {conn : Option ℕ} {c c1 : Caller} {delivered : Bool}
    → Offered conn c delivered c1
    → waiting c1 ≡ false
Offered-done (declined same done) = subst (λ (x : Caller). waiting x ≡ false) (sym same) done
Offered-done (accepted waits sound done got) = done

-- A connection is recycled.
pub recycled_on :
    (s : System) (i conn now : ℕ) (seen : ℕ → Bool) (h : Host) (after : ℕ → Option Caller)
    → Inv s
    → Attended s
    → i < s.size
    → (s.cells i).task ≡ recycling conn
    → IsHonest seen s
    → recycle seen now conn (callers_of s.cells) s.host ≡ ok (some (h, after))
    → Attended (go i finished (record s { host = h; cells = with_callers after s.cells }))
recycled_on s i conn now seen h after inv a known task honest ran =
    let w = inv.queue in
    let same = Queued-eq s.host.queue w.waiters a.waiters w.queued a.queued in
    let each : All (IsCaller s) a.waiters = subst (All (IsCaller s)) same w.each in
    let (ws, queued, still) =
      recycle-popped seen now conn (callers_of s.cells) s.host a.waiters honest h after a.queued
        (λ k first.
          callers-IsSound s inv k (first_seen-All seen (IsCaller s) a.waiters k each first))
        ran in
    let r = record s { cells = with_callers after s.cells } in
    let kept = with_callers-Serves s after a.waiters ws a.serves still in
    record {
      waiters = ws;
      queued = queued;
      serves =
          go-Serves (on_host h r) i finished (recycling conn) ws (on_host-Serves r h ws kept) known
            task (λ v x. omega arith);
    }
