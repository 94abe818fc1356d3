-- ===== src/Tcp/System/Attended.antt =====
-- Every step keeps each caller that waits in the queue, or a goroutine that dials for it.
use slept.Prelude.{
  ℕ, ◌<◌, ◌≡◌, refl, ap, arith, Bool, true, false, if◌then◌else◌, List, Option, none, some,
}
use slept.Prelude.Results.{ok}
use slept.Tcp.Host.{Host, drop_slot}
use slept.Tcp.Host.Waiting.{Queued}
use slept.Tcp.System.{
  Task, dialing_for, sweeping, System, go, spawn, spawn_cleaner, dial_for, on_host, connect,
  IsHonest,
}
use slept.Tcp.System.Store.{target_of}
use slept.Tcp.System.Popped.{is_it, drop_slot-popped}
use slept.Tcp.System.Served.{
  Waiting, Serves, go-Serves, spawn-Serves, on_host-Serves, connect-Serves, requeued-Serves,
  Waiting-go, Waiting-on_host,
}

pub record Attended (s : System) : Type 0 where
  pub waiters : List ℕ
  pub queued : Queued s.host.queue waiters
  pub serves : Serves s waiters

-- A task goes on that no caller depends on, and the host with the same queue.
pub gone_on :
    (s : System) (h : Host) (i : ℕ) (t t0 : Task)
    → Attended s
    → i < s.size
    → (s.cells i).task ≡ t0
    → target_of t0 ≡ none
    → h.queue ≡ s.host.queue
    → Attended (go i t (on_host h s))
gone_on s h i t t0 a known task free same = record {
  waiters = a.waiters;
  queued = rw same a.queued;
  serves =
      go-Serves (on_host h s) i t t0 a.waiters (on_host-Serves s h a.waiters a.serves) known task
        (λ w x. omega (arith, ap (is_it w) free));
}

pub went_on :
    (s : System) (i : ℕ) (t t0 : Task)
    → Attended s
    → i < s.size
    → (s.cells i).task ≡ t0
    → target_of t0 ≡ none
    → Attended (go i t s)
went_on s i t t0 a known task free = gone_on s s.host i t t0 a known task free refl

pub spawned : (s : System) (t : Task) → Attended s → Attended (spawn t s)
spawned s t a = record {
  waiters = a.waiters;
  queued = a.queued;
  serves = spawn-Serves s t a.waiters a.waiters a.serves (λ w x. omega arith);
}

pub cleaner_spawned : (b : Bool) (s : System) → Attended s → Attended (spawn_cleaner b s)
cleaner_spawned true s a = spawned s sweeping a
cleaner_spawned false s a = a

pub connected : (s : System) → Attended s → Attended (connect s)
connected s a = record {
  waiters = a.waiters;
  queued = a.queued;
  serves = connect-Serves s a.waiters a.serves;
}

pub branched :
    (b : Bool) (i : ℕ) (t u : Task) (s : System)
    → Attended (go i t s)
    → Attended (go i u s)
    → Attended (go i (if b then t else u) s)
branched true i t u s p q = p
branched false i t u s p q = q

pub honest_seen :
    (s : System) (seen : ℕ → Bool) (w : ℕ) → IsHonest seen s → Waiting s w → seen w ≡ true
honest_seen s seen w honest x = honest w x.caller x.made x.waits

-- A slot is dropped, or the caller that was popped is dialed for.
pub slot_dropped :
    (s : System) (i : ℕ) (t t0 : Task) (seen : ℕ → Bool) (h : Host) (next : Option ℕ)
    → Attended s
    → i < s.size
    → (s.cells i).task ≡ t0
    → target_of t0 ≡ none
    → IsHonest seen s
    → drop_slot seen s.host ≡ ok (some (h, next))
    → Attended (dial_for next (go i t (on_host h s)))
slot_dropped s i t t0 seen h none a known task free honest ran =
    let (ws, queued, places) = drop_slot-popped seen s.host a.waiters a.queued h none ran in
    let fewer =
      requeued-Serves s a.waiters ws a.serves
        (λ w x. omega (arith, places w (honest_seen s seen w honest x))) in
    record {
      waiters = ws;
      queued = queued;
      serves =
          go-Serves (on_host h s) i t t0 ws (on_host-Serves s h ws fewer) known task
            (λ w x. omega (arith, ap (is_it w) free));
    }
slot_dropped s i t t0 seen h (some k) a known task free honest ran =
    let (ws, queued, places) = drop_slot-popped seen s.host a.waiters a.queued h (some k) ran in
    let went =
      go-Serves (on_host h s) i t t0 a.waiters (on_host-Serves s h a.waiters a.serves) known task
        (λ w x. omega (arith, ap (is_it w) free)) in
    record {
      waiters = ws;
      queued = queued;
      serves = spawn-Serves (go i t (on_host h s)) (dialing_for k) a.waiters ws went (λ w x.
          let y = Waiting-on_host s h w (Waiting-go (on_host h s) i t w x) in
          omega (arith, places w (honest_seen s seen w honest y)));
    }
