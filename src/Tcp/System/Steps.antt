-- ===== src/Tcp/System/Steps.antt =====
-- The balance of every step.
use slept.Prelude.{
  ℕ, ◌+◌, ◌≡◌, refl, arith, true, false, ◌==◌, Option, none, some, List, [], ◌∷◌, map, ap,
}
use slept.Prelude.Int.{is_zero}
use mathlib.Core.Path.{sym}
use slept.Tcp.Caller.{Caller, new_caller}
use slept.Tcp.Host.{Idle, conn_limit}
use slept.Tcp.Host.Idles.{idle_price, prices}
use slept.Tcp.System.{
  Task, start, full, dialing, awaiting, using, dialing_for, delivering, recycling, dropping,
  sweeping, closing, stopping, finished, System, callers_of, go, on_host, connect, after_cancel,
  Step, arrive, take_idle, take_slot, take_none, enqueue, answered, give_up, dialed, refused,
  dialed_for, refused_for, deliver, release, destroy, recycled, dropped, swept, closed_one,
  closed_all, stopped, discarding, shutting, shutting_swept, discarded, shut, given_up,
}
use slept.Tcp.System.Store.{IsCaller, Inv}
use slept.Tcp.System.Known.{
  take_conn-known, sweep-known, drop_slot-known, recycle-known, try_deliver-known, cancel-known,
}
use slept.Tcp.System.Parts.{enqueued-QueueOutcome, target-IsCaller, callers-IsSound}
use slept.Tcp.System.Amount.{price_of, kept, load, held, amount, held-put, held-spawn, held-go}
use slept.Tcp.System.Balance.{
  Balance, same, connected, lost, freed, closed, went_on, went, branch, reserving,
}
use slept.Tcp.System.Answers.{refused_for-Balance, deliver-Balance, recycled-Balance}

module _ (slot : ℕ) (price : ℕ → ℕ) where
  after_cancel-load :
      (conn : Option ℕ) (c : Option Caller)
      → load slot price (after_cancel conn) c ≡ price_of slot price conn
  after_cancel-load none c = refl
  after_cancel-load (some k) c = refl

  pub Step-Balance : {s t : System} → Inv s → Step s t → Balance slot price s t
  unfolding amount held conn_limit prices
  Step-Balance {s} inv arrive = record {
    limit = refl;
    change = same refl refl (omega (arith, held-spawn slot price start s));
  }
  Step-Balance {s} inv (take_idle i h conn known task ran) =
      let o = take_conn-known price s.host ran in
      record {
        limit = o.limit_same;
        change = same o.takes.0 refl (
            omega
              (arith, o.takes.1, held-go slot price i (using conn) start (on_host h s) known task));
      }
  Step-Balance {s} inv (take_slot i h true known task ran) =
      let o = take_conn-known price s.host ran in
      reserving slot price true s h i known task o.limit_same o.takes.0 o.takes.1 o.takes.2
  Step-Balance {s} inv (take_slot i h false known task ran) =
      let o = take_conn-known price s.host ran in
      reserving slot price false s h i known task o.limit_same o.takes.0 o.takes.1 o.takes.2
  Step-Balance {s} inv (take_none i h known task ran) =
      let o = take_conn-known price s.host ran in
      let e = ap (λ (ccs : List Idle). idle_price price ccs + 0) o.takes.1 in
      branch slot price (h.max_conn_wait == 0) i finished full (on_host h s) s
        (went_on slot price s h i finished start known task o.limit_same o.takes.0 e)
        (went_on slot price s h i full start known task o.limit_same o.takes.0 e)
  Step-Balance {s} inv (enqueue i seen h known task honest ran) =
      let (inv1, o) = enqueued-QueueOutcome s i seen h inv known ran in
      record {
        limit = o.limit_same;
        change = same o.count_same refl (
            omega (
              arith,
              ap (idle_price price) o.conns_same,
              ap (λ (x : Task). load slot price x (s.cells i).caller) task,
              held-put slot price i (record { task = awaiting; caller = some new_caller })
                  (on_host h s) known,
            ));
      }
  Step-Balance {s} inv (answered i c conn known task made done is no_err) =
      let e : kept slot price (s.cells i).caller ≡ price conn =
        omega (arith, ap (kept slot price) made, ap (price_of slot price) is) in
      went slot price s i (using conn) awaiting known task (sym e)
  Step-Balance {s} inv (give_up i c c1 err conn known task made ran) =
      let (gave, sound, done, left) = cancel-known err c ((inv.good i known).sound c made) ran in
      record {
        limit = refl;
        change = same refl refl (
            omega (
              arith,
              ap (λ (x : Task). load slot price x (s.cells i).caller) task,
              ap (kept slot price) made,
              ap (price_of slot price) gave,
              after_cancel-load conn (some c1),
              held-put slot price i (record { task = after_cancel conn; caller = some c1 }) s known,
            ));
      }
  Step-Balance {s} inv (dialed i known task) = record {
    limit = refl;
    change =
        connected refl refl
          (omega (arith, held-go slot price i (using s.opened) dialing (connect s) known task));
  }
  Step-Balance {s} inv (refused i known task) = went slot price s i dropping dialing known task refl
  Step-Balance {s} inv (dialed_for i w known task) = record {
    limit = refl;
    change = connected refl refl (
        omega (
          arith,
          held-go slot price i (delivering w s.opened) (dialing_for w) (connect s) known task,
        ));
  }
  Step-Balance {s} inv (refused_for i w c c1 err delivered known task made ran) =
      let there : IsCaller s w = target-IsCaller s i inv known task refl in
      let sound = (inv.good w there.known).sound c made in
      refused_for-Balance slot price s i w c known task there.known made sound
        (try_deliver-known none (some err) c sound refl ran)
  Step-Balance {s} inv (deliver i w conn c c1 delivered known task made ran) =
      let there : IsCaller s w = target-IsCaller s i inv known task refl in
      let sound = (inv.good w there.known).sound c made in
      deliver-Balance slot price s i w conn c inv known task there.known made sound
        (try_deliver-known (some conn) none c sound refl ran)
  Step-Balance {s} inv (release i conn known task) =
      went slot price s i (recycling conn) (using conn) known task refl
  Step-Balance {s} inv (destroy i conn known task) =
      went slot price s i (discarding conn) (using conn) known task refl
  Step-Balance {s} inv (discarded i conn seen h none known task honest ran) =
      let o = drop_slot-known (IsCaller s) seen s.host inv.queue ran in
      record {
        limit = o.limit_same;
        change = closed conn o.drops refl (
            omega (
              arith,
              ap (idle_price price) o.conns_same,
              held-go slot price i (shutting conn) (discarding conn) (on_host h s) known task,
            ));
      }
  Step-Balance {s} inv (discarded i conn seen h (some w) known task honest ran) =
      let o = drop_slot-known (IsCaller s) seen s.host inv.queue ran in
      record {
        limit = o.limit_same;
        change = lost conn o.drops.0 refl (
            omega (
              arith,
              ap (idle_price price) o.conns_same,
              held-go slot price i (shutting conn) (discarding conn) (on_host h s) known task,
              held-spawn slot price (dialing_for w) (go i (shutting conn) (on_host h s)),
            ));
      }
  Step-Balance {s} inv (shut i conn known task) =
      went slot price s i finished (shutting conn) known task refl
  Step-Balance {s} inv (recycled i conn now seen h callers known task honest ran) =
      let o =
        recycle-known (IsCaller s) seen s.host inv.queue price now conn (callers_of s.cells)
          (callers-IsSound s inv) ran in
      recycled-Balance slot price s i conn h callers inv known task o.limit_same o.count_same
        o.recycles
  Step-Balance {s} inv (dropped i seen h none known task honest ran) =
      let o = drop_slot-known (IsCaller s) seen s.host inv.queue ran in
      record {
        limit = o.limit_same;
        change = freed o.drops refl (
            omega (
              arith,
              ap (idle_price price) o.conns_same,
              held-go slot price i finished dropping (on_host h s) known task,
            ));
      }
  Step-Balance {s} inv (dropped i seen h (some w) known task honest ran) =
      let o = drop_slot-known (IsCaller s) seen s.host inv.queue ran in
      record {
        limit = o.limit_same;
        change = same o.drops.0 refl (
            omega (
              arith,
              ap (idle_price price) o.conns_same,
              held-go slot price i finished dropping (on_host h s) known task,
              held-spawn slot price (dialing_for w) (go i finished (on_host h s)),
            ));
      }
  Step-Balance {s} inv (swept i now r known task ran) =
      let o = sweep-known price now s.host ran in
      went_on slot price s r.host i (closing (map Idle.conn r.scratch)) sweeping known task
        o.limit_same o.count_same (omega (arith, o.split))
  Step-Balance {s} inv (given_up i conn ccs seen h none known task honest ran) =
      let o = drop_slot-known (IsCaller s) seen s.host inv.queue ran in
      record {
        limit = o.limit_same;
        change = closed conn o.drops refl (
            omega (
              arith,
              ap (idle_price price) o.conns_same,
              held-go slot price i (shutting_swept conn ccs) (closing (conn ∷ ccs)) (on_host h s)
                  known task,
            ));
      }
  Step-Balance {s} inv (given_up i conn ccs seen h (some w) known task honest ran) =
      let o = drop_slot-known (IsCaller s) seen s.host inv.queue ran in
      record {
        limit = o.limit_same;
        change = lost conn o.drops.0 refl (
            omega (
              arith,
              ap (idle_price price) o.conns_same,
              held-go slot price i (shutting_swept conn ccs) (closing (conn ∷ ccs)) (on_host h s)
                  known task,
              held-spawn slot price (dialing_for w) (go i (shutting_swept conn ccs) (on_host h s)),
            ));
      }
  Step-Balance {s} inv (closed_one i conn ccs known task) =
      went slot price s i (closing ccs) (shutting_swept conn ccs) known task refl
  Step-Balance {s} inv (closed_all i known task) =
      branch slot price (is_zero s.host.count) i stopping sweeping s s
        (went slot price s i stopping (closing []) known task (unfold prices in refl))
        (went slot price s i sweeping (closing []) known task (unfold prices in refl))
  Step-Balance {s} inv (stopped i known task) =
      went_on slot price s (record (s.host) { cleaner_running = false }) i finished stopping known
        task refl refl refl
