-- ===== src/Tcp/System/Invariant.antt =====
-- Every step keeps the callers sound, known to the queue, and waiting only while their task awaits.
use slept.Prelude.{◌≡◌, refl, false, ◌==◌, if◌then◌else◌, none, some, ◌∷◌, map}
use slept.Prelude.Int.{is_zero}
use mathlib.Core.Path.{subst}
use slept.Tcp.Caller.{Caller, new_caller, waiting}
use slept.Tcp.Host.{Idle}
use slept.Tcp.System.{
  Task, start, full, dialing, awaiting, using, delivering, recycling, dropping, sweeping, closing,
  stopping, finished, System, callers_of, with_callers, put, go, on_host, connect, after_cancel,
  Step, arrive, take_idle, take_slot, take_none, enqueue, answered, give_up, dialed, refused,
  dialed_for, refused_for, deliver, release, destroy, recycled, dropped, swept, closed_one,
  closed_all, stopped, discarding, shutting, shutting_swept, discarded, shut, given_up,
}
use slept.Tcp.System.Store.{
  IsCaller, Inv, go-Inv, went-Inv, spawn-Inv, on_host-Inv, connect-Inv, open_and_done, IsCaller-put,
  answered-Inv,
}
use slept.Tcp.System.Known.{
  take_conn-known, sweep-known, recycle-known, try_deliver-known, cancel-known,
}
use slept.Tcp.System.Parts.{
  enqueued-QueueOutcome, Waits-same_queue, branch-Inv, spawn_cleaner-Inv, recycled-Inv,
  dropping-Inv, after_cancel-target, IsCaller-connect, target-IsCaller, callers-IsSound,
  Offered-Inv,
}

pub Step-Inv : {s t : System} → Inv s → Step s t → Inv t
Step-Inv {s} inv arrive = spawn-Inv s start inv (λ w e. absurd (cc e))
Step-Inv {s} inv (take_idle i h conn known task ran) =
    let o = take_conn-known (λ c. 0) s.host ran in
    went-Inv (on_host h s) i (using conn)
      (on_host-Inv s h inv (Waits-same_queue o.queue_same inv.queue)) known task (λ e. cc e)
      (λ w e. absurd (cc e))
Step-Inv {s} inv (take_slot i h starts known task ran) =
    let o = take_conn-known (λ c. 0) s.host ran in
    spawn_cleaner-Inv starts (go i dialing (on_host h s)) (
      went-Inv (on_host h s) i dialing
        (on_host-Inv s h inv (Waits-same_queue o.queue_same inv.queue)) known task (λ e. cc e)
        (λ w e. absurd (cc e)))
Step-Inv {s} inv (take_none i h known task ran) =
    let o = take_conn-known (λ c. 0) s.host ran in
    let inv1 = on_host-Inv s h inv (Waits-same_queue o.queue_same inv.queue) in
    branch-Inv (h.max_conn_wait == 0) i finished full (on_host h s)
      (went-Inv (on_host h s) i finished inv1 known task (λ e. cc e) (λ w e. absurd (cc e)))
      (went-Inv (on_host h s) i full inv1 known task (λ e. cc e) (λ w e. absurd (cc e)))
Step-Inv {s} inv (enqueue i seen h known task honest ran) =
    let (inv1, o) = enqueued-QueueOutcome s i seen h inv known ran in
    on_host-Inv (put i (record { task = awaiting; caller = some new_caller }) s) h inv1 o.waits
Step-Inv {s} inv (answered i c conn known task made done is no_err) =
    go-Inv s i (using conn) inv known
      (λ k e h.
        let same : c ≡ k = cc (made, e) in
        absurd (open_and_done (subst (λ (x : Caller). waiting x ≡ false) same done) h))
      (λ w e. absurd (cc e))
Step-Inv {s} inv (give_up i c c1 err conn known task made ran) =
    let (same, sound, done, lost) = cancel-known err c ((inv.good i known).sound c made) ran in
    answered-Inv s i (after_cancel conn) c1 inv sound done
      (λ w e. absurd (cc (after_cancel-target conn, e)))
Step-Inv {s} inv (dialed i known task) =
    went-Inv (connect s) i (using s.opened) (connect-Inv s inv) known task (λ e. cc e)
      (λ w e. absurd (cc e))
Step-Inv {s} inv (refused i known task) =
    went-Inv s i dropping inv known task (λ e. cc e) (λ w e. absurd (cc e))
Step-Inv {s} inv (dialed_for i w known task) =
    went-Inv (connect s) i (delivering w s.opened) (connect-Inv s inv) known task (λ e. cc e)
      (λ v e. IsCaller-connect s v (target-IsCaller s i inv known task (cc e)))
Step-Inv {s} inv (refused_for i w c c1 err delivered known task made ran) =
    let there : IsCaller s w = target-IsCaller s i inv known task refl in
    let offered =
      try_deliver-known none (some err) c ((inv.good w there.known).sound c made) refl ran in
    let inv1 = went-Inv s i dropping inv known task (λ e. cc e) (λ v e. absurd (cc e)) in
    Offered-Inv (go i dropping s) w none c inv1
      (IsCaller-put s i (record (s.cells i) { task = dropping }) (λ k m. (k, m)) w there)
      ((inv.good w there.known).sound c made) offered
Step-Inv {s} inv (deliver i w conn c c1 delivered known task made ran) =
    let there : IsCaller s w = target-IsCaller s i inv known task refl in
    let sound = (inv.good w there.known).sound c made in
    let offered = try_deliver-known (some conn) none c sound refl ran in
    let t : Task = if delivered then finished else recycling conn in
    let inv1 =
      branch-Inv delivered i finished (recycling conn) s
        (went-Inv s i finished inv known task (λ e. cc e) (λ v e. absurd (cc e)))
        (went-Inv s i (recycling conn) inv known task (λ e. cc e) (λ v e. absurd (cc e))) in
    Offered-Inv (go i t s) w (some conn) c inv1
      (IsCaller-put s i (record (s.cells i) { task = t }) (λ k m. (k, m)) w there) sound offered
Step-Inv {s} inv (release i conn known task) =
    went-Inv s i (recycling conn) inv known task (λ e. cc e) (λ w e. absurd (cc e))
Step-Inv {s} inv (destroy i conn known task) =
    went-Inv s i (discarding conn) inv known task (λ e. cc e) (λ w e. absurd (cc e))
Step-Inv {s} inv (discarded i conn seen h next known task honest ran) =
    dropping-Inv s i (shutting conn) (discarding conn) seen h next inv known task (λ e. cc e) refl
      ran
Step-Inv {s} inv (shut i conn known task) =
    went-Inv s i finished inv known task (λ e. cc e) (λ w e. absurd (cc e))
Step-Inv {s} inv (recycled i conn now seen h callers known task honest ran) =
    let w = inv.queue in
    let o =
      recycle-known (IsCaller s) seen s.host w (λ c. 0) now conn (callers_of s.cells)
        (callers-IsSound s inv) ran in
    let after = record s { host = h; cells = with_callers callers s.cells } in
    went-Inv after i finished (recycled-Inv (λ c. 0) conn s h callers inv o.waits o.recycles) known
      task (λ e. cc e) (λ v e. absurd (cc e))
Step-Inv {s} inv (dropped i seen h next known task honest ran) =
    dropping-Inv s i finished dropping seen h next inv known task (λ e. cc e) refl ran
Step-Inv {s} inv (swept i now r known task ran) =
    let o = sweep-known (λ c. 0) now s.host ran in
    went-Inv (on_host r.host s) i (closing (map Idle.conn r.scratch))
      (on_host-Inv s r.host inv (Waits-same_queue o.queue_same inv.queue)) known task (λ e. cc e)
      (λ w e. absurd (cc e))
Step-Inv {s} inv (given_up i conn ccs seen h next known task honest ran) =
    dropping-Inv s i (shutting_swept conn ccs) (closing (conn ∷ ccs)) seen h next inv known task
      (λ e. cc e) refl ran
Step-Inv {s} inv (closed_one i conn ccs known task) =
    went-Inv s i (closing ccs) inv known task (λ e. cc e) (λ w e. absurd (cc e))
Step-Inv {s} inv (closed_all i known task) =
    branch-Inv (is_zero s.host.count) i stopping sweeping s
      (went-Inv s i stopping inv known task (λ e. cc e) (λ w e. absurd (cc e)))
      (went-Inv s i sweeping inv known task (λ e. cc e) (λ w e. absurd (cc e)))
Step-Inv {s} inv (stopped i known task) =
    let h = record (s.host) { cleaner_running = false } in
    went-Inv (on_host h s) i finished (on_host-Inv s h inv (Waits-same_queue refl inv.queue)) known
      task (λ e. cc e) (λ w e. absurd (cc e))
