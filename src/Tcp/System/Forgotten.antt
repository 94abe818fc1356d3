-- ===== src/Tcp/System/Forgotten.antt =====
-- No caller that waits is forgotten, whatever runs on its HostClient.
use slept.Prelude.{
  ℕ, suc, ◌<◌, ◌≤◌, ◌≡◌, refl, ap, arith, true, false, ◌==◌, if◌then◌else◌, List, [], ◌∷◌, map,
  Option, none, some, get_elem?, ◌⊎◌, inl, inr,
}
use slept.Prelude.Int.{is_zero}
use native.Mathlib.Decide.{ℕ_discrete, dec_lt}
use slept.Tcp.Caller.{Caller, waiting}
use slept.Tcp.Host.{Idle}
use slept.Tcp.Host.Waiting.{Queued}
use slept.Tcp.System.{
  start, full, dialing, awaiting, using, dialing_for, delivering, recycling, dropping, sweeping,
  closing, stopping, finished, System, go, on_host, connect, after_cancel, Step, arrive, take_idle,
  take_slot, take_none, enqueue, answered, give_up, dialed, refused, dialed_for, refused_for,
  deliver, release, destroy, recycled, dropped, swept, closed_one, closed_all, stopped, discarding,
  shutting, shutting_swept, discarded, shut, given_up,
}
use slept.Tcp.System.Store.{target_of, IsCaller, Inv}
use slept.Tcp.System.Known.{take_conn-known, sweep-known, try_deliver-known, cancel-known}
use slept.Tcp.System.Parts.{target-IsCaller}
use slept.Tcp.System.Popped.{is_it, count}
use slept.Tcp.System.Served.{dials, go-Serves, answered-Serves, dials-task}
use slept.Tcp.System.{Reach, here, later}
use slept.Tcp.System.Attended.{
  Attended, gone_on, went_on, spawned, cleaner_spawned, connected, branched, slot_dropped,
}
use slept.Tcp.System.Totals.{initial, Reach-Inv}
use slept.Tcp.System.Offers.{enqueued, offered, Offered-done, recycled_on}

Step-Attended : {s t : System} → Inv s → Attended s → Step s t → Attended t
Step-Attended {s} inv a arrive = spawned s start a
Step-Attended {s} inv a (take_idle i h conn known task ran) =
    gone_on s h i (using conn) start a known task refl
      (take_conn-known (λ c. 0) s.host ran).queue_same
Step-Attended {s} inv a (take_slot i h starts known task ran) =
    cleaner_spawned starts (go i dialing (on_host h s)) (
      gone_on s h i dialing start a known task refl
        (take_conn-known (λ c. 0) s.host ran).queue_same)
Step-Attended {s} inv a (take_none i h known task ran) =
    let same = (take_conn-known (λ c. 0) s.host ran).queue_same in
    branched (h.max_conn_wait == 0) i finished full (on_host h s)
      (gone_on s h i finished start a known task refl same)
      (gone_on s h i full start a known task refl same)
Step-Attended {s} inv a (enqueue i seen h known task honest ran) =
    enqueued s i seen h a known task honest ran
Step-Attended {s} inv a (answered i c conn known task made done is no_err) =
    went_on s i (using conn) awaiting a known task refl
Step-Attended {s} inv a (give_up i c c1 err conn known task made ran) =
    let (gave, sound, done, left) = cancel-known err c ((inv.good i known).sound c made) ran in
    record {
      waiters = a.waiters;
      queued = a.queued;
      serves =
          answered-Serves s i (after_cancel conn) c1 done awaiting a.waiters a.serves known task
            (λ w ne. omega arith);
    }
Step-Attended {s} inv a (dialed i known task) =
    went_on (connect s) i (using s.opened) dialing (connected s a) known task refl
Step-Attended {s} inv a (refused i known task) = went_on s i dropping dialing a known task refl
Step-Attended {s} inv a (dialed_for i w known task) =
    let a1 = connected s a in
    record {
      waiters = a1.waiters;
      queued = a1.queued;
      serves =
          go-Serves (connect s) i (delivering w s.opened) (dialing_for w) a1.waiters a1.serves known
            task (λ v x. omega arith);
    }
Step-Attended {s} inv a (refused_for i w c c1 err delivered known task made ran) =
    let there : IsCaller s w = target-IsCaller s i inv known task refl in
    offered s i w dropping (dialing_for w) c1 a known task refl there.known (
      Offered-done
        (try_deliver-known none (some err) c ((inv.good w there.known).sound c made) refl ran))
Step-Attended {s} inv a (deliver i w conn c c1 delivered known task made ran) =
    let there : IsCaller s w = target-IsCaller s i inv known task refl in
    offered s i w (if delivered then finished else recycling conn) (delivering w conn) c1 a known
      task refl there.known
      (Offered-done
        (try_deliver-known (some conn) none c ((inv.good w there.known).sound c made) refl ran))
Step-Attended {s} inv a (release i conn known task) =
    went_on s i (recycling conn) (using conn) a known task refl
Step-Attended {s} inv a (destroy i conn known task) =
    went_on s i (discarding conn) (using conn) a known task refl
Step-Attended {s} inv a (discarded i conn seen h next known task honest ran) =
    slot_dropped s i (shutting conn) (discarding conn) seen h next a known task refl honest ran
Step-Attended {s} inv a (shut i conn known task) =
    went_on s i finished (shutting conn) a known task refl
Step-Attended {s} inv a (recycled i conn now seen h callers known task honest ran) =
    recycled_on s i conn now seen h callers inv a known task honest ran
Step-Attended {s} inv a (dropped i seen h next known task honest ran) =
    slot_dropped s i finished dropping seen h next a known task refl honest ran
Step-Attended {s} inv a (swept i now r known task ran) =
    gone_on s r.host i (closing (map Idle.conn r.scratch)) sweeping a known task refl
      (sweep-known (λ c. 0) now s.host ran).queue_same
Step-Attended {s} inv a (given_up i conn ccs seen h next known task honest ran) =
    slot_dropped s i (shutting_swept conn ccs) (closing (conn ∷ ccs)) seen h next a known task refl
      honest ran
Step-Attended {s} inv a (closed_one i conn ccs known task) =
    went_on s i (closing ccs) (shutting_swept conn ccs) a known task refl
Step-Attended {s} inv a (closed_all i known task) =
    branched (is_zero s.host.count) i stopping sweeping s
      (went_on s i stopping (closing []) a known task refl)
      (went_on s i sweeping (closing []) a known task refl)
Step-Attended {s} inv a (stopped i known task) =
    gone_on s (record (s.host) { cleaner_running = false }) i finished stopping a known task refl
      refl

module _ (max_conns max_conn_wait max_idle_duration : ℕ) where
  Reach-Attended :
      {t : System} → Reach (initial max_conns max_conn_wait max_idle_duration) t → Attended t
  unfolding dials
  Reach-Attended here = record {
    waiters = [];
    queued = refl;
    serves = λ w x. absurd (omega (arith, x.known));
  }
  Reach-Attended (later r step) =
      Step-Attended (Reach-Inv max_conns max_conn_wait max_idle_duration r) (Reach-Attended r) step

count-place : (w : ℕ) (ws : List ℕ) → 1 ≤ count w ws → (k : ℕ) × (get_elem? ws k ≡ some w)
unfolding count
count-place w [] h = absurd (omega (arith, h))
count-place w (x ∷ xs) h = elim (ℕ_discrete x w) [
  | yes same ↦ (0, ap some same)
  | no other ↦ let (k, at_k) = count-place w xs (ground (arith, h, other)) in (suc k, at_k)
]

is_it-some : (w : ℕ) (o : Option ℕ) → 1 ≤ is_it w o → o ≡ some w
is_it-some w none h = absurd (omega (arith, h))
is_it-some w (some k) h = elim (ℕ_discrete k w) [
  | yes same ↦ ap some same
  | no other ↦ absurd (ground (arith, h, other))
]

module _ (max_conns max_conn_wait max_idle_duration : ℕ) {t : System}
    (r : Reach (initial max_conns max_conn_wait max_idle_duration) t) where
  -- In every reachable state a caller that waits is in the host's queue, or a task dials for it or is
  -- about to deliver what it has dialed for it.
  pub Reach_never_forgets :
      (w : ℕ) (c : Caller)
      → w < t.size
      → (t.cells w).caller ≡ some c
      → waiting c ≡ true
      → (ws : List ℕ) × Queued t.host.queue ws
        × (((k : ℕ) × (get_elem? ws k ≡ some w))
            ⊎ ((i : ℕ) × (i < t.size) × (target_of (t.cells i).task ≡ some w)))
  Reach_never_forgets w c known made waits =
      let a = Reach-Attended max_conns max_conn_wait max_idle_duration r in
      let places = a.serves w (record { known = known; caller = c; made = made; waits = waits }) in
      (
        a.waiters,
        a.queued,
        elim (dec_lt 0 (count w a.waiters)) [
          | yes queued ↦ inl (count-place w a.waiters queued)
          | no absent ↦
              let (i, here_i, aimed) = dials-task w t (omega (arith, places, absent)) in
              inr (i, here_i, is_it-some w (target_of (t.cells i).task) aimed)
        ],
      )
