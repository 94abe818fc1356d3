-- ===== src/Tcp/Host/Sections.antt =====
-- What the critical sections do to the list of idle connections, the count and the queue.
use slept.Prelude.{
  ℕ, ◌+◌, ◌-◌, ◌<◌, ◌≡◌, inl, inr, refl, arith, Bool, true, false, not, ◌==◌, List, [], ◌∷◌, ◌++◌,
  length, take, All, Option, none, some, Bool-cases, Option-cases, get_elem?,
}
use slept.Prelude.Int.{increment, decrement, is_below}
use slept.Prelude.Results.{ok, slice_to-ok, index}
use slept.Tcp.Host.{
  Idle, Host, Taken, reused, created, exhausted, conn_limit, take_conn, queue_waiting_caller,
  drop_slot,
}
use slept.Tcp.Host.Waiting.{
  Queued, first_seen, behind_seen, find_waiting-Queued, queue_waiting_caller-Queued, first_seen-All,
  behind_seen-All, from_waiting-All, All-append,
}
use slept.Tcp.Queue.Clear.{from_waiting}
use slept.Tcp.Host.Idles.{idle_price, last_split}

-- Each caller in the queue has a property.
pub record Waits (P : ℕ → Type 0) (h : Host) : Type 0 where
  pub waiters : List ℕ
  pub queued : Queued h.queue waiters
  pub each : All P waiters

-- `take_conn`: a connection less that is idle, a slot more below the limit, or no change.
abbrev pub Takes : (ℕ → ℕ) → Host → Host → Taken → Type 0
Takes price h g (reused cc) =
    (g.count ≡ h.count) × (idle_price price g.conns + price cc ≡ idle_price price h.conns)
Takes price h g (created starts) =
    (g.count ≡ increment h.count) × (is_below h.count (conn_limit h) ≡ true) × (g.conns ≡ h.conns)
Takes price h g exhausted = (g.count ≡ h.count) × (g.conns ≡ h.conns)

pub record TakeOutcome (price : ℕ → ℕ) (h : Host) (out : Host × Taken) : Type 0 where
  pub queue_same : out.0.queue ≡ h.queue
  pub limit_same : conn_limit out.0 ≡ conn_limit h
  pub takes : Takes price h out.0 out.1

take_conn-last :
    (h : Host) (x : Idle)
    → 0 < length h.conns
    → get_elem? h.conns (length h.conns - 1) ≡ some x
    → take_conn h ≡ ok (record h { conns = take (length h.conns - 1) h.conns }, reused x.conn)
unfolding take_conn
take_conn-last h x some_idle found =
    let test : (length h.conns == 0) ≡ false = ground arith in
    let got : index h.conns (length h.conns - 1) ≡ ok x = ground arith in
    rw (test, got) (rw (slice_to-ok h.conns (length h.conns - 1) (omega arith)) refl)

pub take_conn-TakeOutcome :
    (price : ℕ → ℕ) (h : Host)
    → (out : Host × Taken) × (take_conn h ≡ ok out) × TakeOutcome price h out
unfolding take_conn conn_limit
take_conn-TakeOutcome price h = elim (Bool-cases (length h.conns == 0)) [
  | inl empty ↦ elim (Bool-cases (is_below h.count (conn_limit h))) [
    | inl below ↦ (
      (
        record h { count = increment h.count; cleaner_running = true },
        created (not h.cleaner_running),
      ),
      rw (empty, below) refl,
      record { queue_same = refl; limit_same = refl; takes = (refl, below, refl) },
    )
    | inr full ↦ (
      (h, exhausted),
      rw (empty, full) refl,
      record { queue_same = refl; limit_same = refl; takes = (refl, refl) },
    )
  ]
  | inr some_idle ↦
      let (x, found, split) = last_split price h.conns (ground arith) in
      (
        (record h { conns = take (length h.conns - 1) h.conns }, reused x.conn),
        take_conn-last h x (ground arith) found,
        record { queue_same = refl; limit_same = refl; takes = (refl, split) },
      )
]

-- `queue_waiting_caller`: only the queue changes.
pub record QueueOutcome (P : ℕ → Type 0) (h g : Host) : Type 0 where
  pub conns_same : g.conns ≡ h.conns
  pub count_same : g.count ≡ h.count
  pub limit_same : conn_limit g ≡ conn_limit h
  pub waits : Waits P g

-- `drop_slot`: a slot less, or a caller to dial for.
abbrev pub Drops : (ℕ → Type 0) → Host → Host → Option ℕ → Type 0
Drops P h g none = g.count ≡ decrement h.count
Drops P h g (some w) = (g.count ≡ h.count) × P w

pub record DropOutcome (P : ℕ → Type 0) (h : Host) (out : Host × Option ℕ) : Type 0 where
  pub conns_same : out.0.conns ≡ h.conns
  pub limit_same : conn_limit out.0 ≡ conn_limit h
  pub waits : Waits P out.0
  pub drops : Drops P h out.0 out.1

module _ (P : ℕ → Type 0) (seen : ℕ → Bool) (h : Host) (w : Waits P h) where
  -- The callers behind the first that was seen to wait.
  pub left_over : (g : Host) → Queued g.queue (behind_seen seen w.waiters) → Waits P g
  left_over g left = record {
    waiters = behind_seen seen w.waiters;
    queued = left;
    each = behind_seen-All seen P w.waiters w.each;
  }

  pub queue_waiting_caller-QueueOutcome :
      (caller : ℕ)
      → P caller
      → (q : Host) × (queue_waiting_caller seen caller h ≡ ok (some q)) × QueueOutcome P h q
  unfolding conn_limit
  queue_waiting_caller-QueueOutcome caller p =
      let (q, ran, left) = queue_waiting_caller-Queued seen h w.waiters caller w.queued in
      (
        record h { queue = q },
        ran,
        record {
          conns_same = refl;
          count_same = refl;
          limit_same = refl;
          waits = record {
            waiters = from_waiting seen w.waiters ++ caller ∷ [];
            queued = left;
            each =
                All-append P (from_waiting seen w.waiters) (caller ∷ [])
                  (from_waiting-All seen P w.waiters w.each) (p, tt);
          };
        },
      )

  pub drop_slot-DropOutcome :
      (out : Host × Option ℕ) × (drop_slot seen h ≡ ok (some out)) × DropOutcome P h out
  unfolding drop_slot conn_limit
  drop_slot-DropOutcome = elim (Bool-cases (h.max_conn_wait == 0)) [
    | inl never ↦ (
      (record h { count = decrement h.count }, none),
      rw never refl,
      record {
        conns_same = refl;
        limit_same = refl;
        waits = record { waiters = w.waiters; queued = w.queued; each = w.each };
        drops = refl;
      },
    )
    | inr waits ↦
        let (q, ran, left) = find_waiting-Queued seen h w.waiters w.queued in
        elim (Option-cases (first_seen seen w.waiters)) [
          | inl nobody ↦ (
            (record h { count = decrement h.count; queue = q }, none),
            rw (waits, ran) (rw nobody refl),
            record {
              conns_same = refl;
              limit_same = refl;
              waits = left_over (record h { count = decrement h.count; queue = q }) left;
              drops = refl;
            },
          )
          | inr (k, first) ↦ (
            (record h { queue = q }, some k),
            rw (waits, ran) (rw first refl),
            record {
              conns_same = refl;
              limit_same = refl;
              waits = left_over (record h { queue = q }) left;
              drops = (refl, first_seen-All seen P w.waiters k w.each first);
            },
          )
        ]
  ]
