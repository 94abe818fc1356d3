-- ===== src/Tcp/Host/Recycle.antt =====
-- What recycling a connection and a round of the cleaner do to the host and its callers.
use slept.Prelude.{
  ℕ, ◌+◌, ◌-◌, ◌≡◌, inl, inr, refl, arith, Bool, true, false, ◌==◌, List, [], ◌∷◌, length, take,
  drop, Option, none, some, Bool-cases, Option-cases, ltb, map, ◌≤◌, ltb→lt, get_elem?-some,
}
use slept.Prelude.Results.{ok, slice_to-ok, slice_from-ok, index}
use slept.Prelude.Cells.{overwrite}
use mathlib.Core.Path.{fun_ext}
use slept.Tcp.Queue.{Queue}
use slept.Tcp.Caller.{Caller, waiting, IsSound}
use slept.Tcp.Caller.Once.{try_deliver-once}
use slept.Tcp.Host.{
  Idle, Host, conn_limit, push_idle, hand_over, recycle, Sweep, sweep, sweep_pause, count_expired,
  idle_limit,
}
use slept.Tcp.Host.Waiting.{first_seen, find_waiting-Queued, first_seen-All}
use slept.Tcp.Host.Sections.{Waits, left_over}
use slept.Tcp.Host.Idles.{idle_price, idle_price-append, idle_price-split, prices, count_expired-le}

-- `recycle`: the connection is idle, or one caller that waited has it.
module _ (price : ℕ → ℕ) (P : ℕ → Type 0) (cc : ℕ) (callers : ℕ → Option Caller) where
  pub data Recycles (h : Host) : Host → (ℕ → Option Caller) → Type 0 where
    became_idle :
        {g : Host} {after : ℕ → Option Caller}
        → after ≡ callers
        → idle_price price g.conns ≡ idle_price price h.conns + price cc
        → Recycles h g after
    handed_over :
        {g : Host} {after : ℕ → Option Caller} (k : ℕ) (c c1 : Caller)
        → P k
        → after ≡ overwrite k (some c1) callers
        → g.conns ≡ h.conns
        → callers k ≡ some c
        → waiting c ≡ true
        → IsSound c1
        → waiting c1 ≡ false
        → c1.conn ≡ some cc
        → Recycles h g after

module _ (price : ℕ → ℕ) (cc : ℕ) where
  push_idle-price :
      (now : ℕ) (h : Host)
      → idle_price price (push_idle now cc h).conns ≡ idle_price price h.conns + price cc
  unfolding push_idle idle_price prices
  push_idle-price now h =
      omega (arith, idle_price-append price h.conns (record { conn = cc; last_use = now } ∷ []))

pub record RecycleOutcome (price : ℕ → ℕ) (P : ℕ → Type 0) (cc : ℕ) (callers : ℕ → Option Caller)
    (h : Host) (out : Host × (ℕ → Option Caller)) : Type 0 where
  pub count_same : out.0.count ≡ h.count
  pub limit_same : conn_limit out.0 ≡ conn_limit h
  pub waits : Waits P out.0
  pub recycles : Recycles price P cc callers h out.0 out.1

overwrite_same :
    (k : ℕ) (c : Caller) (callers : ℕ → Option Caller)
    → callers k ≡ some c
    → overwrite k (some c) callers ≡ callers
overwrite_same k c callers e = fun_ext (λ j. ground arith)

module _ (price : ℕ → ℕ) (P : ℕ → Type 0) (now cc : ℕ) (callers : ℕ → Option Caller)
    (h : Host) where
  pushed : Waits P h → RecycleOutcome price P cc callers h (push_idle now cc h, callers)
  unfolding push_idle conn_limit
  pushed w = record {
    count_same = refl;
    limit_same = refl;
    waits = record { waiters = w.waiters; queued = w.queued; each = w.each };
    recycles = became_idle refl (push_idle-price price cc now h);
  }

  hand_over-RecycleOutcome :
      (k : ℕ) (c : Caller)
      → Waits P h
      → P k
      → callers k ≡ some c
      → IsSound c
      → (out : Host × (ℕ → Option Caller)) × (hand_over now cc k callers h ≡ ok out)
        × RecycleOutcome price P cc callers h out
  unfolding hand_over
  hand_over-RecycleOutcome k c w p known sound =
      elim (try_deliver-once (some cc) none c sound refl) [
        | inl (gone, refused) ↦ (
          (push_idle now cc h, overwrite k (some c) callers),
          rw (known, refused) refl,
          rw (overwrite_same k c callers known) (pushed w),
        )
        | inr (here, c1, took, sound1, done, got, no_err) ↦ (
          (h, overwrite k (some c1) callers),
          rw (known, took) refl,
          record {
            count_same = refl;
            limit_same = refl;
            waits = w;
            recycles = handed_over k c c1 p refl refl known here sound1 done got;
          },
        )
      ]

module _ (price : ℕ → ℕ) (P : ℕ → Type 0) (cc : ℕ) (callers : ℕ → Option Caller) (h : Host)
    (q : Option (Queue ℕ)) where
  Recycles-from :
      {g : Host} {after : ℕ → Option Caller}
      → Recycles price P cc callers (record h { queue = q }) g after
      → Recycles price P cc callers h g after
  Recycles-from (became_idle same e) = became_idle same e
  Recycles-from (handed_over k c c1 p same e is here sound done got) =
      handed_over k c c1 p same e is here sound done got

  from_queue :
      {out : Host × (ℕ → Option Caller)}
      → RecycleOutcome price P cc callers (record h { queue = q }) out
      → RecycleOutcome price P cc callers h out
  unfolding conn_limit
  from_queue r = record {
    count_same = r.count_same;
    limit_same = r.limit_same;
    waits = r.waits;
    recycles = Recycles-from r.recycles;
  }

module _ (price : ℕ → ℕ) (P : ℕ → Type 0) (seen : ℕ → Bool) (now cc : ℕ)
    (callers : ℕ → Option Caller) (h : Host) where
  pub recycle-RecycleOutcome :
      Waits P h
      → ((k : ℕ) → P k → (c : Caller) × (callers k ≡ some c) × IsSound c)
      → (out : Host × (ℕ → Option Caller)) × (recycle seen now cc callers h ≡ ok (some out))
        × RecycleOutcome price P cc callers h out
  unfolding recycle conn_limit
  recycle-RecycleOutcome w known = elim (Bool-cases (h.max_conn_wait == 0)) [
    | inl never ↦ ((push_idle now cc h, callers), rw never refl, pushed price P now cc callers h w)
    | inr waits ↦
        let (q, ran, left) = find_waiting-Queued seen h w.waiters w.queued in
        let g = record h { queue = q } in
        elim (Option-cases (first_seen seen w.waiters)) [
          | inl nobody ↦ (
            (push_idle now cc g, callers),
            rw (waits, ran) (rw nobody refl),
            from_queue price P cc callers h q
                (pushed price P now cc callers g (left_over P seen h w g left)),
          )
          | inr (k, first) ↦
              let p = first_seen-All seen P w.waiters k w.each first in
              let (c, is, sound) = known k p in
              let (out, handed, result) =
                hand_over-RecycleOutcome price P now cc callers g k c (left_over P seen h w g left)
                  p is sound in
              (
                out,
                rw (waits, ran) (rw first (rw handed refl)),
                from_queue price P cc callers h q result,
              )
        ]
  ]

-- A round of the cleaner: the idle connections are split.
pub record SweepOutcome (price : ℕ → ℕ) (h : Host) (r : Sweep) : Type 0 where
  pub count_same : r.host.count ≡ h.count
  pub limit_same : conn_limit r.host ≡ conn_limit h
  pub queue_same : r.host.queue ≡ h.queue
  pub split :
      idle_price price r.host.conns + prices price (map Idle.conn r.scratch)
      ≡ idle_price price h.conns

sweep_pause-ok :
    (now limit i : ℕ) (ccs : List Idle) → (d : ℕ) × (sweep_pause now limit i ccs ≡ ok d)
unfolding sweep_pause
sweep_pause-ok now limit i ccs = elim (Bool-cases (ltb i (length ccs))) [
  | inl y ↦
      let (cc, found) = get_elem?-some ccs i (ltb→lt i (length ccs) y) in
      let got : index ccs i ≡ ok cc = ground arith in
      (limit + cc.last_use - now + 1, rw (y, got) refl)
  | inr n ↦ (limit, rw n refl)
]

pub sweep-SweepOutcome :
    (price : ℕ → ℕ) (now : ℕ) (h : Host)
    → (r : Sweep) × (sweep now h ≡ ok r) × SweepOutcome price h r
unfolding sweep conn_limit
sweep-SweepOutcome price now h =
    let limit = idle_limit h in
    let i = count_expired now limit h.conns in
    let few : i ≤ length h.conns = count_expired-le now limit h.conns in
    let (d, pause) = sweep_pause-ok now limit i h.conns in
    (
      record { host = record h { conns = drop i h.conns }; scratch = take i h.conns; duration = d },
      rw (slice_to-ok h.conns i few) (rw (slice_from-ok h.conns i few) (rw pause refl)),
      record {
        count_same = refl;
        limit_same = refl;
        queue_same = refl;
        split = idle_price-split price i h.conns;
      },
    )
