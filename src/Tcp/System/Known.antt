-- ===== src/Tcp/System/Known.antt =====
-- What a step's premises tell: each section that ran had one of its outcomes.
use slept.Prelude.{ℕ, ◌≡◌, inl, inr, refl, Bool, true, false, Option, none, some, ◌&&◌}
use slept.Prelude.Results.{Result, ok}
use mathlib.Core.Path.{subst}
use slept.Tcp.Caller.{Failure, Caller, is_nil, waiting, try_deliver, cancel, IsSound}
use slept.Tcp.Caller.Once.{try_deliver-once, cancel-final}
use slept.Tcp.Host.{Host, Taken, take_conn, queue_waiting_caller, recycle, drop_slot, Sweep, sweep}
use slept.Tcp.Host.Sections.{
  Waits, TakeOutcome, take_conn-TakeOutcome, DropOutcome, drop_slot-DropOutcome, QueueOutcome,
  queue_waiting_caller-QueueOutcome,
}
use slept.Tcp.Host.Recycle.{
  RecycleOutcome, recycle-RecycleOutcome, SweepOutcome, sweep-SweepOutcome,
}

-- A call that returns two values returns one.
pub same_ok {ℓ} : {A : Type ℓ} {call : Result A} {x y : A} → call ≡ ok x → call ≡ ok y → x ≡ y
same_ok p q = cc (p, q)

pub same_ok_some {ℓ} :
    {A : Type ℓ} {call : Result (Option A)} {x y : A}
    → call ≡ ok (some x)
    → call ≡ ok (some y)
    → x ≡ y
same_ok_some p q = cc (p, q)

pub take_conn-known :
    (price : ℕ → ℕ) (h : Host) {out : Host × Taken} → take_conn h ≡ ok out → TakeOutcome price h out
take_conn-known price h ran =
    let (x, ran1, o) = take_conn-TakeOutcome price h in
    subst (TakeOutcome price h) (same_ok ran1 ran) o

pub sweep-known :
    (price : ℕ → ℕ) (now : ℕ) (h : Host) {r : Sweep} → sweep now h ≡ ok r → SweepOutcome price h r
sweep-known price now h ran =
    let (x, ran1, o) = sweep-SweepOutcome price now h in
    subst (SweepOutcome price h) (same_ok ran1 ran) o

module _ (P : ℕ → Type 0) (seen : ℕ → Bool) (h : Host) (w : Waits P h) where
  pub drop_slot-known :
      {out : Host × Option ℕ} → drop_slot seen h ≡ ok (some out) → DropOutcome P h out
  drop_slot-known ran =
      let (x, ran1, o) = drop_slot-DropOutcome P seen h w in
      subst (DropOutcome P h) (same_ok_some ran1 ran) o

  pub queue-known :
      (i : ℕ) {g : Host} → P i → queue_waiting_caller seen i h ≡ ok (some g) → QueueOutcome P h g
  queue-known i p ran =
      let (x, ran1, o) = queue_waiting_caller-QueueOutcome P seen h w i p in
      subst (QueueOutcome P h) (same_ok_some ran1 ran) o

  pub recycle-known :
      (price : ℕ → ℕ) (now cc : ℕ) (callers : ℕ → Option Caller) {out : Host × (ℕ → Option Caller)}
      → ((k : ℕ) → P k → (c : Caller) × (callers k ≡ some c) × IsSound c)
      → recycle seen now cc callers h ≡ ok (some out)
      → RecycleOutcome price P cc callers h out
  recycle-known price now cc callers known ran =
      let (x, ran1, o) = recycle-RecycleOutcome price P seen now cc callers h w known in
      subst (RecycleOutcome price P cc callers h) (same_ok_some ran1 ran) o

-- What a caller that was offered an answer has done.
pub data Offered (conn : Option ℕ) (c : Caller) : Bool → Caller → Type 0 where
  declined : {c1 : Caller} → c1 ≡ c → waiting c ≡ false → Offered conn c false c1
  accepted :
      {c1 : Caller}
      → waiting c ≡ true
      → IsSound c1
      → waiting c1 ≡ false
      → c1.conn ≡ conn
      → Offered conn c true c1

pub try_deliver-known :
    (conn : Option ℕ) (err : Option Failure) (c : Caller) {c1 : Caller} {delivered : Bool}
    → IsSound c
    → (is_nil conn && is_nil err) ≡ false
    → try_deliver conn err c ≡ ok (delivered, c1)
    → Offered conn c delivered c1
try_deliver-known conn err c {c1} {delivered} sound some_answer ran =
    let offered = λ (x : Bool × Caller). Offered conn c x.0 x.1 in
    elim (try_deliver-once conn err c sound some_answer) [
      | inl (gone, ran1) ↦ subst offered (same_ok ran1 ran) (declined refl gone)
      | inr (here, x, ran1, sound1, done, got, no_err) ↦
          subst offered (same_ok ran1 ran) (accepted here sound1 done got)
    ]

pub cancel-known :
    (e : Failure) (c : Caller) {c1 : Caller} {conn : Option ℕ}
    → IsSound c
    → cancel e c ≡ ok (conn, c1)
    → (conn ≡ c.conn) × IsSound c1 × (waiting c1 ≡ false) × (c1.conn ≡ none)
cancel-known e c {c1} {conn} sound ran =
    let (x, ran1, sound1, done, gave, final) = cancel-final e c sound in
    let same : (c.conn, x) ≡ (conn, c1) = same_ok ran1 ran in
    subst
      (λ (y : Option ℕ × Caller).
        (y.0 ≡ c.conn) × IsSound (y.1) × (waiting (y.1) ≡ false) × (y.1.conn ≡ none))
      same (refl, sound1, done, gave)
