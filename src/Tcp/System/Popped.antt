-- ===== src/Tcp/System/Popped.antt =====
-- Which callers the sections take off the queue: those that were seen not to wait, and at most one
-- that waits.
use slept.Prelude.{
  ℕ, ◌+◌, ◌≤◌, ◌≡◌, refl, ap, arith, Bool, true, false, ◌==◌, if◌then◌else◌, List, [], ◌∷◌, ◌++◌,
  Option, none, some, Bool-cases, Option-cases, inl, inr,
}
use slept.Prelude.Results.{ok}
use slept.Prelude.Cells.{overwrite, overwrite_self, overwrite_ne}
use slept.Prelude.Int.{decrement}
use mathlib.Core.Path.{subst}
use native.Mathlib.Decide.{ℕ_discrete}
use slept.Tcp.Caller.{Caller, waiting, IsSound}
use slept.Tcp.Caller.Once.{try_deliver-once}
use slept.Tcp.Queue.Clear.{from_waiting}
use slept.Tcp.Host.{Host, drop_slot, queue_waiting_caller, recycle, hand_over, push_idle}
use slept.Tcp.Host.Waiting.{
  Queued, first_seen, behind_seen, find_waiting-Queued, queue_waiting_caller-Queued,
}
use slept.Tcp.System.Known.{same_ok_some}

-- How often a caller is in the queue.
abbrev pub is_it : ℕ → Option ℕ → ℕ
is_it w none = 0
is_it w (some k) = if k == w then 1 else 0

unfoldable pub count : ℕ → List ℕ → ℕ
count w [] = 0
count w (x ∷ xs) = is_it w (some x) + count w xs

count-append : (w : ℕ) (xs ys : List ℕ) → count w (xs ++ ys) ≡ count w xs + count w ys
unfolding count
count-append w [] ys = omega arith
count-append w (x ∷ xs) ys = omega (arith, count-append w xs ys)

module _ (seen : ℕ → Bool) (w : ℕ) (sees : seen w ≡ true) where
  unseen : (x : ℕ) → seen x ≡ false → (x == w) ≡ false
  unseen x n = elim (Bool-cases (x == w)) [
    | inl y ↦ let e : x ≡ w = ground arith in absurd (cc (e, n, sees))
    | inr other ↦ other
  ]

  count-first_seen :
      (ws : List ℕ) → count w ws ≡ count w (behind_seen seen ws) + is_it w (first_seen seen ws)
  unfolding count behind_seen first_seen
  count-first_seen [] = omega arith
  count-first_seen (x ∷ xs) = elim (Bool-cases (seen x)) [
    | inl y ↦ rw y (omega arith)
    | inr n ↦ rw (n, unseen x n) (omega (arith, count-first_seen xs))
  ]

  count-from_waiting : (ws : List ℕ) → count w (from_waiting seen ws) ≡ count w ws
  unfolding count from_waiting
  count-from_waiting [] = refl
  count-from_waiting (x ∷ xs) = elim (Bool-cases (seen x)) [
    | inl y ↦ rw y refl
    | inr n ↦ rw (n, unseen x n) (omega (arith, count-from_waiting xs))
  ]

module _ (seen : ℕ → Bool) (h : Host) (ws : List ℕ) (queued : Queued h.queue ws) where
  pub drop_slot-popped :
      (g : Host) (next : Option ℕ)
      → drop_slot seen h ≡ ok (some (g, next))
      → (ws1 : List ℕ) × Queued g.queue ws1
        × ((w : ℕ) → seen w ≡ true → count w ws ≡ count w ws1 + is_it w next)
  unfolding drop_slot
  drop_slot-popped g next ran =
      let result = λ (out : Host × Option ℕ).
        ((ws1 : List ℕ) × Queued (out.0.queue) ws1
          × ((w : ℕ) → seen w ≡ true → count w ws ≡ count w ws1 + is_it w out.1)) in
      elim (Bool-cases (h.max_conn_wait == 0)) [
        | inl never ↦
            let ran1 : drop_slot seen h ≡ ok (some (record h { count = decrement h.count }, none)) =
              rw never refl in
            subst result (same_ok_some ran1 ran) (ws, queued, λ w sees. omega arith)
        | inr waits ↦ elim (Option-cases (first_seen seen ws)) [
          | inl nobody ↦
              let (q, found, left) = find_waiting-Queued seen h ws queued in
              let ran1 : drop_slot seen h
                  ≡ ok (some (record h { count = decrement h.count; queue = q }, none)) =
                rw (waits, found) (rw nobody refl) in
              subst result (same_ok_some ran1 ran) (
                behind_seen seen ws,
                left,
                λ w sees. omega (arith, count-first_seen seen w sees ws, ap (is_it w) nobody),
              )
          | inr (k, first) ↦
              let (q, found, left) = find_waiting-Queued seen h ws queued in
              let ran1 : drop_slot seen h ≡ ok (some (record h { queue = q }, some k)) =
                rw (waits, found) (rw first refl) in
              subst result (same_ok_some ran1 ran) (
                behind_seen seen ws,
                left,
                λ w sees. omega (arith, count-first_seen seen w sees ws, ap (is_it w) first),
              )
        ]
      ]

  pub queue-popped :
      (i : ℕ) (g : Host)
      → queue_waiting_caller seen i h ≡ ok (some g)
      → (ws1 : List ℕ) × Queued g.queue ws1
        × (1 ≤ count i ws1)
        × ((w : ℕ) → seen w ≡ true → count w ws1 ≡ count w ws + is_it w (some i))
  unfolding count
  queue-popped i g ran =
      let (q, ran1, left) = queue_waiting_caller-Queued seen h ws i queued in
      let same = same_ok_some ran1 ran in
      (
        from_waiting seen ws ++ i ∷ [],
        subst (λ (x : Host). Queued x.queue (from_waiting seen ws ++ i ∷ [])) same left,
        ground (arith, count-append i (from_waiting seen ws) (i ∷ [])),
        λ w sees. omega (
          arith,
          count-append w (from_waiting seen ws) (i ∷ []),
          count-from_waiting seen w sees ws,
        ),
      )

-- After an answer was offered, the caller does not wait.
hand_over-answers :
    (now conn k : ℕ) (callers : ℕ → Option Caller) (h : Host) (c : Caller)
    → callers k ≡ some c
    → IsSound c
    → (g : Host) × (c1 : Caller) × (hand_over now conn k callers h
        ≡ ok (g, overwrite k (some c1) callers))
      × (g.queue ≡ h.queue)
      × (waiting c1 ≡ false)
unfolding hand_over push_idle
hand_over-answers now conn k callers h c known sound =
    elim (try_deliver-once (some conn) none c sound refl) [
      | inl (gone, refused) ↦ (push_idle now conn h, c, rw (known, refused) refl, refl, gone)
      | inr (here, c1, took, sound1, done, got, no_err) ↦ (h, c1, rw (known, took) refl, refl, done)
    ]

-- The callers that wait after a connection was recycled waited before, and are as often in the queue.
abbrev pub StillWait : (ℕ → Option Caller) → List ℕ → List ℕ → (ℕ → Option Caller) → Type 0
StillWait callers ws ws1 after =
    (w : ℕ) (c : Caller)
    → after w ≡ some c
    → waiting c ≡ true
    → (callers w ≡ some c) × (count w ws ≡ count w ws1)

module _ (seen : ℕ → Bool) (now conn : ℕ) (callers : ℕ → Option Caller) (h : Host) (ws : List ℕ)
    (honest : (w : ℕ) (c : Caller) → callers w ≡ some c → waiting c ≡ true → seen w ≡ true) where
  answered-StillWait :
      (k : ℕ) (c1 : Caller)
      → first_seen seen ws ≡ some k
      → waiting c1 ≡ false
      → StillWait callers ws (behind_seen seen ws) (overwrite k (some c1) callers)
  answered-StillWait k c1 first done w c is waits = elim (ℕ_discrete w k) [
    | yes same ↦
        let now_c1 : c1 ≡ c = cc (
          subst (λ (x : ℕ). overwrite k (some c1) callers x ≡ some c) same is,
          overwrite_self k (some c1) callers,
        ) in
        absurd (cc (done, waits, now_c1))
    | no other ↦
        let before : callers w ≡ some c = cc (is, overwrite_ne k w (some c1) callers other) in
        let apart : (k == w) ≡ false = ground (arith, other) in
        (
          before,
          ground (
            arith,
            count-first_seen seen w (honest w c before waits) ws,
            ap (is_it w) first,
            apart,
          ),
        )
  ]

  pub recycle-popped :
      (g : Host) (after : ℕ → Option Caller)
      → Queued h.queue ws
      → ((k : ℕ) → first_seen seen ws ≡ some k → (c : Caller) × (callers k ≡ some c) × IsSound c)
      → recycle seen now conn callers h ≡ ok (some (g, after))
      → (ws1 : List ℕ) × Queued g.queue ws1 × StillWait callers ws ws1 after
  unfolding recycle push_idle
  recycle-popped g after queued known ran =
      let result = λ (out : Host × (ℕ → Option Caller)).
        ((ws1 : List ℕ) × Queued (out.0.queue) ws1 × StillWait callers ws ws1 out.1) in
      elim (Bool-cases (h.max_conn_wait == 0)) [
        | inl never ↦
            let ran1 : recycle seen now conn callers h ≡ ok (some (push_idle now conn h, callers)) =
              rw never refl in
            subst result (same_ok_some ran1 ran) (ws, queued, λ w c is waits. (is, refl))
        | inr waits ↦ elim (Option-cases (first_seen seen ws)) [
          | inl nobody ↦
              let (q, found, left) = find_waiting-Queued seen h ws queued in
              let ran1 : recycle seen now conn callers h
                  ≡ ok (some (push_idle now conn (record h { queue = q }), callers)) =
                rw (waits, found) (rw nobody refl) in
              subst result (same_ok_some ran1 ran) (
                behind_seen seen ws,
                left,
                λ w c is still. (
                  is,
                  omega (
                    arith,
                    count-first_seen seen w (honest w c is still) ws,
                    ap (is_it w) nobody,
                  ),
                ),
              )
          | inr (k, first) ↦
              let (q, found, left) = find_waiting-Queued seen h ws queued in
              let (c, is, sound) = known k first in
              let (g1, c1, handed, kept, done) =
                hand_over-answers now conn k callers (record h { queue = q }) c is sound in
              let ran1 : recycle seen now conn callers h
                  ≡ ok (some (g1, overwrite k (some c1) callers)) =
                rw (waits, found) (rw first (rw handed refl)) in
              subst result (same_ok_some ran1 ran)
                (behind_seen seen ws, rw kept left, answered-StillWait k c1 first done)
        ]
      ]
