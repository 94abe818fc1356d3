-- ===== src/Tcp/Host/Waiting.antt =====
-- The search for a caller that waits, against the list of callers in the queue.
use slept.Prelude.{
  ℕ, zero, suc, ◌+◌, ◌<◌, ◌≡◌, inl, inr, refl, arith, Bool, true, false, List, [], ◌∷◌, ◌++◌,
  length, map, ltb, Option, none, some, Bool-cases, if◌then◌else◌, All,
}
use slept.Prelude.Results.{ok}
use slept.Tcp.Queue.{Queue, len, push_back}
use slept.Tcp.Queue.Fifo.{Holds, empty-Holds, len-Holds, push_back-Holds}
use slept.Tcp.Queue.Clear.{from_waiting, clear_front-Holds, pop_known}
use slept.Tcp.Host.{
  Host, queue_or_empty, queue_waiting_caller, next_waiting, search_queue, find_waiting,
}

-- The callers that wait in a host's queue, which may not be there.
abbrev pub Queued : Option (Queue ℕ) → List ℕ → Type 0
Queued none ws = ws ≡ []
Queued (some q) ws = Holds q ws

map-some-eq : (xs ys : List ℕ) → map {B = Option ℕ} some xs ≡ map {B = Option ℕ} some ys → xs ≡ ys
map-some-eq [] [] h = refl
map-some-eq [] (y ∷ ys) h = absurd (cc h)
map-some-eq (x ∷ xs) [] h = absurd (cc h)
map-some-eq (x ∷ xs) (y ∷ ys) h =
    let rest : map {B = Option ℕ} some xs ≡ map {B = Option ℕ} some ys = cc h in
    let same : xs ≡ ys = map-some-eq xs ys rest in cc (h, same)

-- A queue holds one list of callers.
pub Queued-eq : (o : Option (Queue ℕ)) (ws ws1 : List ℕ) → Queued o ws → Queued o ws1 → ws ≡ ws1
Queued-eq none ws ws1 p q = cc (p, q)
Queued-eq (some q) ws ws1 h h1 =
    let same : map {B = Option ℕ} some ws ≡ map {B = Option ℕ} some ws1 =
      cc (h.callers, h1.callers) in
    map-some-eq ws ws1 same

module _ (seen : ℕ → Bool) where
  -- The first caller that was seen to wait, and those behind it.
  unfoldable pub first_seen : List ℕ → Option ℕ
  first_seen [] = none
  first_seen (w ∷ ws) = if seen w then some w else first_seen ws

  unfoldable pub behind_seen : List ℕ → List ℕ
  behind_seen [] = []
  behind_seen (w ∷ ws) = if seen w then ws else behind_seen ws

  next_waiting-Holds :
      (fuel : ℕ) (q : Queue ℕ) (ws : List ℕ)
      → Holds q ws
      → length ws < fuel
      → (q' : Queue ℕ) × (next_waiting seen fuel q ≡ ok (some (first_seen ws, q')))
        × Holds q' (behind_seen ws)
  unfolding next_waiting first_seen behind_seen
  next_waiting-Holds zero q ws h f = absurd (omega arith)
  next_waiting-Holds (suc fuel) q [] h f =
      let none_left : ltb 0 (len q) ≡ false = ground (arith, len-Holds q [] h) in
      (q, rw (none_left, next_waiting) refl, h)
  next_waiting-Holds (suc fuel) q (w ∷ ws) h f =
      let some_left : ltb 0 (len q) ≡ true = ground (arith, len-Holds q (w ∷ ws) h) in
      let (p, ran, held) = pop_known (λ (w : ℕ). true) q w ws h in
      elim (Bool-cases (seen w)) [
        | inl y ↦ (p, rw (some_left, next_waiting) (rw (ran, y) refl), rw y held)
        | inr n ↦
            let (q', went_on, left) = next_waiting-Holds fuel p ws held (omega arith) in
            (q', rw (some_left, next_waiting) (rw (ran, n) went_on), rw n left)
      ]

  search_queue-Queued :
      (o : Option (Queue ℕ)) (ws : List ℕ)
      → Queued o ws
      → (q : Option (Queue ℕ)) × (search_queue seen o ≡ ok (some (first_seen ws, q)))
        × Queued q (behind_seen ws)
  unfolding search_queue first_seen behind_seen
  search_queue-Queued none [] e = (none, refl, refl)
  search_queue-Queued none (w ∷ ws) e = absurd (cc)
  search_queue-Queued (some q) ws held =
      let (q', ran, left) =
        next_waiting-Holds (len q + 1) q ws held (omega (arith, len-Holds q ws held)) in
      (some q', rw ran refl, left)

  -- The search ends, takes the first caller that was seen to wait, and drops those before it.
  pub find_waiting-Queued :
      (h : Host) (ws : List ℕ)
      → Queued h.queue ws
      → (q : Option (Queue ℕ)) × (find_waiting seen h
          ≡ ok (some (first_seen ws, record h { queue = q })))
        × Queued q (behind_seen ws)
  unfolding find_waiting
  find_waiting-Queued h ws queued =
      let (q, ran, left) = search_queue-Queued h.queue ws queued in (q, rw ran refl, left)

  queue_or_empty-Holds :
      (o : Option (Queue ℕ)) (ws : List ℕ) → Queued o ws → Holds (queue_or_empty o) ws
  queue_or_empty-Holds none ws e = rw e empty-Holds
  queue_or_empty-Holds (some q) ws held = held

  -- The caller comes behind those in the queue, of which some at the front that were not seen to
  -- wait are gone.
  pub queue_waiting_caller-Queued :
      (h : Host) (ws : List ℕ) (caller : ℕ)
      → Queued h.queue ws
      → (q : Option (Queue ℕ)) × (queue_waiting_caller seen caller h
          ≡ ok (some (record h { queue = q })))
        × Queued q (from_waiting seen ws ++ caller ∷ [])
  unfolding queue_waiting_caller
  queue_waiting_caller-Queued h ws caller queued =
      let (q, ran, left) =
        clear_front-Holds seen (queue_or_empty h.queue) ws
          (queue_or_empty-Holds h.queue ws queued) in
      (some (push_back q caller), rw ran refl, push_back-Holds q (from_waiting seen ws) caller left)

  -- Of the callers that are found or kept, each was in the queue.
  pub first_seen-All :
      (P : ℕ → Type 0) (ws : List ℕ) (w : ℕ) → All P ws → first_seen ws ≡ some w → P w
  unfolding first_seen
  first_seen-All P [] w h e = absurd (cc)
  first_seen-All P (x ∷ ws) w h e = elim (Bool-cases (seen x)) [
    | inl y ↦ let same : x ≡ w = cc (rw y at e) in rw (← same) h.0
    | inr n ↦ first_seen-All P ws w h.1 (rw n at e)
  ]

  pub behind_seen-All : (P : ℕ → Type 0) (ws : List ℕ) → All P ws → All P (behind_seen ws)
  unfolding behind_seen
  behind_seen-All P [] h = tt
  behind_seen-All P (x ∷ ws) h = elim (Bool-cases (seen x)) [
    | inl y ↦ rw y h.1
    | inr n ↦ rw n (behind_seen-All P ws h.1)
  ]

  pub from_waiting-All : (P : ℕ → Type 0) (ws : List ℕ) → All P ws → All P (from_waiting seen ws)
  unfolding from_waiting
  from_waiting-All P [] h = tt
  from_waiting-All P (x ∷ ws) h = elim (Bool-cases (seen x)) [
    | inl y ↦ rw y h
    | inr n ↦ rw n (from_waiting-All P ws h.1)
  ]

pub All-append : (P : ℕ → Type 0) (xs ys : List ℕ) → All P xs → All P ys → All P (xs ++ ys)
All-append P [] ys p q = q
All-append P (x ∷ xs) ys p q = (p.0, All-append P xs ys p.1 q)
