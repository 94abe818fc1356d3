-- ===== src/Tcp/Queue/Fifo.antt =====
-- The queue of client_wait.go against a list of callers, oldest first.
use slept.Prelude.{
  ℕ, zero, suc, ◌+◌, ◌≤◌, ◌<◌, ◌≡◌, ◌⊎◌, inl, inr, refl, sym, ◌∙◌, ap, arith, false, ◌==◌, ltb, leb,
  if◌then◌else◌, List, [], ◌∷◌, ◌++◌, length, set, map, drop, Option, none, some, get_elem?,
  length-append, lt→ltb, leb→le, ltb→lt, length-set, length-drop, append_assoc, append-nil,
  Bool-cases,
}
use mathlib.Core.List.{map-append, head?}
use native.Mathlib.Numerals.{add-one}
use slept.Prelude.Results.{ok, index}
use slept.Tcp.Queue.{Queue, empty, len, push_back, take_head, pop_front, peek_front}

module _ {W : Type 0} where
  -- The queue holds the callers `ws`: nil stands only where they have been popped.
  pub record Holds (q : Queue W) (ws : List W) : Type 0 where
    pub pos_small : q.head_pos ≤ length q.head
    pub callers : drop q.head_pos q.head ++ q.tail ≡ map some ws

  pub empty-Holds : Holds empty []
  empty-Holds = record { pos_small = omega arith; callers = refl }

  length-map : (ws : List W) → length (map {B = Option W} some ws) ≡ length ws
  length-map [] = refl
  length-map (w ∷ ws) = ap suc (length-map ws)

  -- The part of `head` that is left to pop.
  drop-step :
      (xs : List (Option W)) (i : ℕ)
      → i < length xs
      → (x : Option W) × (get_elem? xs i ≡ some x) × (drop i xs ≡ x ∷ drop (suc i) xs)
  drop-step [] i h = absurd (omega arith)
  drop-step (x ∷ xs) zero h = (x, refl, refl)
  drop-step (x ∷ xs) (suc i) h = drop-step xs i (omega arith)

  drop-set :
      (xs : List (Option W)) (i : ℕ) (v : Option W) → drop (suc i) (set xs i v) ≡ drop (suc i) xs
  drop-set [] i v = refl
  drop-set (x ∷ xs) zero v = refl
  drop-set (x ∷ xs) (suc i) v = drop-set xs i v

  drop-end : (xs : List (Option W)) (i : ℕ) → length xs ≤ i → drop i xs ≡ []
  drop-end [] zero h = refl
  drop-end [] (suc i) h = refl
  drop-end (x ∷ xs) zero h = absurd (omega arith)
  drop-end (x ∷ xs) (suc i) h = drop-end xs i (omega arith)

  take_head-Holds :
      (q : Queue W) (w : W) (r : List W)
      → q.head_pos < length q.head
      → drop q.head_pos q.head ++ q.tail ≡ map some (w ∷ r)
      → (q' : Queue W) × (take_head q ≡ ok (some w, q')) × Holds q' r
  unfolding take_head
  take_head-Holds q w r h e =
      let (x, at, split) = drop-step q.head q.head_pos h in
      let parts : x ∷ (drop (suc q.head_pos) q.head ++ q.tail) ≡ some w ∷ map some r =
        rw split at e in
      let front : x ≡ some w = cc in
      (
        record q { head = set q.head q.head_pos none; head_pos = q.head_pos + 1 },
        rw (lt→ltb _ _ h, at, index) (rw front refl),
        record {
          pos_small = omega (arith, length-set q.head q.head_pos none);
          callers = rw (add-one, drop-set q.head q.head_pos none) (cc);
        },
      )

  -- `pushBack` adds a caller behind all others.
  pub push_back-Holds :
      (q : Queue W) (ws : List W) (w : W) → Holds q ws → Holds (push_back q w) (ws ++ w ∷ [])
  unfolding push_back
  push_back-Holds q ws w h = record {
    pos_small = h.pos_small;
    callers =
        sym (append_assoc (drop q.head_pos q.head) q.tail (some w ∷ []))
        ∙ ap (λ l. l ++ some w ∷ []) h.callers
        ∙ sym (map-append some ws (w ∷ []));
  }

  pub len-Holds : (q : Queue W) (ws : List W) → Holds q ws → len q ≡ length ws
  unfolding len
  len-Holds q ws h = omega (
    arith,
    ap length h.callers,
    length-append (drop q.head_pos q.head) q.tail,
    length-drop q.head_pos q.head,
    length-map ws,
    h.pos_small,
  )

  -- `popFront` gives nil and changes nothing if no caller waits, and else the oldest caller, and the
  -- queue holds the rest; it never reads out of range.
  pub pop_front-Holds :
      (q : Queue W) (ws : List W)
      → Holds q ws
      → (ws ≡ []) × (pop_front q ≡ ok (none, q))
        ⊎ (w : W) × (r : List W) × (q' : Queue W) × (ws ≡ w ∷ r)
          × (pop_front q ≡ ok (some w, q'))
          × Holds q' r
  unfolding pop_front
  pop_front-Holds q [] h = inl (
    refl,
    ground (
      arith,
      ap length h.callers,
      length-append (drop q.head_pos q.head) q.tail,
      length-drop q.head_pos q.head,
    ),
  )
  pop_front-Holds q (w ∷ r) h = elim (Bool-cases (leb (length q.head) q.head_pos)) [
    | inl done ↦
        let rest : q.tail ≡ map some (w ∷ r) =
          rw (drop-end q.head q.head_pos (leb→le _ _ done)) at h.callers in
        let nonempty : (length q.tail == 0) ≡ false = ground (arith, ap length rest) in
        let (q', ran, held) =
          take_head-Holds (record { head = q.tail; head_pos = 0; tail = [] }) w r
            (omega (arith, ap length rest)) (append-nil q.tail ∙ rest) in
        inr (w, r, q', refl, rw (done, pop_front) (rw nonempty ran), held)
    | inr more ↦
        let (q', ran, held) = take_head-Holds q w r (ground arith) h.callers in
        inr (w, r, q', refl, rw (more, pop_front) ran, held)
  ]

  -- `peekFront` gives the oldest caller, or nil if no caller waits.
  pub peek_front-Holds : (q : Queue W) (ws : List W) → Holds q ws → peek_front q ≡ ok (head? ws)
  unfolding peek_front
  peek_front-Holds q ws h = elim (Bool-cases (ltb q.head_pos (length q.head))) [
    | inl left ↦
        let (x, at, split) = drop-step q.head q.head_pos (ltb→lt _ _ left) in
        rw (left, peek_front) (rw (at, index) (first_of_head ws x _ (rw split at h.callers)))
    | inr none_left ↦
        rw (none_left, peek_front)
          (first_of_tail q.tail ws (rw (drop-end q.head q.head_pos (ground arith)) at h.callers))
  ]
    where
      first_of_head :
          (ws : List W) (x : Option W) (l : List (Option W))
          → x ∷ l ≡ map some ws
          → ok x ≡ ok (head? ws)
      first_of_head [] x l e = absurd (cc)
      first_of_head (w ∷ ws) x l e = cc

      first_of_tail :
          (tail : List (Option W)) (ws : List W)
          → tail ≡ map some ws
          → (if ltb 0 (length tail) then index tail 0 else ok none) ≡ ok (head? ws)
      first_of_tail [] [] e = refl
      first_of_tail [] (w ∷ ws) e = absurd (cc)
      first_of_tail (x ∷ tail) ws e = ground (arith, first_of_head ws x tail e)
