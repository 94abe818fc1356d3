-- ===== src/Tcp/Queue/Clear.antt =====
-- `clearFront` of client_wait.go ends, and drops the callers at the front that no longer wait.
use slept.Prelude.{
  ℕ, zero, suc, ◌+◌, ◌<◌, ◌≡◌, inl, inr, refl, arith, Bool, true, false, not, ◌||◌, List, [], ◌∷◌,
  length, some, if◌then◌else◌, Bool-cases,
}
use slept.Prelude.Results.{ok}
use slept.Tcp.Queue.{Queue, len, pop_front, clear_front_loop, clear_front}
use slept.Tcp.Queue.Fifo.{Holds, len-Holds, pop_front-Holds, peek_front-Holds}

||-false : (b : Bool) → (b || false) ≡ b
||-false true = refl
||-false false = refl

||-true : (b : Bool) → (b || true) ≡ true
||-true true = refl
||-true false = refl

module _ {W : Type 0} (waiting : W → Bool) where
  -- The callers from the first that still waits on.
  unfoldable pub from_waiting : List W → List W
  from_waiting [] = []
  from_waiting (w ∷ ws) = if waiting w then w ∷ ws else from_waiting ws

  -- Some caller stands at the front and no longer waits.
  abbrev pub front_gone : List W → Bool
  front_gone [] = false
  front_gone (w ∷ ws) = not (waiting w)

  pub pop_known :
      (q : Queue W) (w : W) (ws : List W)
      → Holds q (w ∷ ws)
      → (q' : Queue W) × (pop_front q ≡ ok (some w, q')) × Holds q' ws
  pop_known q w ws h = elim (pop_front-Holds q (w ∷ ws) h) [
    | inl (e, _) ↦ absurd (cc)
    | inr (w', r, q', e, ran, held) ↦
        let same : w' ≡ w = cc in let rest : r ≡ ws = cc in (q', rw same at ran, rw rest at held)
  ]

  clear_front_loop-Holds :
      (fuel : ℕ) (q : Queue W) (ws : List W) (cleaned : Bool)
      → Holds q ws
      → length ws < fuel
      → (q' : Queue W) × (clear_front_loop waiting fuel q cleaned
          ≡ ok (some (cleaned || front_gone ws, q')))
        × Holds q' (from_waiting ws)
  unfolding clear_front_loop from_waiting
  clear_front_loop-Holds zero q ws cleaned h f = absurd (omega arith)
  clear_front_loop-Holds (suc fuel) q [] cleaned h f =
      (q, rw (peek_front-Holds q [] h) (rw ||-false refl), h)
  clear_front_loop-Holds (suc fuel) q (w ∷ ws) cleaned h f = elim (Bool-cases (waiting w)) [
    | inl still ↦ (q, rw (peek_front-Holds q (w ∷ ws) h) (rw still (rw ||-false refl)), rw still h)
    | inr gone ↦
        let (p, ran, held) = pop_known q w ws h in
        let (q', looped, left) = clear_front_loop-Holds fuel p ws true held (omega arith) in
        (q', rw (peek_front-Holds q (w ∷ ws) h) (rw (gone, ran, ||-true) looped), rw gone left)
  ]

  -- `clearFront` ends with its fuel, `len + 1` rounds; it leaves the queue with the callers from the
  -- first that still waits on, and reports whether any were dropped.
  pub clear_front-Holds :
      (q : Queue W) (ws : List W)
      → Holds q ws
      → (q' : Queue W) × (clear_front waiting q ≡ ok (some (front_gone ws, q')))
        × Holds q' (from_waiting ws)
  unfolding clear_front
  clear_front-Holds q ws h =
      clear_front_loop-Holds (len q + 1) q ws false h (omega (arith, len-Holds q ws h))
