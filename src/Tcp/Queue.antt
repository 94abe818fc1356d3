-- ===== src/Tcp/Queue.antt =====
-- sleepytcp/client_wait.go: waitingCallerQueue, a queue in two stages. `W` is the type of a pointer
-- to a waitingCaller; the slice `head` holds nil where an entry has been popped.
pub mod Fifo
pub mod Clear
use slept.Prelude.{
  ℕ, zero, suc, ◌+◌, ◌-◌, Bool, true, false, ◌==◌, ltb, leb, if◌then◌else◌, List, [], ◌∷◌, ◌++◌,
  length, set, map, Option, none, some,
}
use slept.Prelude.Results.{Result, ok, ◌>>=◌, index, store}

pub record Queue (W : Type 0) : Type 0 where
  pub head : List (Option W)
  pub head_pos : ℕ
  pub tail : List (Option W)

module _ {W : Type 0} where
  -- `&waitingCallerQueue{}`
  abbrev pub empty : Queue W
  empty = record { head = []; head_pos = 0; tail = [] }

  -- An int that cannot be negative: `headPos` never passes the length of `head`.
  unfoldable pub len : Queue W → ℕ
  len q = length q.head - q.head_pos + length q.tail

  unfoldable pub push_back : Queue W → W → Queue W
  push_back q w = record q { tail = q.tail ++ some w ∷ [] }

  -- The front of the first stage leaves nil behind.
  unfoldable pub take_head : Queue W → Result (Option W × Queue W)
  take_head q = do
    w ← index q.head q.head_pos
    head ← store q.head q.head_pos none
    ok (w, record q { head = head; head_pos = q.head_pos + 1 })

  unfoldable pub pop_front : Queue W → Result (Option W × Queue W)
  unfolding take_head
  pop_front q =
      if leb (length q.head) q.head_pos
      then (if length q.tail == 0
          then ok (none, q)
          else take_head (record { head = q.tail; head_pos = 0; tail = [] }))
      else take_head q

  unfoldable pub peek_front : Queue W → Result (Option W)
  peek_front q =
      if ltb q.head_pos (length q.head)
      then index q.head q.head_pos
      else (if ltb 0 (length q.tail) then index q.tail 0 else ok none)

  -- The loop of `clearFront`, on fuel; `waiting` is the state of the callers' channels, which the
  -- loop does not change. `none` is a loop that did not end.
  unfoldable pub clear_front_loop :
      (W → Bool) → ℕ → Queue W → Bool → Result (Option (Bool × Queue W))
  clear_front_loop waiting zero q cleaned = ok none
  clear_front_loop waiting (suc fuel) q cleaned = do
    front ← peek_front q
    elim front [
      | none ↦ ok (some (cleaned, q))
      | some w ↦ elim (waiting w) [
        | true ↦ ok (some (cleaned, q))
        | false ↦ pop_front q >>= λ popped. clear_front_loop waiting fuel popped.1 true
      ]
    ]

  unfoldable pub clear_front : (W → Bool) → Queue W → Result (Option (Bool × Queue W))
  unfolding clear_front_loop
  clear_front waiting q = clear_front_loop waiting (len q + 1) q false
