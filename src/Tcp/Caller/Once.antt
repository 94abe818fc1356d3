-- ===== src/Tcp/Caller/Once.antt =====
-- A caller is answered once, and its channel closed once.
use slept.Prelude.{
  ℕ, true, false, ◌&&◌, ◌≡◌, refl, ◌⊎◌, inl, inr, arith, Option, none, some, Bool-cases,
}
use slept.Prelude.Results.{ok}
use slept.Tcp.Caller.{
  Failure, Caller, new_caller, is_nil, is_answered, waiting, try_deliver, cancel, IsSound,
}

pub new_caller-IsSound : IsSound new_caller
new_caller-IsSound = refl

-- A sound caller takes the first answer, a connection or an error, stops waiting, and refuses every
-- later one without a change; it never closes its channel again.
pub try_deliver-once :
    (conn : Option ℕ) (err : Option Failure) (c : Caller)
    → IsSound c
    → (is_nil conn && is_nil err) ≡ false
    → (waiting c ≡ false) × (try_deliver conn err c ≡ ok (false, c))
      ⊎ (waiting c ≡ true)
        × (c1 : Caller) × (try_deliver conn err c ≡ ok (true, c1))
        × IsSound c1
        × (waiting c1 ≡ false)
        × (c1.conn ≡ conn)
        × (c1.err ≡ err)
unfolding waiting try_deliver
try_deliver-once conn err c sound some_answer = elim (Bool-cases (is_answered c)) [
  | inl y ↦ inl (ground arith, ground arith)
  | inr n ↦ inr (
    ground arith,
    record { closed = true; conn = conn; err = err },
    ground arith,
    ground arith,
    refl,
    refl,
    refl,
  )
]

-- `cancel` of a sound caller returns the connection that was delivered, if there was one, and leaves
-- a caller that keeps none, no longer waits and refuses every answer; the channel is closed once.
pub cancel-final :
    (e : Failure) (c : Caller)
    → IsSound c
    → (c1 : Caller) × (cancel e c ≡ ok (c.conn, c1))
      × IsSound c1
      × (waiting c1 ≡ false)
      × (c1.conn ≡ none)
      × ((conn : Option ℕ) (err : Option Failure) → try_deliver conn err c1 ≡ ok (false, c1))
unfolding cancel waiting try_deliver
cancel-final e c sound = elim (Bool-cases (is_answered c)) [
  | inl y ↦ (
    record c { conn = none; err = some e },
    ground arith,
    ground arith,
    ground arith,
    refl,
    λ conn err. refl,
  )
  | inr n ↦ (
    record { closed = true; conn = none; err = some e },
    ground arith,
    refl,
    refl,
    refl,
    λ conn err. refl,
  )
]

pub waiting-empty : (c : Caller) → IsSound c → waiting c ≡ true → c.conn ≡ none
unfolding waiting
waiting-empty c sound waits = ground arith
