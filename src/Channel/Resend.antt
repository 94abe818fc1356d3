-- ===== src/Channel/Resend.antt =====
-- What Update puts out: the datagrams of the window that are due.
use slept.Prelude.{
  ℕ, zero, suc, ◌+◌, ◌<◌, ◌≡◌, refl, arith, Bool, true, false, Option, some, length, if◌then◌else◌,
  ◌%◌, ◌++◌, Bool-cases, inl, inr, ◌&&◌, List, [], ◌∷◌, get_elem?, lt→ltb, get_elem?-lt,
}
use slept.Prelude.Results.{Result, ok, index}
use slept.Floats.{Floats}
use slept.Seq.{add16, seq_lte, IsU16}
use slept.Buffer.Slots.Laws.{IsValid, holds, find-holds}
use slept.Buffer.Types.{BufferedPacket, packet_find}
use slept.Channel.{Channel}
use slept.Channel.Oldest.{lte-ahead, lte-beyond}
use slept.Channel.Update.{resend, resend_one}
use mathlib.Core.Path.{subst}
use slept.Channel.Due.{is_due, due_at, IsFull, put_out, put_out-IsValid, put_out-IsFull}
use slept.Channel.Resent.{Resent, Resent-nothing, Resent-sent, Resent-end}

module _ (fl : Floats) (time : fl.Float) (cap : ℕ) where
  resend_one-sent :
      (slot : ℕ) (p : BufferedPacket fl.Float) (b : List ℕ) (c : Channel fl.Float)
      → get_elem? c.window.entries slot ≡ some p
      → p.buf ≡ some b
      → is_due fl time cap p ≡ true
      → resend_one fl time slot c
        ≡ ok (record c {
          window = put_out fl time cap slot p c.window;
          last_sent = time;
          out_queue = c.out_queue ++ b ∷ [];
        })
  unfolding resend_one
  resend_one-sent slot p b c found has yes_due =
      let test : (p.written && fl.lt (fl.sub time p.time) fl.tenth) ≡ false =
        ground (arith, yes_due) in
      let got : index c.window.entries slot ≡ ok p = ground (arith, found) in
      let inside : slot < length c.window.entries = get_elem?-lt c.window.entries slot found in
      let room = lt→ltb slot (length c.window.entries) inside in
      rw got (rw test (rw room (rw has refl)))

  resend_one-early :
      (slot : ℕ) (p : BufferedPacket fl.Float) (c : Channel fl.Float)
      → get_elem? c.window.entries slot ≡ some p
      → is_due fl time cap p ≡ false
      → resend_one fl time slot c ≡ ok c
  unfolding resend_one
  resend_one-early slot p c found early =
      let test : (p.written && fl.lt (fl.sub time p.time) fl.tenth) ≡ true =
        ground (arith, early) in
      let got : index c.window.entries slot ≡ ok p = ground (arith, found) in rw got (rw test refl)

  module _ (fuel seq max : ℕ) (c : Channel fl.Float) where
    resend-end : seq_lte seq max ≡ false → resend fl (suc fuel) time seq max c ≡ ok (some c)
    unfolding resend
    resend-end beyond = rw (beyond, resend) refl

    resend-unknown :
        seq_lte seq max ≡ true
        → IsValid cap c.window
        → holds c.window cap seq ≡ false
        → resend fl (suc fuel) time seq max c ≡ resend fl fuel time (add16 seq 1) max c
    unfolding packet_find resend
    resend-unknown test v unknown =
        rw (test, resend) (rw (find-holds c.window v seq) (rw unknown refl))

    resend-known :
        (c0 : Channel fl.Float)
        → seq_lte seq max ≡ true
        → IsValid cap c.window
        → holds c.window cap seq ≡ true
        → resend_one fl time (seq % cap) c ≡ ok c0
        → resend fl (suc fuel) time seq max c ≡ resend fl fuel time (add16 seq 1) max c0
    unfolding packet_find resend
    resend-known c0 test v known goes =
        rw (test, resend) (rw (find-holds c.window v seq) (rw known (rw goes refl)))

  due_at-sent :
      (known : Bool) (o : Option (BufferedPacket fl.Float)) (p : BufferedPacket fl.Float)
      (b : List ℕ)
      → known ≡ true
      → o ≡ some p
      → p.buf ≡ some b
      → due_at fl time cap known o ≡ (if is_due fl time cap p then b ∷ [] else [])
  due_at-sent known o p b k e has = rw (k, e) (rw has refl)

  resend-via :
      (fuel seq seq1 max : ℕ) (c c1 : Channel fl.Float) (whole : Result (Option (Channel fl.Float)))
      → whole ≡ resend fl fuel time seq max c
      → seq ≡ seq1
      → resend fl fuel time seq1 max c ≡ ok (some c1)
      → whole ≡ ok (some c1)
  resend-via fuel seq seq1 max c c1 whole went step ran = cc (went, step, ran)

  resend-from :
      (fuel oldest size n k : ℕ) (c : Channel fl.Float)
      → IsValid cap c.window
      → IsFull fl time cap c.window
      → IsU16 oldest
      → size < 32768
      → n + k ≡ suc size
      → n < fuel
      → (c1 : Channel fl.Float) × (resend fl fuel time (add16 oldest k) (add16 oldest size) c
          ≡ ok (some c1))
        × Resent fl time cap oldest n k c c1
  resend-from zero oldest size n k c v full h small e f = absurd (omega arith)
  resend-from (suc fuel) oldest size zero k c v full h small e f =
      let at_end : k ≡ suc size = omega arith in
      let beyond : seq_lte (add16 oldest k) (add16 oldest size) ≡ false =
        rw at_end (lte-beyond oldest size h small) in
      (
        c,
        resend-end fuel (add16 oldest k) (add16 oldest size) c beyond,
        Resent-end fl time cap oldest k c v full,
      )
  resend-from (suc fuel) oldest size (suc n) k c v full h small e f =
      let test = lte-ahead oldest k size h (omega arith) small in
      let step : add16 (add16 oldest k) 1 ≡ add16 oldest (suc k) = omega arith in
      elim (Bool-cases (holds c.window cap (add16 oldest k))) [
        | inr unknown ↦
            let (c1, ran, r) =
              resend-from fuel oldest size n (suc k) c v full h small (omega arith) (omega arith) in
            let went = resend-unknown fuel (add16 oldest k) (add16 oldest size) c test v unknown in
            (
              c1,
              resend-via _ _ _ _ _ _ _ went step ran,
              Resent-nothing fl time cap oldest n k c c1 v (omega arith) (rw unknown refl)
                  (λ known q at. absurd (cc (known, unknown))) r,
            )
        | inl known ↦
            let (p, b, found, has) = full (add16 oldest k) (omega arith) known in
            let slot = add16 oldest k % cap in
            let all_due =
              due_at-sent (holds c.window cap (add16 oldest k)) (get_elem? c.window.entries slot) p
                b known found has in
            elim (Bool-cases (is_due fl time cap p)) [
              | inr early ↦
                  let (c1, ran, r) =
                    resend-from fuel oldest size n (suc k) c v full h small (omega arith)
                      (omega arith) in
                  let went =
                    resend-known fuel (add16 oldest k) (add16 oldest size) c c test v known
                      (resend_one-early slot p c found early) in
                  let nothing = rw early at all_due in
                  (
                    c1,
                    resend-via _ _ _ _ _ _ _ went step ran,
                    Resent-nothing fl time cap oldest n k c c1 v (omega arith) nothing
                        (λ again q at. let same : q ≡ p = cc (found, at) in rw same (rw early refl))
                        r,
                  )
              | inl now_due ↦
                  let (c1, ran, r) =
                    resend-from fuel oldest size n (suc k)
                      (record c {
                        window = put_out fl time cap slot p c.window;
                        last_sent = time;
                        out_queue = c.out_queue ++ b ∷ [];
                      })
                      (put_out-IsValid fl time cap c.window (add16 oldest k) p v)
                      (put_out-IsFull fl time cap c.window (add16 oldest k) p v b known has full) h
                      small (omega arith) (omega arith) in
                  let went =
                    resend-known fuel (add16 oldest k) (add16 oldest size) c
                      (record c {
                        window = put_out fl time cap slot p c.window;
                        last_sent = time;
                        out_queue = c.out_queue ++ b ∷ [];
                      })
                      test v known (resend_one-sent slot p b c found has now_due) in
                  let it_is = rw now_due at all_due in
                  (
                    c1,
                    resend-via _ _ _ _ _ _ _ went step ran,
                    Resent-sent fl time cap oldest n k c c1 p b v (omega arith) known found now_due
                        it_is r,
                  )
            ]
      ]

  -- For a sound window whose known numbers all have a datagram, and at most 32767 numbers after the
  -- oldest: the loop ends in as many rounds as there are numbers and one more, puts the datagrams of
  -- the known numbers that are due out in order, behind what is there, and nothing else. Exactly the
  -- packets that went out are marked as written at this time, the time of the last sending is this
  -- time if one did and else as it was, and the loop leaves a sound window that knows the same numbers,
  -- each with a datagram, the queue and the oldest number.
  pub resend-Resent :
      (fuel size : ℕ) (c : Channel fl.Float)
      → IsValid cap c.window
      → IsFull fl time cap c.window
      → IsU16 c.oldest_unacked
      → size < 32768
      → suc size < fuel
      → (c1 : Channel fl.Float) × (resend fl fuel time c.oldest_unacked
            (add16 c.oldest_unacked size)
            c
          ≡ ok (some c1))
        × Resent fl time cap c.oldest_unacked (suc size) 0 c c1
  resend-Resent fuel size c v full h small f =
      let (c1, ran, r) =
        resend-from fuel c.oldest_unacked size (suc size) 0 c v full h small (omega arith) f in
      let begins : add16 c.oldest_unacked 0 ≡ c.oldest_unacked = omega (arith, h) in
      (
        c1,
        subst (λ (seq : ℕ). resend fl fuel time seq (add16 c.oldest_unacked size) c ≡ ok (some c1))
            begins ran,
        r,
      )
