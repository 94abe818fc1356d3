-- ===== src/Channel/Oldest.antt =====
-- Which number is the oldest that is not ACK'ed after the oldest was.
use slept.Prelude.{
  ℕ, zero, suc, ◌+◌, ◌<◌, ◌≤◌, ◌≡◌, refl, arith, true, false, Option, none, some, ◌==◌,
  if◌then◌else◌, ◌%◌, Bool-cases, inl, inr, not, ◌&&◌, List, [], ◌∷◌,
}
use slept.Prelude.Results.{ok}
use slept.Seq.{add16, sub16, seq_lte, seq_greater_than, IsU16}
use slept.Buffer.Slots.Laws.{IsValid, holds, find-holds, remove-holds}
use slept.Buffer.Types.{PacketBuffer, packet_find, packet_remove}
use slept.Bytes.{BytesUtil}
use slept.Endpoint.{Endpoint}
use slept.Channel.{Channel, next_oldest, flush, ack_oldest, ack, or_end}

-- The order over the window: k steps ahead is not beyond n steps ahead exactly when k is at most n.
pub lte-ahead : (a k n : ℕ) → IsU16 a → k ≤ n → n < 32768 → seq_lte (add16 a k) (add16 a n) ≡ true
unfolding seq_lte seq_greater_than
lte-ahead a k n h le small = ground arith

pub lte-beyond : (a n : ℕ) → IsU16 a → n < 32768 → seq_lte (add16 a (suc n)) (add16 a n) ≡ false
unfolding seq_lte seq_greater_than
lte-beyond a n h small = ground arith

module _ {F : Type 0} (cap : ℕ) (w : PacketBuffer F) where
  -- The first of n numbers from `oldest` + k on that the window knows.
  unfoldable pub first_known : ℕ → ℕ → ℕ → Option ℕ
  first_known oldest zero k = none
  first_known oldest (suc n) k =
      let later = first_known oldest n (suc k) in
      if holds w cap (add16 oldest k) then some (add16 oldest k) else later

  next_oldest-from :
      (fuel oldest size n k : ℕ)
      → IsValid cap w
      → IsU16 oldest
      → size < 32768
      → n + k ≡ suc size
      → n < fuel
      → next_oldest fuel (add16 oldest k) (add16 oldest size) w ≡ ok (some (first_known oldest n k))
  unfolding next_oldest first_known packet_find
  next_oldest-from zero oldest size n k v h small e f = absurd (omega arith)
  next_oldest-from (suc fuel) oldest size zero k v h small e f =
      let at_end : k ≡ suc size = omega arith in
      rw at_end (rw (lte-beyond oldest size h small, next_oldest) refl)
  next_oldest-from (suc fuel) oldest size (suc n) k v h small e f =
      let test = lte-ahead oldest k size h (omega arith) small in
      let find = find-holds w v (add16 oldest k) in
      let step : add16 (add16 oldest k) 1 ≡ add16 oldest (suc k) = omega arith in
      elim (Bool-cases (holds w cap (add16 oldest k))) [
        | inl y ↦ rw (test, next_oldest) (rw find (rw y refl))
        | inr n1 ↦
            rw (test, next_oldest)
              (rw find (
                rw (n1, step)
                  (next_oldest-from fuel oldest size n (suc k) v h small (omega arith)
                    (omega arith))))
      ]

module _ (u : BytesUtil) {F : Type 0} (zero_time : F) where
  flush-empty :
      (n : ℕ) (e : Endpoint F) (c : Channel F) (queue : List (List ℕ))
      → queue ≡ []
      → flush u zero_time n e c queue ≡ ok (e, record c { queue = [] })
  unfolding flush
  flush-empty zero e c [] h = refl
  flush-empty (suc n) e c [] h = refl
  flush-empty n e c (b ∷ queue) h = absurd (cc h)

  -- For a sound window that knows the oldest number, a receive buffer of fewer than 32768 packets and
  -- no datagram that waits to be written, ACK of the oldest number ends in as many rounds as that
  -- buffer has packets and one more: the window forgets what is in that number's slot and nothing
  -- else, and the oldest number is then the first one after it that the window knows, up to the size
  -- of the receive buffer ahead, or if there is none the one that is that size ahead.
  pub ack-first_known :
      (fuel cap size : ℕ) (e : Endpoint F) (c : Channel F)
      → IsValid cap c.window
      → IsU16 c.oldest_unacked
      → holds c.window cap c.oldest_unacked ≡ true
      → e.config.recv_packet_buffer_size ≡ size
      → size < 32768
      → size < fuel
      → c.queue ≡ []
      → (window : PacketBuffer F) × IsValid cap window
        × ((j : ℕ)
            → IsU16 j
            → holds window cap j
              ≡ (not (j % cap == c.oldest_unacked % cap) && holds c.window cap j))
        × (ack u zero_time fuel c.oldest_unacked (e, c)
            ≡ ok (
                some (
                  e,
                  record c {
                    window = window;
                    queue = [];
                    oldest_unacked =
                        or_end
                          (add16 c.oldest_unacked size)
                          (first_known cap window c.oldest_unacked size 1);
                  },
                )))
  unfolding ack ack_oldest packet_find packet_remove
  ack-first_known fuel cap size e c v h known sized small f empty =
      let (window, removed, valid, kept, latest, holds_now) =
        remove-holds c.window v c.oldest_unacked in
      let find = find-holds c.window v c.oldest_unacked in
      let end : add16 c.oldest_unacked (e.config.recv_packet_buffer_size % 65536)
          ≡ add16 c.oldest_unacked size =
        omega (arith, sized, small) in
      let scan =
        next_oldest-from cap window fuel c.oldest_unacked size size 1 valid h small (omega arith)
          f in
      let self : (c.oldest_unacked == c.oldest_unacked) ≡ true = ground arith in
      let after =
        or_end (add16 c.oldest_unacked size) (first_known cap window c.oldest_unacked size 1) in
      let flushed =
        flush-empty (sub16 after c.oldest_unacked) e
          (record c { window = window; oldest_unacked = after }) c.queue empty in
      (
        window,
        valid,
        holds_now,
        rw find (rw known (rw removed (rw self (rw end (rw scan (rw end (rw flushed refl))))))),
      )
