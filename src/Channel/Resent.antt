-- ===== src/Channel/Resent.antt =====
-- What the loop of Update leaves, from each number of the window on.
use slept.Prelude.{
  ℕ, suc, ◌+◌, ◌<◌, ◌≤◌, ◌≡◌, ◌≢◌, refl, arith, true, ◌∙◌, some, ◌%◌, ◌++◌, List, [], ◌∷◌,
  get_elem?, get_elem?-set_self, get_elem?-set_ne, append_assoc, append-nil,
}
use slept.Floats.{Floats}
use slept.Seq.{add16}
use slept.Buffer.Slots.Laws.{IsValid, holds}
use slept.Buffer.Types.{BufferedPacket}
use slept.Channel.{Channel}
use mathlib.Core.Path.{sym}
use native.Mathlib.Decide.{ℕ_discrete}
use slept.Channel.Due.{
  is_due, due_at, due, stamp, IsFull, put_out, slots_apart, in_ring, due-put_out,
}

-- The time of the last sending, if these datagrams went out at `time`.
abbrev pub last_of : {F : Type 0} → F → F → List (List ℕ) → F
last_of before time [] = before
last_of before time (b ∷ bs) = time

last_of-same : {F : Type 0} (time : F) (bs : List (List ℕ)) → last_of time time bs ≡ time
last_of-same time [] = refl
last_of-same time (b ∷ bs) = refl

module _ (fl : Floats) (time : fl.Float) (cap : ℕ) where
  -- The state of a channel after its window was gone through from number `oldest` + k on.
  pub record Resent (oldest n k : ℕ) (c c1 : Channel fl.Float) : Type 0 where
    pub put_out_due : c1.out_queue ≡ c.out_queue ++ due fl time cap c.window oldest n k
    -- The known numbers that were gone through, and every other slot.
    pub stamped :
        (j : ℕ) (p : BufferedPacket fl.Float)
        → k ≤ j
        → j < k + n
        → holds c.window cap (add16 oldest j) ≡ true
        → get_elem? c.window.entries (add16 oldest j % cap) ≡ some p
        → get_elem? c1.window.entries (add16 oldest j % cap) ≡ some (stamp fl time cap p)
    pub others_kept :
        (i : ℕ)
        → ((j : ℕ)
            → k ≤ j
            → j < k + n
            → holds c.window cap (add16 oldest j) ≡ true
            → i ≢ add16 oldest j % cap)
        → get_elem? c1.window.entries i ≡ get_elem? c.window.entries i
    pub last_kept : c1.last_sent ≡ last_of c.last_sent time (due fl time cap c.window oldest n k)
    pub valid : IsValid cap c1.window
    pub full : IsFull fl time cap c1.window
    pub numbers_kept : c1.window.buf ≡ c.window.buf
    pub queue_kept : c1.queue ≡ c.queue
    pub oldest_kept : c1.oldest_unacked ≡ c.oldest_unacked

  module _ (oldest n k : ℕ) (c c1 : Channel fl.Float) where
    -- A later known number has a slot of its own.
    later_apart :
        (packet : BufferedPacket fl.Float) (j : ℕ)
        → IsValid cap c.window
        → k + n < 65536
        → suc k ≤ j
        → j < suc k + n
        → holds c.window cap (add16 oldest k) ≡ true
        → holds c.window cap (add16 oldest j) ≡ true
        → add16 oldest k % cap ≢ add16 oldest j % cap
    later_apart packet j v few low high known later =
        slots_apart fl time cap c.window (add16 oldest k) packet v (add16 oldest j) known later
          (λ e. omega (arith, e, few, low, high))

    pub Resent-nothing :
        IsValid cap c.window
        → k + n < 65536
        → due_at fl time cap
            (holds c.window cap (add16 oldest k))
            (get_elem? c.window.entries (add16 oldest k % cap))
          ≡ []
        → (holds c.window cap (add16 oldest k) ≡ true
            → (p : BufferedPacket fl.Float)
            → get_elem? c.window.entries (add16 oldest k % cap) ≡ some p
            → stamp fl time cap p ≡ p)
        → Resent oldest n (suc k) c c1
        → Resent oldest (suc n) k c c1
    unfolding due
    Resent-nothing v few none_due idle r = record {
      stamped = λ j p low high known found. elim (ℕ_discrete j k) [
        | yes same ↦
            let here = rw same at known in
            let at_k = rw same at found in
            rw (same, idle here p at_k)
              (r.others_kept (add16 oldest k % cap)
                  (λ i below above later. later_apart p i v few below above here later)
                ∙ at_k)
        | no other ↦ r.stamped j p (omega (arith, low, other)) (omega (arith, high)) known found
      ];
      others_kept = λ i away.
          r.others_kept i
            (λ j low high known. away j (omega (arith, low)) (omega (arith, high)) known);
      last_kept = rw none_due r.last_kept;
      put_out_due = rw none_due r.put_out_due;
      valid = r.valid;
      full = r.full;
      numbers_kept = r.numbers_kept;
      queue_kept = r.queue_kept;
      oldest_kept = r.oldest_kept;
    }

    pub Resent-sent :
        (p : BufferedPacket fl.Float) (b : List ℕ)
        → IsValid cap c.window
        → k + n < 65536
        → holds c.window cap (add16 oldest k) ≡ true
        → get_elem? c.window.entries (add16 oldest k % cap) ≡ some p
        → is_due fl time cap p ≡ true
        → due_at fl time cap
            (holds c.window cap (add16 oldest k))
            (get_elem? c.window.entries (add16 oldest k % cap))
          ≡ b ∷ []
        → Resent oldest n
            (suc k)
            (record c {
              window = put_out fl time cap (add16 oldest k % cap) p c.window;
              last_sent = time;
              out_queue = c.out_queue ++ b ∷ [];
            })
            c1
        → Resent oldest (suc n) k c c1
    unfolding due holds
    Resent-sent p b v few known there now_due is_b r =
        let seq = add16 oldest k in
        let sent = record p { written = true; time = time } in
        let stays =
          due-put_out fl time cap c.window seq p v oldest k n (suc k) known refl (omega arith)
            (omega arith) in
        record {
          put_out_due = rw is_b (
              cc (
                r.put_out_due,
                stays,
                append_assoc c.out_queue (b ∷ []) (due fl time cap c.window oldest n (suc k)),
              ));
          stamped = λ j q low high knows found. elim (ℕ_discrete j k) [
            | yes same ↦
                let at_k = rw same at found in
                let it_is : q ≡ p = cc (there) in
                rw (same, it_is)
                  (rw now_due (
                    r.others_kept (seq % cap)
                      (λ i below above later. later_apart p i v few below above known later)
                    ∙ get_elem?-set_self c.window.entries (seq % cap) sent
                        (in_ring fl time cap c.window seq p v)))
            | no other ↦
                let apart =
                  later_apart p j v few (omega (arith, low, other)) (omega (arith, high)) known
                    knows in
                r.stamped j q (omega (arith, low, other)) (omega (arith, high)) knows (
                  get_elem?-set_ne c.window.entries (seq % cap) (add16 oldest j % cap) sent apart
                  ∙ found)
          ];
          others_kept = λ i away.
              r.others_kept i
                (λ j low high knows. away j (omega (arith, low)) (omega (arith, high)) knows)
              ∙ get_elem?-set_ne c.window.entries (seq % cap) i sent
                  (λ e. away k (omega arith) (omega arith) known (sym e));
          last_kept = rw is_b (
              r.last_kept
              ∙ last_of-same time
                  (due fl time cap (put_out fl time cap (seq % cap) p c.window) oldest n (suc k)));
          valid = r.valid;
          full = r.full;
          numbers_kept = r.numbers_kept;
          queue_kept = r.queue_kept;
          oldest_kept = r.oldest_kept;
        }

  pub Resent-end :
      (oldest k : ℕ) (c : Channel fl.Float)
      → IsValid cap c.window
      → IsFull fl time cap c.window
      → Resent oldest 0 k c c
  unfolding due
  Resent-end oldest k c v full = record {
    put_out_due = sym (append-nil c.out_queue);
    stamped = λ j p low high known found. absurd (omega (arith, low, high));
    others_kept = λ i away. refl;
    last_kept = refl;
    valid = v;
    full = full;
    numbers_kept = refl;
    queue_kept = refl;
    oldest_kept = refl;
  }
