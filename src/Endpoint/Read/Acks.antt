-- ===== src/Endpoint/Read/Acks.antt =====
-- processACKs: which packets count as ACK'ed afterwards.
pub mod Entries
use slept.Prelude.{
  ℕ, ◌∙◌, zero, suc, ◌+◌, ◌-◌, ◌/◌, ◌%◌, ◌<◌, ◌≤◌, ◌≡◌, refl, arith, Bool, true, false, not, ◌&&◌,
  ◌||◌, bit_and, Option, none, some, ◌==◌, ltb, if◌then◌else◌, get_elem?, set, length,
  get_elem?-set_self, get_elem?-set_ne, lt→ltb, Bool-cases, inl, inr,
}
use slept.Prelude.Bits.{testbit, bit_and-pow}
use native.Mathlib.Decide.{ℕ_discrete}
use slept.Prelude.Results.{ok, index, ◌>>=◌}
use slept.Seq.{IsU16, sub16}
use slept.Floats.{Floats}
use slept.Buffer.Slots.Laws.{IsValid, slot_is, holds, find-holds, slot_pointee, mod-lt_cap}
use slept.Buffer.Types.{SentPacket, SentPacketBuffer, sent_find}
use slept.Endpoint.{Endpoint, Dispatcher}
use slept.Endpoint.Read.{
  process_ack, process_found, ack_sent, smooth_rtt, process_acks_loop, process_acks,
}
use slept.Endpoint.Write.Open.{set_entry-IsValid}
use slept.Endpoint.Read.Acks.Entries.{
  is_acked, Acked, unchanged, smooth_rtt-shape, was_acked, unknown, marked-Acked,
}

-- A dispatcher whose `ACK` returns and leaves the endpoint alone.
abbrev pub IsQuiet : {F W : Type 0} → Dispatcher F W → Type 0
IsQuiet {F} {W} d = (seq : ℕ) (e : Endpoint F) (w : W) → (w1 : W) × (d.ack seq (e, w) ≡ ok (e, w1))

-- The numbers that round i and the later rounds name.
abbrev named : ℕ → ℕ → ℕ → ℕ → ℕ → Bool
named i rounds ack bitset j =
    ltb (sub16 ack j) (i + rounds)
    && (not (ltb (sub16 ack j) i) && testbit bitset (sub16 ack j - i) == 1)

named_now :
    (i rounds ack bitset j : ℕ)
    → i < 32
    → IsU16 ack
    → IsU16 j
    → named i (suc rounds) ack bitset j
      ≡ ((bitset % 2 == 1 && j == sub16 ack i) || named (i + 1) rounds ack (bitset / 2) j)
named_now i rounds ack bitset j h ha hj = elim (ℕ_discrete (sub16 ack j) i) [
  | yes p ↦ rw p (ground (arith, p))
  | no p ↦ elim (Bool-cases (ltb (sub16 ack j) i)) [
    | inl y ↦ ground (arith, p)
    | inr n ↦
        let k = sub16 ack j - (i + 1) in
        let not_below : i ≤ sub16 ack j = ground arith in
        let one_more : sub16 ack j - i ≡ suc k = omega (arith, p, not_below) in
        rw one_more (ground (arith, p))
  ]
]

module _ (fl : Floats) {W : Type 0} (d : Dispatcher fl.Float W) (quiet : IsQuiet d) {cap : ℕ} where
  module _ (seq : ℕ) (e : Endpoint fl.Float) (w : W) (v : IsValid cap e.sent)
      (packet : SentPacket fl.Float) (at : get_elem? e.sent.entries (seq % cap) ≡ some packet) where
    found_old : packet.acked ≡ true → process_found fl d seq (some (seq % cap)) (e, w) ≡ ok (e, w)
    unfolding process_found
    found_old old = ground (arith, at, old)

    found_new :
        packet.acked ≡ false
        → process_found fl d seq (some (seq % cap)) (e, w)
          ≡ ack_sent fl d seq (seq % cap) packet (e, w)
    unfolding process_found
    found_new new = ground (arith, at, new)

    abbrev marked : SentPacket fl.Float
    marked = record packet { acked = true }

    abbrev marks : Endpoint fl.Float
    marks = record e { sent = record (e.sent) { entries = set e.sent.entries (seq % cap) marked } }

    seen :
        (rtt : fl.Float) (w1 : W)
        → get_elem? marks.sent.entries (seq % cap) ≡ some marked
        → smooth_rtt fl d marks (fl.mul (fl.sub e.time packet.time) (fl.of_ℕ 1000))
          ≡ record marks { rtt = rtt }
        → ◌>>=◌ {Y = Endpoint fl.Float × W} (index marks.sent.entries (seq % cap)) (λ after.
          ok (smooth_rtt fl d marks (fl.mul (fl.sub e.time after.time) (fl.of_ℕ 1000)), w1))
          ≡ ok (record marks { rtt = rtt }, w1)
    seen rtt w1 there shape = ground (arith, there, shape)

    ack_sent-quiet :
        (rtt : fl.Float) × (w1 : W) × (ack_sent fl d seq (seq % cap) packet (e, w)
          ≡ ok (record marks { rtt = rtt }, w1))
    unfolding ack_sent
    ack_sent-quiet =
        let there : seq % cap < length e.sent.entries =
          omega (arith, v.entries_length, v.cap_pos, mod-lt_cap seq cap) in
        let (w1, told) = quiet seq marks w in
        let (rtt, shape) =
          smooth_rtt-shape fl d marks (fl.mul (fl.sub e.time packet.time) (fl.of_ℕ 1000)) in
        (
          rtt,
          w1,
          rw (lt→ltb _ _ there, told)
              (seen rtt w1 (get_elem?-set_self e.sent.entries (seq % cap) marked there) shape),
        )

  process_known-Acked :
      (seq : ℕ) (e : Endpoint fl.Float) (w : W)
      → IsValid cap e.sent
      → holds e.sent cap seq ≡ true
      → (e1 : Endpoint fl.Float) × (w1 : W) × (process_found fl d seq (some (seq % cap)) (e, w)
          ≡ ok (e1, w1))
        × Acked cap (λ j. j == seq) e e1
  process_known-Acked seq e w v known =
      let (packet, at) = slot_pointee e.sent v seq in
      elim (Bool-cases packet.acked) [
        | inl old ↦ (
          e,
          w,
          found_old seq e w v packet at old,
          unchanged _ e v (λ j hj h. was_acked e.sent cap seq j h packet at old),
        )
        | inr new ↦
            let (rtt, w1, ran) = ack_sent-quiet seq e w v packet at in
            (
              record (marks seq e w v packet at) { rtt = rtt },
              w1,
              found_new seq e w v packet at new ∙ ran,
              marked-Acked e v seq known (marked seq e w v packet at) refl rtt,
            )
      ]

  process_found-Acked :
      (seq : ℕ) (e : Endpoint fl.Float) (w : W)
      → IsValid cap e.sent
      → (e1 : Endpoint fl.Float) × (w1 : W) × (process_found fl d seq
            (if holds e.sent cap seq then some (seq % cap) else none)
            (e, w)
          ≡ ok (e1, w1))
        × Acked cap (λ j. j == seq) e e1
  unfolding process_found
  process_found-Acked seq e w v = elim (Bool-cases (holds e.sent cap seq)) [
    | inl y ↦ rw y (process_known-Acked seq e w v y)
    | inr n ↦ rw n (e, w, refl, unchanged _ e v (λ j hj h. absurd (unknown e.sent cap seq j h n)))
  ]

  process_ack-Acked :
      (seq bitset : ℕ) (e : Endpoint fl.Float) (w : W)
      → IsValid cap e.sent
      → (e1 : Endpoint fl.Float) × (w1 : W) × (process_ack fl d seq bitset (e, w) ≡ ok (e1, w1))
        × Acked cap (λ j. bitset % 2 == 1 && j == seq) e e1
  unfolding process_ack sent_find
  process_ack-Acked seq bitset e w v =
      let low : bit_and bitset 1 ≡ bitset % 2 = omega (arith, bit_and-pow 0 bitset) in
      elim (Bool-cases (bitset % 2 == 1)) [
        | inl y ↦
            let odd : (bit_and bitset 1 == 0) ≡ false = ground (arith, low, y) in
            rw (odd, find-holds e.sent v seq, y) (process_found-Acked seq e w v)
        | inr n ↦
            let even : (bit_and bitset 1 == 0) ≡ true = ground (arith, low, n) in
            rw (even, n) (e, w, refl, unchanged _ e v (λ j hj h. absurd (cc)))
      ]

  process_acks_loop-Acked :
      (rounds i ack bitset : ℕ) (e : Endpoint fl.Float) (w : W)
      → i + rounds ≤ 32
      → IsU16 ack
      → IsValid cap e.sent
      → (e1 : Endpoint fl.Float) × (w1 : W) × (process_acks_loop fl d rounds i ack bitset (e, w)
          ≡ ok (e1, w1))
        × Acked cap (named i rounds ack bitset) e e1
  unfolding process_acks_loop
  process_acks_loop-Acked zero i ack bitset e w h small v =
      (e, w, refl, unchanged _ e v (λ j hj hit. absurd (ground arith)))
  process_acks_loop-Acked (suc rounds) i ack bitset e w h small v =
      let (e1, w1, ran, first) = process_ack-Acked (sub16 ack i) bitset e w v in
      let (e2, w2, ran_on, others) =
        process_acks_loop-Acked rounds (i + 1) ack (bitset / 2) e1 w1 (omega arith) small
          first.valid in
      (
        e2,
        w2,
        rw ran ran_on,
        record {
          valid = others.valid;
          same_knows = λ j. others.same_knows j ∙ first.same_knows j;
          now_acked = λ j hj. ground (
            arith,
            others.now_acked j hj,
            first.now_acked j hj,
            first.same_knows j,
            named_now i rounds ack bitset j (omega arith) small hj,
          );
        },
      )

  -- On sound slots of sent packets, and for `ack` in range, `processACKs` with a quiet dispatcher
  -- returns, and afterwards exactly these known packets are
  -- ACK'ed: those that were, and those that the bitset names, where digit k names the number k below
  -- `ack`.
  pub process_acks-Acked :
      (ack acks : ℕ) (e : Endpoint fl.Float) (w : W)
      → IsU16 ack
      → IsValid cap e.sent
      → (e1 : Endpoint fl.Float) × (w1 : W) × (process_acks fl d ack acks (e, w) ≡ ok (e1, w1))
        × Acked cap (λ j. ltb (sub16 ack j) 32 && testbit acks (sub16 ack j) == 1) e e1
  unfolding process_acks
  process_acks-Acked ack acks e w small v =
      let (e1, w1, ran, done) = process_acks_loop-Acked 32 0 ack acks e w (omega arith) small v in
      (
        e1,
        w1,
        ran,
        record {
          valid = done.valid;
          same_knows = done.same_knows;
          now_acked = λ j hj. ground (arith, done.now_acked j hj);
        },
      )
