-- ===== src/Buffer/Acks.antt =====
-- `NextACK`: the bitset names exactly the known numbers among the last 32.
use slept.Prelude.{
  ℕ, zero, suc, ◌+◌, ◌*◌, ◌%◌, ◌^◌, ◌<◌, ◌≡◌, refl, arith, Bool, true, false, lt→ltb, ◌&&◌, ◌||◌,
  bit_or, ◌==◌, ltb, leb, if◌then◌else◌,
}
use slept.Prelude.Bits.{testbit, testbit-set, bit_or-lt, pow-lt_u32}
use slept.Prelude.Results.{ok, index}
use slept.Seq.{sub16}
use slept.Buffer.Slots.Laws.{IsValid, holds, slot_entry, cap16-eq}
use slept.Buffer.Types.{RecvPacketBuffer, next_ack_loop, next_ack}
use native.Mathlib.Nat.{pow-suc, mod-eq_of_lt}
use native.Mathlib.Numerals.{towards_suc}

abbrev pub known_at : {F : Type 0} → RecvPacketBuffer F → ℕ → ℕ → ℕ → Bool
known_at s cap ack j = holds s cap (sub16 ack j)

doubled : (i : ℕ) → 2 ^ i * 2 ≡ 2 ^ (i + 1)
doubled i = simp towards_suc (omega (arith, pow-suc 2 i))

zero-leb : (j : ℕ) → leb 0 j ≡ true
zero-leb j = ground arith

testbit-zero : (j : ℕ) → testbit 0 j ≡ 0
testbit-zero zero = refl
testbit-zero (suc j) = testbit-zero j

module _ {F : Type 0} {cap : ℕ} (s : RecvPacketBuffer F) (v : IsValid cap s) where
  same : (ack i j : ℕ) → i ≡ j → known_at s cap ack i ≡ known_at s cap ack j
  same ack i j e = rw e

  next_ack_loop_step :
      (ack rounds i m acks : ℕ)
      → next_ack_loop s ack (suc rounds) i m acks
        ≡ next_ack_loop s ack rounds
            (i + 1)
            (m * 2 % 4294967296)
            (if known_at s cap ack i then bit_or acks m else acks)
  unfolding next_ack_loop holds
  next_ack_loop_step ack rounds i m acks =
      let (en, at) = slot_entry s v (sub16 ack i) in
      let positive : (cap == 0) ≡ false = ground (arith, v.cap_pos) in
      rw (cap16-eq s v 0, positive) (rw (at, index, holds) refl)

  next_ack_loop-known :
      (ack rounds i acks : ℕ)
      → i + rounds ≡ 32
      → acks < 4294967296
      → (out : ℕ) × (next_ack_loop s ack rounds i (2 ^ i % 4294967296) acks ≡ ok out)
        × (out < 4294967296)
        × ((j : ℕ)
            → (testbit out j == 1)
              ≡ (testbit acks j == 1 || (leb i j && ltb j 32 && known_at s cap ack j)))
  next_ack_loop-known ack zero i acks e h =
      (acks, unfold next_ack_loop in refl, h, λ j. ground arith)
  next_ack_loop-known ack (suc rounds) i acks e h =
      let small : 2 ^ i < 4294967296 = pow-lt_u32 i (omega arith) in
      let m : 2 ^ i % 4294967296 ≡ 2 ^ i = mod-eq_of_lt small in
      let next : 2 ^ i * 2 ≡ 2 ^ (i + 1) = doubled i in
      let acks' : ℕ = if known_at s cap ack i then bit_or acks (2 ^ i) else acks in
      let (out, ran, bound, digits) =
        next_ack_loop-known ack rounds (i + 1) acks' (omega arith)
          (ground (arith, bit_or-lt 32 acks (2 ^ i) h small)) in
      (
        out,
        rw (next_ack_loop_step, m, next) ran,
        bound,
        λ j. ground (arith, digits j, testbit-set acks i j, same ack i j),
      )

  -- `NextACK` acknowledges the newest number below `latest`, and digit j of its 32-bit bitset is
  -- one exactly if the buffer knows the number j below that.
  pub next_ack-known :
      (acks : ℕ) × (next_ack s ≡ ok (sub16 s.buf.latest 1, acks))
      × (acks < 4294967296)
      × ((j : ℕ) → j < 32 → (testbit acks j == 1) ≡ known_at s cap (sub16 s.buf.latest 1) j)
  unfolding next_ack
  next_ack-known =
      let (out, ran, bound, digits) =
        next_ack_loop-known (sub16 s.buf.latest 1) 32 0 0 (omega arith) (omega arith) in
      (out, rw ran refl, bound, λ j h. rw (testbit-zero, lt→ltb j 32 h, zero-leb j) at (digits j))
