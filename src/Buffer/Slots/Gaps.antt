-- ===== src/Buffer/Slots/Gaps.antt =====
-- `RemoveRange` reduces its ends modulo `cap + 1`, the slots are numbered modulo `cap`: in order
-- nothing goes wrong, and over a gap a packet inside the window is forgotten.
use slept.Prelude.{
  ℕ, ◌+◌, ◌-◌, ◌*◌, ◌%◌, ◌<◌, ◌≡◌, refl, arith, true, false, not, ◌&&◌, ◌||◌, some, ◌==◌,
}
use slept.Prelude.Results.{ok}
use slept.Seq.{IsU16, add16, seq_less_than}
use slept.Seq.Order.{seq_greater_than_ahead}
use slept.Buffer.Slots.{Slots, is_outdated, insert}
use slept.Buffer.Slots.Laws.{IsValid, holds, cap16-eq}
use slept.Buffer.Slots.Insert.{Inserted, moves_on, insert_fresh}
use native.Mathlib.Nat.{mod-eq_of_lt, mul-add-mod_self_right}

residue : (n q k x : ℕ) → x ≡ q * n + k → k < n → x % n ≡ k
residue n q k x e h = rw (e, mul-add-mod_self_right q n k) (mod-eq_of_lt h)

module _ {E : Type 0} {cap : ℕ} (s : Slots E) (v : IsValid cap s) (half : cap < 32767) where
  -- A number at or ahead of `latest`, by less than 16384, is not outdated.
  fresh_near : (k : ℕ) → k < 16384 → cap + k < 32768 → is_outdated s (add16 s.buf.latest k) ≡ false
  unfolding is_outdated seq_less_than
  fresh_near k small sum = rw (cap16-eq s v 0) (ground (arith, v.latest_small, v.cap_pos))

  next_moves_on : (k : ℕ) → k < 32767 → moves_on s (add16 s.buf.latest k) ≡ true
  next_moves_on k h =
      rw (again k)
        ((seq_greater_than_ahead s.buf.latest (k + 1) v.latest_small (omega arith) (omega arith)).0)
    where
      again : (k : ℕ) → add16 (add16 s.buf.latest k) 1 ≡ add16 s.buf.latest (k + 1)
      again k = omega arith

  pub insert_next-Inserted :
      (seq : ℕ)
      → s.buf.latest ≡ seq
      → (t : Slots E) × (insert s seq ≡ ok (t, some (seq % cap)))
        × Inserted cap s seq t
        × (moves_on s seq ≡ true)
  insert_next-Inserted seq at =
      let here : add16 s.buf.latest 0 ≡ seq = omega (arith, v.latest_small) in
      let on : moves_on s seq ≡ true = rw here at (next_moves_on 0 (omega arith)) in
      let (t, ran, ins) =
        insert_fresh s v seq (omega (arith, v.latest_small))
          (rw here at (fresh_near 0 (omega arith) (omega arith))) in
      (t, ran, ins, on)

  -- In order: the number that is next after all that were inserted takes its slot, and every other
  -- number stays known.
  pub insert_next :
      (t : Slots E) × (insert s s.buf.latest ≡ ok (t, some (s.buf.latest % cap)))
      × IsValid cap t
      × (t.buf.latest ≡ add16 s.buf.latest 1)
      × ((j : ℕ)
          → IsU16 j
          → holds t cap j
            ≡ (j == s.buf.latest || (not (j % cap == s.buf.latest % cap) && holds s cap j)))
  insert_next =
      let (t, ran, ins, on) = insert_next-Inserted s.buf.latest refl in
      (t, ran, ins.valid, rw on at ins.latest_is, λ j hj. ground (arith, ins.knows j hj))

  -- A gap of one: `latest` itself is missing and the number after it arrives. If their slots do not
  -- wrap, the packet `latest / (cap + 1)` numbers below `latest` is no longer known, although it is
  -- not the one whose slot is taken and lies inside the window.
  pub insert_forgets :
      (q k : ℕ)
      → s.buf.latest ≡ q * (cap + 1) + k
      → k < cap
      → 0 < q
      → q + 1 < cap
      → s.buf.latest + 1 < 65536
      → (t : Slots E) × (insert s (s.buf.latest + 1) ≡ ok (t, some ((s.buf.latest + 1) % cap)))
        × (holds t cap (s.buf.latest - q) ≡ false)
        × (is_outdated t (s.buf.latest - q) ≡ false)
  unfolding is_outdated seq_less_than
  insert_forgets q k e hk hq hc hl =
      let one : add16 s.buf.latest 1 ≡ s.buf.latest + 1 = omega arith in
      let on : moves_on s (s.buf.latest + 1) ≡ true = rw one at (next_moves_on 1 (omega arith)) in
      let (t, ran, ins) =
        insert_fresh s v (s.buf.latest + 1) hl
          (rw one at (fresh_near 1 (omega arith) (omega arith))) in
      let lo = residue (cap + 1) q k s.buf.latest e (omega arith) in
      let hi = residue (cap + 1) q (k + 1) (s.buf.latest + 1) (omega (arith, e)) (omega arith) in
      let slot = residue cap q k (s.buf.latest - q) (omega (arith, e)) hk in
      (
        t,
        ran,
        ground (arith, on, lo, hi, slot, ins.knows (s.buf.latest - q) (omega arith)),
        rw (cap16-eq t ins.valid 0) (ground (arith, on, ins.latest_is)),
      )
