-- ===== src/Channel/Due.antt =====
-- The datagrams of a window that are due, and the window after one was put out.
use slept.Prelude.{
  ℕ, zero, suc, ◌+◌, ◌<◌, ◌≤◌, ◌≡◌, ◌≢◌, refl, arith, Bool, true, false, Option, none, some, length,
  if◌then◌else◌, ◌%◌, ◌++◌, Bool-cases, inl, inr, not, ◌&&◌, List, [], ◌∷◌, get_elem?, set,
  length-set, get_elem?-set_self, get_elem?-set_ne,
}
use slept.Floats.{Floats}
use slept.Seq.{add16, IsU16}
use slept.Buffer.Slots.Laws.{IsValid, holds, slot_is, mod-lt_cap}
use slept.Buffer.Types.{BufferedPacket, PacketBuffer}
use native.Mathlib.Decide.{ℕ_discrete}

slot_is-same : (o : Option ℕ) (a b : ℕ) → slot_is o a ≡ true → slot_is o b ≡ true → a ≡ b
slot_is-same none a b p q = absurd (cc p)
slot_is-same (some e) a b p q = ground (arith, p, q)

module _ (fl : Floats) (time : fl.Float) (cap : ℕ) where
  abbrev pub is_due : BufferedPacket fl.Float → Bool
  is_due p = not (p.written && fl.lt (fl.sub time p.time) fl.tenth)

  -- The datagram of a number that the window knows, if it is due.
  abbrev pub due_at : Bool → Option (BufferedPacket fl.Float) → List (List ℕ)
  due_at false p = []
  due_at true none = []
  due_at true (some p) = if is_due p then (elim p.buf [ none ↦ [] | some b ↦ b ∷ [] ]) else []

  -- Of n numbers from `oldest` + k on.
  unfoldable pub due : PacketBuffer fl.Float → ℕ → ℕ → ℕ → List (List ℕ)
  due w oldest zero k = []
  due w oldest (suc n) k =
      due_at (holds w cap (add16 oldest k)) (get_elem? w.entries (add16 oldest k % cap))
      ++ due w oldest n (suc k)

  -- A packet of the window after the loop.
  abbrev pub stamp : BufferedPacket fl.Float → BufferedPacket fl.Float
  stamp p = if is_due p then record p { written = true; time = time } else p

  -- Every number that the window knows has a datagram.
  abbrev pub IsFull : PacketBuffer fl.Float → Type 0
  IsFull w =
      (seq : ℕ)
      → IsU16 seq
      → holds w cap seq ≡ true
      → (p : BufferedPacket fl.Float) × (b : List ℕ) × (get_elem? w.entries (seq % cap) ≡ some p)
        × (p.buf ≡ some b)

  -- The window after one of its packets was put out.
  abbrev pub put_out : ℕ → BufferedPacket fl.Float → PacketBuffer fl.Float → PacketBuffer fl.Float
  put_out slot p w = record w {
    entries = set w.entries slot (record p { written = true; time = time });
  }

  module _ (w : PacketBuffer fl.Float) (seq : ℕ) (p : BufferedPacket fl.Float)
      (v : IsValid cap w) where
    pub put_out-IsValid : IsValid cap (put_out (seq % cap) p w)
    put_out-IsValid = record {
      cap_pos = v.cap_pos;
      cap_small = v.cap_small;
      seqs_length = v.seqs_length;
      entries_length = omega (
        arith,
        length-set w.entries (seq % cap) (record p { written = true; time = time }),
        v.entries_length,
      );
      latest_small = v.latest_small;
      placed = v.placed;
    }

    -- Two numbers that the window knows have different slots.
    pub slots_apart :
        (other : ℕ)
        → holds w cap seq ≡ true
        → holds w cap other ≡ true
        → other ≢ seq
        → seq % cap ≢ other % cap
    unfolding holds
    slots_apart other h k ne e =
        let both : slot_is (get_elem? w.buf.entries (seq % cap)) other ≡ true = rw e k in
        ne (slot_is-same (get_elem? w.buf.entries (seq % cap)) other seq both h)

    pub in_ring : seq % cap < length w.entries
    in_ring = omega (arith, v.entries_length, v.cap_pos, mod-lt_cap seq cap)

    pub put_out-IsFull :
        (b : List ℕ)
        → holds w cap seq ≡ true
        → p.buf ≡ some b
        → IsFull w
        → IsFull (put_out (seq % cap) p w)
    unfolding holds
    put_out-IsFull b h kept full other small k = elim (ℕ_discrete other seq) [
      | yes same ↦
          let sent = record p { written = true; time = time } in
          (sent, b, rw same (get_elem?-set_self w.entries (seq % cap) sent in_ring), kept)
      | no ne ↦
          let (q, d, found, has) = full other small k in
          let sent = record p { written = true; time = time } in
          let kept_there =
            get_elem?-set_ne w.entries (seq % cap) (other % cap) sent
              (unfold holds in slots_apart other h k ne) in
          (q, d, rw kept_there found, has)
    ]

    holds-put_out : (other : ℕ) → holds (put_out (seq % cap) p w) cap other ≡ holds w cap other
    unfolding holds
    holds-put_out other = refl

    due_at-put_out :
        (other : ℕ)
        → holds w cap seq ≡ true
        → other ≢ seq
        → due_at
            (holds (put_out (seq % cap) p w) cap other)
            (get_elem? (put_out (seq % cap) p w).entries (other % cap))
          ≡ due_at (holds w cap other) (get_elem? w.entries (other % cap))
    due_at-put_out other h ne = elim (Bool-cases (holds w cap other)) [
      | inl k ↦
          let sent = record p { written = true; time = time } in
          let kept_there =
            get_elem?-set_ne w.entries (seq % cap) (other % cap) sent (slots_apart other h k ne) in
          rw (holds-put_out other) (rw kept_there refl)
      | inr n ↦ rw (holds-put_out other) (rw n refl)
    ]

    -- What is due of numbers that come after stays.
    pub due-put_out :
        (oldest j n k : ℕ)
        → holds w cap seq ≡ true
        → seq ≡ add16 oldest j
        → j < k
        → k + n ≤ j + 65536
        → due (put_out (seq % cap) p w) oldest n k ≡ due w oldest n k
    unfolding due
    due-put_out oldest j zero k h e below few = refl
    due-put_out oldest j (suc n) k h e below few =
        let ne : add16 oldest k ≢ seq = (λ q. omega (arith, q, e, below, few)) in
        let first = due_at-put_out (add16 oldest k) h ne in
        let rest = due-put_out oldest j n (suc k) h e (omega arith) (omega arith) in
        cc (first, rest)
