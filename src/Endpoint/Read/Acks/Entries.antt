-- ===== src/Endpoint/Read/Acks/Entries.antt =====
-- processACKs: the entries that count as ACK'ed, and what marking one entry does.
use slept.Prelude.{
  ℕ, ◌%◌, ◌<◌, ◌≡◌, refl, arith, Bool, true, false, ◌&&◌, ◌||◌, Option, none, some, ◌==◌, get_elem?,
  set, length, get_elem?-set_self, get_elem?-set_ne, Bool-cases, inl, inr,
}
use native.Mathlib.Decide.{ℕ_discrete}
use slept.Seq.{IsU16}
use slept.Floats.{Floats}
use slept.Buffer.Slots.Laws.{IsValid, slot_is, holds, mod-lt_cap}
use slept.Buffer.Types.{SentPacket, SentPacketBuffer}
use slept.Endpoint.{Endpoint, Dispatcher}
use slept.Endpoint.Read.{smooth_rtt}
use slept.Endpoint.Write.Open.{set_entry-IsValid}

abbrev pub acked_entry : {F : Type 0} → Option (SentPacket F) → Bool
acked_entry none = false
acked_entry (some packet) = packet.acked

-- The endpoint knows the packet and has it as ACK'ed.
unfoldable pub is_acked : {F : Type 0} → SentPacketBuffer F → ℕ → ℕ → Bool
is_acked s cap seq = holds s cap seq && acked_entry (get_elem? s.entries (seq % cap))

-- The state after some ACKs: `hit` says which numbers they name.
pub record Acked {F : Type 0} (cap : ℕ) (hit : ℕ → Bool) (e e1 : Endpoint F) : Type 0 where
  pub valid : IsValid cap e1.sent
  pub same_knows : (j : ℕ) → holds e1.sent cap j ≡ holds e.sent cap j
  pub now_acked :
      (j : ℕ)
      → IsU16 j
      → is_acked e1.sent cap j ≡ (is_acked e.sent cap j || (hit j && holds e.sent cap j))

-- Nothing happens where the named packets are unknown or ACK'ed already.
pub unchanged :
    {F : Type 0} {cap : ℕ} (hit : ℕ → Bool) (e : Endpoint F)
    → IsValid cap e.sent
    → ((j : ℕ) → IsU16 j → (hit j && holds e.sent cap j) ≡ true → is_acked e.sent cap j ≡ true)
    → Acked cap hit e e
unchanged hit e v covered = record {
  valid = v;
  same_knows = λ j. refl;
  now_acked = λ j hj. elim (Bool-cases (hit j && holds e.sent _ j)) [
    | inl y ↦ rw (y, covered j hj y) refl
    | inr n ↦ rw n (ground arith)
  ];
}

-- Of the numbers that share a slot with a known one, only that one is known.
same_slot :
    (slot : Option ℕ) (j seq : ℕ) (old : Bool)
    → slot_is slot seq ≡ true
    → (slot_is slot j && true) ≡ ((slot_is slot j && old) || (j == seq && slot_is slot j))
same_slot none j seq old h = ground arith
same_slot (some x) j seq old h = ground arith

pub smooth_rtt-shape :
    (fl : Floats) {W : Type 0} (d : Dispatcher fl.Float W) (e : Endpoint fl.Float) (x : fl.Float)
    → (r : fl.Float) × (smooth_rtt fl d e x ≡ record e { rtt = r })
unfolding smooth_rtt
smooth_rtt-shape fl d e x =
    elim (Bool-cases (
      (fl.eq e.rtt (fl.of_ℕ 0) && fl.lt (fl.of_ℕ 0) x)
      || fl.lt (fl.abs (fl.sub e.rtt x)) fl.tiny)) [
        | inl y ↦ (x, rw y refl)
        | inr n ↦ (fl.add e.rtt (fl.mul (fl.sub x e.rtt) e.config.rtt_smoothing_factor), rw n refl)
      ]

module _ {F : Type 0} (s : SentPacketBuffer F) (cap seq j : ℕ)
    (named_known : (j == seq && holds s cap j) ≡ true) where
  pub was_acked :
      (packet : SentPacket F)
      → get_elem? s.entries (seq % cap) ≡ some packet
      → packet.acked ≡ true
      → is_acked s cap j ≡ true
  unfolding is_acked
  was_acked packet at old =
      let same : j ≡ seq = ground arith in
      rw same (rw at (ground (arith, old, rw same at named_known)))

  held : j ≡ seq → holds s cap seq ≡ true
  held same = rw (← same) (ground arith)

  pub unknown : holds s cap seq ≡ false → ⊥
  unknown n =
      let same : j ≡ seq = ground arith in
      let yes : holds s cap seq ≡ true = held same in absurd (cc)

-- The entry of a known packet is marked.
module _ {F : Type 0} {cap : ℕ} (e : Endpoint F) (v : IsValid cap e.sent) (seq : ℕ)
    (known : holds e.sent cap seq ≡ true) (packet : SentPacket F) (done : packet.acked ≡ true) where
  inside : seq % cap < length e.sent.entries
  inside = omega (arith, v.entries_length, v.cap_pos, mod-lt_cap seq cap)

  pub marked-Acked :
      (rtt : F)
      → Acked cap
          (λ j. j == seq)
          e
          (record e {
            sent = record (e.sent) { entries = set e.sent.entries (seq % cap) packet };
            rtt = rtt;
          })
  unfolding is_acked holds
  marked-Acked rtt = record {
    valid = set_entry-IsValid e.sent (seq % cap) packet v;
    same_knows = λ j. refl;
    now_acked = λ j hj. elim (ℕ_discrete (seq % cap) (j % cap)) [
      | yes p ↦
          rw (← p, get_elem?-set_self e.sent.entries (seq % cap) packet inside, done)
            (same_slot (get_elem? e.sent.buf.entries (seq % cap)) j seq _ known)
      | no p ↦
          rw (get_elem?-set_ne e.sent.entries (seq % cap) (j % cap) packet p) (ground (arith, p))
    ];
  }
