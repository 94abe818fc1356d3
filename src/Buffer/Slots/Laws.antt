-- ===== src/Buffer/Slots/Laws.antt =====
-- Well-formed slots, and what `Find` and `Remove` do on them.
use slept.Prelude.{
  ℕ, ◌%◌, ◌<◌, ◌≡◌, ◌⊎◌, inl, refl, arith, Bool, false, List, Option, not, ◌&&◌, lt→ltb, none, some,
  length, ◌==◌, if◌then◌else◌, get_elem?, get_elem?-some, set, length-set, get_elem?-set_self,
  get_elem?-set_ne,
}
use slept.Prelude.Results.{ok}
use slept.Seq.{IsU16}
use slept.Buffer.{empty_entry}
use slept.Buffer.Slots.{Slots, find, remove}
use native.Mathlib.Nat.{mod-lt}
use native.Mathlib.Decide.{ℕ_discrete}

-- What slot i may hold: nothing, or a sequence number that belongs there.
abbrev pub Placed : ℕ → ℕ → ℕ → Type 0
Placed cap i e = (e ≡ empty_entry) ⊎ (IsU16 e × (e % cap ≡ i))

pub record IsValid {E : Type 0} (cap : ℕ) (s : Slots E) : Type 0 where
  pub cap_pos : 0 < cap
  pub cap_small : cap < 65535
  pub seqs_length : length s.buf.entries ≡ cap
  pub entries_length : length s.entries ≡ cap
  pub latest_small : IsU16 s.buf.latest
  pub placed : (i e : ℕ) → get_elem? s.buf.entries i ≡ some e → Placed cap i e

-- The abstract view: the buffer knows `seq`.
abbrev pub slot_is : Option ℕ → ℕ → Bool
slot_is none seq = false
slot_is (some e) seq = e == seq

unfoldable pub holds : {E : Type 0} → Slots E → ℕ → ℕ → Bool
holds s cap seq = slot_is (get_elem? s.buf.entries (seq % cap)) seq

pub mod-lt_cap : (seq cap : ℕ) → 0 < cap → seq % cap < cap
mod-lt_cap seq cap h = mod-lt seq h

-- Writing one slot.
module _ (xs : List ℕ) (i v : ℕ) (h : i < length xs) where
  pub slot_is-set :
      (k j : ℕ)
      → slot_is (get_elem? (set xs i v) k) j
        ≡ (if k == i then v == j else slot_is (get_elem? xs k) j)
  slot_is-set k j = elim (ℕ_discrete i k) [
    | yes p ↦ ground (arith, p, rw p at (get_elem?-set_self xs i v h))
    | no p ↦ ground (arith, p, get_elem?-set_ne xs i k v p)
  ]

  pub Placed-set :
      (cap : ℕ)
      → ((k e : ℕ) → get_elem? xs k ≡ some e → Placed cap k e)
      → Placed cap i v
      → (k e : ℕ) → get_elem? (set xs i v) k ≡ some e
      → Placed cap k e
  Placed-set cap old new k e at = elim (ℕ_discrete i k) [
    | yes p ↦ let same : v ≡ e = cc (get_elem?-set_self xs i v h) in rw (← same, ← p) new
    | no p ↦ old k e (rw get_elem?-set_ne at at)
  ]

module _ {E : Type 0} {cap : ℕ} (s : Slots E) (v : IsValid cap s) (seq : ℕ) where
  pub slot_entry : (e : ℕ) × (get_elem? s.buf.entries (seq % cap) ≡ some e)
  slot_entry =
      get_elem?-some s.buf.entries (seq % cap)
        (omega (arith, v.seqs_length, v.cap_pos, mod-lt_cap seq cap))

  pub slot_pointee : (e : E) × (get_elem? s.entries (seq % cap) ≡ some e)
  slot_pointee =
      get_elem?-some s.entries (seq % cap)
        (omega (arith, v.entries_length, v.cap_pos, mod-lt_cap seq cap))

  pub cap16-eq : length s.entries % 65536 ≡ cap
  cap16-eq = omega (arith, v.entries_length, v.cap_small)

  -- `Find` returns the slot of every sequence number that the buffer knows, nil for any other, and
  -- never panics.
  pub find-holds : find s seq ≡ ok (if holds s cap seq then some (seq % cap) else none)
  unfolding find holds
  find-holds =
      let (e, at) = slot_entry in
      let (p, there) = slot_pointee in
      let positive : (cap == 0) ≡ false = ground (arith, v.cap_pos) in
      rw (cap16-eq, positive) (ground (arith, at, there))

  -- `Remove` empties the slot of the sequence number, whatever number stands there, and nothing
  -- else.
  pub remove-holds :
      (t : Slots E) × (remove s seq ≡ ok t)
      × IsValid cap t
      × (t.entries ≡ s.entries)
      × (t.buf.latest ≡ s.buf.latest)
      × ((j : ℕ) → IsU16 j → holds t cap j ≡ (not (j % cap == seq % cap) && holds s cap j))
  unfolding remove holds
  remove-holds =
      let positive : (cap == 0) ≡ false = ground (arith, v.cap_pos) in
      let inside : seq % cap < length s.buf.entries =
        omega (arith, v.seqs_length, v.cap_pos, mod-lt_cap seq cap) in
      (
        record s { buf = record (s.buf) { entries = set s.buf.entries (seq % cap) empty_entry } },
        rw (cap16-eq, positive, lt→ltb _ _ inside),
        record {
          cap_pos = v.cap_pos;
          cap_small = v.cap_small;
          seqs_length =
              omega (arith, length-set s.buf.entries (seq % cap) empty_entry, v.seqs_length);
          entries_length = v.entries_length;
          latest_small = v.latest_small;
          placed = Placed-set s.buf.entries (seq % cap) empty_entry inside cap v.placed (inl refl);
        },
        refl,
        refl,
        λ j hj.
            ground (arith, slot_is-set s.buf.entries (seq % cap) empty_entry inside (j % cap) j),
      )
