-- ===== src/Packet/Fragment/Marks.antt =====
-- `MarkReceived` keeps a set of fragment ids.
use native.Mathlib.Nat.{one-le-pow}
use native.Mathlib.Decide.{ℕ_discrete}
use slept.Prelude.{
  ==_iff, ap, ℕ, ◌*◌, ◌/◌, ◌%◌, ◌<◌, ◌^◌, ◌≡◌, refl, arith, bit_and, bit_or, Bool, true, false, not,
  ◌||◌, List, length, ◌==◌, set, get_elem?, length-set, get_elem?-set_self, get_elem?-set_ne,
  Bool-cases, inl, inr, some, none, Option, get_elem?-some,
}
use slept.Prelude.Bits.{testbit, testbit-set, bit_and-pow}
use slept.Prelude.Bits.{all_below, all_below_sound, testbit-lt}
use slept.Prelude.Results.{Result, ok, err, panic, already_received}
use slept.Packet.Fragment.{Fragment, mark_received}

-- Fragment `id` is in the set: digit `id % 64` of word `id / 64`.
abbrev pub in_word : Option ℕ → ℕ → Bool
in_word none k = false
in_word (some w) k = testbit w k == 1

unfoldable pub received : Fragment → ℕ → Bool
received f id = in_word (get_elem? f.marked (id / 64)) (id % 64)

abbrev pub HasFourWords : Fragment → Type 0
HasFourWords f = length f.marked ≡ 4

low_six : (id : ℕ) → id < 256 → bit_and id 63 ≡ id % 64
unfolding all_below
low_six = all_below_sound 256 _ _ refl

-- The outcome of `MarkReceived` for a byte: an error for a member, else the set with the id added.
abbrev pub Marks : Fragment → ℕ → Result Fragment → Type 0
Marks f id (ok g) =
    (received f id ≡ false)
    × ((j : ℕ) → received g j ≡ (j == id || received f j))
    × (record g { marked = f.marked } ≡ f)
    × HasFourWords g
Marks f id (err e) = (received f id ≡ true) × (e ≡ already_received)
Marks f id panic = ⊥

-- The test of `MarkReceived` is the digit.
test_digit : (w k : ℕ) → (bit_and w (2 ^ k) == 0) ≡ not (testbit w k == 1)
test_digit w k = elim (Bool-cases (testbit w k == 1)) [
  | inl y ↦ ground (
    arith,
    bit_and-pow k w,
    one-le-pow k 2,
    ap (λ (t : ℕ). t * 2 ^ k) ((==_iff (testbit w k) 1).0 y),
  )
  | inr n ↦
      ground (arith, bit_and-pow k w, testbit-lt w k, ap (λ (t : ℕ). t * 2 ^ k) (zero_digit n))
]
  where
    zero_digit : (testbit w k == 1) ≡ false → testbit w k ≡ 0
    zero_digit n = ground (arith, testbit-lt w k)

module _ (f : Fragment) (id w : ℕ) (h : HasFourWords f) (hid : id < 256)
    (e : get_elem? f.marked (id / 64) ≡ some w) where
  mark_old : testbit w (id % 64) ≡ 1 → mark_received f id ≡ err already_received
  unfolding mark_received
  mark_old d = ground (arith, low_six id hid, e, test_digit w (id % 64))

  mark_new :
      (testbit w (id % 64) == 1) ≡ false
      → mark_received f id
        ≡ ok (record f { marked = set f.marked (id / 64) (bit_or w (2 ^ (id % 64))) })
  unfolding mark_received
  mark_new d = ground (arith, low_six id hid, e, test_digit w (id % 64), h)

-- Writing one word of the set.
received-set :
    (m : List ℕ) (id j w : ℕ)
    → id / 64 < length m
    → get_elem? m (id / 64) ≡ some w
    → in_word (get_elem? (set m (id / 64) (bit_or w (2 ^ (id % 64)))) (j / 64)) (j % 64)
      ≡ (j == id || in_word (get_elem? m (j / 64)) (j % 64))
received-set m id j w h e = elim (ℕ_discrete (id / 64) (j / 64)) [
  | yes p ↦
      rw (← p, get_elem?-set_self m (id / 64) (bit_or w (2 ^ (id % 64))) h, e)
        (ground (arith, testbit-set w (id % 64) (j % 64)))
  | no p ↦ rw (get_elem?-set_ne m (id / 64) (j / 64) (bit_or w (2 ^ (id % 64))) p) (ground arith)
]

-- `MarkReceived` of any byte id rejects an id that is in the set, and otherwise adds it, and no
-- other, and changes no other field; it never panics.
pub mark_received-Marks :
    (f : Fragment) (id : ℕ) → HasFourWords f → id < 256 → Marks f id (mark_received f id)
unfolding received
mark_received-Marks f id h hid =
    let (w, e) = get_elem?-some f.marked (id / 64) (omega (arith, h)) in
    elim (Bool-cases (testbit w (id % 64) == 1)) [
      | inl y ↦ rw (mark_old f id w h hid e ((==_iff _ 1).0 y)) (rw e y, refl)
      | inr n ↦
          rw (mark_new f id w h hid e n)
            (rw e n, λ j. received-set f.marked id j w (omega (arith, h)) e, refl, rw length-set h)
    ]
