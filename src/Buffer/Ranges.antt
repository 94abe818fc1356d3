-- ===== src/Buffer/Ranges.antt =====
-- What `RemoveRange` empties: the slots from `start % (cap + 1)` up to `end % (cap + 1)`, going
-- round.
use slept.Prelude.{
  ℕ, zero, suc, ◌+◌, ◌-◌, ◌%◌, ◌≤◌, ◌<◌, ◌≡◌, refl, ap, arith, Bool, ◌&&◌, ◌||◌, List, [], ◌∷◌,
  ◌++◌, length, ltb, leb, if◌then◌else◌, take, drop, replicate, get_elem?, some, length-take,
  length-drop,
}
use slept.Prelude.Results.{ok}
use slept.Seq.{add16}
use slept.Buffer.{empty_entry, reset_sequence_buffer, reset_slice, SequenceBuffer, remove_range}

-- The slice [lo, hi) of a list replaced by copies of `a`.
blank {ℓ} : {A : Type ℓ} → A → List A → ℕ → ℕ → List A
blank a [] lo hi = []
blank a (x ∷ xs) lo zero = x ∷ xs
blank a (x ∷ xs) zero (suc hi) = a ∷ blank a xs zero hi
blank a (x ∷ xs) (suc lo) (suc hi) = x ∷ blank a xs lo hi

length-blank {ℓ} :
    {A : Type ℓ} (a : A) (xs : List A) (lo hi : ℕ) → length (blank a xs lo hi) ≡ length xs
unfolding blank
length-blank a [] lo hi = refl
length-blank a (x ∷ xs) lo zero = refl
length-blank a (x ∷ xs) zero (suc hi) = omega (arith, length-blank a xs zero hi)
length-blank a (x ∷ xs) (suc lo) (suc hi) = omega (arith, length-blank a xs lo hi)

get_elem?-blank {ℓ} :
    {A : Type ℓ} (a : A) (xs : List A) (lo hi i : ℕ)
    → i < length xs
    → get_elem? (blank a xs lo hi) i ≡ (if leb lo i && ltb i hi then some a else get_elem? xs i)
unfolding blank
get_elem?-blank a [] lo hi i h = absurd (omega arith)
get_elem?-blank a (x ∷ xs) lo zero i h = ground arith
get_elem?-blank a (x ∷ xs) zero (suc hi) zero h = ground arith
get_elem?-blank a (x ∷ xs) zero (suc hi) (suc i) h = ground (arith, get_elem?-blank a xs zero hi i)
get_elem?-blank a (x ∷ xs) (suc lo) (suc hi) zero h = ground arith
get_elem?-blank a (x ∷ xs) (suc lo) (suc hi) (suc i) h =
    ground (arith, get_elem?-blank a xs lo hi i)

-- The three parts that `resetSequenceBuffer` leaves in the array are that list.
blank-parts :
    (a : ℕ) (xs : List ℕ) (lo hi : ℕ)
    → lo ≤ hi
    → hi ≤ length xs
    → take lo xs ++ (replicate (hi - lo) a ++ drop hi xs) ≡ blank a xs lo hi
unfolding blank
blank-parts a [] zero zero p q = refl
blank-parts a (x ∷ xs) zero zero p q = refl
blank-parts a [] zero (suc hi) p q = absurd (omega arith)
blank-parts a [] (suc lo) zero p q = absurd (omega arith)
blank-parts a [] (suc lo) (suc hi) p q = absurd (omega arith)
blank-parts a (x ∷ xs) (suc lo) zero p q = absurd (omega arith)
blank-parts a (x ∷ xs) zero (suc hi) p q =
    let e : suc hi - 0 ≡ suc (hi - 0) = omega arith in
    rw e (ap (◌∷◌ a) (blank-parts a xs zero hi (omega arith) (omega arith)))
blank-parts a (x ∷ xs) (suc lo) (suc hi) p q =
    let e : suc hi - suc lo ≡ hi - lo = omega arith in
    rw e (ap (◌∷◌ x) (blank-parts a xs lo hi (omega arith) (omega arith)))

reset_slice-blank :
    (xs : List ℕ) (lo hi : ℕ)
    → lo ≤ hi
    → hi ≤ length xs
    → length xs ≤ 65535
    → reset_slice xs lo hi ≡ ok (blank empty_entry xs lo hi)
unfolding reset_slice reset_sequence_buffer
reset_slice-blank xs lo hi p q small =
    let e : length (take (hi - lo) (drop lo xs)) ≡ hi - lo =
      omega (arith, length-take (hi - lo) (drop lo xs), length-drop lo xs) in
    ground (arith, e, blank-parts empty_entry xs lo hi)

-- Slot i is among those that `RemoveRange(start, end)` empties.
abbrev pub emptied : ℕ → ℕ → ℕ → ℕ → Bool
emptied cap start end i =
    let lo = start % (cap + 1) in
    let hi = end % (cap + 1) in if ltb hi lo then leb lo i || ltb i hi else leb lo i && ltb i hi

-- The same with the two ends in hand, and the list that results.
between : ℕ → ℕ → ℕ → Bool
between lo hi i = if ltb hi lo then leb lo i || ltb i hi else leb lo i && ltb i hi

cleared : List ℕ → ℕ → ℕ → List ℕ
cleared xs lo hi =
    if ltb hi lo
    then blank empty_entry (blank empty_entry xs lo (length xs)) 0 hi
    else blank empty_entry xs lo hi

length-cleared : (xs : List ℕ) (lo hi : ℕ) → length (cleared xs lo hi) ≡ length xs
unfolding cleared
length-cleared xs lo hi = ground (
  arith,
  length-blank empty_entry xs lo hi,
  length-blank empty_entry xs lo (length xs),
  length-blank empty_entry (blank empty_entry xs lo (length xs)) 0 hi,
)

get_elem?-cleared :
    (xs : List ℕ) (lo hi i : ℕ)
    → i < length xs
    → get_elem? (cleared xs lo hi) i
      ≡ (if between lo hi i then some empty_entry else get_elem? xs i)
unfolding cleared between
get_elem?-cleared xs lo hi i h = ground (
  arith,
  length-blank empty_entry xs lo (length xs),
  get_elem?-blank empty_entry xs lo hi i h,
  get_elem?-blank empty_entry xs lo (length xs) i h,
  get_elem?-blank empty_entry (blank empty_entry xs lo (length xs)) 0 hi i,
)

module _ (s : SequenceBuffer) (start end : ℕ) (h : length s.entries < 65535) where
  remove_range-cleared :
      remove_range s start end
      ≡ ok (record s {
        entries = cleared s.entries (start % (length s.entries + 1)) (end % (length s.entries + 1));
      })
  unfolding remove_range cleared
  remove_range-cleared =
      let cap : ℕ = length s.entries in
      let lo : ℕ = start % (cap + 1) in
      let hi : ℕ = end % (cap + 1) in
      let modulus : add16 (length s.entries % 65536) 1 ≡ length s.entries + 1 = omega arith in
      rw modulus (
        ground (
          arith,
          length-blank empty_entry s.entries lo cap,
          reset_slice-blank s.entries lo cap,
          reset_slice-blank s.entries lo hi,
          reset_slice-blank (blank empty_entry s.entries lo cap) 0 hi,
        ))

  -- Any buffer of fewer than 65535 slots is handled without a panic: the slots of the range are
  -- empty afterwards, and `latest`, the number of slots and every other slot are as before.
  pub remove_range-emptied :
      (t : SequenceBuffer) × (remove_range s start end ≡ ok t)
      × (t.latest ≡ s.latest)
      × (length t.entries ≡ length s.entries)
      × ((i : ℕ)
          → i < length s.entries
          → get_elem? t.entries i ≡ (
              if emptied (length s.entries) start end i
              then some empty_entry
              else get_elem? s.entries i))
  unfolding between
  remove_range-emptied = (
    _,
    remove_range-cleared,
    refl,
    length-cleared s.entries _ _,
    λ i hi. get_elem?-cleared s.entries _ _ i hi,
  )
