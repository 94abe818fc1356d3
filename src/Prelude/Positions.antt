-- ===== src/Prelude/Positions.antt =====
-- Lists read position by position: what stands where after take, drop, append.
use slept.Prelude.Lists.{length, get_elem?, take, drop}
use Prim.Native.Nat.{ℕ, zero, suc, ◌+◌, ◌≤◌, ◌<◌}
use mathlib.Core.Path.{◌≡◌, refl, sym, ap, ◌∙◌}
use mathlib.Core.List.{List, [], ◌∷◌, ◌++◌}
use native.Mathlib.Omega.{arith}

module _ {ℓ} {A : Type ℓ} where
  pub get_elem?-drop : (n k : ℕ) (xs : List A) → get_elem? (drop n xs) k ≡ get_elem? xs (n + k)
  get_elem?-drop zero k xs = ap (get_elem? xs) (omega arith)
  get_elem?-drop (suc n) k [] = refl
  get_elem?-drop (suc n) k (x ∷ xs) =
      let e : suc n + k ≡ suc (n + k) = omega arith in rw e (get_elem?-drop n k xs)

  pub get_elem?-take : (n k : ℕ) (xs : List A) → k < n → get_elem? (take n xs) k ≡ get_elem? xs k
  get_elem?-take zero k xs h = absurd (omega arith)
  get_elem?-take (suc n) k [] h = refl
  get_elem?-take (suc n) zero (x ∷ xs) h = refl
  get_elem?-take (suc n) (suc k) (x ∷ xs) h = get_elem?-take n k xs (omega arith)

  pub get_elem?-append_left :
      (xs ys : List A) (k : ℕ) → k < length xs → get_elem? (xs ++ ys) k ≡ get_elem? xs k
  get_elem?-append_left [] ys k h = absurd (omega arith)
  get_elem?-append_left (x ∷ xs) ys zero h = refl
  get_elem?-append_left (x ∷ xs) ys (suc k) h = get_elem?-append_left xs ys k (omega arith)

  pub get_elem?-append_right :
      (xs ys : List A) (n k : ℕ) → n ≡ length xs + k → get_elem? (xs ++ ys) n ≡ get_elem? ys k
  get_elem?-append_right [] ys n k e = ap (get_elem? ys) (omega arith)
  get_elem?-append_right (x ∷ xs) ys zero k e = absurd (omega arith)
  get_elem?-append_right (x ∷ xs) ys (suc n) k e = get_elem?-append_right xs ys n k (omega arith)

  -- Lists of one length that agree at each of its positions.
  pub list_ext :
      (xs ys : List A)
      → length xs ≡ length ys
      → ((k : ℕ) → k < length xs → get_elem? xs k ≡ get_elem? ys k)
      → xs ≡ ys
  list_ext [] [] e same = refl
  list_ext [] (y ∷ ys) e same = absurd (omega arith)
  list_ext (x ∷ xs) [] e same = absurd (omega arith)
  list_ext (x ∷ xs) (y ∷ ys) e same =
      let first : x ≡ y = cc (same 0 (omega arith)) in
      let rest : xs ≡ ys = list_ext xs ys (omega arith) (λ k h. same (suc k) (omega arith)) in cc

  pub take-all : (xs : List A) → take (length xs) xs ≡ xs
  take-all [] = refl
  take-all (x ∷ xs) = ap (◌∷◌ x) (take-all xs)

  pub take-more : (n : ℕ) (xs : List A) → length xs ≤ n → take n xs ≡ xs
  take-more zero [] h = refl
  take-more zero (x ∷ xs) h = absurd (omega arith)
  take-more (suc n) [] h = refl
  take-more (suc n) (x ∷ xs) h = ap (◌∷◌ x) (take-more n xs (omega arith))

  drop-nil : (n : ℕ) → drop {A = A} n [] ≡ []
  drop-nil zero = refl
  drop-nil (suc n) = refl

  pub drop-drop : (n k : ℕ) (xs : List A) → drop k (drop n xs) ≡ drop (n + k) xs
  drop-drop zero k xs = ap (λ (t : ℕ). drop t xs) (omega arith)
  drop-drop (suc n) k [] = drop-nil k ∙ sym (drop-nil (suc n + k))
  drop-drop (suc n) k (x ∷ xs) =
      let e : suc n + k ≡ suc (n + k) = omega arith in rw e (drop-drop n k xs)
