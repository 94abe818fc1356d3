-- ===== src/Tcp/Host/Idles.antt =====
-- The list of idle connections: its last one, its expired ones, and sums over it.
use slept.Prelude.{
  ℕ, zero, suc, ◌+◌, ◌-◌, ◌<◌, ◌≤◌, ◌≡◌, refl, ap, arith, List, [], ◌∷◌, ◌++◌, length, take, drop,
  map, some, get_elem?,
}
use slept.Tcp.Host.{Idle, count_expired}

-- A price for each connection, summed.
module _ (price : ℕ → ℕ) where
  unfoldable pub prices : List ℕ → ℕ
  prices [] = 0
  prices (cc ∷ ccs) = price cc + prices ccs

  unfoldable pub idle_price : List Idle → ℕ
  unfolding prices
  idle_price ccs = prices (map Idle.conn ccs)

  pub idle_price-append :
      (xs ys : List Idle) → idle_price (xs ++ ys) ≡ idle_price xs + idle_price ys
  unfolding idle_price
  idle_price-append [] ys = omega arith
  idle_price-append (x ∷ xs) ys = omega (arith, idle_price-append xs ys)

-- The last of a list that is not empty.
last_of_suc :
    (xs : List Idle) (k : ℕ)
    → length xs ≡ suc k
    → (x : Idle) × (get_elem? xs k ≡ some x) × (take k xs ++ x ∷ [] ≡ xs)
last_of_suc [] k h = absurd (omega arith)
last_of_suc (x ∷ []) zero h = (x, refl, refl)
last_of_suc (x ∷ []) (suc k) h = absurd (omega arith)
last_of_suc (x ∷ y ∷ ys) zero h = absurd (omega arith)
last_of_suc (x ∷ y ∷ ys) (suc k) h =
    let (z, found, split) = last_of_suc (y ∷ ys) k (omega arith) in
    (z, found, ap (λ (l : List Idle). x ∷ l) split)

pub last_split :
    (price : ℕ → ℕ) (xs : List Idle)
    → 0 < length xs
    → (x : Idle) × (get_elem? xs (length xs - 1) ≡ some x)
      × (idle_price price (take (length xs - 1) xs) + price x.conn ≡ idle_price price xs)
unfolding idle_price prices
last_split price xs h =
    let k = length xs - 1 in
    let (x, found, split) = last_of_suc xs k (omega arith) in
    (
      x,
      found,
      omega (arith, ap (idle_price price) split, idle_price-append price (take k xs) (x ∷ [])),
    )

pub count_expired-le : (now limit : ℕ) (xs : List Idle) → count_expired now limit xs ≤ length xs
unfolding count_expired
count_expired-le now limit [] = omega arith
count_expired-le now limit (x ∷ xs) = ground (arith, count_expired-le now limit xs)

pub idle_price-split :
    (price : ℕ → ℕ) (i : ℕ) (xs : List Idle)
    → idle_price price (drop i xs) + prices price (map Idle.conn (take i xs)) ≡ idle_price price xs
unfolding idle_price prices
idle_price-split price zero xs = omega arith
idle_price-split price (suc i) [] = omega arith
idle_price-split price (suc i) (x ∷ xs) = omega (arith, idle_price-split price i xs)
