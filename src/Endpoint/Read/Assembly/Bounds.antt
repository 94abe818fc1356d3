-- ===== src/Endpoint/Read/Assembly/Bounds.antt =====
-- Where the pieces of a payload begin and end.
use native.Mathlib.Nat.{mul-le-mul_right, add-mul}
use slept.Prelude.{
  ℕ, ◌+◌, ◌*◌, ◌<◌, ◌≤◌, ◌≡◌, ◌∙◌, ap, arith, List, length, get_elem?, drop, length-take,
  length-drop,
}
use slept.Prelude.Positions.{get_elem?-take, get_elem?-drop}
use slept.Endpoint.Read.Assembly.Inv.{Parted, piece}

-- Two different pieces of one size do not meet.
pub apart : (size i j k l : ℕ) → i < j → k < size → i * size + k < j * size + l
apart size i j k l h small =
    let less : i + 1 ≤ j = omega arith in
    omega (arith, mul-le-mul_right size less, add-mul i 1 size)

module _ {size count : ℕ} {front payload : List ℕ} (parted : Parted size count front payload)
    (id : ℕ) (h : id < count) where
  pub next_below : id * size + size ≤ count * size
  next_below =
      let less : id + 1 ≤ count = omega arith in
      omega (arith, mul-le-mul_right size less, add-mul id 1 size)

  starts_within : id * size < length payload
  starts_within = omega (arith, next_below, parted.needed)

  pub piece_size :
      (0 < length (piece size payload id))
      × (length (piece size payload id) ≤ size)
      × (id * size + length (piece size payload id) ≤ length payload)
  piece_size = omega (
    arith,
    length-take size (drop (id * size) payload),
    length-drop (id * size) payload,
    starts_within,
    parted.some_size,
  )

  pub piece-last : id + 1 ≡ count → id * size + length (piece size payload id) ≡ length payload
  piece-last last =
      let whole : count * size ≡ id * size + 1 * size =
        ap (λ (t : ℕ). t * size) (omega (arith, last)) ∙ add-mul id 1 size in
      omega (
        arith,
        length-take size (drop (id * size) payload),
        length-drop (id * size) payload,
        whole,
        starts_within,
        parted.enough,
      )

  pub piece-byte :
      (j : ℕ) → j < size → get_elem? (piece size payload id) j ≡ get_elem? payload (id * size + j)
  piece-byte j small =
      get_elem?-take size j (drop (id * size) payload) small ∙ get_elem?-drop (id * size) j payload

  pub piece-within :
      (j : ℕ) → j < size → id * size + j < length payload → j < length (piece size payload id)
  piece-within j small within =
      omega (arith, length-take size (drop (id * size) payload), length-drop (id * size) payload)
