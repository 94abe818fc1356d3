-- ===== src/Endpoint/Read/Assembly/Copies.antt =====
-- Go's `copy` into a buffer that has room, read position by position.
use slept.Prelude.{
  ℕ, ◌+◌, ◌-◌, ◌≤◌, ◌<◌, ◌≡◌, refl, ◌∙◌, arith, List, ◌++◌, length, take, drop, get_elem?,
  length-append, length-take, length-drop,
}
use slept.Prelude.Positions.{
  get_elem?-take, get_elem?-drop, get_elem?-append_left, get_elem?-append_right, take-more,
}
use slept.Prelude.Results.{ok, slice_from-ok}
use slept.Endpoint.Write.{copy_at}

-- What `out` is after `src` is copied over `dst` from `off` on.
pub record Copied (dst : List ℕ) (off : ℕ) (src out : List ℕ) : Type 0 where
  pub size_kept : length out ≡ length dst
  pub inside : (k : ℕ) → k < length src → get_elem? out (off + k) ≡ get_elem? src k
  pub before : (k : ℕ) → k < off → get_elem? out k ≡ get_elem? dst k
  pub behind : (k : ℕ) → off + length src ≤ k → get_elem? out k ≡ get_elem? dst k

module _ (dst : List ℕ) (off : ℕ) (src : List ℕ) (room : off + length src ≤ length dst) where
  front_size : length (take off dst) ≡ off
  front_size = omega (arith, length-take off dst)

  laid-Copied : Copied dst off src (take off dst ++ (src ++ drop (length src) (drop off dst)))
  laid-Copied = record {
    size_kept = omega (
      arith,
      length-append (take off dst) (src ++ drop (length src) (drop off dst)),
      length-append src (drop (length src) (drop off dst)),
      length-drop (length src) (drop off dst),
      length-drop off dst,
      front_size,
    );
    inside = λ k h.
        get_elem?-append_right (take off dst) _ (off + k) k (omega (arith, front_size))
        ∙ get_elem?-append_left src _ k h;
    before = λ k h.
        get_elem?-append_left (take off dst) _ k (omega (arith, front_size))
        ∙ get_elem?-take off k dst h;
    behind = λ k h.
        get_elem?-append_right (take off dst) _ k (k - off) (omega (arith, front_size))
        ∙ get_elem?-append_right src _ (k - off) (k - off - length src) (omega arith)
        ∙ get_elem?-drop (length src) (k - off - length src) (drop off dst)
        ∙ get_elem?-drop off (length src + (k - off - length src)) dst
        ∙ ap_index (omega arith);
  }
    where
      ap_index : {m n : ℕ} → m ≡ n → get_elem? dst m ≡ get_elem? dst n
      ap_index e = rw e refl

  -- A copy that fits writes all of `src`, and nothing else.
  pub copy_at-Copied :
      (out : List ℕ) × (copy_at dst off src ≡ ok (out, length src)) × Copied dst off src out
  unfolding copy_at
  copy_at-Copied =
      let left : length (drop off dst) ≡ length dst - off = length-drop off dst in
      let whole : take (length (drop off dst)) src ≡ src = take-more _ src (omega (arith, left)) in
      (
        take off dst ++ (src ++ drop (length src) (drop off dst)),
        rw (slice_from-ok dst off (omega arith), whole) (ground (arith, left)),
        laid-Copied,
      )
