-- ===== src/Tcp/Frame/Bodies.antt =====
-- What the operations on one frame do to its body, and that they leave the bodies of the others.
use slept.Prelude.{
  ℕ, ◌<◌, ◌≤◌, ◌≡◌, ◌≢◌, ◌⊎◌, inl, inr, refl, sym, ◌∙◌, ap, arith, List, [], ◌∷◌, none, some, All,
  Distinct, Option-cases,
}
use slept.Prelude.Cells.{overwrite_self, overwrite_ne}
use native.Mathlib.Decide.{ℕ_discrete}
use slept.Tcp.Pool.{Absent}
use slept.Tcp.Frame.{Frame, Store, set_frame, write_body, bytes_of, body_bytes}
use slept.Tcp.Frame.Owned.{IsSound}

-- The body of frame r is `new`, and those of the others stay.
pub record Effect (s : Store) (r : ℕ) (new : List ℕ) (s1 : Store) : Type 0 where
  pub sound : IsSound s1
  pub own : body_bytes r s1 ≡ new
  pub others : (q : ℕ) → q ≢ r → body_bytes q s1 ≡ body_bytes q s

-- Bytes through the pointer, which may have changed.
pub bytes_same :
    (s s1 : Store) (q : ℕ)
    → (s1.frames q).body ≡ (s.frames q).body
    → ((p : ℕ) → (s.frames q).body ≡ some p → s1.bodies p ≡ s.bodies p)
    → body_bytes q s1 ≡ body_bytes q s
unfolding body_bytes bytes_of
bytes_same s s1 q same kept = elim (Option-cases (s.frames q).body) [
  | inl e ↦ rw (same, e) refl
  | inr (p, e) ↦ rw (same, e) (kept p e)
]

pub bytes_at : (s : Store) (r p : ℕ) → (s.frames r).body ≡ some p → body_bytes r s ≡ s.bodies p
unfolding body_bytes bytes_of
bytes_at s r p e = rw e refl

pub bytes_none : (s : Store) (r : ℕ) → (s.frames r).body ≡ none → body_bytes r s ≡ []
unfolding body_bytes bytes_of
bytes_none s r e = rw e refl

module _ (s : Store) (sound : IsSound s) (r : ℕ) where
  -- The body of a frame is written.
  pub write-Effect :
      (p : ℕ) (b : List ℕ) → (s.frames r).body ≡ some p → Effect s r b (write_body p b s)
  write-Effect p b held = record {
    sound = record {
      pool_distinct = sound.pool_distinct;
      pool_made = sound.pool_made;
      held_made = sound.held_made;
      held_only = sound.held_only;
      held_once = sound.held_once;
    };
    own = bytes_at (write_body p b s) r p held ∙ overwrite_self p b s.bodies;
    others = λ q other. bytes_same s (write_body p b s) q refl (λ p1 e.
        overwrite_ne p p1 b s.bodies (λ z. other (sound.held_once q r p (e ∙ ap some z) held)));
  }

  -- A frame without a body gets one that nobody has.
  module _ (p made1 : ℕ) (pool1 : List ℕ) (bare : (s.frames r).body ≡ none)
      (distinct : Distinct pool1) (all_made : All (λ q. q < made1) pool1) (made : p < made1)
      (more : s.bodies_made ≤ made1) (absent : Absent p pool1)
      (free : (q : ℕ) → (s.frames q).body ≢ some p)
      (rest_free : (q p1 : ℕ) → (s.frames q).body ≡ some p1 → Absent p1 pool1) where
    unfoldable pub given : Store
    given = record (set_frame r (record (s.frames r) { body = some p }) (write_body p [] s)) {
      bodies_made = made1;
      body_pool = pool1;
    }

    pub holds_it : (given.frames r).body ≡ some p
    unfolding given
    holds_it =
        ap (λ (f : Frame). f.body)
          (overwrite_self r (record (s.frames r) { body = some p }) s.frames)

    as_before : (q : ℕ) → q ≢ r → (given.frames q).body ≡ (s.frames q).body
    unfolding given
    as_before q other =
        ap (λ (f : Frame). f.body)
          (overwrite_ne r q (record (s.frames r) { body = some p }) s.frames other)

    -- Who holds what afterwards.
    holder :
        (q p1 : ℕ)
        → (given.frames q).body ≡ some p1
        → ((q ≡ r) × (p1 ≡ p)) ⊎ ((q ≢ r) × ((s.frames q).body ≡ some p1))
    holder q p1 e = elim (ℕ_discrete q r) [
      | yes same ↦ inl (same, cc (holds_it, rw same at e))
      | no other ↦ inr (other, sym (as_before q other) ∙ e)
    ]

    pub given-Effect : Effect s r [] given
    unfolding given
    given-Effect = record {
      sound = record {
        pool_distinct = distinct;
        pool_made = all_made;
        held_made = λ q p1 e. elim (holder q p1 e) [
          | inl (same, it) ↦ rw it made
          | inr (other, old) ↦ omega (arith, more, sound.held_made q p1 old)
        ];
        held_only = λ q p1 e. elim (holder q p1 e) [
          | inl (same, it) ↦ rw it absent
          | inr (other, old) ↦ rest_free q p1 old
        ];
        held_once = λ q1 q2 p1 e1 e2. elim (holder q1 p1 e1) [
          | inl (same1, it1) ↦ elim (holder q2 p1 e2) [
            | inl (same2, it2) ↦ same1 ∙ sym same2
            | inr (other2, old2) ↦ absurd (free q2 (rw it1 at old2))
          ]
          | inr (other1, old1) ↦ elim (holder q2 p1 e2) [
            | inl (same2, it2) ↦ absurd (free q1 (rw it2 at old1))
            | inr (other2, old2) ↦ sound.held_once q1 q2 p1 old1 old2
          ]
        ];
      };
      own = bytes_at given r p holds_it ∙ overwrite_self p [] s.bodies;
      others = λ q other.
          bytes_same s given q (as_before q other)
            (λ p1 e. overwrite_ne p p1 [] s.bodies (λ z. free q (e ∙ ap some z)));
    }

  -- The body goes back to the pool.
  module _ (p : ℕ) (held : (s.frames r).body ≡ some p) where
    unfoldable pub returned : Store
    returned = record (set_frame r (record (s.frames r) { body = none }) s) {
      body_pool = p ∷ s.body_pool;
    }

    without : (returned.frames r).body ≡ none
    unfolding returned
    without =
        ap (λ (f : Frame). f.body) (overwrite_self r (record (s.frames r) { body = none }) s.frames)

    kept : (q : ℕ) → q ≢ r → (returned.frames q).body ≡ (s.frames q).body
    unfolding returned
    kept q other =
        ap (λ (f : Frame). f.body)
          (overwrite_ne r q (record (s.frames r) { body = none }) s.frames other)

    keeper :
        (q p1 : ℕ) → (returned.frames q).body ≡ some p1 → (q ≢ r) × ((s.frames q).body ≡ some p1)
    keeper q p1 e = elim (ℕ_discrete q r) [
      | yes same ↦ absurd (cc (without, rw same at e))
      | no other ↦ (other, sym (kept q other) ∙ e)
    ]

    pub returned-Effect : Effect s r [] returned
    unfolding returned
    returned-Effect = record {
      sound = record {
        pool_distinct = (sound.held_only r p held, sound.pool_distinct);
        pool_made = (sound.held_made r p held, sound.pool_made);
        held_made = λ q p1 e. sound.held_made q p1 (keeper q p1 e).1;
        held_only = λ q p1 e. (
          λ z. (keeper q p1 e).0 (sound.held_once q r p ((keeper q p1 e).1 ∙ ap some (sym z)) held),
          sound.held_only q p1 (keeper q p1 e).1,
        );
        held_once =
            λ q1 q2 p1 e1 e2. sound.held_once q1 q2 p1 (keeper q1 p1 e1).1 (keeper q2 p1 e2).1;
      };
      own = bytes_none returned r without;
      others = λ q other. bytes_same s returned q (kept q other) (λ p1 e. refl);
    }
