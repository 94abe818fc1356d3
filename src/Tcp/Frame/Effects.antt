-- ===== src/Tcp/Frame/Effects.antt =====
-- The operations on a frame: each has its effect on the frame's own body, and none on another.
use slept.Prelude.{
  ℕ, ◌+◌, ◌<◌, ◌≤◌, ◌≡◌, ◌≢◌, inl, inr, refl, sym, ◌∙◌, ap, arith, List, [], ◌∷◌, ◌++◌, none, some,
  All, Option-cases,
}
use slept.Prelude.Cells.{overwrite, overwrite_self, overwrite_ne}
use native.Mathlib.Decide.{ℕ_discrete}
use slept.Tcp.Pool.{pick, Absent, pick-Picked}
use slept.Tcp.Frame.{
  Frame, Store, set_frame, write_body, put_body, get_body, kept_or_got, body_buffer, body_bytes,
  append_body, body, set_body, set_addr,
}
use slept.Tcp.Frame.Owned.{IsSound}
use slept.Tcp.Frame.Bodies.{
  Effect, bytes_none, bytes_at, bytes_same, write-Effect, given, given-Effect, holds_it, returned,
  returned-Effect,
}

made_later : (n m : ℕ) (pool : List ℕ) → n ≤ m → All (λ q. q < n) pool → All (λ q. q < m) pool
made_later n m [] le h = tt
made_later n m (q ∷ pool) le h = (omega (arith, h.0), made_later n m pool le h.1)

not_made : (n : ℕ) (pool : List ℕ) → All (λ q. q < n) pool → Absent n pool
not_made n [] h = tt
not_made n (q ∷ pool) h = (λ e. absurd (omega (arith, h.0, e)), not_made n pool h.1)

-- A frame, and the buffer that it has now.
pub record Gets (s : Store) (r : ℕ) (new : List ℕ) (got : Store × ℕ) : Type 0 where
  pub effect : Effect s r new got.0
  pub holds : (got.0.frames r).body ≡ some got.1

module _ (s : Store) (sound : IsSound s) (r : ℕ) where
  get_body-Gets :
      (at : ℕ) → (s.frames r).body ≡ none → Gets s r [] (get_body (pick at s.body_pool) r s)
  unfolding get_body given
  get_body-Gets at bare = elim (Option-cases (pick at s.body_pool)) [
    | inl nothing ↦
        let distinct = sound.pool_distinct in
        let all_made =
          made_later s.bodies_made (s.bodies_made + 1) s.body_pool (omega arith) sound.pool_made in
        let made : s.bodies_made < s.bodies_made + 1 = omega arith in
        let more : s.bodies_made ≤ s.bodies_made + 1 = omega arith in
        let absent = not_made s.bodies_made s.body_pool sound.pool_made in
        rw nothing (record {
          effect =
              given-Effect s sound r s.bodies_made (s.bodies_made + 1) s.body_pool bare distinct
                all_made made more absent (nobody s.bodies_made (omega arith)) sound.held_only;
          holds =
              holds_it s sound r s.bodies_made (s.bodies_made + 1) s.body_pool bare distinct
                all_made made more absent (nobody s.bodies_made (omega arith)) sound.held_only;
        })
    | inr ((p, rest), found) ↦
        let picked = pick-Picked at s.body_pool p rest found in
        let distinct = (picked.once sound.pool_distinct).1 in
        let all_made = (picked.made s.bodies_made sound.pool_made).1 in
        let made = (picked.made s.bodies_made sound.pool_made).0 in
        let more : s.bodies_made ≤ s.bodies_made = omega arith in
        let absent = (picked.once sound.pool_distinct).0 in
        let free : (q : ℕ) → (s.frames q).body ≢ some p =
          λ q e. (picked.apart p (sound.held_only q p e)).0 refl in
        let rest_free : (q p1 : ℕ) → (s.frames q).body ≡ some p1 → Absent p1 rest =
          λ q p1 e. (picked.apart p1 (sound.held_only q p1 e)).1 in
        rw found (record {
          effect =
              given-Effect s sound r p s.bodies_made rest bare distinct all_made made more absent
                free rest_free;
          holds =
              holds_it s sound r p s.bodies_made rest bare distinct all_made made more absent free
                rest_free;
        })
  ]
    where
      nobody : (n : ℕ) → s.bodies_made ≤ n → (q : ℕ) → (s.frames q).body ≢ some n
      nobody n le q e = absurd (omega (arith, sound.held_made q n e, le))

  same-Effect :
      (s1 : Store)
      → IsSound s1
      → ((q : ℕ) → body_bytes q s1 ≡ body_bytes q s)
      → Effect s r (body_bytes r s) s1
  same-Effect s1 sound1 same = record { sound = sound1; own = same r; others = λ q other. same q }

  pub body_buffer-Gets : (at : ℕ) → Gets s r (body_bytes r s) (body_buffer at r s)
  unfolding body_buffer kept_or_got
  body_buffer-Gets at = elim (Option-cases (s.frames r).body) [
    | inl bare ↦
        let empty : body_bytes r s ≡ [] = bytes_none s r bare in
        rw (bare, empty) (get_body-Gets at bare)
    | inr (p, held) ↦ rw held (record { effect = same-Effect s sound (λ q. refl); holds = held })
  ]

  pub put_body-Effect : Effect s r [] (put_body (s.frames r).body r s)
  unfolding put_body returned
  put_body-Effect = elim (Option-cases (s.frames r).body) [
    | inl bare ↦
        let empty : body_bytes r s ≡ [] = bytes_none s r bare in
        rw bare (rw empty at (same-Effect s sound (λ q. refl)))
    | inr (p, held) ↦ rw held (returned-Effect s sound r p held)
  ]

module _ (s : Store) (r : ℕ) where
  pub Effect-trans :
      (first second : List ℕ) (s1 s2 : Store)
      → Effect s r first s1
      → Effect s1 r second s2
      → Effect s r second s2
  Effect-trans first second s1 s2 a b = record {
    sound = b.sound;
    own = b.own;
    others = λ q other. b.others q other ∙ a.others q other;
  }

  pub Effect-own : (b c : List ℕ) (s1 : Store) → b ≡ c → Effect s r b s1 → Effect s r c s1
  Effect-own b c s1 e effect = rw e at effect

module _ (s : Store) (sound : IsSound s) (r : ℕ) where
  -- Another field of the frame is written.
  pub field-Effect :
      (f : Frame) → f.body ≡ (s.frames r).body → Effect s r (body_bytes r s) (set_frame r f s)
  field-Effect f same = record {
    sound = record {
      pool_distinct = sound.pool_distinct;
      pool_made = sound.pool_made;
      held_made = λ q p e. sound.held_made q p (old q ∙ e);
      held_only = λ q p e. sound.held_only q p (old q ∙ e);
      held_once = λ q1 q2 p e1 e2. sound.held_once q1 q2 p (old q1 ∙ e1) (old q2 ∙ e2);
    };
    own = bytes_same s (set_frame r f s) r (sym (old r)) (λ p e. refl);
    others = λ q other. bytes_same s (set_frame r f s) q (sym (old q)) (λ p e. refl);
  }
    where
      old : (q : ℕ) → (s.frames q).body ≡ (overwrite r f s.frames q).body
      old q = elim (ℕ_discrete q r) [
        | yes e ↦ rw e (sym same ∙ ap (λ (g : Frame). g.body) (sym (overwrite_self r f s.frames)))
        | no e ↦ ap (λ (g : Frame). g.body) (sym (overwrite_ne r q f s.frames e))
      ]

  pub set_body-Effect : (at : ℕ) (b : List ℕ) → Effect s r b (set_body at b r s)
  unfolding set_body
  set_body-Effect at b =
      let (s1, p) = body_buffer at r s in
      let got = body_buffer-Gets s sound r at in
      let cleared = write-Effect s1 got.effect.sound r p [] got.holds in
      let written = write-Effect (write_body p [] s1) cleared.sound r p b got.holds in
      Effect-trans s r (body_bytes r s) b s1 _ got.effect
        (Effect-trans s1 r [] b (write_body p [] s1) _ cleared written)

  pub append_body-Effect :
      (at : ℕ) (b : List ℕ) → Effect s r (body_bytes r s ++ b) (append_body at b r s)
  unfolding append_body
  append_body-Effect at b =
      let (s1, p) = body_buffer at r s in
      let got = body_buffer-Gets s sound r at in
      let there : s1.bodies p ≡ body_bytes r s = sym (bytes_at s1 r p got.holds) ∙ got.effect.own in
      Effect-own s r _ _ _ (ap (λ (t : List ℕ). t ++ b) there) (
        Effect-trans s r (body_bytes r s) (s1.bodies p ++ b) s1 _ got.effect
          (write-Effect s1 got.effect.sound r p (s1.bodies p ++ b) got.holds))

  -- `Body` gives the bytes of the body.
  pub body-Effect :
      (at : ℕ) → Effect s r (body_bytes r s) (body at r s).0 × ((body at r s).1 ≡ body_bytes r s)
  unfolding body
  body-Effect at =
      let got = body_buffer-Gets s sound r at in
      (
        got.effect,
        sym (bytes_at (body_buffer at r s).0 r (body_buffer at r s).1 got.holds) ∙ got.effect.own,
      )

  pub set_addr-Effect : (addr : ℕ) → Effect s r (body_bytes r s) (set_addr addr r s)
  unfolding set_addr
  set_addr-Effect addr = field-Effect (record (s.frames r) { addr = addr }) refl
