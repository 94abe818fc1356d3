-- ===== src/Tcp/Frame/Reach.antt =====
-- Everything that is done to frames, in any order, against a byte string for each frame.
use slept.Prelude.{
  ℕ, ◌≡◌, inl, inr, refl, sym, ◌∙◌, ap, List, [], ◌∷◌, ◌++◌, ◌==◌, if◌then◌else◌, length, Option,
  none, some, Option-cases,
}
use slept.Prelude.Cells.{overwrite, overwrite_self, overwrite_ne}
use native.Mathlib.Decide.{ℕ_discrete}
use slept.Tcp.Pool.{pick}
use slept.Tcp.Frame.{
  Frame, new_frame, Store, empty_store, acquired_frame, acquire_frame, put_body, reset_frame,
  release_frame, body_bytes, write_to, append_body, body, set_body, set_addr,
}
use slept.Tcp.Frame.Owned.{IsSound, empty_store-IsSound}
use slept.Tcp.Frame.Bodies.{Effect, bytes_none, bytes_same}
use slept.Tcp.Frame.Effects.{
  put_body-Effect, field-Effect, Effect-trans, Effect-own, set_body-Effect, append_body-Effect,
  body-Effect, set_addr-Effect,
}

-- The states of the store that can be reached, with what each frame's body should be. A pool gives
-- what it chooses.
pub data FrameReach : Store → (ℕ → List ℕ) → Type 0 where
  started : FrameReach empty_store (λ r. [])
  made :
      (at : ℕ) {s : Store} {bytes : ℕ → List ℕ}
      → FrameReach s bytes
      → pick at s.frame_pool ≡ none
      → FrameReach (acquire_frame at s).0 (overwrite s.frames_made [] bytes)
  taken :
      (at r : ℕ) (rest : List ℕ) {s : Store} {bytes : ℕ → List ℕ}
      → FrameReach s bytes
      → pick at s.frame_pool ≡ some (r, rest)
      → FrameReach (acquire_frame at s).0 bytes
  was_set :
      (at r : ℕ) (b : List ℕ) {s : Store} {bytes : ℕ → List ℕ}
      → FrameReach s bytes
      → FrameReach (set_body at b r s) (overwrite r b bytes)
  appended :
      (at r : ℕ) (b : List ℕ) {s : Store} {bytes : ℕ → List ℕ}
      → FrameReach s bytes
      → FrameReach (append_body at b r s) (overwrite r (bytes r ++ b) bytes)
  was_read :
      (at r : ℕ) {s : Store} {bytes : ℕ → List ℕ}
      → FrameReach s bytes
      → FrameReach (body at r s).0 bytes
  addressed :
      (addr r : ℕ) {s : Store} {bytes : ℕ → List ℕ}
      → FrameReach s bytes
      → FrameReach (set_addr addr r s) bytes
  was_reset :
      (r : ℕ) {s : Store} {bytes : ℕ → List ℕ}
      → FrameReach s bytes
      → FrameReach (reset_frame r s) (overwrite r [] bytes)
  released :
      (r : ℕ) {s : Store} {bytes : ℕ → List ℕ}
      → FrameReach s bytes
      → FrameReach (release_frame r s) (overwrite r [] bytes)

pool-Effect :
    (s s1 : Store) (r : ℕ) (new pool : List ℕ)
    → Effect s r new s1
    → Effect s r new (record s1 { frame_pool = pool })
pool-Effect s s1 r new pool a = record {
  sound = record {
    pool_distinct = a.sound.pool_distinct;
    pool_made = a.sound.pool_made;
    held_made = a.sound.held_made;
    held_only = a.sound.held_only;
    held_once = a.sound.held_once;
  };
  own = bytes_same s1 (record s1 { frame_pool = pool }) r refl (λ p e. refl) ∙ a.own;
  others = λ q other.
      bytes_same s1 (record s1 { frame_pool = pool }) q refl (λ p e. refl) ∙ a.others q other;
}

module _ (s : Store) (sound : IsSound s) where
  reset_frame-Effect : (r : ℕ) → Effect s r [] (reset_frame r s)
  unfolding reset_frame
  reset_frame-Effect r =
      let first = put_body-Effect s sound r in
      let s1 = put_body (s.frames r).body r s in
      Effect-trans s r [] [] s1 _ first (
        Effect-own s1 r (body_bytes r s1) [] _ first.own
          (field-Effect s1 first.sound r (record (s1.frames r) { timeout = 0 }) refl))

  release_frame-Effect : (r : ℕ) → Effect s r [] (release_frame r s)
  unfolding release_frame
  release_frame-Effect r =
      pool-Effect s (reset_frame r s) r [] (r ∷ (reset_frame r s).frame_pool) (reset_frame-Effect r)

  -- A new frame.
  made-Effect : Effect s s.frames_made [] (acquired_frame none s).0
  unfolding acquired_frame
  made-Effect = record {
    sound = record {
      pool_distinct = sound.pool_distinct;
      pool_made = sound.pool_made;
      held_made = λ q p e. sound.held_made q p (holder q p e);
      held_only = λ q p e. sound.held_only q p (holder q p e);
      held_once = λ q1 q2 p e1 e2. sound.held_once q1 q2 p (holder q1 p e1) (holder q2 p e2);
    };
    own =
        bytes_none (acquired_frame none s).0 s.frames_made
          (ap (λ (f : Frame). f.body) (overwrite_self s.frames_made new_frame s.frames));
    others = λ q other.
        bytes_same s (acquired_frame none s).0 q
          (ap (λ (f : Frame). f.body) (overwrite_ne s.frames_made q new_frame s.frames other))
          (λ p e. refl);
  }
    where
      holder :
          (q p : ℕ)
          → (overwrite s.frames_made new_frame s.frames q).body ≡ some p
          → (s.frames q).body ≡ some p
      holder q p e = elim (ℕ_discrete q s.frames_made) [
        | yes same ↦ absurd (cc (rw same at e, overwrite_self s.frames_made new_frame s.frames))
        | no other ↦
            ap (λ (f : Frame). f.body) (sym (overwrite_ne s.frames_made q new_frame s.frames other))
            ∙ e
      ]

  taken-Effect :
      (r : ℕ) (rest : List ℕ) → Effect s r (body_bytes r s) (record s { frame_pool = rest })
  taken-Effect r rest =
      pool-Effect s s r (body_bytes r s) rest
        (record { sound = sound; own = refl; others = λ q other. refl })

-- The store keeps bodies apart, and they are what they should be.
record Refines (s : Store) (bytes : ℕ → List ℕ) : Type 0 where
  sound : IsSound s
  agrees : (r : ℕ) → body_bytes r s ≡ bytes r

Effect-Refines :
    (s s1 : Store) (bytes : ℕ → List ℕ) (r : ℕ) (new given : List ℕ)
    → Refines s bytes
    → new ≡ given
    → Effect s r new s1
    → Refines s1 (overwrite r given bytes)
Effect-Refines s s1 bytes r new given before e effect = record {
  sound = effect.sound;
  agrees = λ q. elim (ℕ_discrete q r) [
    | yes same ↦ rw same (effect.own ∙ e ∙ sym (overwrite_self r given bytes))
    | no other ↦ effect.others q other ∙ before.agrees q ∙ sym (overwrite_ne r q given bytes other)
  ];
}

kept-Refines :
    (s s1 : Store) (bytes : ℕ → List ℕ) (r : ℕ)
    → Refines s bytes
    → Effect s r (body_bytes r s) s1
    → Refines s1 bytes
kept-Refines s s1 bytes r before effect = record {
  sound = effect.sound;
  agrees = λ q. elim (ℕ_discrete q r) [
    | yes same ↦ rw same (effect.own ∙ before.agrees r)
    | no other ↦ effect.others q other ∙ before.agrees q
  ];
}

refines : (s : Store) (bytes : ℕ → List ℕ) → FrameReach s bytes → Refines s bytes
unfolding acquire_frame acquired_frame
refines s bytes started = record {
  sound = empty_store-IsSound;
  agrees = λ r. bytes_none empty_store r refl;
}
refines s bytes (made at {s = s0} {bytes = bytes0} reached nothing) =
    let before = refines s0 bytes0 reached in
    rw nothing (
      Effect-Refines s0 (acquired_frame none s0).0 bytes0 s0.frames_made [] [] before refl
        (made-Effect s0 before.sound))
refines s bytes (taken at r rest {s = s0} {bytes = bytes0} reached found) =
    let before = refines s0 bytes0 reached in
    rw found (kept-Refines s0 _ bytes0 r before (taken-Effect s0 before.sound r rest))
refines s bytes (was_set at r b {s = s0} {bytes = bytes0} reached) =
    let before = refines s0 bytes0 reached in
    Effect-Refines s0 _ bytes0 r b b before refl (set_body-Effect s0 before.sound r at b)
refines s bytes (appended at r b {s = s0} {bytes = bytes0} reached) =
    let before = refines s0 bytes0 reached in
    Effect-Refines s0 _ bytes0 r (body_bytes r s0 ++ b) (bytes0 r ++ b) before
      (ap (λ (t : List ℕ). t ++ b) (before.agrees r)) (append_body-Effect s0 before.sound r at b)
refines s bytes (was_read at r {s = s0} {bytes = bytes0} reached) =
    let before = refines s0 bytes0 reached in
    kept-Refines s0 _ bytes0 r before (body-Effect s0 before.sound r at).0
refines s bytes (addressed addr r {s = s0} {bytes = bytes0} reached) =
    let before = refines s0 bytes0 reached in
    kept-Refines s0 _ bytes0 r before (set_addr-Effect s0 before.sound r addr)
refines s bytes (was_reset r {s = s0} {bytes = bytes0} reached) =
    let before = refines s0 bytes0 reached in
    Effect-Refines s0 _ bytes0 r [] [] before refl (reset_frame-Effect s0 before.sound r)
refines s bytes (released r {s = s0} {bytes = bytes0} reached) =
    let before = refines s0 bytes0 reached in
    Effect-Refines s0 _ bytes0 r [] [] before refl (release_frame-Effect s0 before.sound r)

-- Whatever is done to frames, in any order and whatever the pools give, the body of each frame is
-- what the operations on that frame have made of it: a new one has none, SetBody sets it, AppendBody
-- appends, Reset and ReleaseFrame empty it, and nothing else changes it. `Body` gives it, and
-- `WriteTo` hands exactly it to the writer, and does nothing if it is empty.
pub FrameReach-bytes :
    {E : Type 0} (write : List ℕ → Option E) (at r : ℕ) (s : Store) (bytes : ℕ → List ℕ)
    → FrameReach s bytes
    → (body_bytes r s ≡ bytes r)
      × ((body at r s).1 ≡ bytes r)
      × (write_to write r s
          ≡ (if length (bytes r) == 0 then ([], none) else (bytes r, write (bytes r))))
unfolding write_to
FrameReach-bytes write at r s bytes reached =
    let before = refines s bytes reached in
    (
      before.agrees r,
      (body-Effect s before.sound r at).1 ∙ before.agrees r,
      rw (before.agrees r) refl,
    )

put_frame :
    (s : Store) (r : ℕ)
    → (put_body (s.frames r).body r s).frames r ≡ record (s.frames r) { body = none }
unfolding put_body
put_frame s r = elim (Option-cases (s.frames r).body) [
  | inl bare ↦ rw (bare, put_body) (ap (λ (b : Option ℕ). record (s.frames r) { body = b }) bare)
  | inr (p, held) ↦
      rw (held, put_body) (overwrite_self r (record (s.frames r) { body = none }) s.frames)
]

-- `ReleaseFrame` and then the `AcquireFrame` that the pool gives the frame: the address and the flag
-- are those of its last user; the timeout is 0, and there is no body.
pub release_frame-acquire_frame :
    (r : ℕ) (s : Store)
    → (let (s1, r1) = acquire_frame 0 (release_frame r s) in
        (r1 ≡ r) × (s1.frames r1 ≡ record (s.frames r) { timeout = 0; body = none }))
unfolding acquire_frame acquired_frame pick release_frame reset_frame put_body
release_frame-acquire_frame r s =
    let s1 = put_body (s.frames r).body r s in
    (
      refl,
      overwrite_self r (record (s1.frames r) { timeout = 0 }) s1.frames
          ∙ ap (λ (f : Frame). record f { timeout = 0 }) (put_frame s r),
    )
