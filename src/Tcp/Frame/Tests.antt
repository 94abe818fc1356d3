-- ===== src/Tcp/Frame/Tests.antt =====
-- Two frames, the second of which takes the body that the first has given back.
use slept.Prelude.{ℕ, ◌≡◌, refl, true, List, [], ◌∷◌, length, none, some}
use slept.Prelude.Cells.{overwrite}
use slept.Tcp.Pool.{pick}
use slept.Tcp.Frame.{
  Store, empty_store, acquire_frame, acquired_frame, release_frame, reset_frame, put_body,
  body_bytes, write_to, append_body, body, body_buffer, kept_or_got, get_body, set_body,
}
use slept.Tcp.Frame.Reach.{
  FrameReach, started, made, was_set, appended, was_reset, FrameReach-bytes,
  release_frame-acquire_frame,
}

abbrev first : Store
first = reset_frame 0 (set_body 0 (7 ∷ []) 0 (acquire_frame 0 empty_store).0)

abbrev second : Store
second = append_body 0 (9 ∷ []) 1 (set_body 0 (8 ∷ []) 1 (acquire_frame 0 first).0)

abbrev no_bytes : ℕ → List ℕ
no_bytes r = []

abbrev second_bytes : ℕ → List ℕ
second_bytes = overwrite 1 (8 ∷ 9 ∷ []) (
    overwrite 1 (8 ∷ [])
      (overwrite 1 [] (overwrite 0 [] (overwrite 0 (7 ∷ []) (overwrite 0 [] no_bytes)))))

-- The body of the first frame is taken for the second.
shared : (body_buffer 0 1 second).1 ≡ 0
unfolding body_buffer kept_or_got get_body pick set_body append_body reset_frame put_body
    acquire_frame acquired_frame
shared = refl

second-FrameReach : FrameReach second second_bytes
unfolding acquire_frame acquired_frame pick reset_frame put_body set_body body_buffer kept_or_got
    get_body
second-FrameReach =
    appended 0 1 (9 ∷ []) (
      was_set 0 1 (8 ∷ []) (made 0 (was_reset 0 (was_set 0 0 (7 ∷ []) (made 0 started refl))) refl))

FrameReach-bytes_example :
    (body_bytes 1 second ≡ 8 ∷ 9 ∷ [])
    × ((body 0 1 second).1 ≡ 8 ∷ 9 ∷ [])
    × (write_to (λ b. some (length b)) 1 second ≡ (8 ∷ 9 ∷ [], some 2))
FrameReach-bytes_example =
    FrameReach-bytes (λ b. some (length b)) 0 1 second second_bytes second-FrameReach

abbrev used : Store
used = record empty_store {
  frames = λ r. record { addr = 5; idempotent = true; timeout = 3; body = none };
  frames_made = 1;
}

release_frame-acquire_frame_example :
    ((acquire_frame 0 (release_frame 0 used)).1 ≡ 0)
    × ((acquire_frame 0 (release_frame 0 used)).0.frames (acquire_frame 0 (release_frame 0 used)).1
        ≡ record { addr = 5; idempotent = true; timeout = 0; body = none })
release_frame-acquire_frame_example = release_frame-acquire_frame 0 used
