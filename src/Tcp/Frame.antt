-- ===== src/Tcp/Frame.antt =====
-- sleepytcp/rpc.go: frames and their bodies, both taken from pools. A pointer to a frame, or to the
-- ByteBuffer of a body, is the number under which it was made. Durations and texts are numbers.
pub mod Owned
pub mod Bodies
pub mod Effects
pub mod Reach
mod Tests
use slept.Prelude.{
  ℕ, zero, suc, ◌+◌, ◌==◌, Bool, true, false, if◌then◌else◌, List, [], ◌∷◌, ◌++◌, length, Option,
  none, some,
}
use slept.Prelude.Cells.{overwrite}
use slept.Tcp.Pool.{pick}

pub record Frame : Type 0 where
  pub addr : ℕ
  pub idempotent : Bool
  pub timeout : ℕ
  pub body : Option ℕ

-- `&Frame{}`
abbrev pub new_frame : Frame
new_frame = record { addr = 0; idempotent = false; timeout = 0; body = none }

-- The objects that were made, with their numbers, and the pools: what they give back is theirs to
-- choose.
pub record Store : Type 0 where
  pub frames : ℕ → Frame
  pub frames_made : ℕ
  pub frame_pool : List ℕ
  pub bodies : ℕ → List ℕ
  pub bodies_made : ℕ
  pub body_pool : List ℕ

abbrev pub empty_store : Store
empty_store = record {
  frames = λ r. new_frame;
  frames_made = 0;
  frame_pool = [];
  bodies = λ p. [];
  bodies_made = 0;
  body_pool = [];
}

abbrev pub set_frame : ℕ → Frame → Store → Store
set_frame r f s = record s { frames = overwrite r f s.frames }

abbrev pub write_body : ℕ → List ℕ → Store → Store
write_body p b s = record s { bodies = overwrite p b s.bodies }

unfoldable pub acquired_frame : Option (ℕ × List ℕ) → Store → Store × ℕ
acquired_frame none s = (
  record (set_frame s.frames_made new_frame s) { frames_made = s.frames_made + 1 },
  s.frames_made,
)
acquired_frame (some (r, rest)) s = (record s { frame_pool = rest }, r)

unfoldable pub acquire_frame : ℕ → Store → Store × ℕ
unfolding acquired_frame pick
acquire_frame at s = acquired_frame (pick at s.frame_pool) s

-- The body's buffer goes back to its pool.
unfoldable pub put_body : Option ℕ → ℕ → Store → Store
put_body none r s = s
put_body (some p) r s = record (set_frame r (record (s.frames r) { body = none }) s) {
  body_pool = p ∷ s.body_pool;
}

unfoldable pub reset_frame : ℕ → Store → Store
unfolding put_body
reset_frame r s =
    let s1 = put_body (s.frames r).body r s in set_frame r (record (s1.frames r) { timeout = 0 }) s1

unfoldable pub release_frame : ℕ → Store → Store
unfolding reset_frame
release_frame r s = let s1 = reset_frame r s in record s1 { frame_pool = r ∷ s1.frame_pool }

-- `frameBodyPool.Get()`, a buffer of length zero, and the frame that keeps it.
unfoldable pub get_body : Option (ℕ × List ℕ) → ℕ → Store → Store × ℕ
get_body none r s = (
  record (set_frame r (record (s.frames r) { body = some s.bodies_made })
      (write_body s.bodies_made [] s)) { bodies_made = s.bodies_made + 1 },
  s.bodies_made,
)
get_body (some (p, rest)) r s = (
  record (set_frame r (record (s.frames r) { body = some p }) (write_body p [] s)) {
    body_pool = rest;
  },
  p,
)

unfoldable pub kept_or_got : ℕ → Option ℕ → ℕ → Store → Store × ℕ
unfolding get_body pick
kept_or_got at (some p) r s = (s, p)
kept_or_got at none r s = get_body (pick at s.body_pool) r s

unfoldable pub body_buffer : ℕ → ℕ → Store → Store × ℕ
unfolding kept_or_got
body_buffer at r s = kept_or_got at (s.frames r).body r s

unfoldable pub bytes_of : Option ℕ → Store → List ℕ
bytes_of none s = []
bytes_of (some p) s = s.bodies p

unfoldable pub body_bytes : ℕ → Store → List ℕ
unfolding bytes_of
body_bytes r s = bytes_of (s.frames r).body s

-- `WriteTo`, over what the writer does with a slice.
unfoldable pub write_to : {E : Type 0} → (List ℕ → Option E) → ℕ → Store → List ℕ × Option E
unfolding body_bytes
write_to write r s =
    let body = body_bytes r s in if length body == 0 then ([], none) else (body, write body)

unfoldable pub append_body : ℕ → List ℕ → ℕ → Store → Store
unfolding body_buffer
append_body at b r s = let (s1, p) = body_buffer at r s in write_body p (s1.bodies p ++ b) s1

unfoldable pub body : ℕ → ℕ → Store → Store × List ℕ
unfolding body_buffer
body at r s = let (s1, p) = body_buffer at r s in (s1, s1.bodies p)

-- The buffer is reset and written.
unfoldable pub set_body : ℕ → List ℕ → ℕ → Store → Store
unfolding body_buffer
set_body at b r s = let (s1, p) = body_buffer at r s in write_body p ([] ++ b) (write_body p [] s1)

unfoldable pub set_addr : ℕ → ℕ → Store → Store
set_addr addr r s = set_frame r (record (s.frames r) { addr = addr }) s
