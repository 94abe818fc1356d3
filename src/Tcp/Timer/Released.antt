-- ===== src/Tcp/Timer/Released.antt =====
-- ReleaseTimer, and changes of one timer, on a quiet pool.
use slept.Prelude.{ℕ, ◌<◌, ◌≡◌, sym, ◌∙◌, arith, Bool, true, false, not, ◌||◌, ◌==◌, ◌∷◌}
use slept.Prelude.Cells.{overwrite, overwrite_self, overwrite_ne}
use native.Mathlib.Decide.{ℕ_discrete}
use slept.Tcp.Timer.{Timer, stop_timer, Timers, release_timer}
use slept.Tcp.Timer.Quiet.{
  IsStopped, Waits, Calm, Quiet, absent, everywhere, elsewhere, stopped, stopped-idle,
  Calm-overwrite, made-overwrite, idle,
}

module _ (late : ℕ → Bool) (s : Timers) (quiet : Quiet late s) where
  -- A timer in use goes back to the pool, late if a time was under way.
  pub release-Quiet :
      (r : ℕ)
      → s.held r ≡ true
      → r < s.timers_made
      → Quiet (overwrite r (late r || not ((s.timers r).sending == 0)) late) (release_timer r s)
  unfolding release_timer
  release-Quiet r used below =
      let t = stop_timer (s.timers r) in
      let late1 : ℕ → Bool = overwrite r (late r || not ((s.timers r).sending == 0)) late in
      let s1 : Timers = record {
        timers = overwrite r t s.timers;
        timers_made = s.timers_made;
        timer_pool = r ∷ s.timer_pool;
        held = overwrite r false s.held;
      } in
      let away = absent (Waits late s) r s.timer_pool quiet.waits (λ h. absurd (cc (h.1, used))) in
      let mine : late1 r ≡ (late r || not ((s.timers r).sending == 0)) =
        overwrite_self r (late r || not ((s.timers r).sending == 0)) late in
      let left : late1 r ≡ false → t ≡ idle = λ on_time.
        let now : (late r || not ((s.timers r).sending == 0)) ≡ false = sym mine ∙ on_time in
        let before : late r ≡ false = ground (arith, now) in
        let none_sent : (s.timers r).sending ≡ 0 = ground (arith, now) in
        stopped-idle (s.timers r) none_sent (λ runs. (quiet.calm r before runs).1) in
      record {
        distinct = (away, quiet.distinct);
        calm = λ q. elim (ℕ_discrete q r) [
          | yes e ↦
              rw (e, overwrite_self r t s.timers)
                (λ on_time runs. absurd (cc (stopped (s.timers r), runs)))
          | no e ↦
              rw
                (
                  overwrite_ne r q t s.timers e,
                  overwrite_ne r q (late r || not ((s.timers r).sending == 0)) late e,
                )
                (quiet.calm q)
        ];
        held_made = made-overwrite s r s.timers_made false quiet.held_made below;
        waits = (
          (
            rw (overwrite_self r t s.timers) (stopped (s.timers r), left),
            overwrite_self r false s.held,
            below,
          ),
          elsewhere (Waits late s) (Waits late1 s1) r s.timer_pool
              (λ q other h. (
                rw
                    (
                      overwrite_ne r q t s.timers other,
                      overwrite_ne r q (late r || not ((s.timers r).sending == 0)) late other,
                    )
                    h.0,
                overwrite_ne r q false s.held other ∙ h.1,
                h.2,
              ))
              away quiet.waits,
        );
      }

  -- A timer changes in a way that leaves one that is stopped.
  pub touched-Quiet :
      (r : ℕ) (t : Timer)
      → Calm (late r) t
      → (IsStopped (late r) (s.timers r) → IsStopped (late r) t)
      → Quiet late (record s { timers = overwrite r t s.timers })
  touched-Quiet r t calm same = record {
    distinct = quiet.distinct;
    calm = Calm-overwrite late s r t quiet.calm calm;
    held_made = quiet.held_made;
    waits =
        everywhere (Waits late s) (Waits late (record s { timers = overwrite r t s.timers }))
          s.timer_pool (λ q h. (written q h.0, h.1, h.2)) quiet.waits;
  }
    where
      written :
          (q : ℕ) → IsStopped (late q) (s.timers q) → IsStopped (late q) (overwrite r t s.timers q)
      written q h = elim (ℕ_discrete q r) [
        | yes e ↦ rw (e, overwrite_self r t s.timers) (same (rw e at h))
        | no e ↦ rw (overwrite_ne r q t s.timers e) h
      ]
