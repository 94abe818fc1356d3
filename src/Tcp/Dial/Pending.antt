-- ===== src/Tcp/Dial/Pending.antt =====
-- While an entry is being resolved anew, it stays what the look-ups of its address get.
use slept.Prelude.{
  ℕ, ◌+◌, ◌-◌, ◌*◌, ◌≤◌, ◌≡◌, ◌≢◌, inl, inr, refl, sym, ◌∙◌, ap, arith, true, false, List, [], ◌∷◌,
  Option, none, some, get_elem?, get_elem?-lt, get_elem?-set_self, get_elem?-set_ne, ltb,
  Bool-cases, Option-cases, ◌==◌, if◌then◌else◌,
}
use native.Mathlib.Decide.{ℕ_discrete}
use slept.Prelude.Positions.{get_elem?-append_left}
use slept.Prelude.Results.{ok, err, panic, Result, index, ◌>>=◌}
use slept.Tcp.Dial.Addrs.{
  TcpAddrEntry, Cache, find_entry, others, assign, use_entry, look_up, unmark, resolve_failed,
  resolved, default_dns_cache_duration, clean_map, clean,
}
use slept.Tcp.Dial.Meanwhile.{
  Meanwhile, MeanwhileStep, Pending, looks_up, takes_index, resolves_other, fails_other,
  cleans_in_time, at_once, then_step, Writes, mark, step_index, use_entry-Writes, unmark-Writes,
  take_index-Writes,
}

bind-ok :
    {A B : Type 0} (call : Result A) (next : A → Result B) (b : B)
    → (call >>= next) ≡ ok b
    → (a : A) × (call ≡ ok a) × (next a ≡ ok b)
bind-ok (ok a) next b ran = (a, refl, ran)
bind-ok (err why) next b ran = absurd (cc (ran))
bind-ok panic next b ran = absurd (cc (ran))

find_entry-others :
    (key addr : ℕ) (m : List (ℕ × ℕ))
    → key ≢ addr
    → find_entry addr (others key m) ≡ find_entry addr m
unfolding find_entry others
find_entry-others key addr [] ne = refl
find_entry-others key addr ((k, q) ∷ m) ne = ground (arith, find_entry-others key addr m ne)

index-there :
    {A : Type 0} (xs : List A) (i : ℕ) (a : A) → index xs i ≡ ok a → get_elem? xs i ≡ some a
index-there xs i a got = elim (Option-cases (get_elem? xs i)) [
  | inl outside ↦ absurd (cc (rw (outside, index) at got))
  | inr (b, there) ↦ let same : b ≡ a = cc (rw (there, index) at got) in there ∙ ap some same
]

module _ {IP Zone : Type 0} where
  module _ (addr p : ℕ) (e : TcpAddrEntry IP Zone) (c : Cache IP Zone)
      (h : Pending addr p e c) where
    -- A change of an entry that leaves a pending one so.
    written-Pending :
        (change : TcpAddrEntry IP Zone → TcpAddrEntry IP Zone) (q : ℕ) (c1 : Cache IP Zone)
        → Writes change q c c1
        → (q ≡ p → (change h.entry).pending ≡ true)
        → (change h.entry).addrs ≡ h.entry.addrs
        → (change h.entry).resolve_time ≡ h.entry.resolve_time
        → Pending addr p e c1
    written-Pending change q c1 (inl same) marks addrs time = rw same h
    written-Pending change q c1 (inr (e0, there, same)) marks addrs time =
        rw same (elim (ℕ_discrete p q) [
          | yes i ↦ record {
            known = h.known;
            entry = change h.entry;
            there =
                let it : e0 ≡ h.entry = cc (there, h.there, i) in
                rw (i, it)
                  (get_elem?-set_self c.entries q (change h.entry)
                    (get_elem?-lt c.entries q there));
            marked = marks (sym i);
            same_addrs = addrs ∙ h.same_addrs;
            same_time = time ∙ h.same_time;
          }
          | no ne ↦ record {
            known = h.known;
            entry = h.entry;
            there = get_elem?-set_ne c.entries q p (change e0) (λ i. ne (sym i)) ∙ h.there;
            marked = h.marked;
            same_addrs = h.same_addrs;
            same_time = h.same_time;
          }
        ])

    looked-Pending :
        (now : ℕ) (at : Option ℕ) (found : Option ℕ) (c1 : Cache IP Zone)
        → use_entry now at c ≡ ok (c1, found)
        → Pending addr p e c1
    unfolding use_entry
    looked-Pending now none found c1 ran = let same : c ≡ c1 = cc (ran) in rw (← same) h
    looked-Pending now (some q) found c1 ran =
        written-Pending (mark true) q c1 (use_entry-Writes now q c c1 found ran) (λ i. refl) refl
          refl

    failed-Pending :
        (at : Option ℕ) (c1 : Cache IP Zone)
        → at ≢ some p
        → unmark at c ≡ ok c1
        → Pending addr p e c1
    unfolding unmark
    failed-Pending none c1 other ran = let same : c ≡ c1 = cc (ran) in rw (← same) h
    failed-Pending (some q) c1 other ran =
        written-Pending (mark false) q c1 (unmark-Writes q c c1 ran)
          (λ i. absurd (other (ap some i))) refl refl

    -- A round of the cleaner that is in time keeps the pointer.
    cleaned-known :
        (now : ℕ) (m m1 : List (ℕ × ℕ))
        → now ≤ e.resolve_time + 2 * default_dns_cache_duration
        → find_entry addr m ≡ some p
        → clean_map now c.entries m ≡ ok m1
        → find_entry addr m1 ≡ some p
    unfolding find_entry clean_map
    cleaned-known now [] m1 soon known ran = absurd (cc (known))
    cleaned-known now ((key, q) ∷ rest) m1 soon known ran =
        let after = λ (e0 : TcpAddrEntry IP Zone). clean_map now c.entries rest >>= λ kept. ok (
          if ltb (2 * default_dns_cache_duration) (now - e0.resolve_time)
          then kept
          else (key, q) ∷ kept) in
        let (e0, got, rest_ran) = bind-ok (index c.entries q) after m1 ran in
        let there = index-there c.entries q e0 got in
        let (m2, went, made) =
          bind-ok (clean_map now c.entries rest)
            (λ kept. ok (
              if ltb (2 * default_dns_cache_duration) (now - e0.resolve_time)
              then kept
              else (key, q) ∷ kept))
            m1 rest_ran in
        elim (Bool-cases (key == addr)) [
          | inl y ↦
              let at_p : q ≡ p = cc (rw y at known) in
              let it : e0 ≡ h.entry = cc (there, h.there, at_p) in
              let time : e0.resolve_time ≡ e.resolve_time = rw it h.same_time in
              let young : ltb (2 * default_dns_cache_duration) (now - e0.resolve_time) ≡ false =
                ground (arith, time, soon) in
              let same : (key, q) ∷ m2 ≡ m1 = cc (rw young at made) in
              rw (← same) (ground (arith, y, at_p))
          | inr n ↦
              let on = cleaned-known now rest m2 soon (rw n at known) went in
              elim (Bool-cases (ltb (2 * default_dns_cache_duration) (now - e0.resolve_time))) [
                | inl old ↦ let same : m2 ≡ m1 = cc (rw old at made) in rw (← same) on
                | inr young ↦
                    let same : (key, q) ∷ m2 ≡ m1 = cc (rw young at made) in rw (← same, n) on
              ]
        ]

  step-Pending :
      (addr p : ℕ) (e : TcpAddrEntry IP Zone) (c c1 : Cache IP Zone)
      → Pending addr p e c
      → MeanwhileStep addr p e.resolve_time c c1
      → Pending addr p e c1
  unfolding look_up resolve_failed resolved assign find_entry clean
  step-Pending addr p e c _ h (looks_up key now found c1 ran) =
      looked-Pending addr p e c h now (find_entry key c.addrs_map) found c1 ran
  step-Pending addr p e c _ h (takes_index q taken c1 ran) =
      written-Pending addr p e c h step_index q c1 (take_index-Writes q taken c c1 ran)
        (λ i. h.marked) refl refl
  step-Pending addr p e c _ h (resolves_other key addrs now ne) = record {
    known = ground (arith, find_entry-others key addr c.addrs_map ne, h.known);
    entry = h.entry;
    there = get_elem?-append_left c.entries _ p (get_elem?-lt c.entries p h.there) ∙ h.there;
    marked = h.marked;
    same_addrs = h.same_addrs;
    same_time = h.same_time;
  }
  step-Pending addr p e c _ h (fails_other key c1 other ran) =
      failed-Pending addr p e c h (find_entry key c.addrs_map) c1 other ran
  step-Pending addr p e c _ h (cleans_in_time now c1 soon ran) =
      let (m1, kept, made) =
        bind-ok (clean_map now c.entries c.addrs_map) (λ m. ok (record c { addrs_map = m })) c1
          ran in
      let same : record c { addrs_map = m1 } ≡ c1 = cc (made) in
      rw (← same) (record {
        known = cleaned-known addr p e c h now c.addrs_map m1 soon h.known kept;
        entry = h.entry;
        there = h.there;
        marked = h.marked;
        same_addrs = h.same_addrs;
        same_time = h.same_time;
      })

  pub Meanwhile-Pending :
      (addr p : ℕ) (e : TcpAddrEntry IP Zone) (c c1 : Cache IP Zone)
      → Pending addr p e c
      → Meanwhile addr p e.resolve_time c c1
      → Pending addr p e c1
  Meanwhile-Pending addr p e c c1 h at_once = h
  Meanwhile-Pending addr p e c c1 h (then_step {c1 = c0} steps step) =
      step-Pending addr p e c0 c1 (Meanwhile-Pending addr p e c c0 h steps) step
