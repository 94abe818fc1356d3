-- ===== src/Tcp/Dial/Sound.antt =====
-- The cache of addresses under every interleaving: its pointers are sound, and no entry is empty.
use slept.Prelude.{
  ℕ, ◌+◌, ◌-◌, ◌*◌, ◌%◌, ◌<◌, ◌≤◌, ◌≡◌, inl, inr, refl, arith, true, false, ltb, List, [], ◌∷◌,
  ◌++◌, length, Option, none, some, get_elem?, set, length-set, get_elem?-set_self,
  get_elem?-set_ne, get_elem?-some, get_elem?-lt, length-append, All, Bool-cases, ◌==◌,
}
use native.Mathlib.Decide.{ℕ_discrete, dec_lt}
use slept.Prelude.Positions.{get_elem?-append_left, get_elem?-append_right}
use slept.Prelude.Results.{Result, ok, store}
use slept.Tcp.Dial.Resolve.{Net, done, IpAddr, TcpAddr}
use slept.Tcp.Dial.Addrs.{
  TcpAddrEntry, Cache, find_entry, others, assign, is_expired, use_entry, look_up, unmark,
  resolve_failed, resolved, take_index, default_dns_cache_duration, clean_map, clean,
}

-- An entry has an address, and fewer than a uint32 can count.
abbrev pub IsFull : {IP Zone : Type 0} → TcpAddrEntry IP Zone → Type 0
IsFull e = (0 < length e.addrs) × (length e.addrs < 4294967296)

abbrev pub PointsBelow : ℕ → List (ℕ × ℕ) → Type 0
PointsBelow n m = All (λ (pair : ℕ × ℕ). pair.1 < n) m

pub record IsSound {IP Zone : Type 0} (c : Cache IP Zone) : Type 0 where
  pub pointers : PointsBelow (length c.entries) c.addrs_map
  pub full : (p : ℕ) (e : TcpAddrEntry IP Zone) → get_elem? c.entries p ≡ some e → IsFull e

-- The resolver gives fewer addresses than a uint32 can count.
abbrev pub IsSmall : {IP Zone Resolver : Type 0} → Net IP Zone Resolver → Type 0
IsSmall {IP} {Zone} {Resolver} net =
    (r : Resolver) (host : ℕ) (found : List (IpAddr IP Zone))
    → net.lookup_ip_addr r host ≡ done found
    → length found < 4294967296

below_more : (n k : ℕ) (m : List (ℕ × ℕ)) → n ≤ k → PointsBelow n m → PointsBelow k m
below_more n k [] le h = tt
below_more n k (pair ∷ m) le h = (omega (arith, h.0), below_more n k m le h.1)

find_entry-below :
    (n addr p : ℕ) (m : List (ℕ × ℕ)) → PointsBelow n m → find_entry addr m ≡ some p → p < n
unfolding find_entry
find_entry-below n addr p [] h e = absurd (cc (e))
find_entry-below n addr p ((key, q) ∷ m) h e = elim (Bool-cases (key == addr)) [
  | inl y ↦ let same : q ≡ p = cc (rw y at e) in rw same at h.0
  | inr z ↦ find_entry-below n addr p m h.1 (rw z at e)
]

others-below : (n addr : ℕ) (m : List (ℕ × ℕ)) → PointsBelow n m → PointsBelow n (others addr m)
unfolding others
others-below n addr [] h = tt
others-below n addr ((key, q) ∷ m) h = elim (Bool-cases (key == addr)) [
  | inl y ↦ rw y (others-below n addr m h.1)
  | inr z ↦ rw z (h.0, others-below n addr m h.1)
]

module _ {IP Zone : Type 0} where
  -- One entry written, whose addresses stay.
  written-IsSound :
      (c : Cache IP Zone) (p : ℕ) (e e1 : TcpAddrEntry IP Zone)
      → IsSound c
      → get_elem? c.entries p ≡ some e
      → e1.addrs ≡ e.addrs
      → IsSound (record c { entries = set c.entries p e1 })
  written-IsSound c p e e1 sound there same = record {
    pointers = below_more _ _ c.addrs_map (omega (arith, length-set c.entries p e1)) sound.pointers;
    full = λ q e2 at. elim (ℕ_discrete p q) [
      | yes i ↦
          let new : e1 ≡ e2 = cc (
            rw i at (get_elem?-set_self c.entries p e1 (get_elem?-lt c.entries p there)),
            rw i at at,
          ) in
          rw (← new, same) (sound.full p e there)
      | no i ↦ sound.full q e2 (rw (get_elem?-set_ne c.entries p q e1 i) at at)
    ];
  }

  store-there :
      (c : Cache IP Zone) (p : ℕ) (e e1 : TcpAddrEntry IP Zone)
      → get_elem? c.entries p ≡ some e
      → store c.entries p e1 ≡ ok (set c.entries p e1)
  store-there c p e e1 there = ground (arith, get_elem?-lt c.entries p there)

  -- What a section that may hand out a pointer leaves.
  abbrev pub Leaves : Result (Cache IP Zone × Option ℕ) → Type 0
  Leaves call =
      (c1 : Cache IP Zone) × (found : Option ℕ) × (call ≡ ok (c1, found))
      × IsSound c1
      × ((p : ℕ) → found ≡ some p → p < length c1.entries)

  use_entry-Leaves :
      (now : ℕ) (at : Option ℕ) (c : Cache IP Zone)
      → IsSound c
      → ((p : ℕ) → at ≡ some p → p < length c.entries)
      → Leaves (use_entry now at c)
  unfolding use_entry
  use_entry-Leaves now none c sound known = (c, none, refl, sound, λ p e. absurd (cc (e)))
  use_entry-Leaves now (some p) c sound known =
      let (e, there) = get_elem?-some c.entries p (known p refl) in
      elim (Bool-cases (is_expired now e)) [
        | inl y ↦ (
          record c { entries = set c.entries p (record e { pending = true }) },
          none,
          ground (arith, there, y, store-there c p e (record e { pending = true }) there),
          written-IsSound c p e (record e { pending = true }) sound there refl,
          λ q z. absurd (cc (z)),
        )
        | inr n ↦ (c, some p, ground (arith, there, n), sound, known)
      ]

  pub look_up-Leaves : (addr now : ℕ) (c : Cache IP Zone) → IsSound c → Leaves (look_up addr now c)
  unfolding look_up
  look_up-Leaves addr now c sound =
      use_entry-Leaves now (find_entry addr c.addrs_map) c sound
        (λ p e. find_entry-below (length c.entries) addr p c.addrs_map sound.pointers e)

  unmark-IsSound :
      (at : Option ℕ) (c : Cache IP Zone)
      → IsSound c
      → ((p : ℕ) → at ≡ some p → p < length c.entries)
      → (c1 : Cache IP Zone) × (unmark at c ≡ ok c1) × IsSound c1
  unfolding unmark
  unmark-IsSound none c sound known = (c, refl, sound)
  unmark-IsSound (some p) c sound known =
      let (e, there) = get_elem?-some c.entries p (known p refl) in
      elim (Bool-cases e.pending) [
        | inl y ↦ (
          record c { entries = set c.entries p (record e { pending = false }) },
          ground (arith, there, y, store-there c p e (record e { pending = false }) there),
          written-IsSound c p e (record e { pending = false }) sound there refl,
        )
        | inr n ↦ (c, ground (arith, there, n), sound)
      ]

  pub resolve_failed-IsSound :
      (addr : ℕ) (c : Cache IP Zone)
      → IsSound c
      → (c1 : Cache IP Zone) × (resolve_failed addr c ≡ ok c1) × IsSound c1
  unfolding resolve_failed
  resolve_failed-IsSound addr c sound =
      unmark-IsSound (find_entry addr c.addrs_map) c sound
        (λ p e. find_entry-below (length c.entries) addr p c.addrs_map sound.pointers e)

  pub resolved-IsSound :
      (addr : ℕ) (addrs : List (TcpAddr IP Zone)) (now : ℕ) (c : Cache IP Zone)
      → IsSound c
      → 0 < length addrs
      → length addrs < 4294967296
      → IsSound (resolved addr addrs now c).0
        × ((resolved addr addrs now c).1 < length (resolved addr addrs now c).0.entries)
  unfolding resolved assign
  resolved-IsSound addr addrs now c sound some_addr few =
      let e : TcpAddrEntry IP Zone = record {
        addrs = addrs;
        addrs_idx = 0;
        resolve_time = now;
        pending = false;
      } in
      let more : length (c.entries ++ e ∷ []) ≡ length c.entries + 1 =
        length-append c.entries (e ∷ []) in
      (
        record {
          pointers = (
            omega (arith, more),
            below_more (length c.entries) _ (others addr c.addrs_map) (omega (arith, more))
                (others-below (length c.entries) addr c.addrs_map sound.pointers),
          );
          full = λ p e2 at. elim (dec_lt p (length c.entries)) [
            | yes l ↦ sound.full p e2 (rw (get_elem?-append_left c.entries (e ∷ []) p l) at at)
            | no l ↦
                let last : p ≡ length c.entries + 0 =
                  omega (arith, l, more, get_elem?-lt (c.entries ++ e ∷ []) p at) in
                let same : e ≡ e2 =
                  cc (rw (get_elem?-append_right c.entries (e ∷ []) p 0 last) at at) in
                rw (← same) (some_addr, few)
          ];
        },
        omega (arith, more),
      )

  pub take_index-IsSound :
      (p : ℕ) (c : Cache IP Zone)
      → IsSound c
      → p < length c.entries
      → (c1 : Cache IP Zone) × (addrs : List (TcpAddr IP Zone)) × (idx : ℕ) × (take_index p c
          ≡ ok (c1, (addrs, idx)))
        × IsSound c1
        × (0 < length addrs)
        × (length addrs < 4294967296)
        × (idx < 4294967296)
  unfolding take_index
  take_index-IsSound p c sound below =
      let (e, there) = get_elem?-some c.entries p below in
      let idx = (e.addrs_idx + 1) % 4294967296 in
      let (some_addr, few) = sound.full p e there in
      (
        record c { entries = set c.entries p (record e { addrs_idx = idx }) },
        e.addrs,
        idx,
        ground (arith, there, store-there c p e (record e { addrs_idx = idx }) there),
        written-IsSound c p e (record e { addrs_idx = idx }) sound there refl,
        some_addr,
        few,
        omega arith,
      )

  clean_map-below :
      (now : ℕ) (entries : List (TcpAddrEntry IP Zone)) (m : List (ℕ × ℕ))
      → PointsBelow (length entries) m
      → (m1 : List (ℕ × ℕ)) × (clean_map now entries m ≡ ok m1) × PointsBelow (length entries) m1
  unfolding clean_map
  clean_map-below now entries [] h = ([], refl, tt)
  clean_map-below now entries ((key, p) ∷ m) h =
      let (e, there) = get_elem?-some entries p h.0 in
      let (m1, ran, below) = clean_map-below now entries m h.1 in
      elim (Bool-cases (ltb (2 * default_dns_cache_duration) (now - e.resolve_time))) [
        | inl y ↦ (m1, ground (arith, there, ran, y), below)
        | inr n ↦ ((key, p) ∷ m1, ground (arith, there, ran, n), (h.0, below))
      ]

  pub clean-IsSound :
      (now : ℕ) (c : Cache IP Zone)
      → IsSound c
      → (c1 : Cache IP Zone) × (clean now c ≡ ok c1) × IsSound c1
  unfolding clean
  clean-IsSound now c sound =
      let (m1, ran, below) = clean_map-below now c.entries c.addrs_map sound.pointers in
      (record c { addrs_map = m1 }, rw ran refl, record { pointers = below; full = sound.full })
