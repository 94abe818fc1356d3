-- ===== src/Tcp/Dial/Meanwhile.antt =====
-- What the goroutines may do to the cache while one of them resolves the address of an entry.
use slept.Prelude.{
  ℕ, ◌+◌, ◌*◌, ◌≤◌, ◌≡◌, ◌≢◌, ◌⊎◌, inl, inr, arith, Bool, true, false, List, Option, some,
  get_elem?, get_elem?-lt, set, Bool-cases, Option-cases, ◌%◌,
}
use slept.Prelude.Results.{ok, store}
use slept.Tcp.Dial.Resolve.{TcpAddr}
use slept.Tcp.Dial.Addrs.{
  TcpAddrEntry, Cache, find_entry, is_expired, use_entry, look_up, unmark, resolve_failed, resolved,
  take_index, default_dns_cache_duration, clean,
}

module _ {IP Zone : Type 0} where
  -- One section: a look-up of any address, an index of any entry, a new entry for another address, a
  -- failure to resolve what has another entry, or a round of the cleaner that comes at most two
  -- minutes after `born`.
  pub data MeanwhileStep (addr p born : ℕ) (c : Cache IP Zone) : Cache IP Zone → Type 0 where
    looks_up :
        (key now : ℕ) (found : Option ℕ) (c1 : Cache IP Zone)
        → look_up key now c ≡ ok (c1, found)
        → MeanwhileStep addr p born c c1
    takes_index :
        (q : ℕ) (taken : List (TcpAddr IP Zone) × ℕ) (c1 : Cache IP Zone)
        → take_index q c ≡ ok (c1, taken)
        → MeanwhileStep addr p born c c1
    resolves_other :
        (key : ℕ) (addrs : List (TcpAddr IP Zone)) (now : ℕ)
        → key ≢ addr
        → MeanwhileStep addr p born c (resolved key addrs now c).0
    fails_other :
        (key : ℕ) (c1 : Cache IP Zone)
        → find_entry key c.addrs_map ≢ some p
        → resolve_failed key c ≡ ok c1
        → MeanwhileStep addr p born c c1
    cleans_in_time :
        (now : ℕ) (c1 : Cache IP Zone)
        → now ≤ born + 2 * default_dns_cache_duration
        → clean now c ≡ ok c1
        → MeanwhileStep addr p born c c1

  -- Any number of them, in any order.
  pub data Meanwhile (addr p born : ℕ) (c : Cache IP Zone) : Cache IP Zone → Type 0 where
    at_once : Meanwhile addr p born c c
    then_step :
        {c1 c2 : Cache IP Zone}
        → Meanwhile addr p born c c1
        → MeanwhileStep addr p born c1 c2
        → Meanwhile addr p born c c2

  -- The entry is pending, and has the addresses and the time that it had.
  pub record Pending (addr p : ℕ) (e : TcpAddrEntry IP Zone) (c : Cache IP Zone) : Type 0 where
    pub known : find_entry addr c.addrs_map ≡ some p
    pub entry : TcpAddrEntry IP Zone
    pub there : get_elem? c.entries p ≡ some entry
    pub marked : entry.pending ≡ true
    pub same_addrs : entry.addrs ≡ e.addrs
    pub same_time : entry.resolve_time ≡ e.resolve_time

  store-known :
      (c : Cache IP Zone) (q : ℕ) (e0 e1 : TcpAddrEntry IP Zone)
      → get_elem? c.entries q ≡ some e0
      → store c.entries q e1 ≡ ok (set c.entries q e1)
  store-known c q e0 e1 there = ground (arith, get_elem?-lt c.entries q there)

  -- A section wrote no entry, or this one.
  abbrev pub Writes :
      (TcpAddrEntry IP Zone → TcpAddrEntry IP Zone) → ℕ → Cache IP Zone → Cache IP Zone → Type 0
  Writes change q c c1 =
      (c1 ≡ c)
      ⊎ (e0 : TcpAddrEntry IP Zone) × (get_elem? c.entries q ≡ some e0)
        × (c1 ≡ record c { entries = set c.entries q (change e0) })

  abbrev pub mark : Bool → TcpAddrEntry IP Zone → TcpAddrEntry IP Zone
  mark b e = record e { pending = b }

  abbrev pub step_index : TcpAddrEntry IP Zone → TcpAddrEntry IP Zone
  step_index e = record e { addrs_idx = (e.addrs_idx + 1) % 4294967296 }

  pub use_entry-Writes :
      (now q : ℕ) (c c1 : Cache IP Zone) (found : Option ℕ)
      → use_entry now (some q) c ≡ ok (c1, found)
      → Writes (mark true) q c c1
  unfolding use_entry
  use_entry-Writes now q c c1 found ran = elim (Option-cases (get_elem? c.entries q)) [
    | inl outside ↦ absurd (ground (arith, outside, ran))
    | inr (e0, there) ↦ elim (Bool-cases (is_expired now e0)) [
      | inl y ↦
          inr (e0, there, ground (arith, there, y, ran, store-known c q e0 (mark true e0) there))
      | inr n ↦ inl (ground (arith, there, n, ran))
    ]
  ]

  pub unmark-Writes :
      (q : ℕ) (c c1 : Cache IP Zone) → unmark (some q) c ≡ ok c1 → Writes (mark false) q c c1
  unfolding unmark
  unmark-Writes q c c1 ran = elim (Option-cases (get_elem? c.entries q)) [
    | inl outside ↦ absurd (ground (arith, outside, ran))
    | inr (e0, there) ↦ elim (Bool-cases e0.pending) [
      | inl y ↦
          inr (e0, there, ground (arith, there, y, ran, store-known c q e0 (mark false e0) there))
      | inr n ↦ inl (ground (arith, there, n, ran))
    ]
  ]

  pub take_index-Writes :
      (q : ℕ) (taken : List (TcpAddr IP Zone) × ℕ) (c c1 : Cache IP Zone)
      → take_index q c ≡ ok (c1, taken)
      → Writes step_index q c c1
  unfolding take_index
  take_index-Writes q taken c c1 ran = elim (Option-cases (get_elem? c.entries q)) [
    | inl outside ↦ absurd (ground (arith, outside, ran))
    | inr (e0, there) ↦
        inr (e0, there, ground (arith, there, ran, store-known c q e0 (step_index e0) there))
  ]
