-- ===== src/Tcp/Dial/Addrs.antt =====
-- sleepytcp/dial_tcp.go: the cache of resolved addresses. A pointer to an entry is its number in
-- `entries`, which an entry keeps when the map has lost it. Each function is what runs under the
-- lock, or one atomic operation.
use slept.Prelude.{
  ℕ, ◌+◌, ◌-◌, ◌*◌, ◌%◌, ◌==◌, Bool, true, false, not, ◌&&◌, ltb, if◌then◌else◌, List, [], ◌∷◌,
  ◌++◌, length, Option, none, some,
}
use slept.Prelude.Results.{Result, ok, ◌>>=◌, index, store}
use slept.Tcp.Dial.Resolve.{Net, Reply, done, failed, TcpAddr, resolve_tcp_addrs}

pub record TcpAddrEntry (IP Zone : Type 0) : Type 0 where
  pub addrs : List (TcpAddr IP Zone)
  pub addrs_idx : ℕ
  pub resolve_time : ℕ
  pub pending : Bool

pub record Cache (IP Zone : Type 0) : Type 0 where
  pub entries : List (TcpAddrEntry IP Zone)
  pub addrs_map : List (ℕ × ℕ)

-- `DefaultDNSCacheDuration`
abbrev pub default_dns_cache_duration : ℕ
default_dns_cache_duration = 60 * 1000000000

-- `tcpAddrsMap[addr]`
unfoldable pub find_entry : ℕ → List (ℕ × ℕ) → Option ℕ
find_entry addr [] = none
find_entry addr ((key, e) ∷ rest) = if key == addr then some e else find_entry addr rest

-- `tcpAddrsMap[addr] = e`
unfoldable pub others : ℕ → List (ℕ × ℕ) → List (ℕ × ℕ)
others addr [] = []
others addr ((key, e) ∷ rest) =
    let left = others addr rest in if key == addr then left else (key, e) ∷ left

unfoldable pub assign : ℕ → ℕ → List (ℕ × ℕ) → List (ℕ × ℕ)
unfolding others
assign addr e m = (addr, e) ∷ others addr m

module _ {IP Zone : Type 0} where
  abbrev pub no_entries : Cache IP Zone
  no_entries = record { entries = []; addrs_map = [] }

  unfoldable pub is_expired : ℕ → TcpAddrEntry IP Zone → Bool
  is_expired now e = not e.pending && ltb default_dns_cache_duration (now - e.resolve_time)

  -- The entry found, if it may be used; who finds an expired one resolves anew.
  unfoldable pub use_entry : ℕ → Option ℕ → Cache IP Zone → Result (Cache IP Zone × Option ℕ)
  unfolding is_expired
  use_entry now none c = ok (c, none)
  use_entry now (some p) c = do
    e ← index c.entries p
    if is_expired now e
        then (do
          entries ← store c.entries p (record e { pending = true })
          ok (record c { entries = entries }, none))
        else ok (c, some p)

  unfoldable pub look_up : ℕ → ℕ → Cache IP Zone → Result (Cache IP Zone × Option ℕ)
  unfolding use_entry find_entry
  look_up addr now c = use_entry now (find_entry addr c.addrs_map) c

  -- After a failure to resolve.
  unfoldable pub unmark : Option ℕ → Cache IP Zone → Result (Cache IP Zone)
  unmark none c = ok c
  unmark (some p) c = do
    e ← index c.entries p
    if e.pending
        then (do
          entries ← store c.entries p (record e { pending = false })
          ok (record c { entries = entries }))
        else ok c

  unfoldable pub resolve_failed : ℕ → Cache IP Zone → Result (Cache IP Zone)
  unfolding unmark find_entry
  resolve_failed addr c = unmark (find_entry addr c.addrs_map) c

  -- The new entry, and its pointer.
  unfoldable pub resolved : ℕ → List (TcpAddr IP Zone) → ℕ → Cache IP Zone → Cache IP Zone × ℕ
  unfolding assign
  resolved addr addrs now c =
      let e : TcpAddrEntry IP Zone = record {
        addrs = addrs;
        addrs_idx = 0;
        resolve_time = now;
        pending = false;
      } in
      (
        record {
          entries = c.entries ++ e ∷ [];
          addrs_map = assign addr (length c.entries) c.addrs_map;
        },
        length c.entries,
      )

  -- `atomic.AddUint32`, and the addresses.
  unfoldable pub take_index :
      ℕ → Cache IP Zone → Result (Cache IP Zone × (List (TcpAddr IP Zone) × ℕ))
  take_index p c = do
    e ← index c.entries p
    let idx = (e.addrs_idx + 1) % 4294967296
    entries ← store c.entries p (record e { addrs_idx = idx })
    ok (record c { entries = entries }, (e.addrs, idx))

  -- A round of `tcpAddrsClean`, over the pairs of the map.
  unfoldable pub clean_map : ℕ → List (TcpAddrEntry IP Zone) → List (ℕ × ℕ) → Result (List (ℕ × ℕ))
  clean_map now entries [] = ok []
  clean_map now entries ((key, p) ∷ rest) = do
    e ← index entries p
    kept ← clean_map now entries rest
    ok (
        if ltb (2 * default_dns_cache_duration) (now - e.resolve_time)
        then kept
        else (key, p) ∷ kept)

  unfoldable pub clean : ℕ → Cache IP Zone → Result (Cache IP Zone)
  unfolding clean_map
  clean now c = do kept ← clean_map now c.entries c.addrs_map; ok (record c { addrs_map = kept })

-- `getTCPAddrs`, when no other goroutine uses the cache meanwhile: `now` and `later` are the times
-- that it reads.
module _ {IP Zone Resolver : Type 0} (net : Net IP Zone Resolver) where
  abbrev pub FoundAddrs : Type 0
  FoundAddrs = Cache IP Zone × Reply (List (TcpAddr IP Zone) × ℕ)

  unfoldable pub get_index : ℕ → Cache IP Zone → Result FoundAddrs
  unfolding take_index
  get_index p c = do (c1, taken) ← take_index p c; ok (c1, done taken)

  unfoldable pub get_resolved :
      ℕ → ℕ → Reply (List (TcpAddr IP Zone)) → Cache IP Zone → Result FoundAddrs
  unfolding resolve_failed resolved get_index
  get_resolved addr later (failed why) c = do c1 ← resolve_failed addr c; ok (c1, failed why)
  get_resolved addr later (done addrs) c =
      let (c1, p) = resolved addr addrs later c in get_index p c1

  unfoldable pub get_found :
      ℕ → ℕ → Option ℕ → Reply (List (TcpAddr IP Zone)) → Cache IP Zone → Result FoundAddrs
  unfolding get_resolved
  get_found addr later (some p) answer c = get_index p c
  get_found addr later none answer c = get_resolved addr later answer c

  unfoldable pub get_tcp_addrs :
      ℕ → Bool → Option Resolver → ℕ → ℕ → Cache IP Zone → Result FoundAddrs
  unfolding look_up get_found resolve_tcp_addrs
  get_tcp_addrs addr dual_stack resolver now later c = do
    (c1, found) ← look_up addr now c
    get_found addr later found (resolve_tcp_addrs net addr dual_stack resolver) c1
