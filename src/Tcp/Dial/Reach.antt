-- ===== src/Tcp/Dial/Reach.antt =====
-- The goroutines that dial, and the one that cleans, on one cache of addresses.
use slept.Prelude.{
  ℕ, ◌<◌, ◌≤◌, ◌≡◌, inl, inr, refl, arith, Bool, not, ◌&&◌, List, [], ◌∷◌, length, Option, some,
  ◌==◌, Bool-cases,
}
use slept.Prelude.Int.{ℤ}
use slept.Prelude.Results.{ok}
use slept.Tcp.Dial.Resolve.{
  Net, Reply, done, failed, IpAddr, TcpAddr, resolve_tcp_addrs, tcp_addrs, some_addrs,
  chosen_resolver, ◌>>=◌,
}
use slept.Tcp.Dial.Addrs.{Cache, no_entries, look_up, resolve_failed, resolved, take_index, clean}
use slept.Tcp.Dial.Sound.{
  IsSound, IsSmall, look_up-Leaves, resolve_failed-IsSound, resolved-IsSound, take_index-IsSound,
  clean-IsSound,
}

-- One section of a goroutine: it looks an address up, notes that it could not be resolved, or
-- resolves it and writes its entry; it takes the next index of an entry; or it cleans the map. The
-- sections of goroutines come in any order.
pub data CacheStep {IP Zone Resolver : Type 0} (net : Net IP Zone Resolver) (c : Cache IP Zone)
    : Cache IP Zone → Type 0 where
  looks :
      (addr now : ℕ) (found : Option ℕ) (c1 : Cache IP Zone)
      → look_up addr now c ≡ ok (c1, found)
      → CacheStep net c c1
  fails : (addr : ℕ) (c1 : Cache IP Zone) → resolve_failed addr c ≡ ok c1 → CacheStep net c c1
  resolves :
      (addr : ℕ) (dual_stack : Bool) (resolver : Option Resolver) (addrs : List (TcpAddr IP Zone))
      (now : ℕ)
      → resolve_tcp_addrs net addr dual_stack resolver ≡ done addrs
      → CacheStep net c (resolved addr addrs now c).0
  takes :
      (p : ℕ) (addrs : List (TcpAddr IP Zone)) (idx : ℕ) (c1 : Cache IP Zone)
      → p < length c.entries
      → take_index p c ≡ ok (c1, (addrs, idx))
      → CacheStep net c c1
  cleans : (now : ℕ) (c1 : Cache IP Zone) → clean now c ≡ ok c1 → CacheStep net c c1

pub data CacheReach {IP Zone Resolver : Type 0} (net : Net IP Zone Resolver)
    : Cache IP Zone → Type 0 where
  fresh : CacheReach net no_entries
  after : {c c1 : Cache IP Zone} → CacheReach net c → CacheStep net c c1 → CacheReach net c1

bind-done :
    {A B : Type 0} (reply : Reply A) (next : A → Reply B) (b : B)
    → (reply >>= next) ≡ done b
    → (a : A) × (reply ≡ done a) × (next a ≡ done b)
bind-done (done a) next b e = (a, refl, e)
bind-done (failed why) next b e = absurd (cc (e))

module _ {IP Zone Resolver : Type 0} (net : Net IP Zone Resolver) where
  tcp_addrs-fewer :
      (dual_stack : Bool) (port : ℤ) (found : List (IpAddr IP Zone))
      → length (tcp_addrs net dual_stack port found) ≤ length found
  unfolding tcp_addrs
  tcp_addrs-fewer dual_stack port [] = omega arith
  tcp_addrs-fewer dual_stack port (a ∷ found) =
      elim (Bool-cases (not dual_stack && not (net.to4 a.ip))) [
        | inl y ↦ rw y (omega (arith, tcp_addrs-fewer dual_stack port found))
        | inr n ↦ rw n (omega (arith, tcp_addrs-fewer dual_stack port found))
      ]

  -- Addresses that were resolved are some, and not too many.
  Counted : List (TcpAddr IP Zone) → Reply (List (TcpAddr IP Zone)) → Type 0
  Counted addrs reply = reply ≡ done addrs → (0 < length addrs) × (length addrs < 4294967296)

  some_addrs-Counted :
      (given addrs : List (TcpAddr IP Zone))
      → length given < 4294967296
      → Counted addrs (some_addrs net given)
  unfolding some_addrs Counted
  some_addrs-Counted given addrs few e = elim (Bool-cases (length given == 0)) [
    | inl y ↦ absurd (cc (rw y at e))
    | inr n ↦ let same : given ≡ addrs = cc (rw n at e) in rw (← same) (ground (arith, n), few)
  ]

  pub resolve_tcp_addrs-Counted :
      IsSmall net
      → (addr : ℕ) (dual_stack : Bool) (resolver : Option Resolver) (addrs : List (TcpAddr IP Zone))
      → resolve_tcp_addrs net addr dual_stack resolver ≡ done addrs
      → (0 < length addrs) × (length addrs < 4294967296)
  unfolding resolve_tcp_addrs Counted
  resolve_tcp_addrs-Counted small addr dual_stack resolver addrs e =
      let (parts, split_ok, e1) = bind-done (net.split_host_port addr) _ addrs e in
      let (port, port_ok, e2) = bind-done (net.atoi parts.1) _ addrs e1 in
      let (found, found_ok, e3) =
        bind-done (net.lookup_ip_addr (chosen_resolver net resolver) parts.0) _ addrs e2 in
      some_addrs-Counted (tcp_addrs net dual_stack port found) addrs
        (omega (
          arith,
          tcp_addrs-fewer dual_stack port found,
          small (chosen_resolver net resolver) parts.0 found found_ok,
        ))
        e3

  module _ (small : IsSmall net) where
    step-IsSound : (c c1 : Cache IP Zone) → CacheStep net c c1 → IsSound c → IsSound c1
    step-IsSound c c1 (looks addr now found _ ran) sound =
        let (c2, found2, ran2, sound2, known) = look_up-Leaves addr now c sound in
        let same : c2 ≡ c1 = cc (ran, ran2) in rw same at sound2
    step-IsSound c c1 (fails addr _ ran) sound =
        let (c2, ran2, sound2) = resolve_failed-IsSound addr c sound in
        let same : c2 ≡ c1 = cc (ran, ran2) in rw same at sound2
    step-IsSound c c1 (resolves addr dual_stack resolver addrs now e) sound =
        let (some_addr, few) = resolve_tcp_addrs-Counted small addr dual_stack resolver addrs e in
        (resolved-IsSound addr addrs now c sound some_addr few).0
    step-IsSound c c1 (takes p addrs idx _ below ran) sound =
        let (c2, addrs2, idx2, ran2, sound2, some_addr, few, small_idx) =
          take_index-IsSound p c sound below in
        let same : c2 ≡ c1 = cc (ran, ran2) in rw same at sound2
    step-IsSound c c1 (cleans now _ ran) sound =
        let (c2, ran2, sound2) = clean-IsSound now c sound in
        let same : c2 ≡ c1 = cc (ran, ran2) in rw same at sound2

    -- If resolvers give fewer addresses than a uint32 can count, then whatever the goroutines of a
    -- dialer do, in any order, the pointers of the cache point to entries and each entry, also one
    -- that the map has lost, has an address.
    pub CacheReach-IsSound : (c : Cache IP Zone) → CacheReach net c → IsSound c
    CacheReach-IsSound c fresh = record { pointers = tt; full = λ p e at. absurd (cc (at)) }
    CacheReach-IsSound c (after {c = c0} before step) =
        step-IsSound c0 c step (CacheReach-IsSound c0 before)

    -- In every such state no section panics: not looking an address up, noting a failure, taking
    -- the index of a pointer that was handed out, or cleaning.
    pub CacheReach-returns :
        (c : Cache IP Zone)
        → CacheReach net c
        → (addr now p : ℕ) → p < length c.entries
        → ((c1 : Cache IP Zone) × (found : Option ℕ) × (look_up addr now c ≡ ok (c1, found))
            × ((q : ℕ) → found ≡ some q → q < length c1.entries))
          × ((c1 : Cache IP Zone) × (resolve_failed addr c ≡ ok c1))
          × ((c1 : Cache IP Zone) × (addrs : List (TcpAddr IP Zone)) × (idx : ℕ) × (take_index p c
                ≡ ok (c1, (addrs, idx)))
              × (0 < length addrs)
              × (idx < 4294967296))
          × ((c1 : Cache IP Zone) × (clean now c ≡ ok c1))
    CacheReach-returns c reached addr now p below =
        let sound = CacheReach-IsSound c reached in
        let (c1, found, ran1, sound1, known) = look_up-Leaves addr now c sound in
        let (c2, ran2, sound2) = resolve_failed-IsSound addr c sound in
        let (c3, addrs, idx, ran3, sound3, some_addr, few, small_idx) =
          take_index-IsSound p c sound below in
        let (c4, ran4, sound4) = clean-IsSound now c sound in
        (
          (c1, found, ran1, known),
          (c2, ran2),
          (c3, addrs, idx, ran3, some_addr, small_idx),
          (c4, ran4),
        )
