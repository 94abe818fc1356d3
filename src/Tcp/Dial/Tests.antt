-- ===== src/Tcp/Dial/Tests.antt =====
-- A dialer whose resolver knows two addresses of each host, of which only the first is IPv4; the
-- first does not answer.
use slept.Prelude.{
  ℕ, ◌<◌, ◌≤◌, ◌≡◌, ◌≢◌, ◌==◌, refl, arith, true, false, List, [], ◌∷◌, length, get_elem?, Option,
  none, some, Bool-cases, inl, inr, ltb, if◌then◌else◌,
}
use slept.Prelude.Int.{pos}
use slept.Prelude.Results.{ok}
use slept.Tcp.Dial.Resolve.{
  Net, done, from_net, IpAddr, TcpAddr, resolve_tcp_addrs, tcp_addrs, some_addrs, chosen_resolver,
}
use slept.Tcp.Dial.Addrs.{
  TcpAddrEntry, Cache, look_up, resolve_failed, resolved, take_index, clean, get_tcp_addrs, assign,
  others, find_entry, is_expired,
}
use slept.Tcp.Dial.{Dialed, TcpDialer, World, dial_loop, dial_addr, default_dialer}
use slept.Tcp.Dial.Sound.{IsSound, IsSmall}
use slept.Tcp.Dial.Reach.{CacheReach, fresh, after, resolves, CacheReach-returns}
use slept.Tcp.Dial.Rounds.{dial_loop-last}
use slept.Tcp.Dial.Settled.{Settled, dial_loop-Settled}
use slept.Tcp.Dial.Answers.{IsAnswer, dial_addr-Answers}
use slept.Prelude.Cells.{overwrite, sum_cells}
use slept.Tcp.Dial.Tokens.{
  Dials, dials, dials_late, begins, moves, times_out, none_yet, stepped, DialReach, has_token,
  is_dialing, DialReach-bounded,
}
use slept.Tcp.Dial.Meanwhile.{Meanwhile}
use slept.Tcp.Dial.Cached.{get_tcp_addrs-cached, look_up-once}

abbrev four : IpAddr ℕ ℕ
four = record { ip = 4; zone = 0 }

abbrev six : IpAddr ℕ ℕ
six = record { ip = 600; zone = 0 }

abbrev net : Net ℕ ℕ ℕ
net = record {
  split_host_port = λ text. done (text, 80);
  atoi = λ text. done (pos text);
  default_resolver = 0;
  lookup_ip_addr = λ r host. done (four ∷ six ∷ []);
  to4 = λ ip. ltb ip 100;
}

abbrev at_four : TcpAddr ℕ ℕ
at_four = record { ip = 4; port = pos 80; zone = 0 }

abbrev at_six : TcpAddr ℕ ℕ
at_six = record { ip = 600; port = pos 80; zone = 0 }

net-IsSmall : IsSmall net
net-IsSmall r host found e =
    let same : four ∷ six ∷ [] ≡ found = cc (e) in rw (← same) (omega arith)

-- Only the second address answers.
abbrev answer : ℕ → TcpAddr ℕ ℕ → Dialed ℕ
answer k a = if a.ip == 600 then (some 7, none) else (none, some (from_net 1))

abbrev both : List (TcpAddr ℕ ℕ)
both = at_four ∷ at_six ∷ []

-- With an even index the first address is tried twice, and the second never.
missed : dial_loop answer both 2 0 2 none ≡ ok (none, some (from_net 1))
unfolding dial_loop
missed = refl

found : dial_loop answer both 2 0 3 none ≡ ok (some 7, none)
unfolding dial_loop
found = refl

dial_loop-last_example :
    dial_loop answer both 2 0 2 none ≡ dial_loop answer (at_four ∷ at_four ∷ []) 2 0 2 none
dial_loop-last_example = dial_loop-last answer (at_four ∷ []) at_six at_four 0 2 (omega arith)

dial_loop-Settled_example :
    (result : Dialed ℕ) × (dial_loop answer both 2 0 3 none ≡ ok result)
    × Settled answer both 2 0 3 result
dial_loop-Settled_example =
    dial_loop-Settled answer both 2 0 3 none (omega arith) (omega arith) (omega arith)

abbrev one_entry : TcpAddrEntry ℕ ℕ
one_entry = record { addrs = both; addrs_idx = 0; resolve_time = 0; pending = false }

abbrev known : Cache ℕ ℕ
known = record { entries = one_entry ∷ []; addrs_map = (5, 0) ∷ [] }

known-CacheReach : CacheReach net known
unfolding resolved assign others resolve_tcp_addrs tcp_addrs some_addrs chosen_resolver
known-CacheReach = after fresh (resolves 5 true none both 0 refl)

CacheReach-returns_example :
    ((c1 : Cache ℕ ℕ) × (at : Option ℕ) × (look_up 5 9 known ≡ ok (c1, at))
      × ((q : ℕ) → at ≡ some q → q < length c1.entries))
    × ((c1 : Cache ℕ ℕ) × (resolve_failed 5 known ≡ ok c1))
    × ((c1 : Cache ℕ ℕ) × (addrs : List (TcpAddr ℕ ℕ)) × (idx : ℕ) × (take_index 0 known
          ≡ ok (c1, (addrs, idx)))
        × (0 < length addrs)
        × (idx < 4294967296))
    × ((c1 : Cache ℕ ℕ) × (clean 9 known ≡ ok c1))
CacheReach-returns_example =
    CacheReach-returns net net-IsSmall known known-CacheReach 5 9 0 (omega arith)

-- A tcp4 dial that finds what a dual-stack dial has resolved.
get_tcp_addrs-cached_example :
    get_tcp_addrs net 5 false none 9 10 known
    ≡ ok (record known { entries = record one_entry { addrs_idx = 1 } ∷ [] }, done (both, 1))
unfolding is_expired find_entry
get_tcp_addrs-cached_example =
    get_tcp_addrs-cached known 5 0 one_entry refl refl net false none 9 10 refl

look_up-once_example :
    (c1 : Cache ℕ ℕ) × (look_up 5 60_000_000_001 known ≡ ok (c1, none))
    × ((c2 : Cache ℕ ℕ) (later : ℕ)
        → Meanwhile 5 0 0 c1 c2
        → (look_up 5 later c2 ≡ ok (c2, some 0))
          × ((e2 : TcpAddrEntry ℕ ℕ) × (get_elem? c2.entries 0 ≡ some e2)
              × (e2.addrs ≡ one_entry.addrs)))
    × (resolve_failed 5 c1 ≡ ok known)
unfolding is_expired find_entry
look_up-once_example = look_up-once known 5 0 one_entry refl refl 60_000_000_001 refl

abbrev world : World ℕ ℕ ℕ
world = record {
  looked_up_at = 1;
  resolved_at = 2;
  dialed_at = 3;
  tries = λ k. record {
    now = 4;
    slot_free = true;
    slot_in_time = false;
    dial_tcp = λ network local a. some (answer k a);
  };
}

answer-some : (k : ℕ) (a : TcpAddr ℕ ℕ) (conn : Option ℕ) → answer k a ≡ (conn, none) → conn ≢ none
answer-some k a conn e = elim (Bool-cases (a.ip == 600)) [
  | inl y ↦ λ z. absurd (cc (rw y at e, z))
  | inr n ↦ absurd (cc (rw n at e))
]

dial_addr-Answers_example :
    (d1 : TcpDialer ℕ ℕ ℕ) × (dialed : Dialed ℕ) × (dial_addr net 5 none true world default_dialer
      ≡ ok (d1, dialed))
    × IsSound d1.cache
    × IsAnswer dialed
dial_addr-Answers_example =
    dial_addr-Answers net net-IsSmall world
      (λ k network local a conn e. answer-some k a conn (cc (e))) 5 true default_dialer
      (λ started. absurd (cc (started)))

-- A dialer with a Concurrency of 1: the only try times out.
abbrev one_try : Dials ℕ
one_try = record { tries = overwrite 0 dials (λ k. dials); begun = 1; tokens = 1 }

abbrev gone : Dials ℕ
gone = record one_try { tries = overwrite 0 dials_late one_try.tries }

gone-DialReach : DialReach 1 gone
gone-DialReach =
    stepped (stepped (none_yet (λ k. dials)) (begins (omega arith)))
      (moves 0 dials_late (omega arith) times_out)

DialReach-bounded_example :
    (sum_cells has_token gone.tries 1 ≡ 1) × (sum_cells is_dialing gone.tries 1 ≤ 1)
DialReach-bounded_example = DialReach-bounded 1 gone gone-DialReach
