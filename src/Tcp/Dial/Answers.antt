-- ===== src/Tcp/Dial/Answers.antt =====
-- `dial` and `dialAddr` as a whole: they give a connection or an error.
use native.Mathlib.Nat.{mod-eq_of_lt}
use slept.Prelude.{
  ℕ, ◌+◌, ◌%◌, ◌<◌, ◌≡◌, ◌≢◌, ◌⊎◌, inl, inr, refl, ◌∙◌, ap, arith, Bool, true, false, not, List,
  length, leb, Option, none, some, Bool-cases, Option-cases,
}
use slept.Prelude.Results.{Result, ok}
use slept.Tcp.Dial.Resolve.{Net, Reply, done, failed, DialError, TcpAddr, resolve_tcp_addrs}
use slept.Tcp.Dial.Addrs.{
  Cache, get_index, get_resolved, get_found, get_tcp_addrs, resolved, FoundAddrs,
}
use slept.Tcp.Dial.{
  Network, Dialed, Events, TcpDialer, World, start, has_slot, first_of, try_dial, network_of,
  dial_loop, dial_found, dial, chosen_dial, checked, dial_addr, DialOutcome, default_dial_timeout,
}
use slept.Tcp.Dial.Sound.{
  IsSound, IsSmall, look_up-Leaves, resolve_failed-IsSound, resolved-IsSound, take_index-IsSound,
}
use slept.Tcp.Dial.Reach.{resolve_tcp_addrs-Counted}
use slept.Tcp.Dial.Settled.{Settled, dial_loop-Settled}

-- A connection, or an error.
abbrev pub IsAnswer : {Conn : Type 0} → Dialed Conn → Type 0
IsAnswer {Conn} r =
    ((conn : Conn) × (r ≡ (some conn, none))) ⊎ ((why : DialError) × (r ≡ (none, some why)))

-- `net.DialTCP` gives a connection when it gives no error.
abbrev pub IsConnecting : {IP Zone Conn : Type 0} → World IP Zone Conn → Type 0
IsConnecting {IP} {Zone} {Conn} w =
    (k : ℕ) (network : Network) (local : Option (TcpAddr IP Zone)) (addr : TcpAddr IP Zone)
    (conn : Option Conn)
    → (w.tries k).dial_tcp network local addr ≡ some (conn, none)
    → conn ≢ none

-- The addresses and the index that a dial gets, if there is no error.
abbrev IsGiven : {IP Zone : Type 0} → Reply (List (TcpAddr IP Zone) × ℕ) → Type 0
IsGiven (failed why) = Unit {0}
IsGiven (done (addrs, idx)) = (0 < length addrs) × (length addrs < 4294967296) × (idx < 4294967296)

module _ {IP Zone Resolver : Type 0} (net : Net IP Zone Resolver) where
  abbrev Gets : Result (FoundAddrs net) → Type 0
  Gets call =
      (c1 : Cache IP Zone) × (reply : Reply (List (TcpAddr IP Zone) × ℕ)) × (call ≡ ok (c1, reply))
      × IsSound c1
      × IsGiven reply

  get_index-Gets :
      (p : ℕ) (c : Cache IP Zone) → IsSound c → p < length c.entries → Gets (get_index net p c)
  unfolding get_index
  get_index-Gets p c sound below =
      let (c1, addrs, idx, ran, sound1, some_addr, few, small) =
        take_index-IsSound p c sound below in
      (c1, done (addrs, idx), rw ran refl, sound1, (some_addr, few, small))

  get_resolved-Gets :
      (addr later : ℕ) (answer : Reply (List (TcpAddr IP Zone))) (c : Cache IP Zone)
      → IsSound c
      → ((addrs : List (TcpAddr IP Zone))
          → answer ≡ done addrs
          → (0 < length addrs) × (length addrs < 4294967296))
      → Gets (get_resolved net addr later answer c)
  unfolding get_resolved
  get_resolved-Gets addr later (failed why) c sound counted =
      let (c1, ran, sound1) = resolve_failed-IsSound addr c sound in
      (c1, failed why, rw ran refl, sound1, tt)
  get_resolved-Gets addr later (done addrs) c sound counted =
      let (some_addr, few) = counted addrs refl in
      let (sound1, below) = resolved-IsSound addr addrs later c sound some_addr few in
      get_index-Gets (resolved addr addrs later c).1 (resolved addr addrs later c).0 sound1 below

  get_found-Gets :
      (addr later : ℕ) (found : Option ℕ) (answer : Reply (List (TcpAddr IP Zone)))
      (c : Cache IP Zone)
      → IsSound c
      → ((p : ℕ) → found ≡ some p → p < length c.entries)
      → ((addrs : List (TcpAddr IP Zone))
          → answer ≡ done addrs
          → (0 < length addrs) × (length addrs < 4294967296))
      → Gets (get_found net addr later found answer c)
  unfolding get_found
  get_found-Gets addr later (some p) answer c sound known counted =
      get_index-Gets p c sound (known p refl)
  get_found-Gets addr later none answer c sound known counted =
      get_resolved-Gets addr later answer c sound counted

  get_tcp_addrs-Gets :
      IsSmall net
      → (addr : ℕ) (dual_stack : Bool) (resolver : Option Resolver) (now later : ℕ)
        (c : Cache IP Zone)
      → IsSound c
      → Gets (get_tcp_addrs net addr dual_stack resolver now later c)
  unfolding get_tcp_addrs
  get_tcp_addrs-Gets small addr dual_stack resolver now later c sound =
      let (c1, found, ran, sound1, known) = look_up-Leaves addr now c sound in
      let (c2, reply, ran2, sound2, given) =
        get_found-Gets addr later found (resolve_tcp_addrs net addr dual_stack resolver) c1 sound1
          known (resolve_tcp_addrs-Counted net small addr dual_stack resolver) in
      (c2, reply, rw ran ran2, sound2, given)

module _ {Conn : Type 0} where
  first_of-some :
      (given : Option (Dialed Conn))
      → ((conn : Option Conn) → given ≡ some (conn, none) → conn ≢ none)
      → (first_of given).1 ≡ none
      → (first_of given).0 ≢ none
  unfolding first_of
  first_of-some none connecting e = absurd (cc (e))
  first_of-some (some (conn, none)) connecting e = connecting conn refl
  first_of-some (some (conn, some why)) connecting e = absurd (cc (e))

module _ {IP Zone Conn : Type 0} where
  try_dial-some :
      (local : Option (TcpAddr IP Zone)) (network : Network) (addr : TcpAddr IP Zone) (deadline : ℕ)
      (ch : Option ℕ) (ev : Events IP Zone Conn)
      → ((conn : Option Conn) → ev.dial_tcp network local addr ≡ some (conn, none) → conn ≢ none)
      → (try_dial local network addr deadline ch ev).1 ≡ none
      → (try_dial local network addr deadline ch ev).0 ≢ none
  unfolding try_dial
  try_dial-some local network addr deadline ch ev connecting =
      elim (Bool-cases (leb deadline ev.now)) [
        | inl y ↦ rw y (λ e. absurd (cc (e)))
        | inr n ↦ elim (Bool-cases (not (has_slot ch ev))) [
          | inl y ↦ rw (n, y) (λ e. absurd (cc (e)))
          | inr z ↦ rw (n, z) (first_of-some (ev.dial_tcp network local addr) connecting)
        ]
      ]

  Settled-IsAnswer :
      (tries : ℕ → TcpAddr IP Zone → Dialed Conn) (addrs : List (TcpAddr IP Zone)) (n k idx : ℕ)
      (result : Dialed Conn)
      → ((j : ℕ) (a : TcpAddr IP Zone) → (tries j a).1 ≡ none → (tries j a).0 ≢ none)
      → Settled tries addrs n k idx result
      → IsAnswer result
  Settled-IsAnswer tries addrs n k idx result some_conn s = elim s.ending.ended [
    | inl (no_error, same) ↦ elim (Option-cases (tries (k + s.rounds) s.ending.addr).0) [
      | inl nothing ↦ absurd (some_conn (k + s.rounds) s.ending.addr no_error nothing)
      | inr (conn, there) ↦ inl (conn, same ∙ ap (λ (c : Option Conn). (c, none)) there)
    ]
    | inr (why, error, same, how) ↦ inr (why, same)
  ]

module _ {IP Zone Conn Resolver : Type 0} (net : Net IP Zone Resolver) (small : IsSmall net)
    (w : World IP Zone Conn) (connecting : IsConnecting w) where
  dial_found-IsAnswer :
      (d : TcpDialer IP Zone Resolver) (dual_stack : Bool) (timeout : ℕ)
      (reply : Reply (List (TcpAddr IP Zone) × ℕ))
      → IsGiven reply
      → (dialed : Dialed Conn) × (dial_found net d dual_stack timeout w reply ≡ ok dialed)
        × IsAnswer dialed
  unfolding dial_found
  dial_found-IsAnswer d dual_stack timeout (failed why) given =
      ((none, some why), refl, inr (why, refl))
  dial_found-IsAnswer d dual_stack timeout (done (addrs, idx)) (some_addr, few, small_idx) =
      let tries : ℕ → TcpAddr IP Zone → Dialed Conn = λ k addr.
        try_dial d.local_addr (network_of dual_stack) addr (w.dialed_at + timeout) d.concurrency_ch
          (w.tries k) in
      let whole : length addrs % 4294967296 ≡ length addrs = mod-eq_of_lt few in
      let (result, ran, settled) =
        dial_loop-Settled tries addrs (length addrs) 0 idx none some_addr (omega arith) small_idx in
      (
        result,
        ap (λ (n : ℕ). dial_loop tries addrs n 0 idx none) whole ∙ ran,
        Settled-IsAnswer tries addrs (length addrs) 0 idx result
            (λ j a.
              try_dial-some d.local_addr (network_of dual_stack) a (w.dialed_at + timeout)
                d.concurrency_ch (w.tries j) (connecting j (network_of dual_stack) d.local_addr a))
            settled,
      )

  -- A dialer that has not been used, or whose cache is sound.
  abbrev pub IsUsable : TcpDialer IP Zone Resolver → Type 0
  IsUsable d = d.started ≡ true → IsSound d.cache

  start-IsSound : (d : TcpDialer IP Zone Resolver) → IsUsable d → IsSound (start d).cache
  unfolding start
  start-IsSound d usable = elim (Bool-cases d.started) [
    | inl y ↦ rw y (usable y)
    | inr n ↦ rw n (record { pointers = tt; full = λ p e at. absurd (cc (at)) })
  ]

  abbrev pub Answers : DialOutcome IP Zone Conn Resolver → Type 0
  Answers outcome =
      (d1 : TcpDialer IP Zone Resolver) × (dialed : Dialed Conn) × (outcome ≡ ok (d1, dialed))
      × IsSound d1.cache
      × IsAnswer dialed

  dial-Answers :
      (addr : ℕ) (dual_stack : Bool) (timeout : ℕ) (d : TcpDialer IP Zone Resolver)
      → IsUsable d
      → Answers (dial net addr dual_stack timeout w d)
  unfolding dial
  dial-Answers addr dual_stack timeout d usable =
      let (c1, reply, ran, sound, given) =
        get_tcp_addrs-Gets net small addr dual_stack (start d).resolver w.looked_up_at w.resolved_at
          (start d).cache (start-IsSound d usable) in
      let (dialed, ran2, answer) = dial_found-IsAnswer (start d) dual_stack timeout reply given in
      (record (start d) { cache = c1 }, dialed, rw (ran, ran2) refl, sound, answer)

  checked-ok : (dialed : Dialed Conn) → IsAnswer dialed → checked dialed ≡ ok dialed
  unfolding checked
  checked-ok dialed (inl (conn, e)) = rw e refl
  checked-ok dialed (inr (why, e)) = rw e refl

  plain_or_dual :
      (addr : ℕ) (dual_stack : Bool) (d : TcpDialer IP Zone Resolver)
      → IsUsable d
      → Answers (chosen_dial net none dual_stack addr w d)
  unfolding chosen_dial
  plain_or_dual addr true d usable = dial-Answers addr true default_dial_timeout d usable
  plain_or_dual addr false d usable = dial-Answers addr false default_dial_timeout d usable

  -- If the resolvers give fewer addresses than a uint32 can count and `net.DialTCP` gives a
  -- connection when it gives no error, then `dialAddr` with no DialFunc of its own never panics,
  -- whether its dialer has been used before or not: it gives a connection and no error, or an error
  -- and no connection, and keeps a sound cache.
  pub dial_addr-Answers :
      (addr : ℕ) (dual_stack : Bool) (d : TcpDialer IP Zone Resolver)
      → IsUsable d
      → (d1 : TcpDialer IP Zone Resolver) × (dialed : Dialed Conn) × (dial_addr net addr none
            dual_stack w d
          ≡ ok (d1, dialed))
        × IsSound d1.cache
        × IsAnswer dialed
  unfolding dial_addr
  dial_addr-Answers addr dual_stack d usable =
      let (d1, dialed, ran, sound, answer) = plain_or_dual addr dual_stack d usable in
      (d1, dialed, rw (ran, checked-ok dialed answer) refl, sound, answer)
