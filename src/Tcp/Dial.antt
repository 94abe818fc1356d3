-- ===== src/Tcp/Dial.antt =====
-- sleepytcp/dial_tcp.go and dial.go: a TCPDialer, from the address text to a connection. Texts are
-- numbers, times and durations numbers of nanoseconds; a Concurrency that is not positive is 0.
pub mod Resolve
pub mod Addrs
pub mod Sound
pub mod Reach
pub mod Rounds
pub mod Settled
pub mod Answers
pub mod Cached
pub mod Tokens
pub mod Meanwhile
pub mod Pending
mod Tests
use slept.Prelude.{
  ℕ, zero, suc, ◌+◌, ◌*◌, ◌%◌, Bool, true, false, not, ◌&&◌, leb, ltb, if◌then◌else◌, List, [], ◌∷◌,
  length, Option, none, some,
}
use slept.Prelude.Results.{Result, ok, panic, ◌>>=◌, index}
use slept.Tcp.Dial.Resolve.{
  Net, Reply, done, failed, DialError, dial_timeout, no_dns_entries, from_net, TcpAddr,
}
use slept.Tcp.Dial.Addrs.{Cache, no_entries, get_tcp_addrs}

pub data Network : Type 0 where
  tcp4 : Network
  tcp : Network

-- What a Go call that dials returns: a connection or nil, and an error or nil.
abbrev pub Dialed : Type 0 → Type 0
Dialed Conn = Option Conn × Option DialError

-- What happens around one call of `tryDial`: the time, whether there is room in concurrencyCh at
-- once and before the timer, and what `net.DialTCP` gives before the timer, if it does.
pub record Events (IP Zone Conn : Type 0) : Type 0 where
  pub now : ℕ
  pub slot_free : Bool
  pub slot_in_time : Bool
  pub dial_tcp : Network → Option (TcpAddr IP Zone) → TcpAddr IP Zone → Option (Dialed Conn)

-- `concurrency_ch` is the capacity of the channel, and none for nil.
pub record TcpDialer (IP Zone Resolver : Type 0) : Type 0 where
  pub concurrency : ℕ
  pub local_addr : Option (TcpAddr IP Zone)
  pub resolver : Option Resolver
  pub cache : Cache IP Zone
  pub concurrency_ch : Option ℕ
  pub started : Bool

-- `DefaultDialTimeout`
abbrev pub default_dial_timeout : ℕ
default_dial_timeout = 3 * 1000000000

module _ {IP Zone Resolver : Type 0} where
  -- `defaultDialer`
  abbrev pub default_dialer : TcpDialer IP Zone Resolver
  default_dialer = record {
    concurrency = 1000;
    local_addr = none;
    resolver = none;
    cache = no_entries;
    concurrency_ch = none;
    started = false;
  }

  -- What `d.once` runs.
  unfoldable pub start : TcpDialer IP Zone Resolver → TcpDialer IP Zone Resolver
  start d = if d.started then d else record d {
    concurrency_ch = if ltb 0 d.concurrency then some d.concurrency else d.concurrency_ch;
    cache = no_entries;
    started = true;
  }

module _ {Conn : Type 0} where
  unfoldable pub first_of : Option (Dialed Conn) → Dialed Conn
  first_of none = (none, some dial_timeout)
  first_of (some dialed) = dialed

  -- What follows one try, where `rest` are the rounds behind it.
  unfoldable pub next_round : Result (Dialed Conn) → Dialed Conn → Result (Dialed Conn)
  next_round rest (conn, none) = ok (conn, none)
  next_round rest (conn, some dial_timeout) = ok (none, some dial_timeout)
  next_round rest (conn, some no_dns_entries) = rest
  next_round rest (conn, some (from_net why)) = rest

  -- A DialFunc that gives neither a connection nor an error is a bug.
  unfoldable pub checked : Dialed Conn → Result (Dialed Conn)
  checked (conn, some why) = ok (none, some why)
  checked (none, none) = panic
  checked (some conn, none) = ok (some conn, none)

module _ {IP Zone Conn : Type 0} where
  -- A slot of concurrencyCh, if there is one: none if the timer comes first.
  unfoldable pub has_slot : Option ℕ → Events IP Zone Conn → Bool
  has_slot none ev = true
  has_slot (some capacity) ev = if ev.slot_free then true else ev.slot_in_time

  unfoldable pub try_dial :
      Option (TcpAddr IP Zone)
      → Network
      → TcpAddr IP Zone
      → ℕ
      → Option ℕ
      → Events IP Zone Conn
      → Dialed Conn
  unfolding has_slot first_of
  try_dial local network addr deadline ch ev =
      if leb deadline ev.now
      then (none, some dial_timeout)
      else (if not (has_slot ch ev)
          then (none, some dial_timeout)
          else first_of (ev.dial_tcp network local addr))

  -- The loop of `dial` with n rounds left, in round k: `err` is the error of the round before.
  unfoldable pub dial_loop :
      (ℕ → TcpAddr IP Zone → Dialed Conn)
      → List (TcpAddr IP Zone)
      → ℕ
      → ℕ
      → ℕ
      → Option DialError
      → Result (Dialed Conn)
  unfolding next_round
  dial_loop tries addrs zero k idx err = ok (none, err)
  dial_loop tries addrs (suc n) k idx err = do
    addr ← index addrs (idx % suc n)
    let dialed = tries k addr
    let rest = dial_loop tries addrs n (k + 1) ((idx + 1) % 4294967296) dialed.1
    next_round rest dialed

-- What the goroutine that dials sees: the times that the code reads, and the events of each try.
pub record World (IP Zone Conn : Type 0) : Type 0 where
  pub looked_up_at : ℕ
  pub resolved_at : ℕ
  pub dialed_at : ℕ
  pub tries : ℕ → Events IP Zone Conn

abbrev pub network_of : Bool → Network
network_of dual_stack = if dual_stack then tcp else tcp4

module _ (IP Zone Conn Resolver : Type 0) where
  abbrev pub DialOutcome : Type 0
  DialOutcome = Result (TcpDialer IP Zone Resolver × Dialed Conn)

  -- dial.go: a DialFunc, over the state of the default dialer.
  abbrev pub DialFunc : Type 0
  DialFunc = ℕ → World IP Zone Conn → TcpDialer IP Zone Resolver → DialOutcome

module _ {IP Zone Conn Resolver : Type 0} (net : Net IP Zone Resolver) where
  -- The part of `dial` behind `getTCPAddrs`.
  unfoldable pub dial_found :
      TcpDialer IP Zone Resolver
      → Bool
      → ℕ
      → World IP Zone Conn
      → Reply (List (TcpAddr IP Zone) × ℕ)
      → Result (Dialed Conn)
  unfolding dial_loop try_dial
  dial_found d dual_stack timeout w (failed why) = ok (none, some why)
  dial_found d dual_stack timeout w (done (addrs, idx)) =
      dial_loop
        (λ k addr.
          try_dial d.local_addr (network_of dual_stack) addr (w.dialed_at + timeout)
            d.concurrency_ch (w.tries k))
        addrs (length addrs % 4294967296) 0 idx none

  unfoldable pub dial :
      ℕ
      → Bool
      → ℕ
      → World IP Zone Conn
      → TcpDialer IP Zone Resolver
      → DialOutcome IP Zone Conn Resolver
  unfolding start dial_found
  dial addr dual_stack timeout w d =
      let d1 = start d in
      (do
        (cache, reply) ←
            get_tcp_addrs net addr dual_stack d1.resolver w.looked_up_at w.resolved_at d1.cache
        dialed ← dial_found d1 dual_stack timeout w reply
        ok (record d1 { cache = cache }, dialed))

  -- The methods of TCPDialer, which the functions of the same names call on `defaultDialer`.
  abbrev pub dial_plain :
      ℕ → World IP Zone Conn → TcpDialer IP Zone Resolver → DialOutcome IP Zone Conn Resolver
  dial_plain addr = dial addr false default_dial_timeout

  abbrev pub dial_plain_timeout :
      ℕ → ℕ → World IP Zone Conn → TcpDialer IP Zone Resolver → DialOutcome IP Zone Conn Resolver
  dial_plain_timeout addr timeout = dial addr false timeout

  abbrev pub dial_dual_stack :
      ℕ → World IP Zone Conn → TcpDialer IP Zone Resolver → DialOutcome IP Zone Conn Resolver
  dial_dual_stack addr = dial addr true default_dial_timeout

  abbrev pub dial_dual_stack_timeout :
      ℕ → ℕ → World IP Zone Conn → TcpDialer IP Zone Resolver → DialOutcome IP Zone Conn Resolver
  dial_dual_stack_timeout addr timeout = dial addr true timeout

  unfoldable pub chosen_dial :
      Option (DialFunc IP Zone Conn Resolver) → Bool → DialFunc IP Zone Conn Resolver
  chosen_dial none dual_stack = if dual_stack then dial_dual_stack else dial_plain
  chosen_dial (some given) dual_stack = given

  unfoldable pub dial_addr :
      ℕ
      → Option (DialFunc IP Zone Conn Resolver)
      → Bool
      → World IP Zone Conn
      → TcpDialer IP Zone Resolver
      → DialOutcome IP Zone Conn Resolver
  unfolding chosen_dial checked
  dial_addr addr given dual_stack w d = do
    (d1, dialed) ← chosen_dial given dual_stack addr w d
    answer ← checked dialed
    ok (d1, answer)
