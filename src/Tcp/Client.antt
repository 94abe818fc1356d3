-- ===== src/Tcp/Client.antt =====
-- sleepytcp/client.go: the host clients of a Client, by address, and the goroutine that removes the
-- idle ones. Durations are numbers of nanoseconds; a limit that is not positive is 0.
pub mod Cleaner
use slept.Prelude.{
  ℕ, zero, suc, ◌+◌, ◌-◌, ◌<◌, ◌≡◌, Bool, true, false, not, ◌&&◌, ◌==◌, if◌then◌else◌, List, [],
  ◌∷◌, ◌++◌, length, map, Option, none, some,
}
use slept.Prelude.Int.{is_zero}
use slept.Tcp.Host.{Host, new_host}

-- The limits that a Client is given.
pub record Limits : Type 0 where
  pub max_conns_per_host : ℕ
  pub max_conn_wait : ℕ
  pub max_idle_duration : ℕ
  pub max_idempotent_call_attempts : ℕ

-- A host client in the map, under its address.
pub record Entry : Type 0 where
  pub addr : ℕ
  pub host : Host
  pub max_attempts : ℕ

-- The literal of `Client.Do`, which names no MaxIdleConnDuration.
unfoldable pub new_entry : Limits → ℕ → Entry
new_entry limits addr = record {
  addr = addr;
  host = new_host limits.max_conns_per_host limits.max_conn_wait 0;
  max_attempts = limits.max_idempotent_call_attempts;
}

unfoldable pub lookup : ℕ → List Entry → Option Entry
lookup addr [] = none
lookup addr (e ∷ es) = if e.addr == addr then some e else lookup addr es

-- `Client.Do` under its lock: the map, the host client, and whether a cleaner is started.
pub record Found : Type 0 where
  pub clients : List Entry
  pub client : Entry
  pub start_cleaner : Bool

unfoldable pub find_client : Limits → ℕ → List Entry → Found
find_client limits addr clients = elim (lookup addr clients) [
  | some e ↦ record { clients = clients; client = e; start_cleaner = false }
  | none ↦ record {
    clients = new_entry limits addr ∷ clients;
    client = new_entry limits addr;
    start_cleaner = length (new_entry limits addr ∷ clients) == 1;
  }
]

-- `cleanupIdleClients`: one round, and whether the goroutine stops after it.
unfoldable pub remove_idle : List Entry → List Entry
remove_idle [] = []
remove_idle (e ∷ es) = let rest = remove_idle es in if is_zero e.host.count then rest else e ∷ rest

unfoldable pub clean_round : List Entry → List Entry × Bool
unfolding remove_idle
clean_round clients = let rest = remove_idle clients in (rest, length rest == 0)

-- A Client with its cleaners that run.
pub record Pool : Type 0 where
  pub clients : List Entry
  pub cleaners : ℕ

-- The pool goes on: a request looks up its host client; a cleaner makes its round and may stop; the
-- host clients change by themselves.
pub data PoolStep (limits : Limits) (p : Pool) : Pool → Type 0 where
  request :
      (addr : ℕ)
      → PoolStep limits p (record {
        clients = (find_client limits addr p.clients).clients;
        cleaners =
            if (find_client limits addr p.clients).start_cleaner
            then p.cleaners + 1
            else p.cleaners;
      })
  round :
      0 < p.cleaners
      → PoolStep limits p (record {
        clients = (clean_round p.clients).0;
        cleaners = if (clean_round p.clients).1 then p.cleaners - 1 else p.cleaners;
      })
  hosts_go_on :
      (clients : List Entry)
      → map Entry.addr clients ≡ map Entry.addr p.clients
      → PoolStep limits p (record p { clients = clients })

pub data PoolReach (limits : Limits) : Pool → Type 0 where
  fresh : PoolReach limits (record { clients = []; cleaners = 0 })
  after : {p q : Pool} → PoolReach limits p → PoolStep limits p q → PoolReach limits q
