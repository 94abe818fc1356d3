-- ===== src/Tcp/Client/Cleaner.antt =====
-- The cleaner of idle host clients runs when there are any, and an address has one host client.
use slept.Prelude.{
  ℕ, ◌+◌, ◌≡◌, ◌≢◌, refl, arith, ◌==◌, if◌then◌else◌, List, [], ◌∷◌, length, map, none, All, inl,
  inr, Bool-cases, Option-cases,
}
use slept.Prelude.Int.{is_zero}
use mathlib.Core.Path.{subst, sym}
use slept.Tcp.Client.{
  Limits, Entry, new_entry, lookup, find_client, remove_idle, clean_round, Pool, request, round,
  hosts_go_on, PoolReach, fresh, after,
}

-- No address twice.
abbrev pub Apart : List ℕ → Type 0
Apart [] = Unit {0}
Apart (a ∷ rest) = All (λ (b : ℕ). b ≢ a) rest × Apart rest

lookup-absent :
    (addr : ℕ) (es : List Entry)
    → lookup addr es ≡ none
    → All (λ (b : ℕ). b ≢ addr) (map Entry.addr es)
unfolding lookup
lookup-absent addr [] h = tt
lookup-absent addr (e ∷ es) h = elim (Bool-cases (e.addr == addr)) [
  | inl y ↦ absurd (cc (rw y at h))
  | inr n ↦ (ground arith, lookup-absent addr es (rw n at h))
]

remove_idle-All :
    (P : ℕ → Type 0) (es : List Entry)
    → All P (map Entry.addr es)
    → All P (map Entry.addr (remove_idle es))
unfolding remove_idle
remove_idle-All P [] h = tt
remove_idle-All P (e ∷ es) h = elim (Bool-cases (is_zero e.host.count)) [
  | inl y ↦ rw y (remove_idle-All P es h.1)
  | inr n ↦ rw n (h.0, remove_idle-All P es h.1)
]

remove_idle-Apart :
    (es : List Entry) → Apart (map Entry.addr es) → Apart (map Entry.addr (remove_idle es))
unfolding remove_idle
remove_idle-Apart [] h = tt
remove_idle-Apart (e ∷ es) h = elim (Bool-cases (is_zero e.host.count)) [
  | inl y ↦ rw y (remove_idle-Apart es h.1)
  | inr n ↦ rw n (remove_idle-All (λ (b : ℕ). b ≢ e.addr) es h.0, remove_idle-Apart es h.1)
]

map_tail : {a b : ℕ} {xs ys : List ℕ} → a ∷ xs ≡ b ∷ ys → xs ≡ ys
map_tail h = cc h

length-addr : (es fs : List Entry) → map Entry.addr es ≡ map Entry.addr fs → length es ≡ length fs
length-addr [] [] h = refl
length-addr [] (f ∷ fs) h = absurd (cc h)
length-addr (e ∷ es) [] h = absurd (cc h)
length-addr (e ∷ es) (f ∷ fs) h = omega (arith, length-addr es fs (map_tail h))

-- One cleaner, when there is something to clean.
pub record Kept (p : Pool) : Type 0 where
  pub one_cleaner : p.cleaners ≡ (if length p.clients == 0 then 0 else 1)
  pub apart : Apart (map Entry.addr p.clients)

request-Kept :
    (limits : Limits) (addr : ℕ) (p : Pool)
    → Kept p
    → Kept (record {
      clients = (find_client limits addr p.clients).clients;
      cleaners =
          if (find_client limits addr p.clients).start_cleaner then p.cleaners + 1 else p.cleaners;
    })
unfolding find_client new_entry
request-Kept limits addr p k = elim (Option-cases (lookup addr p.clients)) [
  | inl absent ↦
      rw (absent, find_client)
        (record {
          one_cleaner = ground (arith, k.one_cleaner);
          apart = (lookup-absent addr p.clients absent, k.apart);
        })
  | inr (e, found) ↦
      rw (found, find_client) (record { one_cleaner = k.one_cleaner; apart = k.apart })
]

-- Whatever requests, rounds of the cleaner and changes of the host clients have happened to a new
-- Client, one cleaner runs if there are host clients and none if there are not, and no two host
-- clients have the same address.
pub PoolReach-Kept : {limits : Limits} {p : Pool} → PoolReach limits p → Kept p
unfolding clean_round
PoolReach-Kept fresh = record { one_cleaner = refl; apart = tt }
PoolReach-Kept {limits} (after {p} r (request addr)) = request-Kept limits addr p (PoolReach-Kept r)
PoolReach-Kept (after {p} r (round some_cleaner)) =
    let k = PoolReach-Kept r in
    record {
      one_cleaner = ground (arith, k.one_cleaner);
      apart = remove_idle-Apart p.clients k.apart;
    }
PoolReach-Kept (after {p} r (hosts_go_on clients same)) =
    let k = PoolReach-Kept r in
    let long = length-addr clients p.clients same in
    record {
      one_cleaner = ground (arith, k.one_cleaner, long);
      apart = subst Apart (sym same) k.apart;
    }
