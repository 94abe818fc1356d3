-- ===== src/Tcp/Dial/Cached.antt =====
-- What the cache of addresses does for an entry that is there: it is used, or one goroutine resolves
-- its address anew while the others go on using it.
use slept.Prelude.{
  ℕ, zero, suc, ◌+◌, ◌%◌, ◌≡◌, refl, sym, ◌∙◌, ap, arith, Bool, true, false, List, [], ◌∷◌, Option,
  none, some, get_elem?, get_elem?-lt, get_elem?-set_self, set, length-set,
}
use slept.Prelude.Results.{ok, store}
use slept.Tcp.Dial.Resolve.{Net, done}
use slept.Tcp.Dial.Meanwhile.{Meanwhile}
use slept.Tcp.Dial.Pending.{Meanwhile-Pending}
use slept.Tcp.Dial.Addrs.{
  TcpAddrEntry, Cache, find_entry, is_expired, use_entry, look_up, unmark, resolve_failed,
  take_index, get_index, get_found, get_tcp_addrs,
}

set-back :
    {A : Type 0} (xs : List A) (i : ℕ) (a b : A)
    → get_elem? xs i ≡ some a
    → set (set xs i b) i a ≡ xs
set-back [] i a b h = refl
set-back (x ∷ xs) zero a b h = let e : x ≡ a = cc (h) in rw e refl
set-back (x ∷ xs) (suc i) a b h = ap (◌∷◌ x) (set-back xs i a b h)

module _ {IP Zone : Type 0} (c : Cache IP Zone) (addr p : ℕ) (e : TcpAddrEntry IP Zone)
    (known : find_entry addr c.addrs_map ≡ some p) (there : get_elem? c.entries p ≡ some e) where
  used : (now : ℕ) → is_expired now e ≡ false → look_up addr now c ≡ ok (c, some p)
  unfolding look_up use_entry
  used now fresh = rw known (ground (arith, there, fresh))

  room : (e1 : TcpAddrEntry IP Zone) → store c.entries p e1 ≡ ok (set c.entries p e1)
  room e1 = ground (arith, get_elem?-lt c.entries p there)

  -- An entry that is at most a minute old, or that a goroutine is about to resolve anew, is used as
  -- it is: the dial gets its addresses and its next index, whichever network it asked for, and
  -- whatever the resolver would say.
  pub get_tcp_addrs-cached :
      {Resolver : Type 0} (net : Net IP Zone Resolver) (dual_stack : Bool)
      (resolver : Option Resolver) (now later : ℕ)
      → is_expired now e ≡ false
      → get_tcp_addrs net addr dual_stack resolver now later c
        ≡ ok (
          record c {
            entries = set c.entries p (record e { addrs_idx = (e.addrs_idx + 1) % 4294967296 });
          },
          done (e.addrs, (e.addrs_idx + 1) % 4294967296),
        )
  unfolding get_tcp_addrs get_found get_index take_index
  get_tcp_addrs-cached net dual_stack resolver now later fresh =
      rw (used now fresh)
        (ground (arith, there, room (record e { addrs_idx = (e.addrs_idx + 1) % 4294967296 })))

  -- The cache once an entry is marked.
  abbrev pub marked : Cache IP Zone
  marked = record c { entries = set c.entries p (record e { pending = true }) }

  marked_there : get_elem? marked.entries p ≡ some (record e { pending = true })
  marked_there =
      get_elem?-set_self c.entries p (record e { pending = true }) (get_elem?-lt c.entries p there)

  marks : (now : ℕ) → is_expired now e ≡ true → look_up addr now c ≡ ok (marked, none)
  unfolding look_up use_entry
  marks now old = rw known (ground (arith, there, old, room (record e { pending = true })))

  undone : (now : ℕ) → is_expired now e ≡ true → resolve_failed addr marked ≡ ok c
  unfolding resolve_failed unmark is_expired
  undone now old =
      let idle : e.pending ≡ false = ground arith in
      let same : ◌≡◌ {A = TcpAddrEntry IP Zone} (record e { pending = false }) e =
        ap (λ (b : Bool). record e { pending = b }) (sym idle) in
      let back : set marked.entries p (record e { pending = false }) ≡ c.entries =
        ap (set marked.entries p) same
        ∙ set-back c.entries p e (record e { pending = true }) there in
      let stored : store marked.entries p (record e { pending = false })
          ≡ ok (set marked.entries p (record e { pending = false })) =
        ground (
          arith,
          get_elem?-lt c.entries p there,
          length-set c.entries p (record e { pending = true }),
        ) in
      rw known (ground (arith, marked_there, stored, back))

module _ {IP Zone : Type 0} (c : Cache IP Zone) (addr p : ℕ) (e : TcpAddrEntry IP Zone)
    (known : find_entry addr c.addrs_map ≡ some p) (there : get_elem? c.entries p ≡ some e) where
  -- Who looks up an entry that has expired and is not pending is told to resolve the address. Whatever
  -- goroutines look up then, whichever indices they take, other addresses that they resolve or fail to
  -- resolve (that have another entry), and rounds of the cleaner at most two minutes after the old
  -- entry was resolved: every look-up of this address, at any time, gets the old entry, with its
  -- addresses. If the resolution fails at once, the cache is again as it was.
  pub look_up-once :
      (now : ℕ)
      → is_expired now e ≡ true
      → (c1 : Cache IP Zone) × (look_up addr now c ≡ ok (c1, none))
        × ((c2 : Cache IP Zone) (later : ℕ)
            → Meanwhile addr p e.resolve_time c1 c2
            → (look_up addr later c2 ≡ ok (c2, some p))
              × ((e2 : TcpAddrEntry IP Zone) × (get_elem? c2.entries p ≡ some e2)
                  × (e2.addrs ≡ e.addrs)))
        × (resolve_failed addr c1 ≡ ok c)
  unfolding is_expired
  look_up-once now old = (
    marked c addr p e known there,
    marks c addr p e known there now old,
    λ c2 later steps.
        let h =
          Meanwhile-Pending addr p e (marked c addr p e known there) c2
            (record {
              known = known;
              entry = record e { pending = true };
              there = marked_there c addr p e known there;
              marked = refl;
              same_addrs = refl;
              same_time = refl;
            })
            steps in
        (
          used c2 addr p h.entry h.known h.there later (ground (arith, h.marked)),
          (h.entry, h.there, h.same_addrs),
        ),
    undone c addr p e known there now old,
  )
