-- ===== src/Tcp/Dial/Rounds.antt =====
-- The rounds of `dial`: which address each one tries, and what comes of them.
use native.Mathlib.Nat.{mod-lt}
use slept.Prelude.{
  ℕ, zero, suc, ◌+◌, ◌%◌, ◌<◌, ◌≤◌, ◌≡◌, ◌≢◌, ◌⊎◌, inl, inr, refl, sym, ◌∙◌, ap, arith, List, [],
  ◌∷◌, ◌++◌, length, Option, none, some, get_elem?, get_elem?-some,
}
use slept.Prelude.Positions.{get_elem?-append_left}
use slept.Prelude.Results.{Result, ok, index}
use slept.Tcp.Dial.Resolve.{DialError, dial_timeout, no_dns_entries, from_net, TcpAddr}
use slept.Tcp.Dial.{Dialed, dial_loop, next_round}

pub place_small : (n idx bound : ℕ) → suc n ≤ bound → idx % suc n < bound
place_small n idx bound few =
    let some_rounds : 0 < suc n = omega arith in omega (arith, mod-lt idx some_rounds, few)

module _ {IP Zone Conn : Type 0} (tries : ℕ → TcpAddr IP Zone → Dialed Conn) where
  -- One round, whose address is known.
  pub one_round :
      (addrs : List (TcpAddr IP Zone)) (n k idx : ℕ) (err : Option DialError) (a : TcpAddr IP Zone)
      → get_elem? addrs (idx % suc n) ≡ some a
      → dial_loop tries addrs (suc n) k idx err
        ≡ next_round
            (dial_loop tries addrs n (k + 1) ((idx + 1) % 4294967296) (tries k a).1)
            (tries k a)
  unfolding dial_loop
  one_round addrs n k idx err a there = rw (there, index) refl

  -- Rounds that do not reach an address do not see it.
  dial_loop-near :
      (xs ys zs : List (TcpAddr IP Zone)) (n k idx : ℕ) (err : Option DialError)
      → n ≤ length xs
      → dial_loop tries (xs ++ ys) n k idx err ≡ dial_loop tries (xs ++ zs) n k idx err
  unfolding dial_loop
  dial_loop-near xs ys zs zero k idx err few = refl
  dial_loop-near xs ys zs (suc n) k idx err few =
      let place = place_small n idx (length xs) few in
      let (a, there) = get_elem?-some xs (idx % suc n) place in
      let later =
        dial_loop-near xs ys zs n (k + 1) ((idx + 1) % 4294967296) (tries k a).1
          (omega (arith, few)) in
      one_round (xs ++ ys) n k idx err a (get_elem?-append_left xs ys (idx % suc n) place ∙ there)
      ∙ ap (λ (rest : Result (Dialed Conn)). next_round rest (tries k a)) later
      ∙ sym (
          one_round (xs ++ zs) n k idx err a
            (get_elem?-append_left xs zs (idx % suc n) place ∙ there))

  -- Of n addresses the last one is tried only if the index is one before a multiple of n: else
  -- nothing that the loop does depends on it.
  pub dial_loop-last :
      (xs : List (TcpAddr IP Zone)) (last other : TcpAddr IP Zone) (k idx : ℕ)
      → idx % suc (length xs) ≢ length xs
      → dial_loop tries (xs ++ last ∷ []) (suc (length xs)) k idx none
        ≡ dial_loop tries (xs ++ other ∷ []) (suc (length xs)) k idx none
  dial_loop-last xs last other k idx away =
      let whole = place_small (length xs) idx (suc (length xs)) (omega arith) in
      let place : idx % suc (length xs) < length xs = omega (arith, whole, away) in
      let (a, there) = get_elem?-some xs (idx % suc (length xs)) place in
      one_round (xs ++ last ∷ []) (length xs) k idx none a
        (get_elem?-append_left xs (last ∷ []) (idx % suc (length xs)) place ∙ there)
      ∙ ap (λ (rest : Result (Dialed Conn)). next_round rest (tries k a))
          (dial_loop-near xs (last ∷ []) (other ∷ []) (length xs) (k + 1) ((idx + 1) % 4294967296)
            (tries k a).1 (omega arith))
      ∙ sym (
          one_round (xs ++ other ∷ []) (length xs) k idx none a
            (get_elem?-append_left xs (other ∷ []) (idx % suc (length xs)) place ∙ there))

-- What a try gives: no error, a timeout, or another error.
pub dialed_cases :
    {Conn : Type 0} (r : Dialed Conn)
    → (r.1 ≡ none)
      ⊎ (r.1 ≡ some dial_timeout)
      ⊎ ((why : DialError) × (r.1 ≡ some why) × (why ≢ dial_timeout))
dialed_cases (conn, none) = inl refl
dialed_cases (conn, some dial_timeout) = inr (inl refl)
dialed_cases (conn, some no_dns_entries) = inr (inr (no_dns_entries, refl, λ e. absurd (cc (e))))
dialed_cases (conn, some (from_net n)) = inr (inr (from_net n, refl, λ e. absurd (cc (e))))

module _ {Conn : Type 0} (rest : Result (Dialed Conn)) where
  pub next-connects : (r : Dialed Conn) → r.1 ≡ none → next_round rest r ≡ ok (r.0, none)
  unfolding next_round
  next-connects (conn, none) e = refl
  next-connects (conn, some why) e = absurd (cc (e))

  pub next-times_out :
      (r : Dialed Conn) → r.1 ≡ some dial_timeout → next_round rest r ≡ ok (none, some dial_timeout)
  unfolding next_round
  next-times_out (conn, none) e = absurd (cc (e))
  next-times_out (conn, some dial_timeout) e = refl
  next-times_out (conn, some no_dns_entries) e = absurd (cc (e))
  next-times_out (conn, some (from_net n)) e = absurd (cc (e))

  pub next-goes_on :
      (r : Dialed Conn) (why : DialError)
      → r.1 ≡ some why
      → why ≢ dial_timeout
      → next_round rest r ≡ rest
  unfolding next_round
  next-goes_on (conn, none) why e other = absurd (cc (e))
  next-goes_on (conn, some dial_timeout) why e other = absurd (other (cc (e)))
  next-goes_on (conn, some no_dns_entries) why e other = refl
  next-goes_on (conn, some (from_net n)) why e other = refl
