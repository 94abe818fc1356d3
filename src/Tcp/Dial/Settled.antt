-- ===== src/Tcp/Dial/Settled.antt =====
-- How the rounds of `dial` end: with the first connection, with a timeout, or after the last address.
use slept.Prelude.{
  ℕ, zero, suc, ◌+◌, ◌-◌, ◌%◌, ◌<◌, ◌≤◌, ◌≡◌, ◌≢◌, ◌⊎◌, inl, inr, refl, ◌∙◌, arith, List, length,
  Option, none, some, get_elem?, get_elem?-some,
}
use native.Mathlib.Decide.{ℕ_discrete}
use slept.Prelude.Results.{ok}
use slept.Tcp.Dial.Resolve.{DialError, dial_timeout, TcpAddr}
use slept.Tcp.Dial.{Dialed, dial_loop}
use slept.Tcp.Dial.Rounds.{
  one_round, place_small, dialed_cases, next-connects, next-times_out, next-goes_on,
}

module _ {IP Zone Conn : Type 0} (tries : ℕ → TcpAddr IP Zone → Dialed Conn)
    (addrs : List (TcpAddr IP Zone)) where
  -- Of n rounds from round k on, with the index `idx`, round k + j tries address a.
  abbrev pub Tries : ℕ → ℕ → ℕ → TcpAddr IP Zone → Type 0
  Tries n idx j a = get_elem? addrs ((idx + j) % 4294967296 % (n - j)) ≡ some a

  -- Round k + j fails with an error that is no timeout.
  pub record Refused (n k idx j : ℕ) : Type 0 where
    pub addr : TcpAddr IP Zone
    pub tried : Tries n idx j addr
    pub why : DialError
    pub error : (tries (k + j) addr).1 ≡ some why
    pub no_timeout : why ≢ dial_timeout

  -- The last round that is made: what it gives is the result, and an error that is no timeout ends
  -- the loop only after n rounds.
  pub record Ending (n k idx m : ℕ) (result : Dialed Conn) : Type 0 where
    pub addr : TcpAddr IP Zone
    pub tried : Tries n idx m addr
    pub ended :
        ((tries (k + m) addr).1 ≡ none) × (result ≡ ((tries (k + m) addr).0, none))
        ⊎ (why : DialError) × ((tries (k + m) addr).1 ≡ some why)
          × (result ≡ (none, some why))
          × ((why ≡ dial_timeout) ⊎ (m + 1 ≡ n))

  -- Rounds before m fail, and round m ends the loop.
  pub record Settled (n k idx : ℕ) (result : Dialed Conn) : Type 0 where
    pub rounds : ℕ
    pub within : rounds < n
    pub refused : (j : ℕ) → j < rounds → Refused n k idx j
    pub ending : Ending n k idx rounds result

  -- What is said of the rounds behind the first.
  module _ (n k idx : ℕ) where
    Tries-later :
        (j : ℕ) (a : TcpAddr IP Zone)
        → Tries n ((idx + 1) % 4294967296) j a
        → Tries (suc n) idx (suc j) a
    Tries-later j a tried =
        let same : (idx + suc j) % 4294967296 ≡ ((idx + 1) % 4294967296 + j) % 4294967296 =
          omega arith in
        let left : suc n - suc j ≡ n - j = omega arith in rw (same, left) tried

    later_round : (j : ℕ) (a : TcpAddr IP Zone) → tries (k + 1 + j) a ≡ tries (k + suc j) a
    later_round j a = let e : k + 1 + j ≡ k + suc j = omega arith in rw e refl

    first_tried :
        (a : TcpAddr IP Zone)
        → idx < 4294967296
        → get_elem? addrs (idx % suc n) ≡ some a
        → Tries (suc n) idx 0 a
    first_tried a small there =
        let same : (idx + 0) % 4294967296 ≡ idx = omega (arith, small) in
        let left : suc n - 0 ≡ suc n = omega arith in rw (same, left) there

    first_round : (a : TcpAddr IP Zone) → tries (k + 0) a ≡ tries k a
    first_round a = let e : k + 0 ≡ k = omega arith in rw e refl

    -- The loop ends in its first round.
    ends_now :
        (a : TcpAddr IP Zone) (result : Dialed Conn)
        → Tries (suc n) idx 0 a
        → ((tries k a).1 ≡ none) × (result ≡ ((tries k a).0, none))
          ⊎ (why : DialError) × ((tries k a).1 ≡ some why)
            × (result ≡ (none, some why))
            × ((why ≡ dial_timeout) ⊎ (0 + 1 ≡ suc n))
        → Settled (suc n) k idx result
    ends_now a result tried how = record {
      rounds = 0;
      within = omega arith;
      refused = λ j h. absurd (omega arith);
      ending = record { addr = a; tried = tried; ended = rw first_round how };
    }

    -- The first round fails, and the others settle it.
    goes_on :
        (a : TcpAddr IP Zone) (why : DialError) (result : Dialed Conn)
        → Tries (suc n) idx 0 a
        → (tries k a).1 ≡ some why
        → why ≢ dial_timeout
        → Settled n (k + 1) ((idx + 1) % 4294967296) result
        → Settled (suc n) k idx result
    goes_on a why result tried error no_timeout s = record {
      rounds = suc s.rounds;
      within = omega (arith, s.within);
      refused = earlier;
      ending = record {
        addr = s.ending.addr;
        tried = Tries-later s.rounds s.ending.addr s.ending.tried;
        ended = elim s.ending.ended [
          | inl (no_error, same) ↦ inl (rw later_round at no_error, rw later_round at same)
          | inr (last_why, last_error, same, how) ↦ inr (
            last_why,
            rw later_round at last_error,
            same,
            elim how [ inl late ↦ inl late | inr last ↦ inr (omega (arith, last)) ],
          )
        ];
      };
    }
      where
        earlier : (j : ℕ) → j < suc s.rounds → Refused (suc n) k idx j
        earlier zero h = record {
          addr = a;
          tried = tried;
          why = why;
          error = rw first_round error;
          no_timeout = no_timeout;
        }
        earlier (suc j) h =
            let r = s.refused j (omega (arith, h)) in
            record {
              addr = r.addr;
              tried = Tries-later j r.addr r.tried;
              why = r.why;
              error = rw later_round at r.error;
              no_timeout = r.no_timeout;
            }

  no_round_left :
      (n k idx : ℕ) (err : Option DialError)
      → n ≡ 0
      → dial_loop tries addrs n k idx err ≡ ok (none, err)
  unfolding dial_loop
  no_round_left zero k idx err e = refl
  no_round_left (suc n) k idx err e = absurd (omega (arith, e))

  -- With as many addresses as rounds, and at least one, `dial` makes its rounds without a panic:
  -- round j tries the address at the index plus j modulo the rounds that are left; each round
  -- before the last that is made fails with an error that is no timeout; the last one gives its
  -- connection, or its error, and then it is a timeout or no round is left.
  pub dial_loop-Settled :
      (n k idx : ℕ) (err : Option DialError)
      → 0 < n
      → n ≤ length addrs
      → idx < 4294967296
      → (result : Dialed Conn) × (dial_loop tries addrs n k idx err ≡ ok result)
        × Settled n k idx result
  dial_loop-Settled zero k idx err some_round few small = absurd (omega arith)
  dial_loop-Settled (suc n) k idx err some_round few small =
      let (a, there) = get_elem?-some addrs (idx % suc n) (place_small n idx (length addrs) few) in
      let tried = first_tried n k idx a small there in
      let round = one_round tries addrs n k idx err a there in
      let rest = dial_loop tries addrs n (k + 1) ((idx + 1) % 4294967296) (tries k a).1 in
      elim (dialed_cases (tries k a)) [
        | inl none_left ↦ (
          ((tries k a).0, none),
          round ∙ next-connects rest (tries k a) none_left,
          ends_now n k idx a ((tries k a).0, none) tried (inl (none_left, refl)),
        )
        | inr (inl late) ↦ (
          (none, some dial_timeout),
          round ∙ next-times_out rest (tries k a) late,
          ends_now n k idx a (none, some dial_timeout) tried
              (inr (dial_timeout, late, refl, inl refl)),
        )
        | inr (inr (why, error, no_timeout)) ↦
            let on = round ∙ next-goes_on rest (tries k a) why error no_timeout in
            elim (ℕ_discrete n 0) [
              | yes last ↦ (
                (none, some why),
                on
                    ∙ no_round_left n (k + 1) ((idx + 1) % 4294967296) (tries k a).1 last
                    ∙ rw error refl,
                ends_now n k idx a (none, some why) tried
                    (inr (why, error, refl, inr (omega (arith, last)))),
              )
              | no more ↦
                  let (result, ran, settled) =
                    dial_loop-Settled n (k + 1) ((idx + 1) % 4294967296) (tries k a).1
                      (omega (arith, more)) (omega (arith, few)) (omega arith) in
                  (result, on ∙ ran, goes_on n k idx a why result tried error no_timeout settled)
            ]
      ]
