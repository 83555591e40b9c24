-- ===== src/Gateway/Breaker.antt =====
-- How often the provider is called while it and Redis are down.
use support_endpoint.Prelude.{
  length, max, subst, sym, ℕ, zero, suc, ◌+◌, ◌*◌, ◌<◌, ◌≤◌, ◌≡◌, refl, ap, ◌∙◌, String, Bool, true,
  false, Option, none, some, List, [], ◌∷◌, All, arith, leb, ◌⊎◌, inl, inr, Bool-cases,
}
use support_endpoint.Gateway.{
  CircuitRedis, Circuit, GatewaySettings, GatewayState, GatewayCall, threshold, cooldown,
  fail_locally, start_call,
}
use support_endpoint.Gateway.Outage.{
  is_failure, IsDown, conclude_lem, record_failure_lem, start_lem,
}
use support_endpoint.Gateway.Calls.{
  GatewayEvent, Traffic, pick, keep_first, admit_call, end_call, happen, run, idle,
}

module _ {S : Type 0} (redis : CircuitRedis S) (settings : GatewaySettings)
    (sub : String → String → String → String) where
  -- A call that fails, with its start and its end in the time from t on that a breaker stays open.
  pub record IsFailing (t : ℕ) (x : GatewayCall) : Type 0 where
    pub early : x.started < t + cooldown settings * 1000000
    pub late : t ≤ x.ended
    pub fails : is_failure x.answer ≡ true

  -- What is assumed of the calls of an event.
  abbrev pub Fails : ℕ → GatewayEvent → Type 0
  Fails t (GatewayEvent.starts x) = IsFailing t x
  Fails t (GatewayEvent.ends i) = Unit

  -- A call that is picked is one of those that wait, and the others still wait.
  abbrev Picks : ℕ → List GatewayCall → Option (GatewayCall × List GatewayCall) → Type 0
  Picks t xs none = Unit
  Picks t xs (some (x, rest)) =
      IsFailing t x × All (IsFailing t) rest × (length xs ≡ suc (length rest))

  keep_first-Picks :
      (t : ℕ) (x : GatewayCall) (xs : List GatewayCall)
      (picked : Option (GatewayCall × List GatewayCall))
      → IsFailing t x
      → Picks t xs picked
      → Picks t (x ∷ xs) (keep_first x picked)
  keep_first-Picks t x xs none h k = tt
  keep_first-Picks t x xs (some (y, ys)) h (y_fails, ys_fail, one_less) =
      (y_fails, (h, ys_fail), ap suc one_less)

  pick-Picks : (t i : ℕ) (xs : List GatewayCall) → All (IsFailing t) xs → Picks t xs (pick i xs)
  unfolding pick
  pick-Picks t i [] h = tt
  pick-Picks t zero (x ∷ xs) h = (h.0, h.1, refl)
  pick-Picks t (suc i) (x ∷ xs) h = keep_first-Picks t x xs (pick i xs) h.0 (pick-Picks t i xs h.1)

  module _ (down : IsDown redis) where
    -- The local breaker is closed, with as many failures more than f as calls have ended.
    abbrev IsClosed : ℕ → Circuit → ℕ → ℕ → Type 0
    IsClosed f c posts k =
        (c.opened_until ≡ 0) × (c.failures < threshold settings) × (posts + f ≡ c.failures + k)

    -- It is open for the rest of the time.
    abbrev IsOpen : ℕ → ℕ → Circuit → ℕ → ℕ → Type 0
    IsOpen t f c posts peak =
        (t + cooldown settings * 1000000 ≤ c.opened_until)
        × (threshold settings ≤ c.failures)
        × (posts + f + 1 ≤ threshold settings + peak)

    abbrev Stands : ℕ → ℕ → Circuit → ℕ → ℕ → ℕ → Type 0
    Stands t f c posts k peak = IsOpen t f c posts peak ⊎ IsClosed f c posts k

    record IsBounded (t f : ℕ) (a : Traffic S) : Type 0 where
      waiting : All (IsFailing t) a.in_flight
      at_once : length a.in_flight ≤ a.peak
      stands : Stands t f a.gateway.local a.posts (length a.in_flight) a.peak

    admit_call-IsBounded :
        (t f : ℕ) (x : GatewayCall) (p : Bool × GatewayState S) (a : Traffic S)
        → p.1.local ≡ a.gateway.local
        → (p.0 ≡ true → a.gateway.local.opened_until ≡ 0)
        → IsFailing t x
        → IsBounded t f a
        → IsBounded t f (admit_call redis settings sub x p a)
    unfolding admit_call
    admit_call-IsBounded t f x (false, g) a same passed h b = record {
      waiting = b.waiting;
      at_once = b.at_once;
      stands = subst (λ c. Stands t f c a.posts (length a.in_flight) a.peak) (sym same) b.stands;
    }
    admit_call-IsBounded t f x (true, g) a same passed h b = record {
      waiting = (h, b.waiting);
      at_once = omega arith;
      stands =
          subst
            (λ c.
              Stands t f c (a.posts + 1) (suc (length a.in_flight))
                (max a.peak (length a.in_flight + 1)))
            (sym same)
            (elim b.stands [
              | inl (wide, full, few) ↦ absurd (omega (arith, wide, passed refl))
              | inr (shut, below, count) ↦ inr (shut, below, omega (arith, count))
            ]);
    }

    -- A failure leaves the breaker open for the rest of the time, or closed and counted.
    fail_locally-Stands :
        (t f ended : ℕ) (c : Circuit) (posts k peak : ℕ)
        → t ≤ ended
        → suc k ≤ peak
        → Stands t f c posts (suc k) peak
        → Stands t f (fail_locally (threshold settings) (cooldown settings) ended c) posts k peak
    unfolding fail_locally
    fail_locally-Stands t f ended c posts k peak late most h =
        elim (Bool-cases (leb (threshold settings) (c.failures + 1))) [
          | inl e ↦ rw e (
              inl (
                omega (arith, late),
                ground (arith, e),
                elim h [
                  | inl (wide, full, few) ↦ few
                  | inr (shut, below, count) ↦ omega (arith, most, below, count)
                ],
              ))
          | inr e ↦ rw e (elim h [
            | inl (wide, full, few) ↦ absurd (ground (arith, e, full))
            | inr (shut, below, count) ↦ inr (shut, ground (arith, e), omega (arith, count))
          ])
        ]

    end_call-IsBounded :
        (t f : ℕ) (picked : Option (GatewayCall × List GatewayCall)) (a : Traffic S)
        → Picks t a.in_flight picked
        → IsBounded t f a
        → IsBounded t f (end_call redis settings sub picked a)
    unfolding end_call
    end_call-IsBounded t f none a h b = b
    end_call-IsBounded t f (some (x, rest)) a (fails, others, one_less) b =
        let concluded = conclude_lem redis settings sub x x.answer a.gateway fails.fails in
        let (s, failed) = record_failure_lem redis settings down x.ended a.gateway in
        let local = ap (λ r. r.1.local) concluded ∙ ap (λ (q : GatewayState S). q.local) failed in
        let most = b.at_once in
        let before = subst (λ k. Stands t f a.gateway.local a.posts k a.peak) one_less b.stands in
        record {
          waiting = others;
          at_once = omega (arith, one_less, most);
          stands =
              subst (λ c. Stands t f c a.posts (length rest) a.peak) (sym local)
                (fail_locally-Stands t f x.ended a.gateway.local a.posts (length rest) a.peak
                  fails.late (omega (arith, one_less, most)) before);
        }

    happen-IsBounded :
        (t f : ℕ) (e : GatewayEvent) (a : Traffic S)
        → Fails t e
        → IsBounded t f a
        → IsBounded t f (happen redis settings sub e a)
    unfolding happen
    happen-IsBounded t f (GatewayEvent.starts x) a h b =
        let early = h.early in
        let (same, passed) = start_lem redis settings down x.started a.gateway (elim b.stands [
          | inl (wide, full, few) ↦ inl (omega (arith, early, wide))
          | inr (shut, below, count) ↦ inr shut
        ]) in
        admit_call-IsBounded t f x (start_call redis settings x.started a.gateway) a same passed h b
    happen-IsBounded t f (GatewayEvent.ends i) a h b =
        end_call-IsBounded t f (pick i a.in_flight) a (pick-Picks t i a.in_flight b.waiting) b

    run-IsBounded :
        (t f : ℕ) (es : List GatewayEvent) (a : Traffic S)
        → All (Fails t) es
        → IsBounded t f a
        → IsBounded t f (run redis settings sub es a)
    unfolding run
    run-IsBounded t f [] a h b = b
    run-IsBounded t f (e ∷ es) a h b =
        run-IsBounded t f es (happen redis settings sub e a) h.1 (happen-IsBounded t f e a h.0 b)

    -- While Redis and the provider are down, in the time that the breaker stays open: if the breaker
    -- of the process is closed before the first call, all calls start before the time is over, fail,
    -- and end after it has begun, then at most as many calls reach the provider as failures are left
    -- until the threshold, and one less than the most calls that ever wait for the provider at once.
    -- The starts and the ends may come in any order, so the calls may overlap.
    pub posts-le-threshold :
        (t : ℕ) (es : List GatewayEvent) (g : GatewayState S)
        → All (Fails t) es
        → g.local.opened_until ≡ 0
        → g.local.failures < threshold settings
        → let a = run redis settings sub es (idle g) in
          a.posts + g.local.failures + 1 ≤ threshold settings + a.peak
    posts-le-threshold t es g h closed few =
        let start : IsBounded t g.local.failures (idle g) = record {
          waiting = tt;
          at_once = omega arith;
          stands = inr (closed, few, omega arith);
        } in
        let b = run-IsBounded t g.local.failures es (idle g) h start in
        let most = b.at_once in
        elim b.stands [
          | inl (wide, full, bound) ↦ bound
          | inr (shut, below, count) ↦ omega (arith, below, count, most)
        ]
