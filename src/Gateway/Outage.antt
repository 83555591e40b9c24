-- ===== src/Gateway/Outage.antt =====
-- What a call of the provider does to the breaker of the process while Redis is down.
use support_endpoint.Prelude.{
  ℕ, ◌<◌, ◌≡◌, refl, ap, String, Bool, true, false, Option, none, some, with_answer, arith, ◌⊎◌,
  inl, inr, Bool-cases,
}
use Prim.Native.String.{[] as empty, ◌∷◌ as cons}
use support_endpoint.Gateway.{
  CircuitRedis, Circuit, GatewaySettings, GatewayState, GatewayCall, threshold, cooldown,
  fail_locally, assert_local_circuit_closed, assert_of, assert_circuit_closed, record_failure,
  conclude, start_call, fall_back, after_incr, circuit_failures_key,
}

-- The provider raises, or answers nothing.
unfoldable pub is_failure : Option String → Bool
is_failure none = true
is_failure (some empty) = true
is_failure (some (cons c rest)) = false

-- Redis raises at its first command.
abbrev pub IsDown : {S : Type 0} → CircuitRedis S → Type 0
IsDown {S} redis =
    ((k : String) (s : S) → (redis.exists k s).0 ≡ none)
    × ((k : String) (s : S) → (redis.incr k s).0 ≡ none)

local_open :
    (now : ℕ) (c : Circuit) → now < c.opened_until → assert_local_circuit_closed now c ≡ (false, c)
unfolding assert_local_circuit_closed
local_open now c early = ground (arith, early)

local_closed :
    (now : ℕ) (c : Circuit) → c.opened_until ≡ 0 → assert_local_circuit_closed now c ≡ (true, c)
unfolding assert_local_circuit_closed
local_closed now c closed = ground (arith, closed)

module _ {S : Type 0} (redis : CircuitRedis S) (settings : GatewaySettings) where
  pub conclude_lem :
      (sub : String → String → String → String) (x : GatewayCall) (a : Option String)
      (g : GatewayState S)
      → is_failure a ≡ true
      → conclude redis settings sub x a g ≡ (none, record_failure redis settings x.ended g)
  unfolding conclude is_failure
  conclude_lem sub x none g h = refl
  conclude_lem sub x (some empty) g h = refl
  conclude_lem sub x (some (cons c rest)) g h = absurd (cc)

  module _ (down : IsDown redis) where
    assert_lem :
        (now : ℕ) (g : GatewayState S)
        → (s : S) × (assert_circuit_closed redis now g ≡ (
          (assert_local_circuit_closed now g.local).0,
          record { local = (assert_local_circuit_closed now g.local).1; remote = s },
        ))
    unfolding assert_circuit_closed
    assert_lem now g = (_, ap (assert_of redis now g.local) (with_answer _ _ (down.0 _ g.remote)))

    pub record_failure_lem :
        (ended : ℕ) (g : GatewayState S)
        → (s : S) × (record_failure redis settings ended g ≡ record {
          local = fail_locally (threshold settings) (cooldown settings) ended g.local;
          remote = s;
        })
    unfolding record_failure fall_back
    record_failure_lem ended g = (
      (redis.incr circuit_failures_key g.remote).1,
      ap (after_incr redis (threshold settings) (cooldown settings) ended g.local)
          (with_answer _ _ (down.1 circuit_failures_key g.remote)),
    )

    -- The start of a call before the time is over leaves the breaker, and passes if it is closed.
    pub start_lem :
        (now : ℕ) (g : GatewayState S)
        → (now < g.local.opened_until) ⊎ (g.local.opened_until ≡ 0)
        → ((start_call redis settings now g).1.local ≡ g.local)
          × ((start_call redis settings now g).0 ≡ true → g.local.opened_until ≡ 0)
    unfolding start_call
    start_lem now g h =
        let (s, e) = assert_lem now g in
        elim (Bool-cases settings.llm_enabled) [
          | inr off ↦ rw off (refl, λ k. cc)
          | inl on ↦ elim h [
            | inl early ↦ rw (on, e, local_open now g.local early) (refl, λ k. cc)
            | inr shut ↦ rw (on, e, local_closed now g.local shut) (refl, λ k. shut)
          ]
        ]
