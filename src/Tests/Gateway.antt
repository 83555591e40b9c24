-- ===== src/Tests/Gateway.antt =====
-- The theorem about the breaker, with a Redis that is down.
use support_endpoint.Prelude.{ℕ, ◌+◌, ◌≡◌, ◌≤◌, refl, arith, true, none, List, [], ◌∷◌}
use support_endpoint.Gateway.{
  CircuitRedis, GatewaySettings, GatewayState, GatewayCall, start_call, conclude, record_failure,
}
use support_endpoint.Gateway.Calls.{GatewayEvent, run, idle}
use support_endpoint.Gateway.Breaker.{posts-le-threshold}
use support_endpoint.Gateway.Outage.{is_failure}

abbrev no_redis : CircuitRedis ℕ
no_redis = record {
  exists = λ k s. (none, s);
  delete = λ ks s. (none, s);
  incr = λ k s. (none, s);
  expire = λ k n s. (none, s);
  set = λ k n s. (none, s);
}

abbrev settings : GatewaySettings
settings = record {
  llm_enabled = true;
  llm_circuit_failure_threshold = 2;
  llm_circuit_cooldown_seconds = 30;
}

abbrev unused : GatewayState ℕ
unused = record { local = record { failures = 0; opened_until = 0 }; remote = 0 }

abbrev failing : ℕ → GatewayCall
failing at = record { started = at; ended = at + 500; user_prompt = "Help"; answer = none }

-- Three calls start before the first of them ends; the fourth finds the breaker open.
abbrev outage : List GatewayEvent
outage =
    GatewayEvent.starts (failing 100)
    ∷ GatewayEvent.starts (failing 200)
    ∷ GatewayEvent.starts (failing 300)
    ∷ GatewayEvent.ends 2
    ∷ GatewayEvent.ends 1
    ∷ GatewayEvent.starts (failing 900)
    ∷ GatewayEvent.ends 0
    ∷ []

after_outage : (run no_redis settings (λ p r x. x) outage (idle unused)).posts ≡ 3
unfolding run start_call conclude record_failure
after_outage = refl

posts-le-threshold_example :
    let a = run no_redis settings (λ p r x. x) outage (idle unused) in a.posts + 0 + 1 ≤ 2 + a.peak
unfolding is_failure
posts-le-threshold_example =
    posts-le-threshold no_redis settings (λ p r x. x) ((λ k s. refl), (λ k s. refl)) 100 outage
      unused
      (
        record { early = omega arith; late = omega arith; fails = refl },
        (
          record { early = omega arith; late = omega arith; fails = refl },
          (
            record { early = omega arith; late = omega arith; fails = refl },
            (
              tt,
              (tt, (record { early = omega arith; late = omega arith; fails = refl }, (tt, tt))),
            ),
          ),
        ),
      )
      refl (omega arith)
