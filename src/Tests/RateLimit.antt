-- ===== src/Tests/RateLimit.antt =====
-- The theorems about the limiter of logins, for a Redis that keeps its counters in a function.
use support_endpoint.Prelude.{
  ℕ, ◌+◌, ◌-◌, ◌≤◌, ◌≡◌, refl, arith, String, true, some, List, [], ◌∷◌, str_eq, eq_iff,
  if◌then◌else◌,
}
use support_endpoint.RateLimit.{LimiterSettings, Redis}
use support_endpoint.RateLimit.Attempts.{Attempt, IsCounting, passed, passed-le-limit}
use support_endpoint.Samples.{plain_security, signed_in}
use support_endpoint.Auth.Limited.{LoginAttempt, tried, tried-le-limit}

abbrev bump : (String → ℕ) → String → String → ℕ
bump s k j = if str_eq j k then s j + 1 else s j

abbrev plain_redis : Redis (String → ℕ)
plain_redis = record {
  incr = λ k s. (some (s k + 1), λ j. bump s k j);
  expire = λ k n s. (some tt, s);
}

abbrev settings : LimiterSettings
settings = record {
  auth_rate_limit_enabled = true;
  auth_rate_limit_window_seconds = 300;
  auth_rate_limit_ip_attempts = 20;
  auth_rate_limit_account_attempts = 2;
}

bump-same : (s : String → ℕ) (k : String) → bump s k k ≡ s k + 1
bump-same s k = rw ((eq_iff k k).1 refl) refl

bump-le : (s : String → ℕ) (k j : String) → s j ≤ bump s k j
bump-le s k j = ground arith

plain_redis-IsCounting : IsCounting plain_redis (λ k s. s k)
plain_redis-IsCounting = record {
  counts = λ k s. refl;
  raises = λ k s. bump-same s k;
  keeps = λ k j s. bump-le s k j;
  expires = λ k n s. refl;
  waits = λ k j n s. refl;
}

abbrev attempts : List Attempt
attempts =
    record { ip = "10.0.0.1"; account = "a@acme.test" }
    ∷ record { ip = "10.0.0.2"; account = "a@acme.test" }
    ∷ record { ip = "10.0.0.1"; account = "a@acme.test" }
    ∷ []

passed-le-limit_example :
    (passed plain_redis settings (λ x. str_eq x.account "a@acme.test") attempts (λ k. 0) ≤ 2 - 0)
    × (passed plain_redis settings (λ x. str_eq x.ip "10.0.0.1") attempts (λ k. 0) ≤ 20 - 0)
passed-le-limit_example =
    passed-le-limit plain_redis settings (λ k s. s k) plain_redis-IsCounting "10.0.0.1"
      "a@acme.test" attempts (λ k. 0) refl

abbrev guess : ℕ → String → LoginAttempt
guess at host = record {
  at = at;
  client_host = some host;
  email = "a@desk.test";
  password = "guess";
  user_agent = "";
}

abbrev guesses : List LoginAttempt
guesses = guess 610 "10.0.0.1" ∷ guess 620 "10.0.0.2" ∷ guess 630 "10.0.0.3" ∷ []

tried-le-limit_example :
    tried plain_security plain_redis settings "a@desk.test" guesses (λ k. 0) signed_in ≤ 2 - 0
tried-le-limit_example =
    tried-le-limit plain_security plain_redis settings (λ k s. s k) "a@desk.test" guesses (λ k. 0)
      signed_in plain_redis-IsCounting refl
