-- ===== src/Gateway.antt =====
-- ai/gateway.py: the client of the language model, behind a circuit breaker. Redis, `re.sub` and the
-- provider are parameters; none stands for an exception.
use support_endpoint.Prelude.{
  ℕ, ◌+◌, ◌*◌, max, String, Bool, true, false, not, ◌&&◌, Option, none, some, List, [], ◌∷◌, ltb,
  leb, ◌==◌, if◌then◌else◌,
}
use Prim.Native.String.{[] as empty, ◌∷◌ as cons}
pub mod Calls
pub mod Outage
pub mod Breaker

abbrev circuit_open_key : String
circuit_open_key = "csp:llm:circuit:open"

abbrev pub circuit_failures_key : String
circuit_failures_key = "csp:llm:circuit:failures"

pub record GatewayResult : Type 0 where
  pub text : String
  pub redacted_prompt : String

-- The settings that the gateway reads. A negative int counts as 0, which `max(1, …)` makes 1.
pub record GatewaySettings : Type 0 where
  pub llm_enabled : Bool
  pub llm_circuit_failure_threshold : ℕ
  pub llm_circuit_cooldown_seconds : ℕ

-- The commands of Redis over its state: EXISTS, DEL, INCR, EXPIRE, and SET of "1" with EX.
pub record CircuitRedis (S : Type 0) : Type 0 where
  pub exists : String → S → Option ℕ × S
  pub delete : List String → S → Option ℕ × S
  pub incr : String → S → Option ℕ × S
  pub expire : String → ℕ → S → Option (Unit {0}) × S
  pub set : String → ℕ → S → Option (Unit {0}) × S

-- The breaker of the process; 0 stands for 0.0, and instants count microseconds.
pub record Circuit : Type 0 where
  pub failures : ℕ
  pub opened_until : ℕ

pub record GatewayState (S : Type 0) : Type 0 where
  pub local : Circuit
  pub remote : S

-- A call: when it looks at the breaker, when it ends, its prompt, and the text that the provider
-- answers, stripped.
pub record GatewayCall : Type 0 where
  pub started : ℕ
  pub ended : ℕ
  pub user_prompt : String
  pub answer : Option String

unfoldable pub reset_circuit : Circuit
reset_circuit = record { failures = 0; opened_until = 0 }

-- `_assert_local_circuit_closed`: whether it passes, and the breaker then.
unfoldable pub assert_local_circuit_closed : ℕ → Circuit → Bool × Circuit
unfolding reset_circuit
assert_local_circuit_closed now c =
    if ltb now c.opened_until
    then (false, c)
    else if not (c.opened_until == 0)
    then (true, reset_circuit)
    else (true, c)

-- `cls._failures += 1` and what follows.
unfoldable pub fail_locally : ℕ → ℕ → ℕ → Circuit → Circuit
fail_locally threshold cooldown now c =
    let failures = c.failures + 1 in
    if leb threshold failures
    then record { failures = failures; opened_until = now + cooldown * 1000000 }
    else record c { failures = failures }

-- `redact_sensitive`, where `sub pattern replacement text` is `re.sub`.
unfoldable pub redact_sensitive : (String → String → String → String) → String → String
redact_sensitive sub text =
    sub "(?<!\\d)(?:\\+?\\d[\\d ()-]{7,}\\d)(?!\\d)" "[REDACTED_PHONE]"
      (sub "\\b[A-Za-z0-9._%+-]+@[A-Za-z0-9.-]+\\.[A-Za-z]{2,}\\b" "[REDACTED_EMAIL]" text)

-- `threshold` and `cooldown`
abbrev pub threshold : GatewaySettings → ℕ
threshold settings = max 1 settings.llm_circuit_failure_threshold

abbrev pub cooldown : GatewaySettings → ℕ
cooldown settings = max 1 settings.llm_circuit_cooldown_seconds

module _ {S : Type 0} (redis : CircuitRedis S) where
  unfoldable pub assert_of : ℕ → Circuit → Option ℕ × S → Bool × GatewayState S
  unfolding assert_local_circuit_closed
  assert_of now c (some n, s) = (n == 0, record { local = c; remote = s })
  assert_of now c (none, s) =
      let (closed, c') = assert_local_circuit_closed now c in
      (closed, record { local = c'; remote = s })

  -- `_assert_circuit_closed`
  unfoldable pub assert_circuit_closed : ℕ → GatewayState S → Bool × GatewayState S
  unfolding assert_of
  assert_circuit_closed now g = assert_of now g.local (redis.exists circuit_open_key g.remote)

  -- `_record_success`: the distributed breaker is reset if Redis answers.
  unfoldable pub record_success : GatewayState S → GatewayState S
  unfolding reset_circuit
  record_success g = record {
    local = reset_circuit;
    remote = (redis.delete (circuit_open_key ∷ circuit_failures_key ∷ []) g.remote).1;
  }

  module _ (limit wait ended : ℕ) (c : Circuit) where
    -- An exception of Redis, in a state.
    unfoldable pub fall_back : S → GatewayState S
    unfolding fail_locally
    fall_back s = record { local = fail_locally limit wait ended c; remote = s }

    abbrev after_delete : Option ℕ × S → GatewayState S
    after_delete (some n, s) = record { local = c; remote = s }
    after_delete (none, s) = fall_back s

    abbrev after_set : Option (Unit {0}) × S → GatewayState S
    after_set (some u, s) = after_delete (redis.delete (circuit_failures_key ∷ []) s)
    after_set (none, s) = fall_back s

    abbrev after_expire : ℕ → Option (Unit {0}) × S → GatewayState S
    after_expire failures (some u, s) =
        let opened = after_set (redis.set circuit_open_key wait s) in
        if leb limit failures then opened else record { local = c; remote = s }
    after_expire failures (none, s) = fall_back s

    abbrev pub after_incr : Option ℕ × S → GatewayState S
    after_incr (some failures, s) = after_expire failures (redis.expire circuit_failures_key wait s)
    after_incr (none, s) = fall_back s

  module _ (settings : GatewaySettings) where
    -- `_record_failure`
    unfoldable pub record_failure : ℕ → GatewayState S → GatewayState S
    unfolding fall_back
    record_failure ended g =
        after_incr (threshold settings) (cooldown settings) ended g.local
          (redis.incr circuit_failures_key g.remote)

    -- The start of `suggest`: whether the call goes on to the provider.
    unfoldable pub start_call : ℕ → GatewayState S → Bool × GatewayState S
    unfolding assert_circuit_closed
    start_call now g =
        let asked = assert_circuit_closed now g in
        if settings.llm_enabled then asked else (false, g)

    module _ (sub : String → String → String → String) where
      -- What follows the answer of the provider.
      unfoldable pub conclude :
          GatewayCall → Option String → GatewayState S → Option GatewayResult × GatewayState S
      conclude x none g = (none, record_failure x.ended g)
      conclude x (some empty) g = (none, record_failure x.ended g)
      conclude x (some (cons c rest)) g = (
        some (record { text = cons c rest; redacted_prompt = redact_sensitive sub x.user_prompt }),
        record_success g,
      )

      -- The rest of `suggest`, whether the start has let it pass or not.
      unfoldable pub post_if :
          GatewayCall → Bool × GatewayState S → Option GatewayResult × GatewayState S
      unfolding conclude
      post_if x (false, g) = (none, g)
      post_if x (true, g) = conclude x x.answer g

      unfoldable pub suggest : GatewayCall → GatewayState S → Option GatewayResult × GatewayState S
      unfolding post_if start_call
      suggest x g = post_if x (start_call x.started g)
