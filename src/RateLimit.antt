-- ===== src/RateLimit.antt =====
-- services/rate_limit_service.py: the limiter of login attempts. Redis is a parameter, whose commands
-- may fail.
use support_endpoint.Prelude.{
  ℕ, zero, ◌+◌, String, Bool, Option, none, some, ltb, ◌==◌, if◌then◌else◌,
}
use Prim.Native.String.{◌++◌ as text_append}
pub mod Attempts

-- core/config.py: the settings that the limiter reads.
pub record LimiterSettings : Type 0 where
  pub auth_rate_limit_enabled : Bool
  pub auth_rate_limit_window_seconds : ℕ
  pub auth_rate_limit_ip_attempts : ℕ
  pub auth_rate_limit_account_attempts : ℕ

-- Redis over its state: INCR answers with the new count, and none stands for an exception.
pub record Redis (S : Type 0) : Type 0 where
  pub incr : String → S → Option ℕ × S
  pub expire : String → ℕ → S → Option (Unit {0}) × S

abbrev pub ip_key : String → String
ip_key ip = text_append "authrl:ip:" ip

abbrev pub account_key : String → String
account_key account = text_append "authrl:acct:" account

-- The message of the refusal, if there is one.
unfoldable pub judge : LimiterSettings → ℕ → ℕ → Option String
judge settings ip_count account_count =
    if ltb settings.auth_rate_limit_ip_attempts ip_count
    then some "Too many login attempts from this address"
    else if ltb settings.auth_rate_limit_account_attempts account_count
    then some "Too many login attempts for this account"
    else none

module _ {S : Type 0} (redis : Redis S) (settings : LimiterSettings) where
  -- `n = incr(key)`, then `expire(key, window)` at the first.
  unfoldable pub set_expiry : String → Option ℕ × S → Option ℕ × S
  set_expiry key (none, s) = (none, s)
  set_expiry key (some n, s) =
      let (done, s') = redis.expire key settings.auth_rate_limit_window_seconds s in
      if n == 1 then (elim done [ none ↦ none | some _ ↦ some n ], s') else (some n, s)

  unfoldable pub count_attempt : String → S → Option ℕ × S
  unfolding set_expiry
  count_attempt key s = set_expiry key (redis.incr key s)

  -- The judgement, after the second counter's answer. If Redis fails the attempt passes.
  unfoldable pub conclude : ℕ → Option ℕ × S → Option String × S
  unfolding judge
  conclude ip_count (none, s) = (none, s)
  conclude ip_count (some account_count, s) = (judge settings ip_count account_count, s)

  -- The second counter, after the first one's answer.
  unfoldable pub count_account : String → Option ℕ × S → Option String × S
  unfolding conclude
  count_account account (none, s) = (none, s)
  count_account account (some ip_count, s) =
      conclude ip_count (count_attempt (account_key account) s)

  -- none lets the attempt pass.
  unfoldable pub check_and_increment : String → String → S → Option String × S
  unfolding count_account
  check_and_increment ip account s =
      let counted = count_account account (count_attempt (ip_key ip) s) in
      if settings.auth_rate_limit_enabled then counted else (none, s)
