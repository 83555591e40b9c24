-- ===== src/Config.antt =====
-- core/config.py: the settings and what a production environment requires of them.
use support_endpoint.Prelude.{
  ℕ, zero, suc, ℤ, pos, negsuc, String, Bool, true, false, not, ◌||◌, List, [], ◌∷◌, map, push,
  select, str_eq, ltb, ◌==◌, if◌then◌else◌,
}
use Prim.Native.Char.{Char, code}
use Prim.Native.String.{[] as empty, ◌∷◌ as cons, ◌++◌ as text_append}
use support_endpoint.Session.{Result, ok, err, unhandled}
pub mod Safety

abbrev pub default_jwt_secret : String
default_jwt_secret = "replace-with-at-least-32-random-bytes-before-external-access"

pub record Settings : Type 0 where
  pub app_env : String
  pub app_name : String
  pub api_host : String
  pub api_port : ℤ
  pub database_url : String
  pub redis_url : String
  pub jwt_secret : String
  pub jwt_algorithm : String
  pub access_token_minutes : ℤ
  pub refresh_token_days : ℤ
  pub bootstrap_enabled : Bool
  pub auth_rate_limit_enabled : Bool
  pub auth_rate_limit_window_seconds : ℤ
  pub auth_rate_limit_ip_attempts : ℤ
  pub auth_rate_limit_account_attempts : ℤ
  pub secure_headers_hsts_enabled : Bool
  pub forwarded_allow_ips : String
  pub cors_allow_origins : String
  pub metrics_bearer_token : String
  pub sla_scheduler_interval_seconds : ℤ
  pub attachment_max_bytes : ℤ
  pub attachment_workspace_quota_bytes : ℤ
  pub llm_enabled : Bool
  pub llm_base_url : String
  pub llm_model : String
  pub llm_api_key : String
  pub llm_timeout_seconds : ℤ
  pub llm_workspace_requests_per_minute : ℤ
  pub llm_circuit_failure_threshold : ℤ
  pub llm_circuit_cooldown_seconds : ℤ
  pub log_level : String

-- `x < y` on ints.
unfoldable pub ltb_int : ℤ → ℤ → Bool
ltb_int (pos a) (pos b) = ltb a b
ltb_int (pos a) (negsuc b) = false
ltb_int (negsuc a) (pos b) = true
ltb_int (negsuc a) (negsuc b) = ltb b a

-- `len(text)`
unfoldable pub len : String → ℕ
len empty = 0
len (cons c rest) = suc (len rest)

abbrev pub is_blank : String → Bool
is_blank empty = true
is_blank (cons c rest) = false

-- A character before the first of the parts of a text.
abbrev to_first : Char → List String → List String
to_first c [] = []
to_first c (part ∷ parts) = if code c == 44 then empty ∷ part ∷ parts else cons c part ∷ parts

-- `text.split(",")`
unfoldable pub split_commas : String → List String
split_commas empty = empty ∷ []
split_commas (cons c rest) = to_first c (split_commas rest)

-- `"; ".join(parts)`
unfoldable pub join : List String → String
join [] = empty
join (part ∷ parts) = elim parts [
  | [] ↦ part
  | next ∷ rest ↦ text_append part (text_append "; " (join parts))
]

-- `if failed: errors.append(message)`
unfoldable pub error_if : Bool → String → List String → List String
error_if failed message errors = if failed then push message errors else errors

unfoldable pub is_production : Settings → Bool
is_production s = str_eq s.app_env "production"

-- `if errors: raise ValueError(…)`
unfoldable pub accept : Settings → List String → Result Settings
accept s [] = ok s
accept s (e ∷ es) =
    err (unhandled (text_append "Unsafe production configuration: " (join (e ∷ es))))

-- `str.strip` is a parameter.
module _ (strip : String → String) where
  unfoldable pub cors_origins_list : Settings → List String
  cors_origins_list s =
      select (λ o. not (is_blank o)) (map strip (split_commas s.cors_allow_origins))

  -- `errors`
  unfoldable pub security_errors : Settings → List String
  security_errors s =
      let secret =
        error_if (str_eq s.jwt_secret default_jwt_secret || ltb (len s.jwt_secret) 32)
          "JWT_SECRET must be replaced with at least 32 characters" [] in
      let closed = error_if s.bootstrap_enabled "BOOTSTRAP_ENABLED must be false" secret in
      let limited =
        error_if (not s.auth_rate_limit_enabled) "AUTH_RATE_LIMIT_ENABLED must be true" closed in
      let strict =
        error_if (not s.secure_headers_hsts_enabled) "SECURE_HEADERS_HSTS_ENABLED must be true"
          limited in
      let origins =
        error_if (elim (cors_origins_list s) [ [] ↦ true | o ∷ os ↦ false ])
          "CORS_ALLOW_ORIGINS must not be empty" strict in
      let metrics =
        error_if (ltb (len s.metrics_bearer_token) 32)
          "METRICS_BEARER_TOKEN must contain at least 32 characters" origins in
      let scheduler =
        error_if (ltb_int s.sla_scheduler_interval_seconds (pos 10))
          "SLA_SCHEDULER_INTERVAL_SECONDS must be at least 10" metrics in
      let attachments =
        error_if (not (ltb_int (pos 0) s.attachment_max_bytes))
          "ATTACHMENT_MAX_BYTES must be greater than zero" scheduler in
      error_if (ltb_int s.attachment_workspace_quota_bytes s.attachment_max_bytes)
        "ATTACHMENT_WORKSPACE_QUOTA_BYTES must be >= ATTACHMENT_MAX_BYTES" attachments

  unfoldable pub validate_production_security : Settings → Result Settings
  unfolding is_production accept security_errors
  validate_production_security s =
      let checked = accept s (security_errors s) in if is_production s then checked else ok s
