-- ===== src/Observability/Probes.antt =====
-- middleware/correlation.py, api/v1/metrics.py and api/v1/health.py.
use support_endpoint.Prelude.{
  ℕ, String, Bool, true, false, not, ◌&&◌, Option, none, some, str_eq, if◌then◌else◌, ◌==◌, ltb,
}
use Prim.Native.Char.{code}
use Prim.Native.String.{[] as empty, ◌∷◌ as cons}

abbrev is_blank : String → Bool
is_blank empty = true
is_blank (cons c rest) = false

-- `incoming or str(uuid.uuid4())`, which is also a header of the response.
unfoldable pub correlation_id : Option String → String → String
correlation_id none fresh = fresh
correlation_id (some incoming) fresh = if is_blank incoming then fresh else incoming

-- The two parts of `text.partition(" ")` around the first space.
unfoldable pub scheme_of : String → String
scheme_of empty = empty
scheme_of (cons c rest) = let more = scheme_of rest in if code c == 32 then empty else cons c more

unfoldable pub token_of : String → String
token_of empty = empty
token_of (cons c rest) = let more = token_of rest in if code c == 32 then rest else more

abbrev or_blank : Option String → String
or_blank none = empty
or_blank (some text) = text

-- `text.isascii()`, which `secrets.compare_digest` requires of both texts.
unfoldable pub is_ascii : String → Bool
is_ascii empty = true
is_ascii (cons c rest) = ltb (code c) 128 && is_ascii rest

-- A response: its status code, and its body if it is a success.
pub data MetricsAnswer : Type 0 where
  refused : ℕ → MetricsAnswer
  rendered : String → MetricsAnswer

-- `secrets.compare_digest(token, expected)`: a text that is not ASCII makes it raise a TypeError.
abbrev compare_digest : String → String → String → MetricsAnswer
compare_digest token expected body =
    if not (is_ascii token && is_ascii expected)
    then refused 500
    else if str_eq token expected
    then rendered body
    else refused 401

-- `metrics`, with `str.lower`, the setting, and the text of the metrics as arguments.
unfoldable pub metrics : (String → String) → String → String → Option String → MetricsAnswer
metrics lower expected body authorization =
    let given = or_blank authorization in
    if is_blank expected
    then refused 404
    else if not (str_eq (lower (scheme_of given)) "bearer")
    then refused 401
    else compare_digest (token_of given) expected body

-- What `ready` answers, where `health` never looks.
pub record Readiness : Type 0 where
  pub status : String
  pub database : String
  pub redis : String

unfoldable pub ready : Bool → Bool → Readiness
ready has_database has_redis = record {
  status = if has_database && has_redis then "ok" else "degraded";
  database = if has_database then "ok" else "unavailable";
  redis = if has_redis then "ok" else "unavailable";
}
