-- ===== src/Auth/Router.antt =====
-- api/v1/auth.py: the routes of register, login, refresh and logout. The answer of the rate limiter,
-- which keeps its counters in Redis, is an argument of login.
use support_endpoint.Prelude.{String, Option, none, some}
use support_endpoint.Session.{Action, rate_limited, ◌>>=◌, ◌>>◌, pure, raise}
use support_endpoint.Auth.Service
use support_endpoint.Auth.Service.{Security, TokenPair}

-- `AuthRateLimiter.check_and_increment`: the limiter lets the attempt pass, or refuses it with a
-- message.
abbrev pub check_limit : Option String → Action (Unit {0})
check_limit none = pure tt
check_limit (some reason) = raise (rate_limited reason)

module _ (lib : Security) where
  unfoldable pub register : String → String → String → Action TokenPair
  register email password full_name = do
    user ← Service.register_user lib email password full_name
    Service.issue_token_pair lib user "" ""

  unfoldable pub login : Option String → String → String → String → String → Action TokenPair
  login limit email password user_agent client_ip = do
    check_limit limit
    user ← Service.authenticate lib email password
    Service.issue_token_pair lib user user_agent client_ip

  unfoldable pub refresh : String → Action TokenPair
  refresh refresh_token = Service.refresh lib refresh_token

  unfoldable pub logout : String → Action (Unit {0})
  logout refresh_token = Service.logout lib refresh_token
