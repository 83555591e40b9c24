-- ===== src/Auth/Browser.antt =====
-- api/v1/auth.py: the routes of the browser, whose refresh token stands in a cookie, and the user's
-- own data. The cookie is part of the answer.
use support_endpoint.Prelude.{ℕ, ◌*◌, String, Bool, true, Option, none, some}
use Prim.Native.String.{[], ◌∷◌}
use support_endpoint.Session.{Action, authentication, ◌>>=◌, ◌>>◌, pure, raise}
use support_endpoint.Authz.CurrentUser.{Tokens, get_current_user}
use support_endpoint.Auth.Router.{check_limit}
use support_endpoint.Auth.Service
use support_endpoint.Auth.Service.{Security, TokenPair}

-- A `Set-Cookie` of the response; a cookie that is deleted has no value.
pub record Cookie : Type 0 where
  pub value : Option String
  pub max_age : ℕ
  pub is_http_only : Bool
  pub is_secure : Bool
  pub path : String

-- schemas/auth.py
pub record UserResponse : Type 0 where
  pub id : ℕ
  pub email : String
  pub full_name : String
  pub is_active : Bool

abbrev browser_refresh_path : String
browser_refresh_path = "/api/v1/auth/browser"

module _ (lib : Security) (is_production : Bool) where
  -- `_set_browser_refresh_cookie`
  abbrev pub set_browser_refresh_cookie : String → Cookie
  set_browser_refresh_cookie token = record {
    value = some token;
    max_age = lib.refresh_token_days * 24 * 60 * 60;
    is_http_only = true;
    is_secure = is_production;
    path = browser_refresh_path;
  }

  -- `_clear_browser_refresh_cookie`
  abbrev pub clear_browser_refresh_cookie : Cookie
  clear_browser_refresh_cookie = record {
    value = none;
    max_age = 0;
    is_http_only = true;
    is_secure = is_production;
    path = browser_refresh_path;
  }

  -- The answer of a route that issues tokens to the browser.
  abbrev pub in_cookie : TokenPair → String × Cookie
  in_cookie pair = (pair.access_token, set_browser_refresh_cookie pair.refresh_token)

  unfoldable pub browser_login :
      Option String → String → String → String → String → Action (String × Cookie)
  browser_login limit email password user_agent client_ip = do
    check_limit limit
    user ← Service.authenticate lib email password
    pair ← Service.issue_token_pair lib user user_agent client_ip
    pure (in_cookie pair)

  unfoldable pub refresh_cookie : String → Action (String × Cookie)
  refresh_cookie [] = raise (authentication "Invalid or expired refresh token")
  refresh_cookie (c ∷ rest) = do pair ← Service.refresh lib (c ∷ rest); pure (in_cookie pair)

  unfoldable pub browser_refresh : Option String → Action (String × Cookie)
  unfolding refresh_cookie
  browser_refresh none = raise (authentication "Invalid or expired refresh token")
  browser_refresh (some refresh_token) = refresh_cookie refresh_token

  unfoldable pub logout_cookie : String → Action (Unit {0})
  logout_cookie [] = pure tt
  logout_cookie (c ∷ rest) = Service.logout lib (c ∷ rest)

  unfoldable pub browser_logout : Option String → Action Cookie
  unfolding logout_cookie
  browser_logout none = pure clear_browser_refresh_cookie
  browser_logout (some refresh_token) = do
    logout_cookie refresh_token
    pure clear_browser_refresh_cookie

unfoldable pub me : Tokens → Option String → Action UserResponse
me tokens authorization = do
  user ← get_current_user tokens authorization
  pure (record {
    id = user.id;
    email = user.email;
    full_name = user.full_name;
    is_active = user.is_active;
  })
