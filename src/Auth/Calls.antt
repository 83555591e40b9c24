-- ===== src/Auth/Calls.antt =====
-- The requests of api/v1/auth.py as one type, and a server that handles them one after another.
use support_endpoint.Prelude.{ℕ, String, Bool, Option, List, [], ◌∷◌}
use support_endpoint.Session.{Session, request}
use support_endpoint.Auth.Router
use support_endpoint.Auth.Browser
use support_endpoint.Auth.Service.{Security}

-- The requests of api/v1/auth.py, and when they arrive.
pub data AuthCall : Type 0 where
  register : String → String → String → AuthCall
  login : Option String → String → String → String → String → AuthCall
  refresh logout : String → AuthCall
  browser_login : Option String → String → String → String → String → AuthCall
  browser_refresh browser_logout : Option String → AuthCall

pub record AuthRequest : Type 0 where
  pub at : ℕ
  pub call : AuthCall

module _ (lib : Security) (is_production : Bool) where
  -- The session after a request.
  unfoldable pub handle_call : AuthCall → Session → Session
  handle_call (AuthCall.register email password name) s =
      (request (Router.register lib email password name) s).1
  handle_call (AuthCall.login limit email password agent ip) s =
      (request (Router.login lib limit email password agent ip) s).1
  handle_call (AuthCall.refresh token) s = (request (Router.refresh lib token) s).1
  handle_call (AuthCall.logout token) s = (request (Router.logout lib token) s).1
  handle_call (AuthCall.browser_login limit email password agent ip) s =
      (request (Browser.browser_login lib is_production limit email password agent ip) s).1
  handle_call (AuthCall.browser_refresh cookie) s =
      (request (Browser.browser_refresh lib is_production cookie) s).1
  handle_call (AuthCall.browser_logout cookie) s =
      (request (Browser.browser_logout lib is_production cookie) s).1

  unfoldable pub serve_auth : List AuthRequest → Session → Session
  serve_auth [] s = s
  serve_auth (r ∷ rs) s = serve_auth rs (handle_call r.call (record s { now = r.at }))
