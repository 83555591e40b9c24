-- ===== src/Auth/Rotation.antt =====
-- A refresh token works once: rotation over any run of requests.
use support_endpoint.Prelude.{
  ◌≡◌, refl, String, Bool, List, [], ◌∷◌, inl, inr, Option-cases, Bool-cases, any,
}
use support_endpoint.Models.{User, RefreshSession}
use support_endpoint.Session.{Session, Result, ok, err, authentication, request, Action}
use support_endpoint.Auth.Repo.{
  has_hash, get_by_token_hash, get_by_id, is_active, create_session, revoke,
}
use support_endpoint.Audit.{record_event}
use support_endpoint.Auth.Router
use support_endpoint.Auth.Browser
use support_endpoint.Auth.Service
use support_endpoint.Auth.Service.{Security, TokenPair}
use support_endpoint.Auth.Spent.{IsSpent, IsSpent-push, IsSpent-revoked, Keeps, revoke_row}
use support_endpoint.Auth.Calls.{AuthCall, AuthRequest, handle_call, serve_auth}
use support_endpoint.Auth.Keeps.{
  Keeps-register, Keeps-login, Keeps-refresh, Keeps-logout, Keeps-browser_login,
  Keeps-browser_refresh, Keeps-browser_logout,
}

module _ (lib : Security) (h : String) where
  -- What a request leaves in the stored database.
  abbrev StoresSpent : {A : Type 0} → Action A → Type 0
  StoresSpent m =
      (s : Session) → IsSpent h s.stored.sessions → IsSpent h (request m s).1.stored.sessions

  request-StoresSpent : {A : Type 0} (m : Action A) → Keeps h m → StoresSpent m
  unfolding request
  request-StoresSpent m keep s k = (keep (record s { work = s.stored }) (k, k)).0

  handle_call-IsSpent :
      (is_production : Bool) (c : AuthCall) (s : Session)
      → IsSpent h s.stored.sessions
      → IsSpent h (handle_call lib is_production c s).stored.sessions
  unfolding handle_call
  handle_call-IsSpent is_production (AuthCall.register email password name) =
      request-StoresSpent (Router.register lib email password name)
        (Keeps-register lib h email password name)
  handle_call-IsSpent is_production (AuthCall.login limit email password agent ip) =
      request-StoresSpent (Router.login lib limit email password agent ip)
        (Keeps-login lib h limit email password agent ip)
  handle_call-IsSpent is_production (AuthCall.refresh token) =
      request-StoresSpent (Router.refresh lib token) (Keeps-refresh lib h token)
  handle_call-IsSpent is_production (AuthCall.logout token) =
      request-StoresSpent (Router.logout lib token) (Keeps-logout lib h token)
  handle_call-IsSpent is_production (AuthCall.browser_login limit email password agent ip) =
      request-StoresSpent (Browser.browser_login lib is_production limit email password agent ip)
        (Keeps-browser_login lib h is_production limit email password agent ip)
  handle_call-IsSpent is_production (AuthCall.browser_refresh cookie) =
      request-StoresSpent (Browser.browser_refresh lib is_production cookie)
        (Keeps-browser_refresh lib h is_production cookie)
  handle_call-IsSpent is_production (AuthCall.browser_logout cookie) =
      request-StoresSpent (Browser.browser_logout lib is_production cookie)
        (Keeps-browser_logout lib h is_production cookie)

  serve_auth-IsSpent :
      (is_production : Bool) (rs : List AuthRequest) (s : Session)
      → IsSpent h s.stored.sessions
      → IsSpent h (serve_auth lib is_production rs s).stored.sessions
  unfolding serve_auth
  serve_auth-IsSpent is_production [] s k = k
  serve_auth-IsSpent is_production (r ∷ rs) s k =
      serve_auth-IsSpent is_production rs _
        (handle_call-IsSpent is_production r.call (record s { now = r.at }) k)

  -- The token is spent if the request has succeeded.
  abbrev SpentIfOk : Result TokenPair × Session → Type 0
  SpentIfOk (ok p, s') = IsSpent h s'.stored.sessions
  SpentIfOk (err e, s') = Unit

  issue-SpentIfOk :
      (user : User) (s : Session)
      → IsSpent h s.work.sessions
      → SpentIfOk (Service.issue_token_pair lib user "" "" s)
  unfolding Service.issue_token_pair create_session record_event
  issue-SpentIfOk user s k =
      elim (Bool-cases (
        any (has_hash (lib.hash_opaque_token (lib.generate_opaque_token s.next_id)))
          s.work.sessions)) [ inl e ↦ rw e tt | inr e ↦ rw e (IsSpent-push h _ s.work.sessions k) ]

  -- The session is closed at the end of the request.
  closed-SpentIfOk :
      (out : Result TokenPair × Session)
      → SpentIfOk out
      → SpentIfOk (out.0, record out.1 { work = out.1.stored })
  closed-SpentIfOk (ok p, s') k = k
  closed-SpentIfOk (err e, s') k = tt

  IsSpent-of_ok :
      (out : Result TokenPair × Session) (p : TokenPair)
      → SpentIfOk out
      → out.0 ≡ ok p
      → IsSpent h out.1.stored.sessions
  IsSpent-of_ok (ok q, s') p k e = k
  IsSpent-of_ok (err x, s') p k e = cc

module _ (lib : Security) (token : String) where
  abbrev hashed : String
  hashed = lib.hash_opaque_token token

  -- The session in which the old row is revoked.
  abbrev after_revoke : RefreshSession → Session → Session
  after_revoke row s = record s {
    work = record s.stored { sessions = revoke_row row.id s.now s.stored.sessions };
  }

  refresh-SpentIfOk : (s : Session) → SpentIfOk lib hashed (request (Router.refresh lib token) s)
  unfolding request Router.refresh Service.refresh revoke get_by_token_hash
  refresh-SpentIfOk s = elim (Option-cases (get_by_token_hash hashed s.stored)) [
    | inl e ↦ rw e tt
    | inr (row, e) ↦ elim (Bool-cases (is_active s.now row)) [
      | inr c ↦ rw (e, c) tt
      | inl c ↦ elim (Option-cases (get_by_id row.user_id s.stored)) [
        | inl d ↦ rw (e, c, d) tt
        | inr (user, d) ↦ elim (Bool-cases user.is_active) [
          | inr f ↦ rw (e, c, d, f) tt
          | inl f ↦
              rw (e, c, d, f)
                (closed-SpentIfOk lib hashed
                  (Service.issue_token_pair lib user "" "" (after_revoke row s))
                  (issue-SpentIfOk lib hashed user (after_revoke row s)
                    (IsSpent-revoked hashed row s.now s.stored.sessions e)))
        ]
      ]
    ]
  ]

  refused :
      (s : Session)
      → IsSpent hashed s.stored.sessions
      → (request (Router.refresh lib token) s).0
        ≡ err (authentication "Invalid or expired refresh token")
  unfolding request Router.refresh Service.refresh get_by_token_hash is_active
  refused s (r, f, e) = rw (f, e) refl

  -- A refresh token works once: after a request that exchanges it for a new pair of tokens, and any
  -- run of registrations, logins, refreshes and logouts, the browser's among them, a request to refresh with it is refused.
  pub refresh_once :
      (is_production : Bool) (rs : List AuthRequest) (s : Session) (p : TokenPair)
      → (request (Router.refresh lib token) s).0 ≡ ok p
      → (request
          (Router.refresh lib token)
          (serve_auth lib is_production rs (request (Router.refresh lib token) s).1)).0
        ≡ err (authentication "Invalid or expired refresh token")
  refresh_once is_production rs s p e = refused _ (
      serve_auth-IsSpent lib hashed is_production rs _
        (IsSpent-of_ok lib hashed (request (Router.refresh lib token) s) p (refresh-SpentIfOk s) e))
