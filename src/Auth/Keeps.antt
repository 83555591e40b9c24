-- ===== src/Auth/Keeps.antt =====
-- The routes of api/v1/auth.py leave a refresh token spent.
use support_endpoint.Prelude.{
  String, Bool, Option, none, some, inl, inr, Option-cases, Bool-cases, any, str_eq,
}
use support_endpoint.Models.{User}
use support_endpoint.Auth.Repo.{
  has_hash, get_by_token_hash, get_by_id, get_by_email, is_active, create_session, create_user,
  revoke,
}
use support_endpoint.Audit.{record_event}
use support_endpoint.Auth.Router
use support_endpoint.Auth.Browser
use support_endpoint.Session.{◌>>=◌, pure}
use Prim.Native.String.{[], ◌∷◌}
use support_endpoint.Auth.Service
use support_endpoint.Auth.Service.{Security, TokenPair}
use support_endpoint.Auth.Spent.{IsSpent-push, IsSpent-revoke, Keeps, Keeps-bind, Keeps-revoke}

module _ (lib : Security) (h : String) where
  pub Keeps-issue :
      (user : User) (agent ip : String) → Keeps h (Service.issue_token_pair lib user agent ip)
  unfolding Service.issue_token_pair create_session record_event
  Keeps-issue user agent ip s k =
      let new = lib.hash_opaque_token (lib.generate_opaque_token s.next_id) in
      elim (Bool-cases (any (has_hash new) s.work.sessions)) [
        | inl e ↦ rw e k
        | inr e ↦ let pushed = IsSpent-push h _ s.work.sessions k.1 in rw e (pushed, pushed)
      ]

  pub Keeps-register_user :
      (email password name : String) → Keeps h (Service.register_user lib email password name)
  unfolding Service.register_user create_user record_event
  Keeps-register_user email password name s k =
      let mail = lib.lower email in
      elim (Option-cases (get_by_email mail s.work)) [
        | inr (u, e) ↦ rw e k
        | inl e ↦ elim (Bool-cases (any (λ (u : User). str_eq u.email mail) s.work.users)) [
          | inl c ↦ rw (e, c) k
          | inr c ↦ rw (e, c) (k.1, k.1)
        ]
      ]

  pub Keeps-check_password :
      (email password : String) (user : Option User)
      → Keeps h (Service.check_password lib email password user)
  unfolding Service.check_password Service.reject_login record_event
  Keeps-check_password email password none s k = (k.1, k.1)
  Keeps-check_password email password (some user) s k =
      elim (Bool-cases (lib.verify_password password user.password_hash)) [
        | inr e ↦ rw e (k.1, k.1)
        | inl e ↦ elim (Bool-cases user.is_active) [ inl c ↦ rw (e, c) k | inr c ↦ rw (e, c) k ]
      ]

  pub Keeps-register :
      (email password name : String) → Keeps h (Router.register lib email password name)
  unfolding Router.register
  Keeps-register email password name =
      Keeps-bind h (Service.register_user lib email password name)
        (λ user. Service.issue_token_pair lib user "" "") (Keeps-register_user email password name)
        (λ user. Keeps-issue user "" "")

  pub Keeps-login :
      (limit : Option String) (email password agent ip : String)
      → Keeps h (Router.login lib limit email password agent ip)
  unfolding Router.login Service.authenticate
  Keeps-login (some reason) email password agent ip s k = k
  Keeps-login none email password agent ip s k =
      Keeps-bind h
        (Service.check_password lib email password (get_by_email (lib.lower email) s.work))
        (λ user. Service.issue_token_pair lib user agent ip)
        (Keeps-check_password email password (get_by_email (lib.lower email) s.work))
        (λ user. Keeps-issue user agent ip) s k

  pub Keeps-refresh : (token : String) → Keeps h (Router.refresh lib token)
  unfolding Router.refresh Service.refresh revoke
  Keeps-refresh token s k =
      elim (Option-cases (get_by_token_hash (lib.hash_opaque_token token) s.work)) [
        | inl e ↦ rw e k
        | inr (row, e) ↦ elim (Bool-cases (is_active s.now row)) [
          | inr c ↦ rw (e, c) k
          | inl c ↦ elim (Option-cases (get_by_id row.user_id s.work)) [
            | inl d ↦ rw (e, c, d) k
            | inr (user, d) ↦ elim (Bool-cases user.is_active) [
              | inr f ↦ rw (e, c, d, f) k
              | inl f ↦ rw (e, c, d, f) (Keeps-issue user "" "" _ (Keeps-revoke h row s k))
            ]
          ]
        ]
      ]

  pub Keeps-logout : (token : String) → Keeps h (Router.logout lib token)
  unfolding Router.logout Service.logout Service.revoke_if_found revoke record_event
  Keeps-logout token s k =
      elim (Option-cases (get_by_token_hash (lib.hash_opaque_token token) s.work)) [
        | inl e ↦ rw e k
        | inr (row, e) ↦
            let gone = IsSpent-revoke h row.id s.now s.work.sessions k.1 in rw e (gone, gone)
      ]

  module _ (is_production : Bool) where
    Keeps-refresh_cookie :
        (token : String) → Keeps h (Browser.refresh_cookie lib is_production token)
    unfolding Browser.refresh_cookie Router.refresh
    Keeps-refresh_cookie [] = λ s k. k
    Keeps-refresh_cookie (c ∷ rest) =
        Keeps-bind h (Service.refresh lib (c ∷ rest))
          (λ pair. pure (Browser.in_cookie lib is_production pair)) (Keeps-refresh (c ∷ rest))
          (λ pair s k. k)

    pub Keeps-browser_refresh :
        (cookie : Option String) → Keeps h (Browser.browser_refresh lib is_production cookie)
    unfolding Browser.browser_refresh
    Keeps-browser_refresh none = λ s k. k
    Keeps-browser_refresh (some token) = Keeps-refresh_cookie token

    Keeps-logout_cookie : (token : String) → Keeps h (Browser.logout_cookie lib is_production token)
    unfolding Browser.logout_cookie Router.logout
    Keeps-logout_cookie [] = λ s k. k
    Keeps-logout_cookie (c ∷ rest) = Keeps-logout (c ∷ rest)

    pub Keeps-browser_logout :
        (cookie : Option String) → Keeps h (Browser.browser_logout lib is_production cookie)
    unfolding Browser.browser_logout
    Keeps-browser_logout none = λ s k. k
    Keeps-browser_logout (some token) =
        Keeps-bind h (Browser.logout_cookie lib is_production token)
          (λ _. pure (Browser.clear_browser_refresh_cookie lib is_production))
          (Keeps-logout_cookie token) (λ _ s k. k)

    pub Keeps-browser_login :
        (limit : Option String) (email password agent ip : String)
        → Keeps h (Browser.browser_login lib is_production limit email password agent ip)
    unfolding Browser.browser_login Service.authenticate
    Keeps-browser_login (some reason) email password agent ip s k = k
    Keeps-browser_login none email password agent ip s k =
        Keeps-bind h
          (Service.check_password lib email password (get_by_email (lib.lower email) s.work))
          (λ user. Service.issue_token_pair lib user agent ip >>= λ pair.
            pure (Browser.in_cookie lib is_production pair))
          (Keeps-check_password email password (get_by_email (lib.lower email) s.work))
          (λ user.
            Keeps-bind h (Service.issue_token_pair lib user agent ip)
              (λ pair. pure (Browser.in_cookie lib is_production pair)) (Keeps-issue user agent ip)
              (λ pair s k. k))
          s k
