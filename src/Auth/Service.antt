-- ===== src/Auth/Service.antt =====
-- services/auth_service.py: accounts, logins and refresh tokens. The libraries of core/security.py
-- are a parameter.
use support_endpoint.Prelude.{
  ℕ, ◌+◌, ◌*◌, String, Bool, not, Option, none, some, [], is_some, if◌then◌else◌,
}
use support_endpoint.Models.{User, RefreshSession, Meta}
use support_endpoint.Session.{
  Action, conflict, authentication, ◌>>=◌, ◌>>◌, pure, query, or_raise, raise, raise_if, commit,
  new_uuid, utcnow,
}
use support_endpoint.Audit.{record_event}
use support_endpoint.Auth.Repo

-- core/security.py and the settings that it and the service use. `generate_opaque_token` makes a
-- token from a random value, for which the supply of ids stands; `create_access_token` signs a
-- user's id at an instant.
pub record Security : Type 0 where
  pub lower : String → String
  pub hash_password : String → String
  pub verify_password : String → String → Bool
  pub create_access_token : ℕ → ℕ → String
  pub generate_opaque_token : ℕ → String
  pub hash_opaque_token : String → String
  pub refresh_token_days : ℕ

-- An access token and a refresh token.
pub record TokenPair : Type 0 where
  pub access_token : String
  pub refresh_token : String

-- `timedelta(days=n)`
abbrev days : ℕ → ℕ
days n = n * 86400000000

module _ (lib : Security) where
  unfoldable pub register_user : String → String → String → Action User
  unfolding Repo.create_user record_event
  register_user email password full_name = do
    existing ← query (Repo.get_by_email (lib.lower email))
    raise_if (is_some existing) (conflict "An account with this email already exists")
    user ← Repo.create_user (lib.lower email) (lib.hash_password password) full_name
    record_event "auth.register" none (some user.id) "user" (Meta.key user.id) "success" []
    commit
    pure user

  -- A login that fails is audited.
  unfoldable pub reject_login : String → Action User
  unfolding record_event
  reject_login email = do
    record_event "auth.login_failed" none none "user" (Meta.text email) "failure" []
    commit
    raise (authentication "Invalid email or password")

  unfoldable pub check_password : String → String → Option User → Action User
  unfolding reject_login
  check_password email password none = reject_login email
  check_password email password (some user) =
      let rejected = reject_login email in
      let accepted = (do
        raise_if (not user.is_active) (authentication "Invalid email or password")
        pure user) in
      if lib.verify_password password user.password_hash then accepted else rejected

  unfoldable pub authenticate : String → String → Action User
  unfolding check_password
  authenticate email password = do
    user ← query (Repo.get_by_email (lib.lower email))
    check_password email password user

  unfoldable pub issue_token_pair : User → String → String → Action TokenPair
  unfolding Repo.create_session record_event
  issue_token_pair user user_agent ip_address = do
    now ← utcnow
    random ← new_uuid
    let raw_refresh : String = lib.generate_opaque_token random
    Repo.create_session user.id (lib.hash_opaque_token raw_refresh)
        (now + days lib.refresh_token_days) user_agent ip_address
    record_event "auth.login_succeeded" none (some user.id) "user" (Meta.key user.id) "success" []
    commit
    pure
        (record { access_token = lib.create_access_token user.id now; refresh_token = raw_refresh })

  unfoldable pub refresh : String → Action TokenPair
  unfolding issue_token_pair Repo.revoke Repo.is_active
  refresh raw_refresh_token = do
    now ← utcnow
    found ← query (Repo.get_by_token_hash (lib.hash_opaque_token raw_refresh_token))
    session ← or_raise found (authentication "Invalid or expired refresh token")
    raise_if (not (Repo.is_active now session)) (authentication "Invalid or expired refresh token")
    owner ← query (Repo.get_by_id session.user_id)
    user ← or_raise owner (authentication "Invalid or expired refresh token")
    raise_if (not user.is_active) (authentication "Invalid or expired refresh token")
    Repo.revoke session
    issue_token_pair user "" ""

  unfoldable pub revoke_if_found : Option RefreshSession → Action (Unit {0})
  unfolding Repo.revoke record_event
  revoke_if_found none = pure tt
  revoke_if_found (some session) = do
    Repo.revoke session
    record_event "auth.logout" none (some session.user_id) "session" (Meta.key session.id) "success"
        []
    commit

  unfoldable pub logout : String → Action (Unit {0})
  unfolding revoke_if_found
  logout raw_refresh_token = do
    session ← query (Repo.get_by_token_hash (lib.hash_opaque_token raw_refresh_token))
    revoke_if_found session
