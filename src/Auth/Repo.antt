-- ===== src/Auth/Repo.antt =====
-- repositories/user_repo.py and repositories/session_repo.py, with RefreshSession.is_active of
-- models/session.py. The unique columns make a flush fail that would repeat an email or a hash.
use support_endpoint.Prelude.{
  ℕ, String, Bool, true, ◌&&◌, Option, none, some, push, find, any, modify_where, is_none, ltb,
  ◌==◌, str_eq,
}
use support_endpoint.Models.{User, RefreshSession}
use support_endpoint.Session.{
  Db, Action, unhandled, ◌>>=◌, ◌>>◌, pure, query, modify, new_uuid, utcnow, raise_if,
}

unfoldable pub get_by_id : ℕ → Db → Option User
get_by_id user_id d = find (λ (u : User). u.id == user_id) d.users

-- `get_by_email` of an email in lower case.
unfoldable pub get_by_email : String → Db → Option User
get_by_email email d = find (λ (u : User). str_eq u.email email) d.users

-- `UserRepository.create` with an email in lower case.
unfoldable pub create_user : String → String → String → Action User
create_user email password_hash full_name = do
  i ← new_uuid
  taken ← query (λ d. any (λ (u : User). str_eq u.email email) d.users)
  raise_if taken (unhandled "IntegrityError")
  let user : User = record {
    id = i;
    email = email;
    password_hash = password_hash;
    full_name = full_name;
    is_active = true;
  }
  modify (λ d. record d { users = push user d.users })
  pure user

-- `RefreshSession.token_hash == token_hash`
abbrev pub has_hash : String → RefreshSession → Bool
has_hash token_hash r = str_eq r.token_hash token_hash

-- `SessionRepository.create`
unfoldable pub create_session : ℕ → String → ℕ → String → String → Action RefreshSession
create_session user_id token_hash expires_at user_agent ip_address = do
  i ← new_uuid
  taken ← query (λ d. any (has_hash token_hash) d.sessions)
  raise_if taken (unhandled "IntegrityError")
  let row : RefreshSession = record {
    id = i;
    user_id = user_id;
    token_hash = token_hash;
    expires_at = expires_at;
    revoked_at = none;
    user_agent = user_agent;
    ip_address = ip_address;
  }
  modify (λ d. record d { sessions = push row d.sessions })
  pure row

unfoldable pub get_by_token_hash : String → Db → Option RefreshSession
get_by_token_hash token_hash d = find (has_hash token_hash) d.sessions

-- `SessionRepository.revoke`
unfoldable pub revoke : RefreshSession → Action (Unit {0})
revoke row = do
  now ← utcnow
  modify (λ d. record d {
    sessions =
        modify_where (λ (r : RefreshSession). r.id == row.id)
          (λ r. record r { revoked_at = some now }) d.sessions;
  })

-- `RefreshSession.is_active`
unfoldable pub is_active : ℕ → RefreshSession → Bool
is_active now r = is_none r.revoked_at && ltb now r.expires_at
