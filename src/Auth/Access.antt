-- ===== src/Auth/Access.antt =====
-- Access tokens: what a login issues, get_current_user accepts.
use support_endpoint.Prelude.{
  ℕ, ◌+◌, ◌≤◌, ◌≡◌, refl, String, true, Option, none, some, inl, inr, Option-cases, Bool-cases, any,
}
use Prim.Native.String.{◌∷◌}
use support_endpoint.Models.{User}
use support_endpoint.Session.{Db, Session, Result, ok, err, request}
use support_endpoint.Audit.{record_event}
use support_endpoint.Authz.CurrentUser.{Tokens, starts_with, after_space, get_current_user}
use support_endpoint.Auth.Repo.{has_hash, get_by_email, get_by_id, create_session}
use support_endpoint.Auth.Router
use support_endpoint.Auth.Service
use support_endpoint.Auth.Service.{Security, TokenPair}

-- The header that a client sends with a token.
abbrev pub bearer : String → String
bearer token = "B" ∷ "e" ∷ "a" ∷ "r" ∷ "e" ∷ "r" ∷ " " ∷ token

abbrev pub lower_bearer : String → String
lower_bearer token = "b" ∷ "e" ∷ "a" ∷ "r" ∷ "e" ∷ "r" ∷ " " ∷ token

module _ (lib : Security) (tokens : Tokens) (lifetime : ℕ) where
  -- PyJWT decodes a token that it has signed, with the claims of `create_access_token`, until the
  -- second in which its `exp` lies; tokens have no white space around them.
  pub record IsSigning : Type 0 where
    pub decodes :
        (user_id at now : ℕ)
        → at ≤ now
        → now + 1000000 ≤ at + lifetime
        → tokens.decode_access_token now (lib.create_access_token user_id at)
          ≡ some (record { sub = user_id; token_type = "access" })
    pub strips :
        (user_id at : ℕ)
        → tokens.strip (lib.create_access_token user_id at) ≡ lib.create_access_token user_id at
    pub lowers : (text : String) → tokens.lower (bearer text) ≡ lower_bearer (tokens.lower text)

  starts_with_bearer : (text : String) → starts_with "bearer " (lower_bearer text) ≡ true
  unfolding starts_with
  starts_with_bearer text = refl

  after_space-bearer : (text : String) → after_space (bearer text) ≡ some text
  unfolding after_space
  after_space-bearer text = refl

  -- The answer to the bearer of a pair's access token.
  abbrev asked : ℕ → Db → ℕ → String → Result User
  asked now d n token =
      (request (get_current_user tokens (some (bearer token)))
        (record { stored = d; work = d; now = now; next_id = n })).0

  get_current_user_lem :
      (user : User) (at now : ℕ) (d : Db) (n : ℕ)
      → IsSigning
      → get_by_id user.id d ≡ some user
      → user.is_active ≡ true
      → at ≤ now
      → now + 1000000 ≤ at + lifetime
      → (request
          (get_current_user tokens (some (bearer (lib.create_access_token user.id at))))
          (record { stored = d; work = d; now = now; next_id = n })).0
        ≡ ok user
  unfolding request get_current_user
  get_current_user_lem user at now d n signing found active old young =
      let token = lib.create_access_token user.id at in
      rw
        (
          signing.lowers token,
          starts_with_bearer (tokens.lower token),
          after_space-bearer token,
          signing.strips user.id at,
          signing.decodes user.id at now old young,
          found,
          active,
        )
        refl

  -- How a login ends: if it answers with a pair of tokens, the account of the email has the password,
  -- and it is who the access token's bearer is until the token expires.
  abbrev pub LogsIn : String → String → ℕ → Session → Result TokenPair × Session → Type 0
  LogsIn email password later s (ok pair, s') =
      (user : User) × (get_by_email (lib.lower email) s.stored ≡ some user)
      × (lib.verify_password password user.password_hash ≡ true)
      × (user.is_active ≡ true)
      × (asked later s'.stored s'.next_id pair.access_token ≡ ok user)
  LogsIn email password later s (err e, s') = Unit

  -- If PyJWT decodes a token that it has signed until a second before its lifetime is over, and an
  -- account that is found by the email is found by its id, then a login that answers with tokens has
  -- checked the password of the active account with the email, and in that time whoever sends the
  -- access token in the Authorization header is taken for that account.
  pub login-LogsIn :
      (limit : Option String) (email password agent ip : String) (later : ℕ) (s : Session)
      → IsSigning
      → ((user : User)
          → get_by_email (lib.lower email) s.stored ≡ some user
          → get_by_id user.id s.stored ≡ some user)
      → s.now ≤ later
      → later + 1000000 ≤ s.now + lifetime
      → LogsIn email password later s (request (Router.login lib limit email password agent ip) s)
  unfolding request Router.login Service.authenticate Service.check_password Service.reject_login
      Service.issue_token_pair create_session record_event get_by_id
  login-LogsIn (some reason) email password agent ip later s signing known old young = tt
  login-LogsIn none email password agent ip later s signing known old young =
      elim (Option-cases (get_by_email (lib.lower email) s.stored)) [
        | inl e ↦ rw e tt
        | inr (user, e) ↦ elim (Bool-cases (lib.verify_password password user.password_hash)) [
          | inr v ↦ rw (e, v) tt
          | inl v ↦ elim (Bool-cases user.is_active) [
            | inr a ↦ rw (e, v, a) tt
            | inl a ↦
                elim (Bool-cases (
                  any (has_hash (lib.hash_opaque_token (lib.generate_opaque_token s.next_id)))
                    s.stored.sessions)) [
                      | inl t ↦ rw (e, v, a, t) tt
                      | inr t ↦
                          rw (e, v, a, t)
                            (
                              user,
                              e,
                              v,
                              a,
                              get_current_user_lem user s.now later _ _ signing (known user e) a old
                                  young,
                            )
                    ]
          ]
        ]
      ]
