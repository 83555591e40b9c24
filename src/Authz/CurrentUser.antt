-- ===== src/Authz/CurrentUser.antt =====
-- get_current_user of authz/deps.py.
use support_endpoint.Prelude.{
  ℕ, String, Bool, true, false, not, ◌&&◌, ◌||◌, Option, none, some, ◌==◌, str_eq, if◌then◌else◌,
}
use Prim.Native.Char.{code}
use Prim.Native.String.{[], ◌∷◌}
use support_endpoint.Models.{User}
use support_endpoint.Session.{
  Action, authentication, unhandled, ◌>>=◌, ◌>>◌, pure, query, or_raise, raise, raise_if, utcnow,
}
use support_endpoint.Auth.Repo.{get_by_id}

-- The claims of a token that `jwt.decode` requires.
pub record Claims : Type 0 where
  pub sub : ℕ
  pub token_type : String

-- What the code calls: `str.lower`, `str.strip`, and `decode_access_token` at an instant, where none
-- stands for an exception.
pub record Tokens : Type 0 where
  pub lower : String → String
  pub strip : String → String
  pub decode_access_token : ℕ → String → Option Claims

-- `text.startswith(prefix)`
unfoldable pub starts_with : String → String → Bool
starts_with [] text = true
starts_with (c ∷ prefix) [] = false
starts_with (c ∷ prefix) (d ∷ text) = code c == code d && starts_with prefix text

-- `text.split(" ", 1)[1]`
unfoldable pub after_space : String → Option String
after_space [] = none
after_space (c ∷ text) = let rest = after_space text in if code c == 32 then some text else rest

abbrev is_empty : String → Bool
is_empty [] = true
is_empty (c ∷ rest) = false

module _ (tokens : Tokens) where
  abbrev pub is_malformed : String → Bool
  is_malformed authorization =
      is_empty authorization || not (starts_with "bearer " (tokens.lower authorization))

  unfoldable pub get_current_user : Option String → Action User
  get_current_user none = raise (authentication "Missing or malformed Authorization header")
  get_current_user (some authorization) = do
    raise_if (is_malformed authorization)
        (authentication "Missing or malformed Authorization header")
    token ← or_raise (after_space authorization) (unhandled "IndexError")
    now ← utcnow
    payload ←
        or_raise (tokens.decode_access_token now (tokens.strip token))
          (authentication "Invalid or expired access token")
    raise_if (not (str_eq payload.token_type "access")) (authentication "Wrong token type")
    found ← query (get_by_id payload.sub)
    user ← or_raise found (authentication "User not found or inactive")
    raise_if (not user.is_active) (authentication "User not found or inactive")
    pure user
