-- ===== src/Tests/Auth.antt =====
-- The theorems about logins and the first account. The signer of the example writes a user's id as
-- so many characters.
use support_endpoint.Prelude.{
  ℕ, zero, suc, ◌≡◌, refl, ap, arith, String, true, none, some, find, if◌then◌else◌, ◌==◌,
}
use Prim.Native.Char.{code}
use Prim.Native.String.{[] as empty, ◌∷◌ as cons}
use support_endpoint.Models.{User}
use support_endpoint.Session.{empty_db, Session, request}
use support_endpoint.Authz.CurrentUser.{Tokens}
use support_endpoint.Auth.Repo.{get_by_email, get_by_id}
use support_endpoint.Auth.Router.{login}
use support_endpoint.Auth.Service.{Security}
use support_endpoint.Auth.Access.{IsSigning, LogsIn, login-LogsIn}
use support_endpoint.Auth.Bootstrap.{bootstrap_owner}
use support_endpoint.Auth.Owner.{Bootstraps, bootstrap_owner-Bootstraps}
use support_endpoint.Workspaces.Repo.{WorkspaceQueries}
use support_endpoint.Samples.{plain_security, signed_in}

abbrev write : ℕ → String
write zero = empty
write (suc n) = cons "x" (write n)

abbrev read : String → ℕ
read empty = zero
read (cons c rest) = suc (read rest)

read-write : (n : ℕ) → read (write n) ≡ n
read-write zero = refl
read-write (suc n) = ap suc (read-write n)

abbrev lower : String → String
lower empty = empty
lower (cons c rest) = cons (if code c == 66 then "b" else c) (lower rest)

abbrev signer : Security
signer = record plain_security { create_access_token = λ user now. write user }

abbrev tokens : Tokens
tokens = record {
  lower = lower;
  strip = λ text. text;
  decode_access_token = λ now token. some (record { sub = read token; token_type = "access" });
}

signer-IsSigning : IsSigning signer tokens 900000000
signer-IsSigning = record {
  decodes = λ user at now old young.
      ap (λ i. some (record { sub = i; token_type = "access" })) (read-write user);
  strips = λ user at. refl;
  lowers = λ text. refl;
}

known_by_email :
    (user : User)
    → get_by_email "a@desk.test" signed_in.stored ≡ some user
    → get_by_id user.id signed_in.stored ≡ some user
unfolding get_by_email get_by_id find
known_by_email user h = cc

login-LogsIn_example :
    LogsIn signer tokens 900000000 "a@desk.test" "pw" 700 signed_in
      (request (login signer none "a@desk.test" "pw" "" "10.0.0.1") signed_in)
login-LogsIn_example =
    login-LogsIn signer tokens 900000000 none "a@desk.test" "pw" "" "10.0.0.1" 700 signed_in
      signer-IsSigning known_by_email (omega arith) (omega arith)

abbrev small_queries : WorkspaceQueries
small_queries = record { lower = λ s. s; by_id = λ ws. ws }

-- The database before anything is in it.
abbrev fresh : Session
fresh = record { work = empty_db; stored = empty_db; next_id = 1; now = 0 }

bootstrap_owner-Bootstraps_example :
    Bootstraps signer small_queries
      (λ codes. codes)
      true
      "a@desk.test"
      "pw"
      "A"
      "Desk"
      fresh
      (request
        (bootstrap_owner signer small_queries (λ codes. codes) true "a@desk.test" "pw" "A" "Desk")
        fresh)
bootstrap_owner-Bootstraps_example =
    bootstrap_owner-Bootstraps signer small_queries (λ codes. codes) true "a@desk.test" "pw" "A"
      "Desk" fresh (λ xs x. refl) tt
