-- ===== src/Auth/Limited.antt =====
-- `_authenticate_login` of api/v1/auth.py: a login behind the rate limiter, with Redis beside the
-- database, and how many passwords may be tried.
use support_endpoint.Prelude.{
  ℕ, suc, ◌-◌, ◌≤◌, ◌≡◌, refl, String, Bool, true, false, not, ◌&&◌, Option, none, some, List, [],
  ◌∷◌, is_none, str_eq, if◌then◌else◌, arith,
}
use support_endpoint.Session.{Session, Result, err, rate_limited, request}
use support_endpoint.RateLimit.{LimiterSettings, Redis, account_key, check_and_increment}
use support_endpoint.RateLimit.Attempts.{Attempt, IsCounting, passed, passed-le-limit}
use support_endpoint.Auth.Router.{login}
use support_endpoint.Auth.Service.{Security, TokenPair}

-- A request to log in: when, from where, and with what.
pub record LoginAttempt : Type 0 where
  pub at : ℕ
  pub client_host : Option String
  pub email : String
  pub password : String
  pub user_agent : String

-- `request.client.host if request.client else "unknown"`
abbrev pub client_ip : Option String → String
client_ip none = "unknown"
client_ip (some host) = host

-- The answer is that of the limiter.
unfoldable pub is_limited : {A : Type 0} → Result A → Bool
is_limited (err (rate_limited reason)) = true
is_limited _ = false

module _ {S : Type 0} (lib : Security) (redis : Redis S) (settings : LimiterSettings) where
  unfoldable pub limited_login : LoginAttempt → S → Session → Result TokenPair × (S × Session)
  limited_login x t s =
      let ip = client_ip x.client_host in
      let (answer, t') = check_and_increment redis settings ip (lib.lower x.email) t in
      let (result, s') =
        request (login lib answer x.email x.password x.user_agent ip) (record s { now = x.at }) in
      (result, (t', s'))

  -- How many of the attempts for an account get past the limiter.
  unfoldable pub tried : String → List LoginAttempt → S → Session → ℕ
  tried account [] t s = 0
  tried account (x ∷ xs) t s =
      let (result, (t', s')) = limited_login x t s in
      let rest = tried account xs t' s' in
      if str_eq (lib.lower x.email) account && not (is_limited result) then suc rest else rest

  abbrev attempts_of : List LoginAttempt → List Attempt
  attempts_of [] = []
  attempts_of (x ∷ xs) =
      record { ip = client_ip x.client_host; account = lib.lower x.email } ∷ attempts_of xs

  -- A refused attempt is answered by the limiter.
  login-limited :
      (answer : Option String) (email password agent ip : String) (s : Session)
      → is_none answer ≡ false
      → is_limited (request (login lib answer email password agent ip) s).0 ≡ true
  unfolding request login is_limited
  login-limited none email password agent ip s h = absurd (cc)
  login-limited (some reason) email password agent ip s h = refl

  counted-le :
      (picked refused free : Bool) (m n : ℕ)
      → (free ≡ false → refused ≡ true)
      → m ≤ n
      → (if picked && not refused then suc m else m) ≤ (if picked && free then suc n else n)
  counted-le picked refused free m n h le = ground (arith, h)

  tried-le-passed :
      (account : String) (xs : List LoginAttempt) (t : S) (s : Session)
      → tried account xs t s
        ≤ passed redis settings (λ x. str_eq x.account account) (attempts_of xs) t
  unfolding tried passed limited_login
  tried-le-passed account [] t s = omega arith
  tried-le-passed account (x ∷ xs) t s =
      let ip = client_ip x.client_host in
      let run = check_and_increment redis settings ip (lib.lower x.email) t in
      let opened = record s { now = x.at } in
      let out = request (login lib run.0 x.email x.password x.user_agent ip) opened in
      counted-le (str_eq (lib.lower x.email) account) (is_limited out.0) (is_none run.0)
        (tried account xs run.1 out.1)
        (passed redis settings (λ y. str_eq y.account account) (attempts_of xs) run.1)
        (login-limited run.0 x.email x.password x.user_agent ip opened)
        (tried-le-passed account xs run.1 out.1)

  -- Where logins are limited, while Redis answers and the window lasts, whatever logins are tried,
  -- from whatever addresses, at most as many of those for an account are answered otherwise than by
  -- the limiter as its limit leaves after the attempts that were counted before.
  pub tried-le-limit :
      (counter : String → S → ℕ) (account : String) (xs : List LoginAttempt) (t : S) (s : Session)
      → IsCounting redis counter
      → settings.auth_rate_limit_enabled ≡ true
      → tried account xs t s
        ≤ settings.auth_rate_limit_account_attempts - counter (account_key account) t
  tried-le-limit counter account xs t s counting enabled = omega (
    arith,
    tried-le-passed account xs t s,
    (passed-le-limit redis settings counter counting "" account (attempts_of xs) t enabled).0,
  )
