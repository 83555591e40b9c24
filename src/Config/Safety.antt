-- ===== src/Config/Safety.antt =====
-- What the settings of a production environment are like when they are accepted.
use support_endpoint.Prelude.{
  ℕ, ◌≤◌, ◌≡◌, ◌≢◌, ◌↔◌, refl, ℤ, pos, negsuc, String, Bool, true, false, not, ◌||◌, List, [], ◌∷◌,
  str_eq, eq_iff, ltb, arith, Bool-cases, inl, inr,
}
use support_endpoint.Session.{ok}
use support_endpoint.Config.{
  Settings, default_jwt_secret, ltb_int, len, error_if, is_production, cors_origins_list,
  security_errors, accept, validate_production_security,
}

-- What production requires.
pub record IsSafe (strip : String → String) (s : Settings) : Type 0 where
  pub replaced : s.jwt_secret ≢ default_jwt_secret
  pub secret : 32 ≤ len s.jwt_secret
  pub closed : s.bootstrap_enabled ≡ false
  pub limited : s.auth_rate_limit_enabled ≡ true
  pub strict : s.secure_headers_hsts_enabled ≡ true
  pub origins : cors_origins_list strip s ≢ []
  pub metrics : 32 ≤ len s.metrics_bearer_token
  pub scheduler : (n : ℕ) × (s.sla_scheduler_interval_seconds ≡ pos n) × (10 ≤ n)
  pub attachments :
      (n : ℕ) × (m : ℕ) × (s.attachment_max_bytes ≡ pos n)
      × (s.attachment_workspace_quota_bytes ≡ pos m)
      × (1 ≤ n)
      × (n ≤ m)

error_if-empty :
    (b : Bool) (m : String) (es : List String) → (error_if b m es ≡ []) ↔ ((b ≡ false) × (es ≡ []))
unfolding error_if
error_if-empty true m [] = (λ h. absurd (cc), λ h. absurd (cc))
error_if-empty true m (e ∷ es) = (λ h. absurd (cc), λ h. absurd (cc))
error_if-empty false m es = (λ h. (refl, h), λ h. h.1)

at_least : (z : ℤ) (n : ℕ) → (ltb_int z (pos n) ≡ false) ↔ ((k : ℕ) × (z ≡ pos k) × (n ≤ k))
unfolding ltb_int
at_least (pos k) n = (λ h. (k, refl, ground arith), λ h. ground (arith, h.1, h.2))
at_least (negsuc k) n = (λ h. absurd (cc), λ h. absurd (cc))

positive : (z : ℤ) → (not (ltb_int (pos 0) z) ≡ false) ↔ ((k : ℕ) × (z ≡ pos k) × (1 ≤ k))
unfolding ltb_int
positive (pos k) = (λ h. (k, refl, ground arith), λ h. ground (arith, h.1, h.2))
positive (negsuc k) = (λ h. absurd (cc), λ h. absurd (cc))

is_none_left : List String → Bool
is_none_left os = elim os [ [] ↦ true | o ∷ rest ↦ false ]

is_none_left_iff : (os : List String) → (is_none_left os ≡ false) ↔ (os ≢ [])
unfolding is_none_left
is_none_left_iff [] = (λ h. absurd (cc), λ h. absurd (h refl))
is_none_left_iff (o ∷ os) = (λ h e. cc, λ h. refl)

secret_iff :
    (secret : String)
    → ((str_eq secret default_jwt_secret || ltb (len secret) 32) ≡ false)
      ↔ ((secret ≢ default_jwt_secret) × (32 ≤ len secret))
secret_iff secret =
    let (to, from) = eq_iff secret default_jwt_secret in
    elim (Bool-cases (str_eq secret default_jwt_secret)) [
      | inl e ↦ (λ h. absurd (ground (arith, e)), λ h. absurd (h.0 (to e)))
      | inr e ↦ (
        λ h. (λ same. absurd (ground (arith, e, from same)), ground (arith, e)),
        λ h. ground (arith, e, h.1),
      )
    ]

module _ (strip : String → String) (s : Settings) where
  security_errors-IsSafe : security_errors strip s ≡ [] → IsSafe strip s
  unfolding security_errors is_none_left
  security_errors-IsSafe h =
      let (quota, h8) = (error_if-empty _ _ _).0 h in
      let (bytes, h7) = (error_if-empty _ _ _).0 h8 in
      let (interval, h6) = (error_if-empty _ _ _).0 h7 in
      let (metrics, h5) = (error_if-empty _ _ _).0 h6 in
      let (origins, h4) = (error_if-empty _ _ _).0 h5 in
      let (strict, h3) = (error_if-empty _ _ _).0 h4 in
      let (limited, h2) = (error_if-empty _ _ _).0 h3 in
      let (closed, h1) = (error_if-empty _ _ _).0 h2 in
      let (secret, h0) = (error_if-empty _ _ _).0 h1 in
      let (n, is_n, big) = (positive s.attachment_max_bytes).0 bytes in
      let (m, is_m, above) = (at_least s.attachment_workspace_quota_bytes n).0 (rw is_n at quota) in
      record {
        replaced = ((secret_iff s.jwt_secret).0 secret).0;
        secret = ((secret_iff s.jwt_secret).0 secret).1;
        closed = closed;
        limited = ground (arith, limited);
        strict = ground (arith, strict);
        origins = (is_none_left_iff (cors_origins_list strip s)).0 origins;
        metrics = ground (arith, metrics);
        scheduler = (at_least s.sla_scheduler_interval_seconds 10).0 interval;
        attachments = (n, m, is_n, is_m, big, above);
      }

  IsSafe-security_errors : IsSafe strip s → security_errors strip s ≡ []
  unfolding security_errors is_none_left
  IsSafe-security_errors safe =
      let (n, m, is_n, is_m, big, above) = safe.attachments in
      let quota : ltb_int s.attachment_workspace_quota_bytes s.attachment_max_bytes ≡ false =
        rw is_n ((at_least s.attachment_workspace_quota_bytes n).1 (m, is_m, above)) in
      (error_if-empty _ _ _).1 (
        quota,
        (error_if-empty _ _ _).1 (
          (positive s.attachment_max_bytes).1 (n, is_n, big),
          (error_if-empty _ _ _).1 (
            (at_least s.sla_scheduler_interval_seconds 10).1 safe.scheduler,
            (error_if-empty _ _ _).1 (
              ground (arith, safe.metrics),
              (error_if-empty _ _ _).1 (
                (is_none_left_iff (cors_origins_list strip s)).1 safe.origins,
                (error_if-empty _ _ _).1 (
                  ground (arith, safe.strict),
                  (error_if-empty _ _ _).1 (
                    ground (arith, safe.limited),
                    (error_if-empty _ _ _).1 (
                      safe.closed,
                      (error_if-empty _ _ _).1
                          ((secret_iff s.jwt_secret).1 (safe.replaced, safe.secret), refl),
                    ),
                  ),
                ),
              ),
            ),
          ),
        ),
      )

  accept-ok : (es : List String) → (accept s es ≡ ok s) ↔ (es ≡ [])
  unfolding accept
  accept-ok [] = (λ h. refl, λ h. refl)
  accept-ok (e ∷ es) = (λ h. absurd (cc), λ h. absurd (cc))

  -- Settings are accepted, as they are, exactly if they are not of a production environment or meet
  -- what production requires: a JWT secret of 32 characters that is not the default one, no bootstrap,
  -- limited logins, HSTS, an origin, a metrics token of 32 characters, a scheduler interval of 10
  -- seconds, and attachments that may have a byte and fit in the quota.
  pub validate_production_security_iff :
      (validate_production_security strip s ≡ ok s) ↔ (is_production s ≡ true → IsSafe strip s)
  unfolding validate_production_security
  validate_production_security_iff = elim (Bool-cases (is_production s)) [
    | inr dev ↦ rw dev (λ h yes. absurd (cc), λ h. refl)
    | inl prod ↦ rw prod (
      λ h yes. security_errors-IsSafe ((accept-ok (security_errors strip s)).0 h),
      λ h. (accept-ok (security_errors strip s)).1 (IsSafe-security_errors (h refl)),
    )
  ]
