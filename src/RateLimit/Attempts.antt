-- ===== src/RateLimit/Attempts.antt =====
-- How many attempts pass within a window.
use support_endpoint.Prelude.{
  ℕ, suc, ◌+◌, ◌-◌, ◌≤◌, ◌≡◌, refl, sym, ◌∙◌, ap, String, Bool, true, ◌&&◌, some, List, [], ◌∷◌,
  is_none, str_eq, eq_iff, ◌==◌, if◌then◌else◌, with_answer, arith, Bool-cases, inl, inr,
}
use support_endpoint.RateLimit.{
  LimiterSettings, Redis, ip_key, account_key, set_expiry, count_attempt, conclude, count_account,
  judge, check_and_increment,
}

pub record Attempt : Type 0 where
  pub ip : String
  pub account : String

module _ {S : Type 0} (redis : Redis S) where
  -- Redis answers, and `counter` is what it keeps: INCR adds one to the key's counter and takes
  -- nothing from another, and within the window EXPIRE takes nothing away.
  pub record IsCounting (counter : String → S → ℕ) : Type 0 where
    pub counts : (k : String) (s : S) → (redis.incr k s).0 ≡ some (counter k s + 1)
    pub raises : (k : String) (s : S) → counter k (redis.incr k s).1 ≡ counter k s + 1
    pub keeps : (k j : String) (s : S) → counter j s ≤ counter j (redis.incr k s).1
    pub expires : (k : String) (n : ℕ) (s : S) → (redis.expire k n s).0 ≡ some tt
    pub waits : (k j : String) (n : ℕ) (s : S) → counter j (redis.expire k n s).1 ≡ counter j s

  module _ (settings : LimiterSettings) where
    judge-passes :
        (n m k : ℕ)
        → k ≤ m
        → is_none (judge settings n m) ≡ true
        → (n ≤ settings.auth_rate_limit_ip_attempts)
          × (k ≤ settings.auth_rate_limit_account_attempts)
    unfolding judge
    judge-passes n m k le h = ground arith

    -- How many of the attempts that the test picks pass.
    unfoldable pub passed : (Attempt → Bool) → List Attempt → S → ℕ
    passed picks [] s = 0
    passed picks (x ∷ xs) s =
        let (answer, s') = check_and_increment redis settings x.ip x.account s in
        let rest = passed picks xs s' in if picks x && is_none answer then suc rest else rest

    when_enabled :
        (ip account : String) (s : S)
        → settings.auth_rate_limit_enabled ≡ true
        → check_and_increment redis settings ip account s
          ≡ count_account redis settings account (count_attempt redis settings (ip_key ip) s)
    unfolding check_and_increment
    when_enabled ip account s e = rw e refl

    module _ (counter : String → S → ℕ) (counting : IsCounting counter) where
      set_expiry_lem :
          (k : String) (n : ℕ) (s : S)
          → (s' : S) × (set_expiry redis settings k (some n, s) ≡ (some n, s'))
            × ((j : String) → counter j s' ≡ counter j s)
      unfolding set_expiry
      set_expiry_lem k n s =
          let window = settings.auth_rate_limit_window_seconds in
          elim (Bool-cases (n == 1)) [
            | inl first ↦ (
              (redis.expire k window s).1,
              rw (first, counting.expires k window s) refl,
              λ j. counting.waits k j window s,
            )
            | inr later ↦ (s, rw later refl, λ j. refl)
          ]

      -- What counting an attempt does to the counters.
      count_attempt_lem :
          (k : String) (s : S)
          → (s' : S) × (count_attempt redis settings k s ≡ (some (counter k s + 1), s'))
            × (counter k s' ≡ counter k s + 1)
            × ((j : String) → counter j s ≤ counter j s')
      unfolding count_attempt
      count_attempt_lem k s =
          let (s', ran, same) = set_expiry_lem k (counter k s + 1) (redis.incr k s).1 in
          (
            s',
            ap (set_expiry redis settings k) (with_answer (redis.incr k s) _ (counting.counts k s))
                ∙ ran,
            same k ∙ counting.raises k s,
            λ j. omega (arith, same j, counting.keeps k j s),
          )

      -- What an attempt does: it passes only if neither count, with this attempt, is above its limit.
      check_and_increment_lem :
          (x : Attempt) (s : S)
          → settings.auth_rate_limit_enabled ≡ true
          → (is_none (check_and_increment redis settings x.ip x.account s).0 ≡ true
              → (counter (ip_key x.ip) s + 1 ≤ settings.auth_rate_limit_ip_attempts)
                × (counter (account_key x.account) s + 1
                    ≤ settings.auth_rate_limit_account_attempts))
            × (counter (ip_key x.ip) s + 1
                ≤ counter (ip_key x.ip) (check_and_increment redis settings x.ip x.account s).1)
            × (counter (account_key x.account) s + 1
                ≤ counter
                    (account_key x.account)
                    (check_and_increment redis settings x.ip x.account s).1)
            × ((j : String)
                → counter j s ≤ counter j (check_and_increment redis settings x.ip x.account s).1)
      unfolding count_account conclude
      check_and_increment_lem x s enabled =
          let (t, first, raised, kept) = count_attempt_lem (ip_key x.ip) s in
          let (u, second, raised', kept') = count_attempt_lem (account_key x.account) t in
          let before = kept (account_key x.account) in
          let n = counter (ip_key x.ip) s + 1 in
          let ran =
            when_enabled x.ip x.account s enabled
            ∙ ap (count_account redis settings x.account) first
            ∙ ap (conclude redis settings n) second in
          rw ran (
            λ passes.
                judge-passes n (counter (account_key x.account) t + 1)
                  (counter (account_key x.account) s + 1) (omega (arith, before)) passes,
            omega (arith, raised, kept' (ip_key x.ip)),
            omega (arith, raised', before),
            λ j. omega (arith, kept j, kept' j),
          )

      module _ (picks : Attempt → Bool) (key : String) (limit : ℕ)
          (passes : (x : Attempt) (s : S)
            → picks x ≡ true
            → is_none (check_and_increment redis settings x.ip x.account s).0 ≡ true
            → counter key s + 1 ≤ limit)
          (adds : (x : Attempt) (s : S)
            → picks x ≡ true
            → counter key s + 1
              ≤ counter key (check_and_increment redis settings x.ip x.account s).1)
          (keeps : (x : Attempt) (s : S)
            → counter key s
              ≤ counter key (check_and_increment redis settings x.ip x.account s).1) where
        passed-le : (xs : List Attempt) (s : S) → passed picks xs s ≤ limit - counter key s
        unfolding passed
        passed-le [] s = omega arith
        passed-le (x ∷ xs) s = ground (
          arith,
          passes x s,
          adds x s,
          keeps x s,
          passed-le xs (check_and_increment redis settings x.ip x.account s).1,
        )

      -- Where logins are limited, while Redis answers and the window lasts, at most as many attempts
      -- pass for an account, and from an address, as the two limits leave after the attempts that were
      -- counted before.
      pub passed-le-limit :
          (ip account : String) (xs : List Attempt) (s : S)
          → settings.auth_rate_limit_enabled ≡ true
          → (passed (λ x. str_eq x.account account) xs s
              ≤ settings.auth_rate_limit_account_attempts - counter (account_key account) s)
            × (passed (λ x. str_eq x.ip ip) xs s
                ≤ settings.auth_rate_limit_ip_attempts - counter (ip_key ip) s)
      passed-le-limit ip account xs s enabled = (
        passed-le _ (account_key account) settings.auth_rate_limit_account_attempts
            (λ x t same free.
              rw (sym ((eq_iff x.account account).0 same))
                ((check_and_increment_lem x t enabled).0 free).1)
            (λ x t same.
              rw (sym ((eq_iff x.account account).0 same)) (check_and_increment_lem x t enabled).2)
            (λ x t. (check_and_increment_lem x t enabled).3 (account_key account)) xs s,
        passed-le _ (ip_key ip) settings.auth_rate_limit_ip_attempts
            (λ x t same free.
              rw (sym ((eq_iff x.ip ip).0 same)) ((check_and_increment_lem x t enabled).0 free).0)
            (λ x t same. rw (sym ((eq_iff x.ip ip).0 same)) (check_and_increment_lem x t enabled).1)
            (λ x t. (check_and_increment_lem x t enabled).3 (ip_key ip)) xs s,
      )
