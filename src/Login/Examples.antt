-- ===== src/Login/Examples.antt =====
-- Three failures of one user name, and the lock that they bring.
use harbor_transfer_portal.Base.{◌+◌}
use harbor_transfer_portal.Login.Attempts.{normalize_address}
use harbor_transfer_portal.Login.Limiter.{decision_for, seconds}
use harbor_transfer_portal.Login.Waiting.{retry_after_suffices}
use harbor_transfer_portal.Login.Limiter.{
  LoginRateLimitDecision, LoginRateLimiter, LoginThrottle, get, lock_of, record_failure, username,
}
use harbor_transfer_portal.Base.{
  Bool, List, String, [], arith, false, refl, some, true, ℕ, ◌∷◌, ◌≡◌,
}
use harbor_transfer_portal.Login.Attempts.{
  LoginAttempt, check, login, rate_limited, subjects, logins,
}
use harbor_transfer_portal.Login.Counting.{failures, threshold_locks}
use harbor_transfer_portal.Login.Refusals.{lock_holds}

abbrev limiter : LoginRateLimiter
limiter = record {
  window_seconds = 60;
  username_max_failures = 3;
  address_max_failures = 10;
  lockout_seconds = 300;
  fingerprint = λ scope subject. subject;
  strip_lower = λ name. name;
}

abbrev third : LoginRateLimitDecision × List LoginThrottle
third =
    record_failure limiter username "admin" 3 (failures limiter username "admin" (1 ∷ 2 ∷ []) [])

threshold_locks_example :
    (third.0.blocked ≡ true) × (lock_of (get username "admin" third.1) ≡ some 300000003)
threshold_locks_example =
    threshold_locks limiter username "admin" 1 3 (2 ∷ []) [] refl (omega arith) (omega arith, tt)
      (omega arith) (omega arith)

abbrev attempt_by : String → Bool → ℕ → LoginAttempt
attempt_by name valid now = record {
  name = name;
  client_address = some "10.0.0.1";
  checked_at = now;
  failed_at = now;
  valid = valid;
}

abbrev locked_rows : List LoginThrottle
locked_rows =
    record {
      scope = username;
      subject_hash = "admin";
      failure_count = 3;
      window_started_at = 1;
      locked_until = some 300000003;
    }
    ∷ []

-- Somebody else logs in, and the locked user fails, before the user comes with the right password.
abbrev meanwhile : List LoginAttempt
meanwhile = attempt_by "root" true 10 ∷ attempt_by "admin" false 20 ∷ []

lock_holds_example :
    login limiter (attempt_by "admin" true 30) (logins limiter meanwhile locked_rows) ≡ (
      rate_limited
          (check limiter "admin" (some "10.0.0.1") 30 (logins limiter meanwhile locked_rows)),
      logins limiter meanwhile locked_rows,
    )
unfolding subjects
lock_holds_example =
    lock_holds limiter username "admin" 300000003 meanwhile (attempt_by "admin" true 30) locked_rows
      refl ((omega arith, omega arith), ((omega arith, omega arith), tt)) (omega arith) refl

-- The locked user waits as long as the refusal says.
retry_after_suffices_example :
    (check limiter "admin"
      (some "10.0.0.1")
      (30 + seconds (check limiter "admin" (some "10.0.0.1") 30 locked_rows).retry_after_seconds)
      locked_rows).blocked
    ≡ false
retry_after_suffices_example = retry_after_suffices limiter "admin" (some "10.0.0.1") 30 locked_rows

refused_for_300 : (check limiter "admin" (some "10.0.0.1") 30 locked_rows).retry_after_seconds ≡ 300
unfolding check decision_for subjects normalize_address
refused_for_300 = refl
