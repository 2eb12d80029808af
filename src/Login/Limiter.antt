-- ===== src/Login/Limiter.antt =====
-- LoginRateLimiter. Times are microseconds. The keyed hash
-- and `strip().lower()` are parameters.
use harbor_transfer_portal.Base.{
  Bool, List, Option, Result, String, [], false, if◌then◌else◌, leb, ltb, none, ok, or_else,
  refuse_if, some, str_eq, true, ℕ, ◌&&◌, ◌*◌, ◌+◌, ◌-◌, ◌>>◌, ◌||◌, ◌∷◌, ◌/◌,
}

pub data LoginThrottleScope : Type 0 where
  username address : LoginThrottleScope

abbrev pub same_scope : LoginThrottleScope → LoginThrottleScope → Bool
same_scope username username = true
same_scope address address = true
same_scope _ _ = false

-- The columns of `login_throttles` but its surrogate key and dates.
pub record LoginThrottle : Type 0 where
  pub scope : LoginThrottleScope
  pub subject_hash : String
  pub failure_count : ℕ
  pub window_started_at : ℕ
  pub locked_until : Option ℕ

pub record LoginRateLimitDecision : Type 0 where
  pub blocked : Bool
  pub retry_after_seconds : ℕ
  pub scope : Option LoginThrottleScope
  pub subject_fingerprint : Option String

pub record LoginRateLimiter : Type 0 where
  pub window_seconds : ℕ
  pub username_max_failures : ℕ
  pub address_max_failures : ℕ
  pub lockout_seconds : ℕ
  pub fingerprint : LoginThrottleScope → String → String
  pub strip_lower : String → String

abbrev pub seconds : ℕ → ℕ
seconds n = n * 1000000

-- The checks of `__init__`
unfoldable pub new_limiter : String → LoginRateLimiter → Result String LoginRateLimiter
new_limiter secret l = do
  refuse_if (str_eq secret "") "rate-limit secret must not be empty"
  refuse_if
      (ltb l.window_seconds 1
        || ltb l.username_max_failures 1
        || ltb l.address_max_failures 1
        || ltb l.lockout_seconds 1)
      "rate-limit settings must be positive"
  ok l

abbrev pub allowed : LoginRateLimitDecision
allowed = record {
  blocked = false;
  retry_after_seconds = 0;
  scope = none;
  subject_fingerprint = none;
}

-- max(1, math.ceil(d.total_seconds()))
abbrev pub retry_seconds : ℕ → ℕ
retry_seconds d = let s = (d + 999999) / 1000000 in if ltb s 1 then 1 else s

abbrev pub refused : LoginThrottleScope → String → ℕ → LoginRateLimitDecision
refused scope fingerprint d = record {
  blocked = true;
  retry_after_seconds = retry_seconds d;
  scope = some scope;
  subject_fingerprint = some fingerprint;
}

-- _get
abbrev pub get : LoginThrottleScope → String → List LoginThrottle → Option LoginThrottle
get scope fingerprint [] = none
get scope fingerprint (r ∷ rs) =
    if same_scope r.scope scope && str_eq r.subject_hash fingerprint
    then some r
    else get scope fingerprint rs

abbrev pub lock_of : Option LoginThrottle → Option ℕ
lock_of none = none
lock_of (some row) = row.locked_until

abbrev pub decision_at : LoginThrottleScope → String → ℕ → Option ℕ → LoginRateLimitDecision
decision_at scope fingerprint now none = allowed
decision_at scope fingerprint now (some locked_until) =
    if leb locked_until now then allowed else refused scope fingerprint (locked_until - now)

-- _decision_for
unfoldable pub decision_for :
    LoginRateLimiter → LoginThrottleScope → String → ℕ → List LoginThrottle → LoginRateLimitDecision
decision_for l scope subject now rows =
    let fingerprint = l.fingerprint scope subject in
    decision_at scope fingerprint now (lock_of (get scope fingerprint rows))

abbrev pub threshold : LoginRateLimiter → LoginThrottleScope → ℕ
threshold l username = l.username_max_failures
threshold l address = l.address_max_failures

abbrev pub locked_at : ℕ → Option ℕ → Bool
locked_at now none = false
locked_at now (some locked_until) = ltb now locked_until

-- The row once a window or a lock that is over has been dropped.
abbrev pub renewed : LoginRateLimiter → ℕ → LoginThrottle → LoginThrottle
renewed l now row =
    if leb (row.window_started_at + seconds l.window_seconds) now
    then record row { failure_count = 0; window_started_at = now; locked_until = none }
    else record row {
      locked_until = if locked_at now row.locked_until then row.locked_until else none;
    }

abbrev pub counted : LoginRateLimiter → ℕ → LoginThrottle → LoginRateLimitDecision × LoginThrottle
counted l now row =
    let failures = row.failure_count + 1 in
    if ltb failures (threshold l row.scope)
    then (allowed, record row { failure_count = failures })
    else (
      refused row.scope row.subject_hash (seconds l.lockout_seconds),
      record row {
        failure_count = failures;
        locked_until = some (now + seconds l.lockout_seconds);
      },
    )

-- _record_failure on its row
unfoldable pub fail_row :
    LoginRateLimiter → ℕ → LoginThrottle → LoginRateLimitDecision × LoginThrottle
fail_row l now row =
    if locked_at now row.locked_until
    then (decision_at row.scope row.subject_hash now row.locked_until, row)
    else counted l now (renewed l now row)

-- The session after a row was added or changed.
abbrev pub put : LoginThrottle → List LoginThrottle → List LoginThrottle
put row [] = row ∷ []
put row (r ∷ rs) =
    if same_scope r.scope row.scope && str_eq r.subject_hash row.subject_hash
    then row ∷ rs
    else r ∷ put row rs

abbrev pub new_row : LoginThrottleScope → String → ℕ → LoginThrottle
new_row scope fingerprint now = record {
  scope = scope;
  subject_hash = fingerprint;
  failure_count = 0;
  window_started_at = now;
  locked_until = none;
}

-- _record_failure
unfoldable pub record_failure :
    LoginRateLimiter
    → LoginThrottleScope
    → String
    → ℕ
    → List LoginThrottle
    → LoginRateLimitDecision × List LoginThrottle
record_failure l scope subject now rows =
    let fingerprint = l.fingerprint scope subject in
    let (decision, row) =
      fail_row l now (or_else (get scope fingerprint rows) (new_row scope fingerprint now)) in
    (decision, put row rows)
