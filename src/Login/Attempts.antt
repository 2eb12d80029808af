-- ===== src/Login/Attempts.antt =====
-- The calls of the limiter for a user name and an address, and the login that makes them.
use harbor_transfer_portal.Base.{
  Bool, List, Option, String, [], if◌then◌else◌, ltb, none, not, some, str_eq, ℕ, ◌&&◌, ◌||◌, ◌∷◌,
}
use harbor_transfer_portal.Login.Limiter.{
  LoginRateLimitDecision, LoginRateLimiter, LoginThrottle, LoginThrottleScope, address, allowed,
  decision_for, record_failure, same_scope, username,
}
use Prim.Native.String.{count as text_length}

-- _normalize_address
unfoldable pub normalize_address : LoginRateLimiter → Option String → Option String
normalize_address l none = none
normalize_address l (some client_address) =
    let normalized = l.strip_lower client_address in
    if str_eq normalized "" || ltb 255 (text_length normalized) then none else some normalized

abbrev pub address_subject : Option String → List (LoginThrottleScope × String)
address_subject none = []
address_subject (some normalized) = (address, normalized) ∷ []

-- _subjects
unfoldable pub subjects :
    LoginRateLimiter → String → Option String → List (LoginThrottleScope × String)
subjects l name client_address =
    (username, l.strip_lower name) ∷ address_subject (normalize_address l client_address)

abbrev pub longest : LoginRateLimitDecision → List LoginRateLimitDecision → LoginRateLimitDecision
longest best [] = best
longest best (d ∷ ds) =
    longest (if ltb best.retry_after_seconds d.retry_after_seconds then d else best) ds

-- [decision for decision in decisions if decision.blocked]
abbrev pub blocked_only : List LoginRateLimitDecision → List LoginRateLimitDecision
blocked_only [] = []
blocked_only (d ∷ ds) = let rest = blocked_only ds in if d.blocked then d ∷ rest else rest

-- max(blocked, key=retry_after_seconds), the first of the greatest
abbrev pub strictest : List LoginRateLimitDecision → LoginRateLimitDecision
strictest [] = allowed
strictest (d ∷ ds) = longest d ds

abbrev pub decisions_for :
    LoginRateLimiter
    → ℕ
    → List LoginThrottle
    → List (LoginThrottleScope × String)
    → List LoginRateLimitDecision
decisions_for l now rows [] = []
decisions_for l now rows ((scope, subject) ∷ rest) =
    decision_for l scope subject now rows ∷ decisions_for l now rows rest

-- check
unfoldable pub check :
    LoginRateLimiter → String → Option String → ℕ → List LoginThrottle → LoginRateLimitDecision
check l name client_address now rows =
    strictest (blocked_only (decisions_for l now rows (subjects l name client_address)))

abbrev pub record_failures :
    LoginRateLimiter
    → ℕ
    → List (LoginThrottleScope × String)
    → List LoginThrottle
    → List LoginRateLimitDecision × List LoginThrottle
record_failures l now [] rows = ([], rows)
record_failures l now ((scope, subject) ∷ rest) rows =
    let (decision, rows1) = record_failure l scope subject now rows in
    let (decisions, rows2) = record_failures l now rest rows1 in (decision ∷ decisions, rows2)

-- register_failure
unfoldable pub register_failure :
    LoginRateLimiter
    → String
    → Option String
    → ℕ
    → List LoginThrottle
    → LoginRateLimitDecision × List LoginThrottle
register_failure l name client_address now rows =
    let (decisions, rows') = record_failures l now (subjects l name client_address) rows in
    (strictest (blocked_only decisions), rows')

abbrev pub delete : LoginThrottleScope → String → List LoginThrottle → List LoginThrottle
delete scope fingerprint [] = []
delete scope fingerprint (r ∷ rs) =
    let rest = delete scope fingerprint rs in
    if same_scope r.scope scope && str_eq r.subject_hash fingerprint then rest else r ∷ rest

-- register_success
unfoldable pub register_success :
    LoginRateLimiter → String → List LoginThrottle → List LoginThrottle
register_success l name rows = delete username (l.fingerprint username (l.strip_lower name)) rows

-- A request to log in: who, from where, the two times at which the limiter reads the clock, and
-- whether the account exists, is active and has the password.
pub record LoginAttempt : Type 0 where
  pub name : String
  pub client_address : Option String
  pub checked_at : ℕ
  pub failed_at : ℕ
  pub valid : Bool

pub data LoginOutcome : Type 0 where
  rate_limited : LoginRateLimitDecision → LoginOutcome
  invalid_credentials : LoginRateLimitDecision → LoginOutcome
  token : LoginOutcome

abbrev pub login_unless :
    LoginRateLimitDecision
    → LoginRateLimiter
    → LoginAttempt
    → List LoginThrottle
    → LoginOutcome × List LoginThrottle
login_unless decision l a rows =
    if decision.blocked
    then (rate_limited decision, rows)
    else if not a.valid
    then (let (decided, rows') = register_failure l a.name a.client_address a.failed_at rows in
        (invalid_credentials decided, rows'))
    else (token, register_success l a.name rows)

-- login
unfoldable pub login :
    LoginRateLimiter → LoginAttempt → List LoginThrottle → LoginOutcome × List LoginThrottle
login l a rows = login_unless (check l a.name a.client_address a.checked_at rows) l a rows

-- The rows after a series of logins.
abbrev pub logins : LoginRateLimiter → List LoginAttempt → List LoginThrottle → List LoginThrottle
logins l [] rows = rows
logins l (a ∷ rest) rows = logins l rest (login l a rows).1
