-- ===== src/Login/Counting.antt =====
-- Failures within one window are counted, and the one that reaches the threshold locks.
use harbor_transfer_portal.Base.{
  All, Bool-cases, List, String, [], ap, arith, false, if◌then◌else◌, inl, inr, leb, length, ltb,
  none, not, or_else, refl, some, true, ℕ, ◌+◌, ◌<◌, ◌∙◌, ◌∷◌, ◌≡◌, ◌≤◌,
}
use harbor_transfer_portal.Login.Limiter.{
  LoginRateLimiter, LoginThrottle, LoginThrottleScope, allowed, fail_row, get, lock_of, new_row,
  record_failure, refused, seconds, threshold,
}
use harbor_transfer_portal.Login.Throttles.{get-put_self}

module _ (l : LoginRateLimiter) where
  -- A row that is not locked, within its window.
  fail_row-below :
      (now : ℕ) (row : LoginThrottle)
      → row.locked_until ≡ none
      → now < row.window_started_at + seconds l.window_seconds
      → row.failure_count + 1 < threshold l row.scope
      → fail_row l now row
        ≡ (allowed, record row { failure_count = row.failure_count + 1; locked_until = none })
  unfolding fail_row
  fail_row-below now row free t below =
      let within : leb (row.window_started_at + seconds l.window_seconds) now ≡ false =
        ground arith in
      let few : ltb (row.failure_count + 1) (threshold l row.scope) ≡ true = ground arith in
      rw free (rw within (rw few refl))

  fail_row-reached :
      (now : ℕ) (row : LoginThrottle)
      → row.locked_until ≡ none
      → now < row.window_started_at + seconds l.window_seconds
      → threshold l row.scope ≤ row.failure_count + 1
      → fail_row l now row ≡ (
        refused row.scope row.subject_hash (seconds l.lockout_seconds),
        record row {
          failure_count = row.failure_count + 1;
          locked_until = some (now + seconds l.lockout_seconds);
        },
      )
  unfolding fail_row
  fail_row-reached now row free t above =
      let within : leb (row.window_started_at + seconds l.window_seconds) now ≡ false =
        ground arith in
      let many : ltb (row.failure_count + 1) (threshold l row.scope) ≡ false = ground arith in
      rw free (rw within (rw many refl))

module _ (l : LoginRateLimiter) (scope : LoginThrottleScope) (subject : String) where
  -- The rows after failures at these times.
  abbrev pub failures : List ℕ → List LoginThrottle → List LoginThrottle
  failures [] rows = rows
  failures (t ∷ ts) rows = failures ts (record_failure l scope subject t rows).1

  abbrev pub counting_row : ℕ → ℕ → LoginThrottle
  counting_row started n = record {
    scope = scope;
    subject_hash = l.fingerprint scope subject;
    failure_count = n;
    window_started_at = started;
    locked_until = none;
  }

  record_failure-below :
      (started n now : ℕ) (rows : List LoginThrottle)
      → or_else
          (get scope (l.fingerprint scope subject) rows)
          (new_row scope (l.fingerprint scope subject) now)
        ≡ counting_row started n
      → now < started + seconds l.window_seconds
      → n + 1 < threshold l scope
      → get scope (l.fingerprint scope subject) (record_failure l scope subject now rows).1
        ≡ some (counting_row started (n + 1))
  unfolding record_failure
  record_failure-below started n now rows base t below = rw base (
      rw (fail_row-below l now (counting_row started n) refl t below)
        (get-put_self (counting_row started (n + 1)) rows))

  failures-counted :
      (started n : ℕ) (ts : List ℕ) (rows : List LoginThrottle)
      → get scope (l.fingerprint scope subject) rows ≡ some (counting_row started n)
      → All (λ t. t < started + seconds l.window_seconds) ts
      → n + length ts < threshold l scope
      → get scope (l.fingerprint scope subject) (failures ts rows)
        ≡ some (counting_row started (n + length ts))
  failures-counted started n [] rows found ts below =
      found ∙ ap (λ k. some (counting_row started k)) (omega arith)
  failures-counted started n (t ∷ ts) rows found within below =
      failures-counted started (n + 1) ts (record_failure l scope subject t rows).1
        (record_failure-below started n t rows (rw found refl) within.0 (omega arith)) within.1
        (omega arith)
      ∙ ap (λ k. some (counting_row started k)) (omega arith)

  -- A subject without a row fails at `t0`, at the times `ts` and at `t`, all within one window of at
  -- least a second, and fewer times than the threshold before `t`. Then the failure at `t` is blocked exactly if it
  -- reaches the threshold, and the subject is locked from then on for the time of a lockout;
  -- otherwise it is not locked.
  pub threshold_locks :
      (t0 t : ℕ) (ts : List ℕ) (rows : List LoginThrottle)
      → get scope (l.fingerprint scope subject) rows ≡ none
      → 1 ≤ l.window_seconds
      → All (λ x. x < t0 + seconds l.window_seconds) ts
      → t < t0 + seconds l.window_seconds
      → length ts + 1 < threshold l scope
      → let rows' = failures (t0 ∷ ts) rows in
        let last = record_failure l scope subject t rows' in
        let below = ltb (length ts + 2) (threshold l scope) in
        (last.0.blocked ≡ not below)
        × (lock_of (get scope (l.fingerprint scope subject) last.1)
            ≡ (if below then none else some (t + seconds l.lockout_seconds)))
  unfolding record_failure
  threshold_locks t0 t ts rows missing w within tw below =
      let first : get scope (l.fingerprint scope subject) (record_failure l scope subject t0 rows).1
          ≡ some (counting_row t0 1) =
        record_failure-below t0 0 t0 rows (rw missing refl) (omega arith) (omega arith) in
      let before : get scope (l.fingerprint scope subject) (failures (t0 ∷ ts) rows)
          ≡ some (counting_row t0 (length ts + 1)) =
        failures-counted t0 1 ts (record_failure l scope subject t0 rows).1 first within
          (omega arith)
        ∙ ap (λ k. some (counting_row t0 k)) (omega arith) in
      elim (Bool-cases (ltb (length ts + 2) (threshold l scope))) [
        | inl fewer ↦
            let row = fail_row-below l t (counting_row t0 (length ts + 1)) refl tw (ground arith) in
            rw (before, row, fewer)
              (
                refl,
                ap lock_of
                    (get-put_self (counting_row t0 (length ts + 1 + 1)) (failures (t0 ∷ ts) rows)),
              )
        | inr reached ↦
            let row =
              fail_row-reached l t (counting_row t0 (length ts + 1)) refl tw (ground arith) in
            rw (before, row, reached)
              (
                refl,
                ap lock_of (
                    get-put_self
                      (record (counting_row t0 (length ts + 1 + 1)) {
                        locked_until = some (t + seconds l.lockout_seconds);
                      })
                      (failures (t0 ∷ ts) rows)),
              )
      ]
