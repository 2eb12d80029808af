-- ===== src/Login/Lockout.antt =====
-- A lock holds until its end, whatever logins are tried meanwhile.
use harbor_transfer_portal.Base.{
  Bool-cases, List, Option, Option-cases, String, [], arith, false, inl, inr, leb, ltb, or_else,
  refl, some, str_eq, sym, true, ℕ, ◌&&◌, ◌+◌, ◌<◌, ◌∙◌, ◌∷◌, ◌≡◌,
}
use harbor_transfer_portal.Login.Attempts.{delete, record_failures, register_failure, subjects}
use harbor_transfer_portal.Login.Limiter.{
  LoginRateLimiter, LoginThrottle, LoginThrottleScope, fail_row, get, lock_of, locked_at, new_row,
  put, record_failure, same_scope, seconds, threshold,
}
use harbor_transfer_portal.Login.Throttles.{
  get-delete_other, get-or_new-key, get-put_other, get-put_self, has_key, has_key_sound,
}

module _ (scope : LoginThrottleScope) (fingerprint : String) (until : ℕ) where
  -- The row under the key is locked until then.
  abbrev pub IsLocked : List LoginThrottle → Type 0
  IsLocked rows = lock_of (get scope fingerprint rows) ≡ some until

  pub IsLocked-row :
      (rows : List LoginThrottle)
      → IsLocked rows
      → (row : LoginThrottle) × (get scope fingerprint rows ≡ some row)
        × (row.locked_until ≡ some until)
  IsLocked-row rows h = elim (Option-cases (get scope fingerprint rows)) [
    | inl missing ↦ absurd (let x = rw missing at h in cc)
    | inr (row, found) ↦ (row, found, rw found at h)
  ]

  put-IsLocked :
      (row : LoginThrottle) (rows : List LoginThrottle)
      → (row.scope ≡ scope → row.subject_hash ≡ fingerprint → row.locked_until ≡ some until)
      → IsLocked rows
      → IsLocked (put row rows)
  put-IsLocked row rows own h = elim (Bool-cases (has_key scope fingerprint row)) [
    | inr other ↦ rw (get-put_other scope fingerprint row rows other) h
    | inl mine ↦
        let (same1, same2) = has_key_sound scope fingerprint row mine in
        rw (← same1, ← same2) (rw (get-put_self row rows) (own same1 same2))
  ]

  pub delete-IsLocked :
      (other : LoginThrottleScope) (gone : String) (rows : List LoginThrottle)
      → (same_scope scope other && str_eq fingerprint gone) ≡ false
      → IsLocked rows
      → IsLocked (delete other gone rows)
  delete-IsLocked other gone rows e h = rw (get-delete_other scope other fingerprint gone rows e) h

-- A failure changes neither key of its row.
pub fail_row-key :
    (l : LoginRateLimiter) (now : ℕ) (row : LoginThrottle)
    → ((fail_row l now row).1.scope ≡ row.scope)
      × ((fail_row l now row).1.subject_hash ≡ row.subject_hash)
unfolding fail_row
fail_row-key l now row = elim (Bool-cases (locked_at now row.locked_until)) [
  | inl locked ↦ rw locked (refl, refl)
  | inr free ↦
      rw free (elim (Bool-cases (leb (row.window_started_at + seconds l.window_seconds) now)) [
        | inl over ↦ rw over (elim (Bool-cases (ltb 1 (threshold l row.scope))) [
          | inl below ↦ rw below (refl, refl)
          | inr reached ↦ rw reached (refl, refl)
        ])
        | inr within ↦
            rw within (elim (Bool-cases (ltb (row.failure_count + 1) (threshold l row.scope))) [
              | inl below ↦ rw below (refl, refl)
              | inr reached ↦ rw reached (refl, refl)
            ])
      ])
]

-- While its row is locked, a failure changes nothing.
pub fail_row-locked :
    (l : LoginRateLimiter) (now until : ℕ) (row : LoginThrottle)
    → row.locked_until ≡ some until
    → now < until
    → (fail_row l now row).1 ≡ row
unfolding fail_row
fail_row-locked l now until row h t =
    let locked : locked_at now row.locked_until ≡ true = rw h (ground arith) in rw locked refl

module _ (l : LoginRateLimiter) (scope : LoginThrottleScope) (fingerprint : String)
    (until : ℕ) where
  record_failure-IsLocked :
      (s : LoginThrottleScope) (subject : String) (now : ℕ) (rows : List LoginThrottle)
      → now < until
      → IsLocked scope fingerprint until rows
      → IsLocked scope fingerprint until (record_failure l s subject now rows).1
  unfolding record_failure
  record_failure-IsLocked s subject now rows t h =
      let f = l.fingerprint s subject in
      let base = or_else (get s f rows) (new_row s f now) in
      let (key1, key2) = fail_row-key l now base in
      let (at1, at2) = get-or_new-key s f now rows in
      put-IsLocked scope fingerprint until (fail_row l now base).1 rows
        (λ same1 same2.
          let (row, found, locked) = IsLocked-row scope fingerprint until rows h in
          let found' : get s f rows ≡ some row =
            rw (sym at2 ∙ sym key2 ∙ same2, sym at1 ∙ sym key1 ∙ same1) found in
          let is_row : base ≡ row = rw found' refl in
          rw (is_row, fail_row-locked l now until row locked t) locked)
        h

  record_failures-IsLocked :
      (now : ℕ) (ss : List (LoginThrottleScope × String)) (rows : List LoginThrottle)
      → now < until
      → IsLocked scope fingerprint until rows
      → IsLocked scope fingerprint until (record_failures l now ss rows).1
  record_failures-IsLocked now [] rows t h = h
  record_failures-IsLocked now ((s, subject) ∷ rest) rows t h =
      record_failures-IsLocked now rest (record_failure l s subject now rows).1 t
        (record_failure-IsLocked s subject now rows t h)

  pub register_failure-IsLocked :
      (name : String) (client_address : Option String) (now : ℕ) (rows : List LoginThrottle)
      → now < until
      → IsLocked scope fingerprint until rows
      → IsLocked scope fingerprint until (register_failure l name client_address now rows).1
  unfolding register_failure
  register_failure-IsLocked name client_address now rows t h =
      record_failures-IsLocked now (subjects l name client_address) rows t h
