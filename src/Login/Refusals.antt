-- ===== src/Login/Refusals.antt =====
-- When the limiter refuses a login, and what a lock does to the logins.
use harbor_transfer_portal.Login.Attempts.{logins}
use harbor_transfer_portal.Base.{if◌then◌else◌}
use harbor_transfer_portal.Login.Attempts.{rate_limited}
use harbor_transfer_portal.Base.{
  All, Bool, Bool-cases, List, Option, String, [], any, arith, eq_iff, false, inl, inr, leb, ltb,
  refl, str_eq, true, ℕ, ◌&&◌, ◌<◌, ◌∷◌, ◌≡◌,
}
use mathlib.Core.Path.{subst}
use harbor_transfer_portal.Login.Attempts.{
  LoginAttempt, blocked_only, check, decisions_for, login, longest, register_success, strictest,
  subjects,
}
use harbor_transfer_portal.Login.Limiter.{
  LoginRateLimitDecision, LoginRateLimiter, LoginThrottle, LoginThrottleScope, decision_for,
  same_scope, username,
}
use harbor_transfer_portal.Login.Lockout.{IsLocked, delete-IsLocked, register_failure-IsLocked}
use harbor_transfer_portal.Login.Throttles.{same_scope_sound}

abbrev IsBlocked : LoginRateLimitDecision → Type 0
IsBlocked d = d.blocked ≡ true

choice-IsBlocked :
    (b : Bool) (x y : LoginRateLimitDecision)
    → IsBlocked x
    → IsBlocked y
    → IsBlocked (if b then x else y)
choice-IsBlocked true x y h k = h
choice-IsBlocked false x y h k = k

longest-IsBlocked :
    (d : LoginRateLimitDecision) (ds : List LoginRateLimitDecision)
    → IsBlocked d
    → All IsBlocked ds
    → IsBlocked (longest d ds)
longest-IsBlocked d [] h hs = h
longest-IsBlocked d (x ∷ xs) h hs =
    longest-IsBlocked (if ltb d.retry_after_seconds x.retry_after_seconds then x else d) xs
      (choice-IsBlocked (ltb d.retry_after_seconds x.retry_after_seconds) x d hs.0 h) hs.1

kept-IsBlocked :
    (b : Bool) (d : LoginRateLimitDecision) (rest : List LoginRateLimitDecision)
    → (b ≡ true → IsBlocked d)
    → All IsBlocked rest
    → All IsBlocked (if b then d ∷ rest else rest)
kept-IsBlocked true d rest h hs = (h refl, hs)
kept-IsBlocked false d rest h hs = hs

blocked_only-IsBlocked : (ds : List LoginRateLimitDecision) → All IsBlocked (blocked_only ds)
blocked_only-IsBlocked [] = tt
blocked_only-IsBlocked (d ∷ ds) =
    kept-IsBlocked d.blocked d (blocked_only ds) (λ h. h) (blocked_only-IsBlocked ds)

strictest_kept-IsBlocked :
    (b : Bool) (d : LoginRateLimitDecision) (rest : List LoginRateLimitDecision)
    → (b ≡ true → IsBlocked d)
    → All IsBlocked rest
    → (b ≡ false → IsBlocked (strictest rest))
    → IsBlocked (strictest (if b then d ∷ rest else rest))
strictest_kept-IsBlocked true d rest h hs later = longest-IsBlocked d rest (h refl) hs
strictest_kept-IsBlocked false d rest h hs later = later refl

-- The strictest decision blocks if one of them does.
pub strictest-IsBlocked :
    (ds : List LoginRateLimitDecision)
    → any (λ d. d.blocked) ds ≡ true
    → IsBlocked (strictest (blocked_only ds))
strictest-IsBlocked [] h = cc
strictest-IsBlocked (d ∷ ds) h =
    strictest_kept-IsBlocked d.blocked d (blocked_only ds) (λ b. b) (blocked_only-IsBlocked ds)
      (λ free. strictest-IsBlocked ds (rw free at h))

-- The subject is one that the request is counted under.
abbrev pub names : LoginThrottleScope → String → List (LoginThrottleScope × String) → Bool
names scope subject ss = any (λ s. same_scope s.0 scope && str_eq s.1 subject) ss

module _ (l : LoginRateLimiter) (scope : LoginThrottleScope) (subject : String) (until : ℕ) where
  abbrev Locked : List LoginThrottle → Type 0
  Locked rows = IsLocked scope (l.fingerprint scope subject) until rows

  decisions_for-IsLocked :
      (now : ℕ) (ss : List (LoginThrottleScope × String)) (rows : List LoginThrottle)
      → now < until
      → Locked rows
      → names scope subject ss ≡ true
      → any (λ d. d.blocked) (decisions_for l now rows ss) ≡ true
  unfolding decision_for
  decisions_for-IsLocked now [] rows t h n = cc
  decisions_for-IsLocked now ((s, who) ∷ rest) rows t h n =
      elim (Bool-cases (same_scope s scope && str_eq who subject)) [
        | inr other ↦
            let later = decisions_for-IsLocked now rest rows t h (rw other at n) in
            ground (arith, later)
        | inl hit ↦
            let same1 = same_scope_sound s scope (ground arith) in
            let same2 = (eq_iff who subject).0 (ground arith) in
            let early : leb until now ≡ false = ground arith in
            rw (same1, same2) (rw h (rw early refl))
      ]

  pub check-IsLocked :
      (name : String) (client_address : Option String) (now : ℕ) (rows : List LoginThrottle)
      → now < until
      → Locked rows
      → names scope subject (subjects l name client_address) ≡ true
      → (check l name client_address now rows).blocked ≡ true
  unfolding check
  check-IsLocked name client_address now rows t h n =
      strictest-IsBlocked (decisions_for l now rows (subjects l name client_address))
        (decisions_for-IsLocked now (subjects l name client_address) rows t h n)

module _ (l : LoginRateLimiter) (scope : LoginThrottleScope) (subject : String) (until : ℕ) where
  -- The row of a user name that a login deletes is not locked when the limiter let it pass.
  unlocked-name :
      (a : LoginAttempt) (rows : List LoginThrottle)
      → a.checked_at < until
      → IsLocked scope (l.fingerprint scope subject) until rows
      → (same_scope scope username
          && str_eq (l.fingerprint scope subject) (l.fingerprint username (l.strip_lower a.name)))
        ≡ true
      → (check l a.name a.client_address a.checked_at rows).blocked ≡ true
  unfolding subjects
  unlocked-name a rows t h mine =
      let f = l.fingerprint username (l.strip_lower a.name) in
      let same1 = same_scope_sound scope username (ground arith) in
      let same2 = (eq_iff (l.fingerprint scope subject) f).0 (ground arith) in
      let h' : IsLocked username f until rows =
        subst (λ s. IsLocked s f until rows) same1
          (subst (λ x. IsLocked scope x until rows) same2 h) in
      check-IsLocked l username (l.strip_lower a.name) until a.name a.client_address a.checked_at
        rows t h' (rw ((eq_iff (l.strip_lower a.name) (l.strip_lower a.name)).1 refl) refl)

  -- Only the row of the user name is deleted by a login, and not while it is locked.
  login-IsLocked :
      (a : LoginAttempt) (rows : List LoginThrottle)
      → a.checked_at < until
      → a.failed_at < until
      → IsLocked scope (l.fingerprint scope subject) until rows
      → IsLocked scope (l.fingerprint scope subject) until (login l a rows).1
  unfolding login register_success
  login-IsLocked a rows t1 t2 h =
      let f = l.fingerprint username (l.strip_lower a.name) in
      elim (Bool-cases (check l a.name a.client_address a.checked_at rows).blocked) [
        | inl blocked ↦ rw blocked h
        | inr free ↦ rw free (elim (Bool-cases a.valid) [
          | inr invalid ↦ rw invalid (
              register_failure-IsLocked l scope _ until a.name a.client_address a.failed_at rows t2
                h)
          | inl valid ↦
              rw valid
                (elim (Bool-cases
                  (same_scope scope username && str_eq (l.fingerprint scope subject) f)) [
                    | inr other ↦ delete-IsLocked scope _ until username f rows other h
                    | inl mine ↦ absurd (let b = unlocked-name a rows t1 h mine in cc)
                  ])
        ])
      ]

  logins-IsLocked :
      (attempts : List LoginAttempt) (rows : List LoginThrottle)
      → All (λ a. (a.checked_at < until) × (a.failed_at < until)) attempts
      → IsLocked scope (l.fingerprint scope subject) until rows
      → IsLocked scope (l.fingerprint scope subject) until (logins l attempts rows)
  logins-IsLocked [] rows t h = h
  logins-IsLocked (a ∷ rest) rows t h =
      logins-IsLocked rest (login l a rows).1 t.1 (login-IsLocked a rows t.0.0 t.0.1 h)

  -- If a user name or an address is locked, then until the end of the lock every login under it is
  -- refused without a look at its password, and leaves the rows alone, however many logins were
  -- tried by anyone since, with the right password or not.
  pub lock_holds :
      (attempts : List LoginAttempt) (a : LoginAttempt) (rows : List LoginThrottle)
      → IsLocked scope (l.fingerprint scope subject) until rows
      → All (λ x. (x.checked_at < until) × (x.failed_at < until)) attempts
      → a.checked_at < until
      → names scope subject (subjects l a.name a.client_address) ≡ true
      → login l a (logins l attempts rows) ≡ (
        rate_limited (check l a.name a.client_address a.checked_at (logins l attempts rows)),
        logins l attempts rows,
      )
  unfolding login
  lock_holds attempts a rows h ts t n =
      let after = logins l attempts rows in
      rw
        (check-IsLocked l scope subject until a.name a.client_address a.checked_at after t
          (logins-IsLocked attempts rows ts h) n)
        refl
