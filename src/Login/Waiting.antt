-- ===== src/Login/Waiting.antt =====
-- The wait that a refusal names is long enough.
use harbor_transfer_portal.Base.{
  All, Bool, Bool-cases, List, Option, String, [], arith, false, if◌then◌else◌, inl, inr, leb, ltb,
  none, refl, some, true, ℕ, ◌+◌, ◌-◌, ◌∷◌, ◌≡◌, ◌≤◌,
}
use harbor_transfer_portal.Login.Attempts.{
  blocked_only, check, decisions_for, longest, strictest, subjects,
}
use harbor_transfer_portal.Login.Limiter.{
  LoginRateLimitDecision, LoginRateLimiter, LoginThrottle, LoginThrottleScope, decision_at,
  decision_for, get, lock_of, retry_seconds, seconds,
}

-- A wait of that many whole seconds ends a lock.
waited :
    (now until r : ℕ)
    → leb until now ≡ false
    → retry_seconds (until - now) ≤ r
    → leb until (now + seconds r) ≡ true
waited now until r late h = ground arith

module _ (scope : LoginThrottleScope) (fingerprint : String) where
  decision_at-later :
      (now r : ℕ) (lock : Option ℕ)
      → (decision_at scope fingerprint now lock).retry_after_seconds ≤ r
      → (decision_at scope fingerprint (now + seconds r) lock).blocked ≡ false
  decision_at-later now r none h = refl
  decision_at-later now r (some until) h = elim (Bool-cases (leb until now)) [
    | inl over ↦
        let still : leb until (now + seconds r) ≡ true = ground (arith, over) in rw still refl
    | inr locked ↦ let h1 = rw locked at h in rw (waited now until r locked h1) refl
  ]

  decision_at-allowed :
      (now : ℕ) (lock : Option ℕ)
      → (decision_at scope fingerprint now lock).blocked ≡ false
      → (decision_at scope fingerprint now lock).retry_after_seconds ≡ 0
  decision_at-allowed now none h = refl
  decision_at-allowed now (some until) h = elim (Bool-cases (leb until now)) [
    | inl over ↦ rw over refl
    | inr locked ↦ absurd (let x = rw locked at h in cc)
  ]

choice-retry :
    (d x : LoginRateLimitDecision)
    → let c = if ltb d.retry_after_seconds x.retry_after_seconds then x else d in
      (d.retry_after_seconds ≤ c.retry_after_seconds)
      × (x.retry_after_seconds ≤ c.retry_after_seconds)
choice-retry d x = elim (Bool-cases (ltb d.retry_after_seconds x.retry_after_seconds)) [
  | inl longer ↦ rw longer (ground (arith, longer), omega arith)
  | inr shorter ↦ rw shorter (omega arith, ground (arith, shorter))
]

at_most : (a b c : ℕ) → a ≤ b → b ≤ c → a ≤ c
at_most a b c h k = omega arith

longest-retry :
    (d : LoginRateLimitDecision) (ds : List LoginRateLimitDecision)
    → (d.retry_after_seconds ≤ (longest d ds).retry_after_seconds)
      × All
          (λ (x : LoginRateLimitDecision).
            x.retry_after_seconds ≤ (longest d ds).retry_after_seconds)
          ds
longest-retry d [] = (omega arith, tt)
longest-retry d (x ∷ xs) =
    let c = if ltb d.retry_after_seconds x.retry_after_seconds then x else d in
    let (first, rest) = longest-retry c xs in
    let (more_d, more_x) = choice-retry d x in
    (at_most _ _ _ more_d first, (at_most _ _ _ more_x first, rest))

strictest-retry :
    (ds : List LoginRateLimitDecision)
    → All
        (λ (x : LoginRateLimitDecision). x.retry_after_seconds ≤ (strictest ds).retry_after_seconds)
        ds
strictest-retry [] = tt
strictest-retry (d ∷ ds) = longest-retry d ds

-- A bound of the decisions that block bounds all that wait.
kept-retry :
    (b : Bool) (d : LoginRateLimitDecision) (rest : List LoginRateLimitDecision) (r : ℕ)
    → (b ≡ false → d.retry_after_seconds ≡ 0)
    → All (λ (x : LoginRateLimitDecision). x.retry_after_seconds ≤ r) (if b then d ∷ rest else rest)
    → (d.retry_after_seconds ≤ r)
      × All (λ (x : LoginRateLimitDecision). x.retry_after_seconds ≤ r) rest
kept-retry true d rest r none_ h = h
kept-retry false d rest r none_ h = (rw (none_ refl) (omega arith), h)

dropped :
    (b : Bool) (d : LoginRateLimitDecision) (rest : List LoginRateLimitDecision)
    → b ≡ false
    → rest ≡ []
    → (if b then d ∷ rest else rest) ≡ []
dropped true d rest h e = cc
dropped false d rest h e = e

module _ (l : LoginRateLimiter) (now r : ℕ) (rows : List LoginThrottle) where
  decisions_for-later :
      (ss : List (LoginThrottleScope × String))
      → All
          (λ (x : LoginRateLimitDecision). x.retry_after_seconds ≤ r)
          (blocked_only (decisions_for l now rows ss))
      → blocked_only (decisions_for l (now + seconds r) rows ss) ≡ []
  unfolding decision_for
  decisions_for-later [] h = refl
  decisions_for-later ((s, subject) ∷ rest) h =
      let f = l.fingerprint s subject in
      let lock = lock_of (get s f rows) in
      let (mine, others) =
        kept-retry (decision_at s f now lock).blocked (decision_at s f now lock)
          (blocked_only (decisions_for l now rows rest)) r (decision_at-allowed s f now lock) h in
      dropped (decision_at s f (now + seconds r) lock).blocked
        (decision_at s f (now + seconds r) lock)
        (blocked_only (decisions_for l (now + seconds r) rows rest))
        (decision_at-later s f now r lock mine) (decisions_for-later rest others)

-- After the number of seconds that a check names, and with no login in between, a check for the same
-- user name and address is not blocked.
pub retry_after_suffices :
    (l : LoginRateLimiter) (name : String) (client_address : Option String) (now : ℕ)
    (rows : List LoginThrottle)
    → let decision = check l name client_address now rows in
      (check l name client_address (now + seconds decision.retry_after_seconds) rows).blocked
      ≡ false
unfolding check
retry_after_suffices l name client_address now rows =
    let ss = subjects l name client_address in
    let wait = (strictest (blocked_only (decisions_for l now rows ss))).retry_after_seconds in
    rw
      (decisions_for-later l now wait rows ss
        (strictest-retry (blocked_only (decisions_for l now rows ss))))
      refl
