-- ===== src/Login/Throttles.antt =====
-- Looking up, storing and deleting the rows of the limiter.
use harbor_transfer_portal.Base.{Option-cases, or_else, ℕ}
use harbor_transfer_portal.Login.Limiter.{new_row}
use harbor_transfer_portal.Base.{
  Bool, Bool-cases, List, String, [], arith, eq_iff, false, inl, inr, none, refl, some, str_eq,
  true, ◌&&◌, ◌∷◌, ◌≡◌,
}
use harbor_transfer_portal.Login.Attempts.{delete}
use harbor_transfer_portal.Login.Limiter.{LoginThrottle, LoginThrottleScope, get, put, same_scope}

abbrev pub has_key : LoginThrottleScope → String → LoginThrottle → Bool
has_key scope fingerprint r = same_scope r.scope scope && str_eq r.subject_hash fingerprint

same_scope_refl : (a : LoginThrottleScope) → same_scope a a ≡ true
same_scope_refl a = ground arith

pub same_scope_sound : (a b : LoginThrottleScope) → same_scope a b ≡ true → a ≡ b
same_scope_sound a b h = ground arith

pub has_key_self : (row : LoginThrottle) → has_key row.scope row.subject_hash row ≡ true
has_key_self row =
    rw (same_scope_refl row.scope, (eq_iff row.subject_hash row.subject_hash).1 refl) refl

pub get-key :
    (scope : LoginThrottleScope) (fingerprint : String) (rows : List LoginThrottle)
    (row : LoginThrottle)
    → get scope fingerprint rows ≡ some row
    → (row.scope ≡ scope) × (row.subject_hash ≡ fingerprint)
get-key scope fingerprint [] row e = cc
get-key scope fingerprint (r ∷ rs) row e = elim (Bool-cases (has_key scope fingerprint r)) [
  | inr miss ↦ get-key scope fingerprint rs row (rw miss at e)
  | inl hit ↦
      let e1 = rw hit at e in
      let q : r ≡ row = cc e1 in
      rw (← q) (
        same_scope_sound r.scope scope (ground arith),
        (eq_iff r.subject_hash fingerprint).0 (ground arith),
      )
]

pub get-put_self :
    (row : LoginThrottle) (rows : List LoginThrottle)
    → get row.scope row.subject_hash (put row rows) ≡ some row
get-put_self row [] = rw (has_key_self row) refl
get-put_self row (r ∷ rs) = elim (Bool-cases (has_key row.scope row.subject_hash r)) [
  | inl hit ↦ rw hit (rw (has_key_self row) refl)
  | inr miss ↦ rw miss (rw miss (get-put_self row rs))
]

pub get-put_other :
    (scope : LoginThrottleScope) (fingerprint : String) (row : LoginThrottle)
    (rows : List LoginThrottle)
    → has_key scope fingerprint row ≡ false
    → get scope fingerprint (put row rows) ≡ get scope fingerprint rows
get-put_other scope fingerprint row [] other = rw other refl
get-put_other scope fingerprint row (r ∷ rs) other =
    elim (Bool-cases (has_key row.scope row.subject_hash r)) [
      | inr miss ↦ rw miss (elim (Bool-cases (has_key scope fingerprint r)) [
        | inl hit ↦ rw hit refl
        | inr past ↦ rw past (get-put_other scope fingerprint row rs other)
      ])
      | inl hit ↦
          let same1 = same_scope_sound r.scope row.scope (ground arith) in
          let same2 = (eq_iff r.subject_hash row.subject_hash).0 (ground arith) in
          let past : has_key scope fingerprint r ≡ false = rw (same1, same2) other in
          rw hit (rw (other, past) refl)
    ]

pub get-delete_self :
    (scope : LoginThrottleScope) (fingerprint : String) (rows : List LoginThrottle)
    → get scope fingerprint (delete scope fingerprint rows) ≡ none
get-delete_self scope fingerprint [] = refl
get-delete_self scope fingerprint (r ∷ rs) = elim (Bool-cases (has_key scope fingerprint r)) [
  | inl hit ↦ rw hit (get-delete_self scope fingerprint rs)
  | inr miss ↦ rw miss (rw miss (get-delete_self scope fingerprint rs))
]

-- Deleting under another key leaves the row that is found.
pub get-delete_other :
    (scope other : LoginThrottleScope) (fingerprint gone : String) (rows : List LoginThrottle)
    → (same_scope scope other && str_eq fingerprint gone) ≡ false
    → get scope fingerprint (delete other gone rows) ≡ get scope fingerprint rows
get-delete_other scope other fingerprint gone [] e = refl
get-delete_other scope other fingerprint gone (r ∷ rs) e =
    elim (Bool-cases (has_key scope fingerprint r)) [
      | inl hit ↦
          let same1 = same_scope_sound r.scope scope (ground arith) in
          let same2 = (eq_iff r.subject_hash fingerprint).0 (ground arith) in
          let kept : has_key other gone r ≡ false = rw (same1, same2) e in rw kept (rw hit refl)
      | inr miss ↦ rw miss (elim (Bool-cases (has_key other gone r)) [
        | inl dropped ↦ rw dropped (get-delete_other scope other fingerprint gone rs e)
        | inr kept ↦ rw kept (rw miss (get-delete_other scope other fingerprint gone rs e))
      ])
    ]

pub has_key_sound :
    (scope : LoginThrottleScope) (fingerprint : String) (r : LoginThrottle)
    → has_key scope fingerprint r ≡ true
    → (r.scope ≡ scope) × (r.subject_hash ≡ fingerprint)
has_key_sound scope fingerprint r h = (
  same_scope_sound r.scope scope (ground arith),
  (eq_iff r.subject_hash fingerprint).0 (ground arith),
)

-- The row that a failure is recorded on has the key that was asked for.
pub get-or_new-key :
    (scope : LoginThrottleScope) (fingerprint : String) (now : ℕ) (rows : List LoginThrottle)
    → ((or_else (get scope fingerprint rows) (new_row scope fingerprint now)).scope ≡ scope)
      × ((or_else (get scope fingerprint rows) (new_row scope fingerprint now)).subject_hash
          ≡ fingerprint)
get-or_new-key scope fingerprint now rows = elim (Option-cases (get scope fingerprint rows)) [
  | inl missing ↦ rw missing (refl, refl)
  | inr (row, found) ↦ rw found (get-key scope fingerprint rows row found)
]
