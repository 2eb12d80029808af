-- ===== src/Runtime/Mode.antt =====
-- RuntimeModeService. The lock makes each method one step; a method returns its result and the state,
-- since what was committed before an exception stays. `operations` is the table of the manager.
use harbor_transfer_portal.Base.{leb, sort_by}
use harbor_transfer_portal.Base.{
  Bool, List, Option, Result, String, [], any, err, false, if◌then◌else◌, is_some, ltb, none, ok,
  or_else, refuse_if, some, str_eq, true, ℕ, ◌&&◌, ◌>>=◌, ◌∷◌,
}
use harbor_transfer_portal.Domain.Status.{
  OperationStatus, created, discovered, importing, packaging, ready, running, status_in, uploaded,
  validating, verifying, verifying_target,
}
use harbor_transfer_portal.Manager.Model.{Operation}

-- PortalContour of backend/app/config.py
pub data PortalContour : Type 0 where
  source target : PortalContour

-- A stored text, by what `int()` makes of it. `str(n)` is `number n`.
pub data IntText : Type 0 where
  malformed : IntText
  negative : ℕ → IntText
  number : ℕ → IntText

pub record RuntimeModeSnapshot : Type 0 where
  pub mode : PortalContour
  pub version : ℕ

-- The metadata of a `runtime_mode_changed` audit event.
pub record ModeChanged : Type 0 where
  pub previous : PortalContour
  pub current : PortalContour
  pub mode_version : ℕ
  pub cancelled_operation_ids : List ℕ

-- The two settings rows, `settings.portal_contour`, the pending token with its target, and the audit
-- events, the last one first.
pub record RuntimeState : Type 0 where
  pub stored_mode : Option String
  pub stored_version : Option IntText
  pub portal_contour : PortalContour
  pub pending : Option (String × PortalContour)
  pub audit : List ModeChanged

abbrev pub mode_value : PortalContour → String
mode_value source = "SOURCE"
mode_value target = "TARGET"

abbrev pub same_mode : PortalContour → PortalContour → Bool
same_mode source source = true
same_mode target target = true
same_mode _ _ = false

-- The code of a RuntimeModeError.
abbrev pub ModeResult {ℓ} : Type ℓ → Type ℓ
ModeResult A = Result String A

-- _parse_mode
unfoldable pub parse_mode : String → ModeResult PortalContour
parse_mode value =
    if str_eq value "SOURCE"
    then ok source
    else if str_eq value "TARGET"
    then ok target
    else err "runtime_mode_invalid"

-- _parse_version
unfoldable pub parse_version : IntText → ModeResult ℕ
parse_version malformed = err "runtime_mode_invalid"
parse_version (negative n) = err "runtime_mode_invalid"
parse_version (number n) = if ltb n 1 then err "runtime_mode_invalid" else ok n

abbrev bootstrap_mode : RuntimeState → Option String → ModeResult PortalContour
bootstrap_mode s none = ok s.portal_contour
bootstrap_mode s (some stored) = parse_mode stored

-- initialize
unfoldable pub initialize : RuntimeState → ModeResult PortalContour × RuntimeState
initialize s = elim (bootstrap_mode s s.stored_mode) [
  | err e ↦ (err e, s)
  | ok mode ↦ (
    ok mode,
    record s {
      stored_mode = some (or_else s.stored_mode (mode_value mode));
      stored_version = some (or_else s.stored_version (number 1));
      portal_contour = mode;
    },
  )
]

abbrev pub stored_snapshot : Option String → Option IntText → ModeResult RuntimeModeSnapshot
stored_snapshot (some stored) (some version) = do
  mode ← parse_mode stored
  mode_version ← parse_version version
  ok (record { mode = mode; version = mode_version })
stored_snapshot _ _ = err "runtime_mode_invalid"

-- The end of current_snapshot, once both rows are there.
unfoldable pub read_snapshot : RuntimeState → ModeResult RuntimeModeSnapshot × RuntimeState
read_snapshot s = elim (stored_snapshot s.stored_mode s.stored_version) [
  | err e ↦ (err e, s)
  | ok snapshot ↦ (ok snapshot, record s { portal_contour = snapshot.mode })
]

-- current_snapshot
unfoldable pub current_snapshot : RuntimeState → ModeResult RuntimeModeSnapshot × RuntimeState
current_snapshot s =
    if is_some s.stored_mode && is_some s.stored_version
    then read_snapshot s
    else (let (r, s') = initialize s in elim r [ err e ↦ (err e, s') | ok _ ↦ read_snapshot s' ])

-- _require_no_pending_switch
unfoldable pub require_no_pending_switch : RuntimeState → ModeResult (Unit {0})
require_no_pending_switch s = refuse_if (is_some s.pending) "runtime_mode_switch_in_progress"

-- BLOCKING_OPERATION_STATUSES
abbrev pub blocking_operation_statuses : List OperationStatus
blocking_operation_statuses =
    created ∷ validating ∷ running ∷ packaging ∷ verifying ∷ uploaded ∷ discovered ∷ ready
    ∷ importing ∷ verifying_target ∷ []

abbrev pub blocking_ids : List Operation → List ℕ
blocking_ids [] = []
blocking_ids (o ∷ os) =
    let rest = blocking_ids os in
    if status_in o.status blocking_operation_statuses then o.id ∷ rest else rest

-- _blocking_operation_ids, in the order of the keys
unfoldable pub blocking_operation_ids : List Operation → List ℕ
blocking_operation_ids operations = sort_by leb (blocking_ids operations)

-- _has_blocking_operations
unfoldable pub has_blocking_operations : List Operation → Bool
has_blocking_operations ops = any (λ o. status_in o.status blocking_operation_statuses) ops
