-- ===== src/Runtime/Switching.antt =====
-- The guard under which operations start, and the two ways to switch the mode.
use harbor_transfer_portal.Runtime.Mode.{
  ModeResult, PortalContour, RuntimeModeSnapshot, RuntimeState, blocking_operation_ids,
  current_snapshot, has_blocking_operations, mode_value, number, require_no_pending_switch,
  same_mode,
}
use harbor_transfer_portal.Base.{
  Bool, List, Option, String, [], err, false, if◌then◌else◌, none, not, ok, some, str_eq, true, ℕ,
  ◌&&◌, ◌+◌, ◌==◌, ◌∷◌,
}
use harbor_transfer_portal.Manager.Model.{Operation}

-- A method's result, and the state that it leaves.
abbrev pub Returned {ℓ} : Type ℓ → Type ℓ
Returned A = ModeResult A × RuntimeState

-- The guard, once the mode has been read.
abbrev pub guard_after :
    Option PortalContour → Returned RuntimeModeSnapshot → Returned RuntimeModeSnapshot
guard_after required (err e, s) = (err e, s)
guard_after none (ok snapshot, s) = (ok snapshot, s)
guard_after (some mode) (ok snapshot, s) =
    (if same_mode snapshot.mode mode then ok snapshot else err "runtime_mode_mismatch", s)

abbrev pub guard_from :
    Option PortalContour → ModeResult (Unit {0}) → RuntimeState → Returned RuntimeModeSnapshot
guard_from required (err e) s = (err e, s)
guard_from required (ok _) s = guard_after required (current_snapshot s)

-- mode_guard and operation_start_guard: the snapshot that the guarded code sees
unfoldable pub mode_guard : Option PortalContour → RuntimeState → Returned RuntimeModeSnapshot
mode_guard required s = guard_from required (require_no_pending_switch s) s

pub record RuntimeModeSwitchPreparation : Type 0 where
  pub token : Option String
  pub previous : RuntimeModeSnapshot
  pub target : PortalContour
  pub blocking : List ℕ

abbrev pub begin_after :
    PortalContour
    → String
    → List Operation
    → Returned RuntimeModeSnapshot
    → Returned RuntimeModeSwitchPreparation
begin_after mode token operations (err e, s) = (err e, s)
begin_after mode token operations (ok previous, s) =
    if same_mode mode previous.mode
    then (ok (record { token = none; previous = previous; target = mode; blocking = [] }), s)
    else (
      ok (record {
        token = some token;
        previous = previous;
        target = mode;
        blocking = blocking_operation_ids operations;
      }),
      record s { pending = some (token, mode) },
    )

abbrev pub begin_from :
    PortalContour
    → String
    → List Operation
    → ModeResult (Unit {0})
    → RuntimeState
    → Returned RuntimeModeSwitchPreparation
begin_from mode token operations (err e) s = (err e, s)
begin_from mode token operations (ok _) s = begin_after mode token operations (current_snapshot s)

-- begin_switch; `token` is what `secrets.token_hex(16)` returns
unfoldable pub begin_switch :
    PortalContour → String → List Operation → RuntimeState → Returned RuntimeModeSwitchPreparation
begin_switch mode token operations s =
    begin_from mode token operations (require_no_pending_switch s) s

pub record RuntimeModeSwitchResult : Type 0 where
  pub previous : PortalContour
  pub current : PortalContour
  pub changed : Bool
  pub mode_version : ℕ
  pub cancelled_operation_ids : List ℕ

-- The commit of a switch: the two rows, the audit event, and `settings.portal_contour`.
unfoldable pub switched : RuntimeModeSnapshot → PortalContour → List ℕ → RuntimeState → RuntimeState
switched previous mode cancelled_ids s = record s {
  stored_mode = some (mode_value mode);
  stored_version = some (number (previous.version + 1));
  portal_contour = mode;
  audit =
      record {
        previous = previous.mode;
        current = mode;
        mode_version = previous.version + 1;
        cancelled_operation_ids = cancelled_ids;
      }
      ∷ s.audit;
}

abbrev pub reserved : Option (String × PortalContour) → String → PortalContour → Bool
reserved none token mode = false
reserved (some (held, wanted)) token mode = str_eq held token && same_mode wanted mode

abbrev pub same_snapshot : RuntimeModeSnapshot → RuntimeModeSnapshot → Bool
same_snapshot a b = same_mode a.mode b.mode && a.version == b.version

abbrev pub remaining : List ℕ → Bool
remaining [] = false
remaining (id ∷ ids) = true

-- complete_switch, once the mode has been read.
abbrev pub complete_after :
    RuntimeModeSwitchPreparation
    → List ℕ
    → List Operation
    → Returned RuntimeModeSnapshot
    → Returned RuntimeModeSwitchResult
complete_after p cancelled_ids operations (err e, s) = (err e, s)
complete_after p cancelled_ids operations (ok current, s) =
    if not (same_snapshot current p.previous)
    then (err "runtime_mode_switch_stale", s)
    else if remaining (blocking_operation_ids operations)
    then (err "runtime_mode_busy", s)
    else (
      ok (record {
        previous = current.mode;
        current = p.target;
        changed = true;
        mode_version = current.version + 1;
        cancelled_operation_ids = cancelled_ids;
      }),
      record (switched current p.target cancelled_ids s) { pending = none },
    )

abbrev unchanged : RuntimeModeSnapshot → RuntimeModeSwitchResult
unchanged snapshot = record {
  previous = snapshot.mode;
  current = snapshot.mode;
  changed = false;
  mode_version = snapshot.version;
  cancelled_operation_ids = [];
}

abbrev pub complete_with :
    Option String
    → RuntimeModeSwitchPreparation
    → List ℕ
    → List Operation
    → RuntimeState
    → Returned RuntimeModeSwitchResult
complete_with none p cancelled_ids operations s = (ok (unchanged p.previous), s)
complete_with (some token) p cancelled_ids operations s =
    if not (reserved s.pending token p.target)
    then (err "runtime_mode_switch_invalid", s)
    else complete_after p cancelled_ids operations (current_snapshot s)

-- complete_switch; the cancelled keys are given sorted and without repetition
unfoldable pub complete_switch :
    RuntimeModeSwitchPreparation
    → List ℕ
    → List Operation
    → RuntimeState
    → Returned RuntimeModeSwitchResult
complete_switch p cancelled_ids operations s = complete_with p.token p cancelled_ids operations s

abbrev pub held_by : Option (String × PortalContour) → String → Bool
held_by none token = false
held_by (some (held, wanted)) token = str_eq held token

-- abort_switch
unfoldable pub abort_switch : Option String → RuntimeState → RuntimeState
abort_switch none s = s
abort_switch (some token) s = if held_by s.pending token then record s { pending = none } else s

abbrev pub switch_after :
    PortalContour → List Operation → Returned RuntimeModeSnapshot → Returned RuntimeModeSwitchResult
switch_after mode operations (err e, s) = (err e, s)
switch_after mode operations (ok previous, s) =
    if same_mode mode previous.mode
    then (ok (unchanged previous), s)
    else if has_blocking_operations operations
    then (err "runtime_mode_busy", s)
    else (
      ok (record {
        previous = previous.mode;
        current = mode;
        changed = true;
        mode_version = previous.version + 1;
        cancelled_operation_ids = [];
      }),
      switched previous mode [] s,
    )

abbrev pub switch_from :
    PortalContour
    → List Operation
    → ModeResult (Unit {0})
    → RuntimeState
    → Returned RuntimeModeSwitchResult
switch_from mode operations (err e) s = (err e, s)
switch_from mode operations (ok _) s = switch_after mode operations (current_snapshot s)

-- switch
unfoldable pub switch :
    PortalContour → List Operation → RuntimeState → Returned RuntimeModeSwitchResult
switch mode operations s = switch_from mode operations (require_no_pending_switch s) s
