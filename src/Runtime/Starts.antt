-- ===== src/Runtime/Starts.antt =====
-- CorrelatedOperationManager: operations start under the runtime mode, and keep a snapshot of it.
use harbor_transfer_portal.Base.{
  List, Option, Result, String, [], err, if◌then◌else◌, none, ok, some, ℕ, ◌==◌, ◌∷◌,
}
use harbor_transfer_portal.Domain.Status.{OperationStatus, OperationType, export, import}
use harbor_transfer_portal.Manager.Model.{
  Db, Failure, Operation, OperationDetails, find_operation, manager_error,
}
use harbor_transfer_portal.Manager.Service.{OperationArtifactSpec, create_operation}
use harbor_transfer_portal.Manager.Workers.{submit}
use harbor_transfer_portal.Runtime.Mode.{
  PortalContour, RuntimeModeSnapshot, RuntimeState, source, target,
}
use harbor_transfer_portal.Runtime.Switching.{mode_guard, same_snapshot}

-- The tables, the mode, and the columns `runtime_mode` and `runtime_mode_version` by operation.
pub record Portal : Type 0 where
  pub db : Db
  pub runtime : RuntimeState
  pub snapshots : List (ℕ × RuntimeModeSnapshot)

pub data StartError : Type 0 where
  manager : Failure → StartError
  runtime_mode : String → StartError

abbrev pub required_mode : OperationType → PortalContour
required_mode export = source
required_mode import = target

abbrev pub find_snapshot : ℕ → List (ℕ × RuntimeModeSnapshot) → Option RuntimeModeSnapshot
find_snapshot id [] = none
find_snapshot id ((key, snapshot) ∷ rest) =
    if key == id then some snapshot else find_snapshot id rest

-- create_operation
unfoldable pub start_operation :
    OperationType
    → Option OperationStatus
    → OperationDetails
    → List OperationArtifactSpec
    → Portal
    → Result StartError ℕ × Portal
start_operation k initial_status details specs p =
    let (guarded, runtime) = mode_guard (some (required_mode k)) p.runtime in
    elim guarded [
      | err e ↦ (err (runtime_mode e), record p { runtime = runtime })
      | ok snapshot ↦ elim (create_operation k initial_status details specs p.db) [
        | err e ↦ (err (manager e), record p { runtime = runtime })
        | ok (id, db) ↦ (
          ok id,
          record p { db = db; runtime = runtime; snapshots = (id, snapshot) ∷ p.snapshots },
        )
      ]
    ]

-- The comparison of the operation's own snapshot with the mode, and the snapshots that it leaves.
unfoldable pub bind_snapshot :
    ℕ
    → RuntimeModeSnapshot
    → List (ℕ × RuntimeModeSnapshot)
    → Result StartError (List (ℕ × RuntimeModeSnapshot))
bind_snapshot id current snapshots = elim (find_snapshot id snapshots) [
  | none ↦ ok ((id, current) ∷ snapshots)
  | some own ↦
      if same_snapshot own current
      then ok snapshots
      else err (runtime_mode "runtime_mode_operation_mismatch")
]

abbrev pub submit_under :
    Operation → List ℕ → String → ℕ → Portal → Result StartError (List ℕ) × Portal
submit_under op tasks token now p =
    let (guarded, runtime) = mode_guard (some (required_mode op.type)) p.runtime in
    elim guarded [
      | err e ↦ (err (runtime_mode e), record p { runtime = runtime })
      | ok current ↦ elim (bind_snapshot op.id current p.snapshots) [
        | err e ↦ (err e, record p { runtime = runtime })
        | ok snapshots ↦ elim (submit tasks op.id token now p.db) [
          | err e ↦ (err (manager e), record p { runtime = runtime; snapshots = snapshots })
          | ok (tasks', db) ↦
              (ok tasks', record p { db = db; runtime = runtime; snapshots = snapshots })
        ]
      ]
    ]

-- submit
unfoldable pub start_worker : List ℕ → ℕ → String → ℕ → Portal → Result StartError (List ℕ) × Portal
start_worker tasks id token now p = elim (find_operation id p.db.operations) [
  | none ↦ (err (manager (manager_error "operation_not_found")), p)
  | some op ↦ submit_under op tasks token now p
]
