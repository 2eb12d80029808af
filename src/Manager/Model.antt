-- ===== src/Manager/Model.antt =====
-- The rows that the operation manager reads and writes (backend/app/db/models.py), and how a
-- session of it finds and stores an operation. A session that raises is rolled back, so each
-- transaction returns the new database or the error.
use harbor_transfer_portal.Base.{
  ℕ, ◌==◌, String, Option, none, some, List, [], ◌∷◌, Result, ok, err, if◌then◌else◌,
}
use harbor_transfer_portal.Domain.Status.{OperationType, OperationStatus, ArtifactStatus}
use harbor_transfer_portal.Domain.Transitions.{IllegalOperationTransition, validate_transition}

-- The columns of `ArtifactResult` that the manager touches.
pub record ArtifactResult : Type 0 where
  pub id : ℕ
  pub artifact_type : String
  pub repository : String
  pub name : Option String
  pub reference : Option String
  pub version : Option String
  pub source_digest : Option String
  pub target_digest : Option String
  pub status : ArtifactStatus
  pub error_code : Option String
  pub error_message : Option String
  pub size_bytes : Option ℕ
  pub started_at : Option ℕ
  pub finished_at : Option ℕ

-- The columns that `create_operation` fills from its arguments and the manager never changes.
pub record OperationDetails : Type 0 where
  pub delivery_id : Option String
  pub actor_user_id : Option ℕ
  pub actor_username : String
  pub comment : Option String
  pub harbor_profile_id : Option String
  pub harbor_profile_name : Option String
  pub harbor_profile_url : Option String

-- A row of `operations` with its `artifacts`. Times are seconds.
pub record Operation : Type 0 where
  pub id : ℕ
  pub type : OperationType
  pub status : OperationStatus
  pub details : OperationDetails
  pub started_at : Option ℕ
  pub finished_at : Option ℕ
  pub progress_current : ℕ
  pub progress_total : ℕ
  pub total_artifacts : ℕ
  pub successful_artifacts : ℕ
  pub failed_artifacts : ℕ
  pub skipped_artifacts : ℕ
  pub conflict_artifacts : ℕ
  pub error_code : Option String
  pub error_message : Option String
  pub worker_token : Option String
  pub worker_started_at : Option ℕ
  pub heartbeat_at : Option ℕ
  pub cancel_requested_at : Option ℕ
  pub artifacts : List ArtifactResult

-- The tables, and the keys that the database hands out next.
pub record Db : Type 0 where
  pub operations : List Operation
  pub next_operation_id : ℕ
  pub next_artifact_id : ℕ

-- OperationManagerError, OperationTaskFailure, OperationCancelled, and what else a call raises.
pub data Failure : Type 0 where
  manager_error : String → Failure
  task_failure : String → Failure
  operation_cancelled : Failure
  illegal : IllegalOperationTransition → Failure
  value_error : Failure
  integrity_error : Failure

-- session.get(Operation, id)
abbrev pub find_operation : ℕ → List Operation → Option Operation
find_operation id [] = none
find_operation id (o ∷ os) = if o.id == id then some o else find_operation id os

-- commit of a changed row
abbrev pub store : Operation → List Operation → List Operation
store op [] = []
store op (o ∷ os) = (if o.id == op.id then op else o) ∷ store op os

abbrev pub save : Operation → Db → Db
save op db = record db { operations = store op db.operations }

-- `validate_transition`, its exception among the others
unfoldable pub check_transition :
    OperationType → OperationStatus → OperationStatus → Result Failure (Unit {0})
check_transition type current target = elim (validate_transition type current target) [
  | ok u ↦ ok u
  | err e ↦ err (illegal e)
]
