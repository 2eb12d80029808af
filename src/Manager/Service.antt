-- ===== src/Manager/Service.antt =====
-- class OperationManager: creation, the claim of a worker, cancellation, failure and recovery.
use harbor_transfer_portal.Base.{
  ℕ, ◌+◌, suc, length, ltb, str_eq, String, Option, none, some, List, [], ◌∷◌, Result, ok, err,
  refuse_if, if◌then◌else◌, not, is_some, or_else, ◌>>◌, Bool, true, false, ◌&&◌, ◌||◌,
}
use harbor_transfer_portal.Domain.Status.{
  OperationType, OperationStatus, ArtifactStatus, created, uploaded, discovered, ready, failed,
  cancelled, status_in, same_status, is_export,
}
use harbor_transfer_portal.Domain.Transitions.{terminal_states}
use harbor_transfer_portal.Manager.Model.{
  ArtifactResult, OperationDetails, Operation, Db, Failure, manager_error, task_failure,
  value_error, integrity_error, find_operation, save, check_transition,
}
use harbor_transfer_portal.Manager.Artifacts.{recalculate_counts, fail_running_artifacts}
use harbor_transfer_portal.Manager.Context.{holds_token}

-- _validate_initial_status
unfoldable pub validate_initial_status : OperationType → OperationStatus → Result Failure (Unit {0})
validate_initial_status operation_type status =
    let allowed = if is_export operation_type then created ∷ [] else uploaded ∷ discovered ∷ [] in
    refuse_if (not (status_in status allowed)) value_error

-- OperationArtifactSpec
pub record OperationArtifactSpec : Type 0 where
  pub artifact_type : String
  pub repository : String
  pub name : Option String
  pub reference : Option String
  pub version : Option String
  pub source_digest : Option String
  pub size_bytes : Option ℕ

abbrev new_artifact : ℕ → OperationArtifactSpec → ArtifactResult
new_artifact id spec = record {
  id = id;
  artifact_type = spec.artifact_type;
  repository = spec.repository;
  name = spec.name;
  reference = spec.reference;
  version = spec.version;
  source_digest = spec.source_digest;
  target_digest = none;
  status = ArtifactStatus.pending;
  error_code = none;
  error_message = none;
  size_bytes = spec.size_bytes;
  started_at = none;
  finished_at = none;
}

unfoldable pub new_artifacts : ℕ → List OperationArtifactSpec → List ArtifactResult
new_artifacts id [] = []
new_artifacts id (spec ∷ specs) = new_artifact id spec ∷ new_artifacts (suc id) specs

-- The UNIQUE constraint on `delivery_id`.
abbrev pub same_delivery : Option String → Option String → Bool
same_delivery (some a) (some b) = str_eq a b
same_delivery _ _ = false

unfoldable pub delivery_taken : Option String → List Operation → Bool
delivery_taken delivery_id [] = false
delivery_taken delivery_id (o ∷ os) =
    same_delivery o.details.delivery_id delivery_id || delivery_taken delivery_id os

unfoldable pub new_operation :
    ℕ
    → ℕ
    → OperationType
    → OperationStatus
    → OperationDetails
    → List OperationArtifactSpec
    → Operation
new_operation id artifact_id type status details specs = record {
  id = id;
  type = type;
  status = status;
  details = details;
  started_at = none;
  finished_at = none;
  progress_current = 0;
  progress_total = length specs;
  total_artifacts = length specs;
  successful_artifacts = 0;
  failed_artifacts = 0;
  skipped_artifacts = 0;
  conflict_artifacts = 0;
  error_code = none;
  error_message = none;
  worker_token = none;
  worker_started_at = none;
  heartbeat_at = none;
  cancel_requested_at = none;
  artifacts = new_artifacts artifact_id specs;
}

-- create_operation: the new key and the database
unfoldable pub create_operation :
    OperationType
    → Option OperationStatus
    → OperationDetails
    → List OperationArtifactSpec
    → Db
    → Result Failure (ℕ × Db)
create_operation operation_type initial_status details specs db = do
  let status = or_else initial_status (if is_export operation_type then created else uploaded)
  validate_initial_status operation_type status
  refuse_if (delivery_taken details.delivery_id db.operations) integrity_error
  let op =
      new_operation db.next_operation_id db.next_artifact_id operation_type status details specs
  let db' : Db = record {
    operations = op ∷ db.operations;
    next_operation_id = suc db.next_operation_id;
    next_artifact_id = db.next_artifact_id + length specs;
  }
  ok (db.next_operation_id, db')

-- The WHERE of the conditional UPDATE of _claim_worker.
abbrev pub claimable : Operation → Bool
claimable op =
    not (is_some op.worker_token)
    && not (is_some op.cancel_requested_at)
    && not (status_in op.status terminal_states)

abbrev pub claim : String → ℕ → Option Operation → Db → Result Failure Db
claim token now none db = err (manager_error "operation_not_found")
claim token now (some op) db =
    if claimable op
    then ok (
        save
          (record op {
            worker_token = some token;
            worker_started_at = some now;
            heartbeat_at = some now;
          })
          db)
    else if status_in op.status terminal_states
    then err (manager_error "operation_terminal")
    else if is_some op.cancel_requested_at
    then err (manager_error "operation_cancel_requested")
    else err (manager_error "operation_worker_already_running")

-- _claim_worker
unfoldable pub claim_worker : ℕ → String → ℕ → Db → Result Failure Db
claim_worker id token now db = claim token now (find_operation id db.operations) db

-- The values that the worker columns get when no worker holds the operation.
abbrev pub unclaimed : Operation → Operation
unclaimed op = record op { worker_token = none; worker_started_at = none; heartbeat_at = none }

abbrev pub release : String → Option Operation → Db → Db
release token none db = db
release token (some op) db =
    if holds_token op.worker_token token then save (unclaimed op) db else db

-- _release_worker
unfoldable pub release_worker : ℕ → String → Db → Db
release_worker id token db = release token (find_operation id db.operations) db

abbrev pub request : ℕ → Option Operation → Db → Result Failure Db
request now none db = err (manager_error "operation_not_found")
request now (some op) db =
    if status_in op.status terminal_states
    then ok db
    else ok
        (save (record op { cancel_requested_at = some (or_else op.cancel_requested_at now) }) db)

-- _request_cancel
unfoldable pub request_cancel : ℕ → ℕ → Db → Result Failure Db
request_cancel id now db = request now (find_operation id db.operations) db

-- The fields that are set when an operation is stopped from outside: its status, the error, the
-- artifacts that were running, and the counters.
unfoldable pub stopped : OperationStatus → String → String → String → ℕ → Operation → Operation
stopped target code message artifact_message now op = recalculate_counts (
    fail_running_artifacts code artifact_message now (record op {
      status = target;
      finished_at = some now;
      error_code = some code;
      error_message = some message;
    }))

abbrev pub stop_row :
    OperationStatus → String → String → String → ℕ → Option Operation → Db → Result Failure Db
stop_row target code message artifact_message now none db = ok db
stop_row target code message artifact_message now (some op) db =
    if status_in op.status terminal_states then ok db else do
      check_transition op.type op.status target
      ok (save (stopped target code message artifact_message now op) db)

-- _mark_cancelled
unfoldable pub mark_cancelled : ℕ → ℕ → Db → Result Failure Db
mark_cancelled id now db =
    stop_row cancelled "operation_cancelled" "Операция отменена пользователем"
      "Выполнение артефакта прервано отменой операции" now (find_operation id db.operations) db

-- _mark_failed
unfoldable pub mark_failed : ℕ → String → String → ℕ → Db → Result Failure Db
mark_failed id code message now db =
    stop_row failed code message message now (find_operation id db.operations) db

abbrev pub interrupt : ℕ → Option Operation → Db → Result Failure (Bool × Db)
interrupt now none db = ok (false, db)
interrupt now (some op) db =
    if status_in op.status terminal_states || same_status op.status ready
    then ok (false, db)
    else do
      check_transition op.type op.status failed
      let op' =
          stopped failed "operation_interrupted_shutdown" "Операция прервана остановкой backend"
            "Выполнение артефакта прервано остановкой backend" now op
      ok (true, save op' db)

-- _handle_shutdown_interruption: whether the workspace is to be removed, and the database
unfoldable pub handle_shutdown_interruption : ℕ → ℕ → Db → Result Failure (Bool × Db)
handle_shutdown_interruption id now db = interrupt now (find_operation id db.operations) db

-- require_disk: the reserve, the free space and the request are in bytes
unfoldable pub require_disk : ℕ → ℕ → ℕ → Result Failure (Unit {0})
require_disk reserve free required_bytes =
    refuse_if (ltb free (reserve + required_bytes)) (task_failure "operation_insufficient_disk")
