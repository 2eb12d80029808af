-- ===== src/Manager/Context.antt =====
-- class OperationContext: what a worker may do to its own operation.
use harbor_transfer_portal.Base.{
  ℕ, ltb, ◌==◌, str_eq, String, Option, none, some, List, [], ◌∷◌, Result, ok, err, refuse_if,
  if◌then◌else◌, not, is_some, or_else, ◌>>=◌, ◌>>◌, Bool, false,
}
use harbor_transfer_portal.Domain.Status.{
  OperationStatus, ArtifactStatus, same_artifact_status, status_in, artifact_status_in,
}
use harbor_transfer_portal.Domain.Transitions.{terminal_states}
use harbor_transfer_portal.Manager.Model.{
  ArtifactResult, Operation, Db, Failure, manager_error, value_error, operation_cancelled,
  find_operation, save, check_transition,
}
use harbor_transfer_portal.Manager.Artifacts.{artifact_transitions, recalculate_counts}

pub record OperationContext : Type 0 where
  pub operation_id : ℕ
  pub worker_token : String

abbrev pub holds_token : Option String → String → Bool
holds_token none token = false
holds_token (some held) token = str_eq held token

abbrev owned : OperationContext → Option Operation → Result Failure Operation
owned c none = err (manager_error "operation_not_found")
owned c (some op) =
    if holds_token op.worker_token c.worker_token
    then ok op
    else err (manager_error "operation_worker_claim_lost")

-- _owned_operation
unfoldable pub owned_operation : OperationContext → Db → Result Failure Operation
owned_operation c db = owned c (find_operation c.operation_id db.operations)

-- The fields that `transition` sets.
unfoldable pub moved : OperationStatus → ℕ → Operation → Operation
moved target now op = record op {
  status = target;
  heartbeat_at = some now;
  started_at = some (or_else op.started_at now);
  finished_at = if status_in target terminal_states then some now else op.finished_at;
}

-- transition
unfoldable pub transition : OperationContext → OperationStatus → ℕ → Db → Result Failure Db
transition c target now db = do
  op ← owned_operation c db
  check_transition op.type op.status target
  ok (save (moved target now op) db)

-- set_progress; its arguments are not negative here
unfoldable pub set_progress : OperationContext → ℕ → ℕ → ℕ → Db → Result Failure Db
set_progress c current total now db = do
  refuse_if (ltb total current) value_error
  op ← owned_operation c db
  let op' = record op {
    progress_current = current;
    progress_total = total;
    heartbeat_at = some now;
  }
  ok (save op' db)

-- The optional arguments of `set_artifact_status`.
pub record ArtifactUpdate : Type 0 where
  pub target_digest : Option String
  pub error_code : Option String
  pub error_message : Option String
  pub size_bytes : Option ℕ

abbrev given {ℓ} : {A : Type ℓ} → Option A → Option A → Option A
given none old = old
given (some new) old = some new

-- The fields that `set_artifact_status` sets on the row.
unfoldable pub updated_artifact :
    ArtifactStatus → ArtifactUpdate → ℕ → ArtifactResult → ArtifactResult
updated_artifact status u now row = record row {
  started_at = some (or_else row.started_at now);
  finished_at =
      if same_artifact_status status ArtifactStatus.running then row.finished_at else some now;
  status = status;
  target_digest = given u.target_digest row.target_digest;
  error_code = u.error_code;
  error_message = u.error_message;
  size_bytes = given u.size_bytes row.size_bytes;
}

abbrev pub find_artifact : ℕ → List ArtifactResult → Option ArtifactResult
find_artifact id [] = none
find_artifact id (a ∷ rest) = if a.id == id then some a else find_artifact id rest

abbrev pub store_artifact : ArtifactResult → List ArtifactResult → List ArtifactResult
store_artifact row [] = []
store_artifact row (a ∷ rest) = (if a.id == row.id then row else a) ∷ store_artifact row rest

abbrev pub require_artifact : Option ArtifactResult → Result Failure ArtifactResult
require_artifact none = err (manager_error "operation_artifact_not_found")
require_artifact (some row) = ok row

-- set_artifact_status
unfoldable pub set_artifact_status :
    OperationContext → ℕ → ArtifactStatus → ArtifactUpdate → ℕ → Db → Result Failure Db
set_artifact_status c artifact_id status u now db = do
  op ← owned_operation c db
  row ← require_artifact (find_artifact artifact_id op.artifacts)
  refuse_if (not (artifact_status_in status (artifact_transitions row.status)))
      (manager_error "operation_artifact_transition_invalid")
  let op' = record op {
    artifacts = store_artifact (updated_artifact status u now row) op.artifacts;
    heartbeat_at = some now;
  }
  ok (save (recalculate_counts op') db)

-- heartbeat
unfoldable pub heartbeat : OperationContext → ℕ → Db → Result Failure Db
heartbeat c now db = do
  op ← owned_operation c db
  ok (save (record op { heartbeat_at = some now }) db)

-- raise_if_cancelled
unfoldable pub raise_if_cancelled : OperationContext → Db → Result Failure (Unit {0})
raise_if_cancelled c db = do
  op ← owned_operation c db
  refuse_if (is_some op.cancel_requested_at) operation_cancelled
