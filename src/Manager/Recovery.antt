-- ===== src/Manager/Recovery.antt =====
-- reconcile_interrupted_operations: what a restart does to the operations that it finds.
use harbor_transfer_portal.Base.{
  ℕ, suc, List, [], ◌∷◌, Result, ok, if◌then◌else◌, is_some, ◌>>=◌, ◌>>◌, Bool, true, false, ◌||◌,
  not,
}
use harbor_transfer_portal.Domain.Status.{
  OperationStatus, validating, running, packaging, verifying, importing, verifying_target, ready,
  failed, cancelled, status_in, same_status,
}
use harbor_transfer_portal.Domain.Transitions.{terminal_states}
use harbor_transfer_portal.Manager.Model.{Operation, Db, Failure, check_transition}
use harbor_transfer_portal.Manager.Artifacts.{recalculate_counts}
use harbor_transfer_portal.Manager.Service.{unclaimed, stopped}

-- _ACTIVE_EXECUTION_STATES
abbrev pub active_execution_states : List OperationStatus
active_execution_states =
    validating ∷ running ∷ packaging ∷ verifying ∷ importing ∷ verifying_target ∷ []

-- The WHERE of the SELECT.
abbrev pub interrupted : Operation → Bool
interrupted op = is_some op.worker_token || status_in op.status active_execution_states

-- The row of an operation whose cancellation was asked for before the restart.
unfoldable pub cancelled_row : ℕ → Operation → Operation
cancelled_row now op = unclaimed (
    stopped cancelled "operation_cancelled" "Операция была отменена"
      "Выполнение артефакта прервано отменой операции" now op)

-- The row of an operation that the restart interrupts.
unfoldable pub failed_row : ℕ → Operation → Operation
failed_row now op = unclaimed (
    stopped failed "operation_interrupted_restart"
      "Операция прервана перезапуском backend; автоматическое возобновление в v1 не поддерживается"
      "Выполнение артефакта прервано перезапуском backend" now op)

-- The body of the loop: the row, and whether it was recovered and its workspace removed.
unfoldable pub reconcile_one : ℕ → Operation → Result Failure (Operation × Bool)
reconcile_one now op =
    if status_in op.status terminal_states
    then ok (unclaimed op, false)
    else if is_some op.cancel_requested_at
    then (do check_transition op.type op.status cancelled; ok (cancelled_row now op, true))
    else if not (same_status op.status ready)
    then (do check_transition op.type op.status failed; ok (failed_row now op, true))
    else ok (recalculate_counts (unclaimed op), false)

-- The loop: the rows, how many were recovered, and the workspaces that were removed.
unfoldable pub reconcile : ℕ → List Operation → Result Failure (List Operation × ℕ × List ℕ)
reconcile now [] = ok ([], 0, [])
reconcile now (op ∷ ops) = elim (interrupted op) [
  | false ↦ (do (rest, recovered, cleaned) ← reconcile now ops; ok (op ∷ rest, recovered, cleaned))
  | true ↦ (do
    (op', hit) ← reconcile_one now op
    (rest, recovered, cleaned) ← reconcile now ops
    ok (
      op' ∷ rest,
      (if hit then suc recovered else recovered),
      (if hit then op.id ∷ cleaned else cleaned),
    ))
]

-- reconcile_interrupted_operations
unfoldable pub reconcile_interrupted_operations : ℕ → Db → Result Failure (ℕ × Db)
reconcile_interrupted_operations now db = do
  (operations, recovered, cleaned) ← reconcile now db.operations
  ok (recovered, record db { operations = operations })
