-- ===== src/Manager/Workers.antt =====
-- submit, cancel and _run_worker of backend/app/services/operation_manager.py. The event loop is not
-- modelled: `tasks` holds the keys of `_tasks` whose task is not done, and the semaphore only delays
-- a run. A worker is a parameter: what it does to the database, and how it ends.
pub mod Settling
pub mod Runs
pub mod Ownership
use harbor_transfer_portal.Base.{
  Bool, List, Result, String, any, err, false, if◌then◌else◌, ok, refuse_if, true, ℕ, ◌==◌, ◌>>=◌,
  ◌>>◌, ◌∷◌,
}
use harbor_transfer_portal.Manager.Context.{OperationContext, raise_if_cancelled}
use harbor_transfer_portal.Manager.Model.{Db, Failure, manager_error, task_failure}
use harbor_transfer_portal.Manager.Service.{
  claim_worker, handle_shutdown_interruption, mark_cancelled, mark_failed, release_worker,
  request_cancel, require_disk,
}

-- How the body of the `try` of _run_worker ends.
pub data Outcome : Type 0 where
  finished : Outcome
  operation_cancelled : Outcome
  task_cancelled : Outcome
  task_failed : String → String → Outcome
  crashed : Outcome

abbrev pub task_running : ℕ → List ℕ → Bool
task_running id tasks = any (λ t. t == id) tasks

-- submit: the keys of the running tasks and the database
unfoldable pub submit : List ℕ → ℕ → String → ℕ → Db → Result Failure (List ℕ × Db)
submit tasks id worker_token now db = do
  refuse_if (task_running id tasks) (manager_error "operation_worker_already_running")
  db' ← claim_worker id worker_token now db
  ok (id ∷ tasks, db')

-- cancel, up to the delivery of CancelledError to a running task: whether that is delivered
unfoldable pub cancel : List ℕ → ℕ → ℕ → Db → Result Failure (Bool × Db)
cancel tasks id now db = do
  asked ← request_cancel id now db
  if task_running id tasks
      then ok (true, asked)
      else (do done ← mark_cancelled id now asked; ok (false, done))

abbrev worker_failed_message : String
worker_failed_message = "Фоновая операция завершилась с внутренней ошибкой"

abbrev insufficient_disk_message : String
insufficient_disk_message = "Недостаточно свободного места для запуска операции"

-- How an exception before the worker's own code is caught.
abbrev caught : Failure → Outcome
caught Failure.operation_cancelled = operation_cancelled
caught (task_failure code) = task_failed code insufficient_disk_message
caught _ = crashed

-- The body of the `try`: the checks, then the worker.
unfoldable pub attempt :
    OperationContext → ℕ → ℕ → (OperationContext → Db → Outcome × Db) → Db → Outcome × Db
attempt c reserve free worker db = elim (require_disk reserve free 0) [
  | err e ↦ (caught e, db)
  | ok _ ↦ elim (raise_if_cancelled c db) [ err e ↦ (caught e, db) | ok _ ↦ worker c db ]
]

-- The `except` clauses: whether the workspace is to be removed, and the database.
unfoldable pub settle : Bool → ℕ → ℕ → Outcome → Db → Result Failure (Bool × Db)
settle shutting_down id now finished db = ok (false, db)
settle shutting_down id now operation_cancelled db = do
  db' ← mark_cancelled id now db
  ok (true, db')
settle true id now task_cancelled db = handle_shutdown_interruption id now db
settle false id now task_cancelled db = do db' ← mark_cancelled id now db; ok (true, db')
settle shutting_down id now (task_failed code message) db = do
  db' ← mark_failed id code message now db
  ok (true, db')
settle shutting_down id now crashed db = do
  db' ← mark_failed id "operation_worker_failed" worker_failed_message now db
  ok (true, db')

-- `cleanup_workspace` where an `except` clause itself raises.
abbrev set_before_raise : Bool → Outcome → Bool
set_before_raise true task_cancelled = false
set_before_raise _ _ = true

pub record WorkerRun : Type 0 where
  pub db : Db
  pub workspace_removed : Bool
  pub raised : Bool

abbrev pub reraised : Outcome → Bool
reraised task_cancelled = true
reraised _ = false

-- _run_worker; the `finally` releases the claim on every path
unfoldable pub run_worker :
    OperationContext → Bool → ℕ → ℕ → ℕ → (OperationContext → Db → Outcome × Db) → Db → WorkerRun
run_worker c shutting_down reserve free now worker db =
    let (outcome, db') = attempt c reserve free worker db in
    elim (settle shutting_down c.operation_id now outcome db') [
      | ok (removes, db'') ↦ record {
        db = release_worker c.operation_id c.worker_token db'';
        workspace_removed = removes;
        raised = reraised outcome;
      }
      | err e ↦ record {
        db = release_worker c.operation_id c.worker_token db';
        workspace_removed = set_before_raise shutting_down outcome;
        raised = true;
      }
    ]
