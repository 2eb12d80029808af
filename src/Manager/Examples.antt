-- ===== src/Manager/Examples.antt =====
-- One export, from its creation to its end, and the theorems about the manager at it.
use harbor_transfer_portal.Manager.Workers.{reraised}
use harbor_transfer_portal.Base.{
  All, String, arith, count, eq_iff, false, true, ◌&&◌, ◌↔◌, ◌≡◌, ◌≢◌,
}
use harbor_transfer_portal.Domain.Status.{cancelled, import, ready, status_in}
use harbor_transfer_portal.Domain.Transitions.{terminal_states}
use harbor_transfer_portal.Domain.Transitions.Lifecycle.{
  Edge, path_from, validate_transition-iff-Edge,
}
use harbor_transfer_portal.Manager.Artifacts.{
  fail_if_running, fail_running_artifacts, recalculate_counts,
}
use harbor_transfer_portal.Manager.Context.{holds_token, raise_if_cancelled}
use harbor_transfer_portal.Manager.Model.{find_operation, manager_error}
use harbor_transfer_portal.Manager.Recovery.{interrupted, reconcile_interrupted_operations}
use harbor_transfer_portal.Manager.Restart.{Forall₂, Settled, is_stopped, restart_settles}
use harbor_transfer_portal.Manager.Restart.Idle.{IsIdle, restart_leaves-IsIdle}
use harbor_transfer_portal.Manager.Service.{
  mark_cancelled, release_worker, request_cancel, require_disk, stopped,
}
use harbor_transfer_portal.Manager.System.{Reach-IsConsistent, Step-IsConsistent}
use harbor_transfer_portal.Manager.System.Phases.{completed_in_order, taken, terminal_for_ever}
use harbor_transfer_portal.Manager.Workers.{Outcome, attempt, crashed, run_worker}
use harbor_transfer_portal.Manager.Workers.Ownership.{cancel_stops, second_claim_refused}
use harbor_transfer_portal.Manager.Workers.Runs.{run_worker-settles}
use harbor_transfer_portal.Manager.Workers.Settling.{outcome_status}
use harbor_transfer_portal.Manager.System.{Step}
use harbor_transfer_portal.Base.{Result, [], err, none, ok, refl, some, ℕ, ◌∷◌}
use harbor_transfer_portal.Domain.Status.{
  completed, created, export, packaging, running, validating, verifying,
}
use harbor_transfer_portal.Domain.Transitions.{validate_transition}
use harbor_transfer_portal.Manager.Consistency.{IsConsistent}
use harbor_transfer_portal.Manager.Context.{OperationContext, moved, owned_operation, transition}
use harbor_transfer_portal.Manager.Model.{
  Db, Failure, Operation, OperationDetails, check_transition,
}
use harbor_transfer_portal.Manager.Service.{
  OperationArtifactSpec, claim_worker, create_operation, delivery_taken, new_artifacts,
  new_operation, validate_initial_status,
}
use harbor_transfer_portal.Manager.System.{IsConsistent-empty, Reach, empty, here, move, next}

abbrev details : OperationDetails
details = record {
  delivery_id = some "DELIVERY-20250101-ABC123";
  actor_user_id = some 1;
  actor_username = "admin";
  comment = none;
  harbor_profile_id = none;
  harbor_profile_name = none;
  harbor_profile_url = none;
}

abbrev image : OperationArtifactSpec
image = record {
  artifact_type = "container-image";
  repository = "library/app";
  name = none;
  reference = some "1.0";
  version = none;
  source_digest = none;
  size_bytes = none;
}

abbrev worker : OperationContext
worker = record { operation_id = 1; worker_token = "a1" }

-- The database that a transaction leaves.
abbrev after : Db → Result Failure Db → Db
after db (ok db') = db'
after db (err e) = db

abbrev after_create : Db → Result Failure (ℕ × Db) → Db
after_create db (ok (id, db')) = db'
after_create db (err e) = db

fresh_db : Db
unfolding create_operation validate_initial_status delivery_taken new_operation new_artifacts
fresh_db = after_create empty (create_operation export none details (image ∷ []) empty)

fresh_op : Operation
unfolding new_operation new_artifacts
fresh_op = new_operation 1 1 export created details (image ∷ [])

fresh_db-IsConsistent : IsConsistent fresh_db
unfolding create_operation validate_initial_status delivery_taken new_operation new_artifacts
    fresh_db
fresh_db-IsConsistent =
    Step-IsConsistent {db = empty} (Step.create export none details (image ∷ []) 1 refl)
      IsConsistent-empty

-- The phases of the export, each taken by its worker.
whole_run : (db : Db) × Reach fresh_db db
unfolding fresh_db claim_worker transition owned_operation check_transition validate_transition
    moved
whole_run = (
  _,
  next
      (next
        (next
          (next (next (next here (Step.claim 1 "a1" 10 refl)) (move worker validating 11 refl))
            (move worker running 12 refl))
          (move worker packaging 13 refl))
        (move worker verifying 14 refl))
      (move worker completed 15 refl),
)

fresh_op_found : find_operation 1 fresh_db.operations ≡ some fresh_op
unfolding fresh_db fresh_op
fresh_op_found = refl

whole_run_completes :
    (op : Operation) × (find_operation 1 whole_run.0.operations ≡ some op) × (op.status ≡ completed)
unfolding whole_run fresh_db claim_worker transition owned_operation check_transition
    validate_transition moved
whole_run_completes = (_, refl, refl)

completed_in_order_example : taken 1 whole_run.1 ≡ path_from export created
unfolding fresh_op
completed_in_order_example =
    completed_in_order 1 fresh_op whole_run_completes.0 fresh_db-IsConsistent whole_run.1
      fresh_op_found whole_run_completes.1 whole_run_completes.2

Reach-IsConsistent_example : IsConsistent whole_run.0
Reach-IsConsistent_example = Reach-IsConsistent fresh_db-IsConsistent whole_run.1

-- The export is cancelled before a worker takes it.
cancelled_run : (db : Db) × (mark_cancelled 1 20 fresh_db ≡ ok db)
unfolding fresh_db mark_cancelled check_transition validate_transition stopped recalculate_counts
    fail_running_artifacts fail_if_running
cancelled_run = (_, refl)

cancelled_run-IsConsistent : IsConsistent cancelled_run.0
cancelled_run-IsConsistent =
    Step-IsConsistent (Step.cancel 1 20 cancelled_run.1) fresh_db-IsConsistent

cancelled_op :
    (op : Operation) × (find_operation 1 cancelled_run.0.operations ≡ some op)
    × (op.status ≡ cancelled)
unfolding cancelled_run fresh_db mark_cancelled check_transition validate_transition stopped
    recalculate_counts fail_running_artifacts fail_if_running
cancelled_op = (_, refl, refl)

terminal_for_ever_example :
    (op' : Operation) × (find_operation 1 (release_worker 1 "a1" cancelled_run.0).operations
      ≡ some op')
    × (op'.status ≡ cancelled_op.0.status)
terminal_for_ever_example =
    terminal_for_ever 1 cancelled_op.0 cancelled_run-IsConsistent
      (next here (Step.release 1 "a1" refl)) cancelled_op.1 (rw cancelled_op.2)

-- A restart finds the export claimed and running.
busy_run : (db : Db) × Reach fresh_db db
unfolding fresh_db claim_worker transition owned_operation check_transition validate_transition
    moved
busy_run = (_, next (next here (Step.claim 1 "a1" 10 refl)) (move worker validating 11 refl))

busy-IsConsistent : IsConsistent busy_run.0
busy-IsConsistent = Reach-IsConsistent fresh_db-IsConsistent busy_run.1

restart_settles_example :
    (db' : Db) × (reconcile_interrupted_operations 30 busy_run.0
      ≡ ok (count (λ op. interrupted op && is_stopped op) busy_run.0.operations, db'))
    × Forall₂ Settled busy_run.0.operations db'.operations
    × IsConsistent db'
restart_settles_example = restart_settles 30 busy_run.0 busy-IsConsistent

restart_stops_one : count (λ op. interrupted op && is_stopped op) busy_run.0.operations ≡ 1
unfolding busy_run fresh_db claim_worker transition owned_operation check_transition
    validate_transition moved
restart_stops_one = refl

restart_leaves-IsIdle_example : All IsIdle restart_settles_example.0.operations
restart_leaves-IsIdle_example =
    restart_leaves-IsIdle 30 _ busy_run.0 restart_settles_example.0 busy-IsConsistent
      restart_settles_example.1

-- Two workers.
claimed : (db : Db) × (claim_worker 1 "a1" 10 fresh_db ≡ ok db)
unfolding fresh_db claim_worker
claimed = (_, refl)

other_token : ◌≢◌ {A = String} "a1" "b2"
other_token = ground (arith, eq_iff "a1" "b2")

second_claim_refused_example :
    (claim_worker 1 "b2" 11 claimed.0 ≡ err (manager_error "operation_worker_already_running"))
    × (owned_operation (record { operation_id = 1; worker_token = "b2" }) claimed.0
        ≡ err (manager_error "operation_worker_claim_lost"))
second_claim_refused_example =
    second_claim_refused 1 "a1" "b2" 10 11 fresh_db claimed.0 claimed.1 other_token

asked :
    (op : Operation) × (db : Db) × (find_operation 1 claimed.0.operations ≡ some op)
    × (request_cancel 1 12 claimed.0 ≡ ok db)
    × (status_in op.status terminal_states ≡ false)
    × (holds_token op.worker_token "a1" ≡ true)
unfolding claimed fresh_db claim_worker request_cancel
asked = (_, _, refl, refl, refl, refl)

cancel_stops_example :
    (raise_if_cancelled worker asked.1 ≡ err Failure.operation_cancelled)
    × (claim_worker 1 "b2" 13 asked.1 ≡ err (manager_error "operation_cancel_requested"))
cancel_stops_example =
    cancel_stops worker "b2" 12 13 asked.0 claimed.0 asked.1 asked.2 asked.4 asked.5 asked.3

-- A worker that crashes at once.
crashing : OperationContext → Db → Outcome × Db
crashing c db = (crashed, db)

crashing-Reach : (d : Db) → Reach d (crashing worker d).1
unfolding crashing
crashing-Reach d = here

attempted : find_operation 1 (attempt worker 10 50 crashing claimed.0).1.operations ≡ some asked.0
unfolding attempt require_disk raise_if_cancelled owned_operation crashing claimed asked fresh_db
    claim_worker request_cancel
attempted = refl

run_worker-settles_example :
    let run = run_worker worker false 10 50 14 crashing claimed.0 in
    let outcome = (attempt worker 10 50 crashing claimed.0).0 in
    (run.raised ≡ reraised outcome)
    × ((op' : Operation) × (find_operation 1 run.db.operations ≡ some op')
        × (op'.status ≡ outcome_status false outcome asked.0.status)
        × (holds_token op'.worker_token "a1" ≡ false))
run_worker-settles_example =
    run_worker-settles worker false 10 50 14 crashing claimed.0 asked.0
      (Step-IsConsistent (Step.claim 1 "a1" 10 claimed.1) fresh_db-IsConsistent) crashing-Reach
      attempted

validate_transition-iff-Edge_example :
    (validate_transition import verifying ready ≡ ok tt) ↔ Edge import verifying ready
validate_transition-iff-Edge_example = validate_transition-iff-Edge import verifying ready
