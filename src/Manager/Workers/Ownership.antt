-- ===== src/Manager/Workers/Ownership.antt =====
-- One worker at a time: what a claim guarantees.
use harbor_transfer_portal.Base.{eq_iff, or_else}
use harbor_transfer_portal.Manager.Service.{request}
use harbor_transfer_portal.Manager.Table.{find_operation-stored}
use harbor_transfer_portal.Base.{
  Option-cases, String, arith, err, false, inl, inr, none, ok, refl, some, true, ℕ, ◌≡◌, ◌≢◌,
}
use harbor_transfer_portal.Domain.Status.{status_in}
use harbor_transfer_portal.Domain.Transitions.{terminal_states}
use harbor_transfer_portal.Manager.Context.{
  OperationContext, holds_token, owned_operation, raise_if_cancelled,
}
use harbor_transfer_portal.Manager.Model.{
  Db, Failure, Operation, find_operation, manager_error, save,
}
use harbor_transfer_portal.Manager.Service.{claim_worker, release_worker, request_cancel, claim}

-- The row that a claim leaves.
claim_worker-row :
    (id : ℕ) (token : String) (now : ℕ) (db db' : Db)
    → claim_worker id token now db ≡ ok db'
    → (op : Operation) × (find_operation id db'.operations ≡ some op)
      × (op.worker_token ≡ some token)
      × (op.cancel_requested_at ≡ none)
      × (status_in op.status terminal_states ≡ false)
unfolding claim_worker
claim_worker-row id token now db db' e = elim (Option-cases (find_operation id db.operations)) [
  | inl missing ↦ absurd (ground (arith, missing))
  | inr (op, found) ↦
      let op' : Operation = record op {
        worker_token = some token;
        worker_started_at = some now;
        heartbeat_at = some now;
      } in
      let r : claim token now (some op) db ≡ ok db' = rw found at e in
      let s : save op' db ≡ db' = ground arith in
      let here = find_operation-stored id op op' db.operations found refl in
      (op', rw (← s) here, refl, ground arith, ground arith)
]

-- While a worker holds an operation, a second claim is refused and a worker with another token can
-- change nothing of it.
pub second_claim_refused :
    (id : ℕ) (token other : String) (now later : ℕ) (db db' : Db)
    → claim_worker id token now db ≡ ok db'
    → token ≢ other
    → (claim_worker id other later db' ≡ err (manager_error "operation_worker_already_running"))
      × (owned_operation (record { operation_id = id; worker_token = other }) db'
          ≡ err (manager_error "operation_worker_claim_lost"))
unfolding claim_worker owned_operation
second_claim_refused id token other now later db db' e n =
    let (op, found, held, calm, live) = claim_worker-row id token now db db' e in
    (
      rw found (ground (arith, held, calm, live)),
      rw (found, owned_operation) (rw held (ground (arith, eq_iff token other))),
    )

-- A release by a worker that does not hold the operation changes nothing.
pub stale_release :
    (id : ℕ) (token other : String) (now : ℕ) (db db' : Db)
    → claim_worker id token now db ≡ ok db'
    → token ≢ other
    → release_worker id other db' ≡ db'
unfolding release_worker
stale_release id token other now db db' e n =
    let (op, found, held, calm, live) = claim_worker-row id token now db db' e in
    rw found (rw held (ground (arith, eq_iff token other)))

-- A requested cancellation stops the worker at its next check and refuses every new claim.
pub cancel_stops :
    (c : OperationContext) (token : String) (now later : ℕ) (op : Operation) (db db' : Db)
    → find_operation c.operation_id db.operations ≡ some op
    → status_in op.status terminal_states ≡ false
    → holds_token op.worker_token c.worker_token ≡ true
    → request_cancel c.operation_id now db ≡ ok db'
    → (raise_if_cancelled c db' ≡ err Failure.operation_cancelled)
      × (claim_worker c.operation_id token later db'
          ≡ err (manager_error "operation_cancel_requested"))
unfolding request_cancel raise_if_cancelled owned_operation claim_worker
cancel_stops c token now later op db db' found live mine e =
    let op' : Operation = record op {
      cancel_requested_at = some (or_else op.cancel_requested_at now);
    } in
    let r : request now (some op) db ≡ ok db' = rw found at e in
    let s : save op' db ≡ db' = ground arith in
    let here = find_operation-stored c.operation_id op op' db.operations found refl in
    rw (← s) (rw (here, owned_operation) (ground arith), rw here (ground arith))
