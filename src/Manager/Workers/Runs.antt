-- ===== src/Manager/Workers/Runs.antt =====
-- However a worker ends, its operation is settled and its claim released.
use harbor_transfer_portal.Base.{Result-cases, ◌∙◌}
use harbor_transfer_portal.Manager.Context.{raise_if_cancelled}
use harbor_transfer_portal.Manager.Service.{require_disk}
use harbor_transfer_portal.Manager.System.{Reach-IsConsistent, here}
use harbor_transfer_portal.Base.{Ensures-ok, some, false, inl, inr, refl, Bool, ℕ, ◌≡◌}
use harbor_transfer_portal.Manager.Context.{OperationContext, holds_token}
use harbor_transfer_portal.Manager.Model.{Operation, find_operation, Db}
use harbor_transfer_portal.Manager.System.{Reach}
use harbor_transfer_portal.Manager.Workers.{attempt, run_worker, Outcome, reraised}
use harbor_transfer_portal.Manager.Consistency.{IsConsistent}
use harbor_transfer_portal.Manager.Workers.Settling.{
  settle_total, settle-status, release-row, SettledRow, outcome_status,
}

attempt-Reach :
    (c : OperationContext) (reserve free : ℕ) (worker : OperationContext → Db → Outcome × Db)
    (db : Db)
    → ((d : Db) → Reach d (worker c d).1)
    → Reach db (attempt c reserve free worker db).1
unfolding attempt
attempt-Reach c reserve free worker db keeps = elim (Result-cases (require_disk reserve free 0)) [
  | inr (e, full) ↦ rw (full, attempt) here
  | inl (u, room) ↦
      rw (room, attempt)
        (elim (Result-cases (raise_if_cancelled c db)) [
          | inr (e, stop) ↦ rw stop here
          | inl (u', go) ↦ rw go (keeps db)
        ])
]

-- However the worker ends, by itself, cancelled, interrupted by a shutdown, failed or crashed, the
-- run raises only a delivered cancellation, leaves its operation in the status that belongs to that
-- end, and does not hold the claim any more. Before it ended, the worker may have made any
-- transactions, its own and those of others in between.
pub run_worker-settles :
    (c : OperationContext) (shutting_down : Bool) (reserve free now : ℕ)
    (worker : OperationContext → Db → Outcome × Db) (db : Db) (op : Operation)
    → IsConsistent db
    → ((d : Db) → Reach d (worker c d).1)
    → find_operation c.operation_id (attempt c reserve free worker db).1.operations ≡ some op
    → let run = run_worker c shutting_down reserve free now worker db in
      let outcome = (attempt c reserve free worker db).0 in
      (run.raised ≡ reraised outcome)
      × ((op' : Operation) × (find_operation c.operation_id run.db.operations ≡ some op')
          × (op'.status ≡ outcome_status shutting_down outcome op.status)
          × (holds_token op'.worker_token c.worker_token ≡ false))
unfolding run_worker
run_worker-settles c sd reserve free now worker db op h keeps found =
    let (outcome, db') = attempt c reserve free worker db in
    let h' = Reach-IsConsistent h (attempt-Reach c reserve free worker db keeps) in
    let (r, e) = settle_total sd c.operation_id now outcome db' h' in
    let (op1, f1, s1, t1) =
      Ensures-ok
        (λ (r : Bool × Db). SettledRow c.operation_id op (outcome_status sd outcome op.status) r.1)
        _ (settle-status sd c.operation_id now outcome op db' found) e in
    let (op2, f2, s2, t2) = release-row c.operation_id c.worker_token op1 r.1 f1 in
    rw (e, run_worker) (refl, (op2, f2, s2 ∙ s1, t2))
