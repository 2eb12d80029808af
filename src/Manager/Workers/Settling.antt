-- ===== src/Manager/Workers/Settling.antt =====
-- What the `except` and `finally` clauses of _run_worker do to the row.
use harbor_transfer_portal.Base.{
  Result, err, ◌>>=◌, Ensures, Ensures-then, String, if◌then◌else◌, some, Bool-cases, Option-cases,
  arith, false, inl, inr, refl, true, ◌||◌, Bool, ok, ℕ, ◌≡◌,
}
use harbor_transfer_portal.Manager.Context.{holds_token}
use harbor_transfer_portal.Manager.Model.{Failure, Operation, check_transition, find_operation, Db}
use harbor_transfer_portal.Manager.Service.{
  release_worker, unclaimed, stop_row, stopped, mark_cancelled, mark_failed,
  handle_shutdown_interruption,
}
use harbor_transfer_portal.Manager.Workers.{
  Outcome, crashed, finished, settle, task_cancelled, task_failed,
}
use harbor_transfer_portal.Domain.Status.{
  OperationStatus, cancelled, failed, ready, same_status, status_in,
}
use harbor_transfer_portal.Manager.Artifacts.{fail_running_artifacts, recalculate_counts}
use harbor_transfer_portal.Manager.Table.{find_operation-stored}
use harbor_transfer_portal.Domain.Transitions.{terminal_states}
use harbor_transfer_portal.Manager.Consistency.Control.{found-IsSound, stop_row_total}
use harbor_transfer_portal.Manager.Soundness.{stop_allowed}
use harbor_transfer_portal.Manager.Consistency.{IsConsistent}

shutdown_total :
    (id now : ℕ) (db : Db)
    → IsConsistent db
    → (r : Bool × Db) × (handle_shutdown_interruption id now db ≡ ok r)
unfolding handle_shutdown_interruption
shutdown_total id now db h = elim (Option-cases (find_operation id db.operations)) [
  | inl e ↦ rw e (_, refl)
  | inr (op, e) ↦
      rw e (elim (Bool-cases (status_in op.status terminal_states || same_status op.status ready)) [
        | inl quiet ↦ rw quiet (_, refl)
        | inr busy ↦
            let live : status_in op.status terminal_states ≡ false = ground arith in
            rw busy (
              rw (stop_allowed op.type op.status (found-IsSound id db op h e).on_route live).0
                (_, refl))
      ])
]

mark_cancelled_total :
    (id now : ℕ) (db : Db) → IsConsistent db → (db' : Db) × (mark_cancelled id now db ≡ ok db')
unfolding mark_cancelled
mark_cancelled_total id now db h = stop_row_total cancelled _ _ _ now id db h (inr refl)

mark_failed_total :
    (id : ℕ) (code message : String) (now : ℕ) (db : Db)
    → IsConsistent db
    → (db' : Db) × (mark_failed id code message now db ≡ ok db')
unfolding mark_failed
mark_failed_total id code message now db h =
    stop_row_total failed code message message now id db h (inl refl)

-- The end of most `except` clauses: the workspace is to be removed.
abbrev removing : Result Failure Db → Result Failure (Bool × Db)
removing m = m >>= λ db'. ok (true, db')

removing_total :
    (m : Result Failure Db) → (db' : Db) × (m ≡ ok db') → (r : Bool × Db) × (removing m ≡ ok r)
removing_total m (db', e) = ((true, db'), rw e)

-- No `except` clause raises.
pub settle_total :
    (shutting_down : Bool) (id now : ℕ) (outcome : Outcome) (db : Db)
    → IsConsistent db
    → (r : Bool × Db) × (settle shutting_down id now outcome db ≡ ok r)
unfolding settle
settle_total s id now finished db h = (_, refl)
settle_total s id now Outcome.operation_cancelled db h =
    removing_total _ (mark_cancelled_total id now db h)
settle_total true id now task_cancelled db h = shutdown_total id now db h
settle_total false id now task_cancelled db h = removing_total _ (mark_cancelled_total id now db h)
settle_total s id now (task_failed code message) db h =
    removing_total _ (mark_failed_total id code message now db h)
settle_total s id now crashed db h = removing_total _ (mark_failed_total id _ _ now db h)

-- Where each way to end leaves the status.
abbrev pub outcome_status : Bool → Outcome → OperationStatus → OperationStatus
outcome_status shutting_down finished s = s
outcome_status shutting_down Outcome.operation_cancelled s =
    if status_in s terminal_states then s else cancelled
outcome_status true task_cancelled s =
    if status_in s terminal_states || same_status s ready then s else failed
outcome_status false task_cancelled s = if status_in s terminal_states then s else cancelled
outcome_status shutting_down _ s = if status_in s terminal_states then s else failed

-- The row after an `except` clause.
abbrev pub SettledRow : ℕ → Operation → OperationStatus → Db → Type 0
SettledRow id op s db' =
    (op' : Operation) × (find_operation id db'.operations ≡ some op')
    × (op'.status ≡ s)
    × (op'.worker_token ≡ op.worker_token)

stop_row-status :
    (target : OperationStatus) (code message artifact_message : String) (now id : ℕ)
    (op : Operation) (db : Db)
    → find_operation id db.operations ≡ some op
    → Ensures
        (SettledRow id op (if status_in op.status terminal_states then op.status else target))
        (stop_row target code message artifact_message now (find_operation id db.operations) db)
unfolding stopped recalculate_counts fail_running_artifacts
stop_row-status target code message artifact_message now id op db found =
    rw found (elim (Bool-cases (status_in op.status terminal_states)) [
      | inl ended ↦ rw ended (op, found, refl, refl)
      | inr live ↦ rw live (
          Ensures-then _ (check_transition op.type op.status target) _ λ _. (
            stopped target code message artifact_message now op,
            find_operation-stored id op _ db.operations found refl,
            refl,
            refl,
          ))
    ])

interrupted-status :
    (id now : ℕ) (op : Operation) (db : Db)
    → find_operation id db.operations ≡ some op
    → Ensures
        (λ (r : Bool × Db).
          SettledRow id op
            (if status_in op.status terminal_states || same_status op.status ready
              then op.status
              else failed)
            r.1)
        (handle_shutdown_interruption id now db)
unfolding handle_shutdown_interruption stopped recalculate_counts fail_running_artifacts
interrupted-status id now op db found =
    rw found
      (elim (Bool-cases (status_in op.status terminal_states || same_status op.status ready)) [
        | inl quiet ↦ rw quiet (op, found, refl, refl)
        | inr busy ↦ rw busy (
            Ensures-then _ (check_transition op.type op.status failed) _ λ _. (
              stopped failed _ _ _ now op,
              find_operation-stored id op _ db.operations found refl,
              refl,
              refl,
            ))
      ])

mark_cancelled-status :
    (id now : ℕ) (op : Operation) (db : Db)
    → find_operation id db.operations ≡ some op
    → Ensures
        (SettledRow id op (if status_in op.status terminal_states then op.status else cancelled))
        (mark_cancelled id now db)
unfolding mark_cancelled
mark_cancelled-status id now op db found = stop_row-status cancelled _ _ _ now id op db found

mark_failed-status :
    (id : ℕ) (code message : String) (now : ℕ) (op : Operation) (db : Db)
    → find_operation id db.operations ≡ some op
    → Ensures
        (SettledRow id op (if status_in op.status terminal_states then op.status else failed))
        (mark_failed id code message now db)
unfolding mark_failed
mark_failed-status id code message now op db found =
    stop_row-status failed code message message now id op db found

removing-Ensures :
    (P : Db → Type 0) (m : Result Failure Db)
    → Ensures P m
    → Ensures (λ (r : Bool × Db). P r.1) (removing m)
removing-Ensures P (ok db') h = h
removing-Ensures P (err e) h = tt

pub settle-status :
    (shutting_down : Bool) (id now : ℕ) (outcome : Outcome) (op : Operation) (db : Db)
    → find_operation id db.operations ≡ some op
    → Ensures
        (λ (r : Bool × Db). SettledRow id op (outcome_status shutting_down outcome op.status) r.1)
        (settle shutting_down id now outcome db)
unfolding settle
settle-status sd id now finished op db found = (op, found, refl, refl)
settle-status sd id now Outcome.operation_cancelled op db found =
    removing-Ensures (SettledRow id op _) _ (mark_cancelled-status id now op db found)
settle-status true id now task_cancelled op db found = interrupted-status id now op db found
settle-status false id now task_cancelled op db found =
    removing-Ensures (SettledRow id op _) _ (mark_cancelled-status id now op db found)
settle-status sd id now (task_failed code message) op db found =
    removing-Ensures (SettledRow id op _) _ (mark_failed-status id code message now op db found)
settle-status sd id now crashed op db found =
    removing-Ensures (SettledRow id op _) _ (mark_failed-status id _ _ now op db found)

pub release-row :
    (id : ℕ) (token : String) (op : Operation) (db : Db)
    → find_operation id db.operations ≡ some op
    → (op' : Operation) × (find_operation id (release_worker id token db).operations ≡ some op')
      × (op'.status ≡ op.status)
      × (holds_token op'.worker_token token ≡ false)
unfolding release_worker
release-row id token op db found = rw found (elim (Bool-cases (holds_token op.worker_token token)) [
  | inl mine ↦
      rw mine (unclaimed op, find_operation-stored id op _ db.operations found refl, refl, refl)
  | inr other ↦ rw other (op, found, refl, other)
])
