-- ===== src/Manager/Consistency.antt =====
-- What holds of the whole table, and that each transaction of a worker keeps it.
pub mod Control
pub mod Creation
use harbor_transfer_portal.Base.{
  ℕ, suc, ◌+◌, ◌≤◌, ◌<◌, ◌≡◌, refl, ap, sym, ◌∙◌, ◌≢◌, ◌==◌, Bool, Bool-cases, true, false, is_some,
  List, [], ◌∷◌, map, All, length, Result, ok, err, Ensures, Ensures-bind, Ensures-then, refuse_if,
  arith, Option, some, none, String, ltb, not, if◌then◌else◌, inl, inr, Option-cases,
}
use mathlib.Core.Path.{subst}
use harbor_transfer_portal.Domain.Status.{
  OperationType, OperationStatus, ArtifactStatus, failed, cancelled, ready, status_in, same_status,
  artifact_status_in,
}
use harbor_transfer_portal.Domain.Transitions.{terminal_states}
use harbor_transfer_portal.Manager.Model.{
  ArtifactResult, Operation, OperationDetails, Db, Failure, find_operation, store, save,
  manager_error, check_transition,
}
use harbor_transfer_portal.Manager.Artifacts.{artifact_transitions, recalculate_counts}
use harbor_transfer_portal.Manager.Context.{
  OperationContext, ArtifactUpdate, owned_operation, moved, transition, set_progress,
  set_artifact_status, updated_artifact, store_artifact, heartbeat, holds_token, find_artifact,
  require_artifact,
}
use harbor_transfer_portal.Manager.Service.{
  OperationArtifactSpec, create_operation, validate_initial_status, new_operation, new_artifacts,
  claim_worker, release_worker, request_cancel, stopped, mark_cancelled, mark_failed,
  handle_shutdown_interruption, unclaimed, claim, claimable, stop_row,
}
use harbor_transfer_portal.Manager.Table.{ids, ids-store, All-find_operation, All-store}
use harbor_transfer_portal.Manager.Soundness.{
  IsSound, IsCounted, recalculate_counts-IsCounted, IsSound-same, moved-IsSound, stopped-IsSound,
  stop_allowed, IsSound-touched, recalculated-IsSound,
}

abbrev pub Distinct : List ℕ → Type 0
Distinct [] = Unit
Distinct (x ∷ xs) = All (λ y. x ≢ y) xs × Distinct xs

-- Every row is sound, and the keys are distinct and below the next one.
pub record IsConsistent (db : Db) : Type 0 where
  pub rows : All IsSound db.operations
  pub distinct : Distinct (ids db.operations)
  pub fresh : All (λ n. n < db.next_operation_id) (ids db.operations)

pub save-IsConsistent :
    (op : Operation) (db : Db) → IsConsistent db → IsSound op → IsConsistent (save op db)
save-IsConsistent op db h s = record {
  rows = All-store IsSound op db.operations h.rows s;
  distinct = subst Distinct (sym (ids-store op db.operations)) h.distinct;
  fresh = subst (All (λ n. n < db.next_operation_id)) (sym (ids-store op db.operations)) h.fresh;
}

pub owned_operation-find :
    (c : OperationContext) (db : Db) (op : Operation)
    → owned_operation c db ≡ ok op
    → (find_operation c.operation_id db.operations ≡ some op)
      × (holds_token op.worker_token c.worker_token ≡ true)
unfolding owned_operation
owned_operation-find c db op h = ground arith

pub owned-IsSound :
    (c : OperationContext) (db : Db) (op : Operation)
    → IsConsistent db
    → owned_operation c db ≡ ok op
    → IsSound op
owned-IsSound c db op h e =
    All-find_operation IsSound c.operation_id db.operations op h.rows
      (owned_operation-find c db op e).0

pub transition-IsConsistent :
    (c : OperationContext) (target : OperationStatus) (now : ℕ) (db : Db)
    → IsConsistent db
    → Ensures IsConsistent (transition c target now db)
unfolding transition
transition-IsConsistent c target now db h =
    Ensures-bind IsConsistent (owned_operation c db) _ λ op e.
      Ensures-then IsConsistent (check_transition op.type op.status target) _ λ t.
        save-IsConsistent (moved target now op) db h
          (moved-IsSound op target now (owned-IsSound c db op h e) t)

pub set_progress-IsConsistent :
    (c : OperationContext) (current total now : ℕ) (db : Db)
    → IsConsistent db
    → Ensures IsConsistent (set_progress c current total now db)
unfolding set_progress
set_progress-IsConsistent c current total now db h = elim (Bool-cases (ltb total current)) [
  | inl over ↦ rw over tt
  | inr fits ↦ rw fits (
      Ensures-bind IsConsistent (owned_operation c db) _ λ op e.
        let s = owned-IsSound c db op h e in
        save-IsConsistent _ db h (
          IsSound-same op _ s refl refl refl refl (ground arith) refl (record {
            successful = s.counted.successful;
            failed_ones = s.counted.failed_ones;
            skipped_ones = s.counted.skipped_ones;
            conflicts = s.counted.conflicts;
          })))
]

length-store_artifact :
    (row : ArtifactResult) (rows : List ArtifactResult)
    → length (store_artifact row rows) ≡ length rows
length-store_artifact row [] = refl
length-store_artifact row (a ∷ rows) = ap suc (length-store_artifact row rows)

pub set_artifact_status-IsConsistent :
    (c : OperationContext) (artifact_id : ℕ) (status : ArtifactStatus) (u : ArtifactUpdate)
    (now : ℕ) (db : Db)
    → IsConsistent db
    → Ensures IsConsistent (set_artifact_status c artifact_id status u now db)
unfolding set_artifact_status
set_artifact_status-IsConsistent c artifact_id status u now db h =
    Ensures-bind IsConsistent (owned_operation c db) _ λ op e.
      Ensures-bind IsConsistent (require_artifact (find_artifact artifact_id op.artifacts)) _
        λ row f.
          Ensures-then IsConsistent
            (refuse_if (not (artifact_status_in status (artifact_transitions row.status))) _) _
            λ t.
              let s = owned-IsSound c db op h e in
              save-IsConsistent _ db h (
                recalculated-IsSound op _ s refl refl refl refl
                  (length-store_artifact (updated_artifact status u now row) op.artifacts)
                  s.progress)

pub heartbeat-IsConsistent :
    (c : OperationContext) (now : ℕ) (db : Db)
    → IsConsistent db
    → Ensures IsConsistent (heartbeat c now db)
unfolding heartbeat
heartbeat-IsConsistent c now db h =
    Ensures-bind IsConsistent (owned_operation c db) _
      λ op e. save-IsConsistent _ db h (IsSound-touched op _ (owned-IsSound c db op h e) refl)
