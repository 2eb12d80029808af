-- ===== src/Manager/System.antt =====
-- The manager and its workers as one system: each step is one committed transaction, made by
-- anyone, at any time, with any arguments. Interleavings of workers are sequences of steps.
pub mod Phases
use harbor_transfer_portal.Base.{false, if◌then◌else◌}
use harbor_transfer_portal.Domain.Status.{same_status, same_status_iff}
use mathlib.Core.List.{append-nil}
use mathlib.Core.Path.{subst}
use harbor_transfer_portal.Base.{
  Bool, Ensures-ok, List, Option, Result-cases, String, [], ap, arith, inl, inr, ok, refl, some,
  sym, true, ℕ, ◌++◌, ◌∙◌, ◌∷◌, ◌≡◌,
}
use harbor_transfer_portal.Domain.Status.{
  ArtifactStatus, OperationStatus, OperationType, completed, status_in,
}
use harbor_transfer_portal.Domain.Transitions.{terminal_states, validate_transition}
use harbor_transfer_portal.Domain.Transitions.Lifecycle.{
  path_from, walk, walk_completed, walk_ended,
}
use harbor_transfer_portal.Manager.Consistency.{
  IsConsistent, heartbeat-IsConsistent, set_artifact_status-IsConsistent, set_progress-IsConsistent,
  transition-IsConsistent,
}
use harbor_transfer_portal.Manager.Consistency.Control.{
  claim_worker-IsConsistent, mark_cancelled-IsConsistent, mark_failed-IsConsistent,
  release_worker-IsConsistent, request_cancel-IsConsistent, shutdown-IsConsistent,
}
use harbor_transfer_portal.Manager.Consistency.Creation.{create_operation-IsConsistent}
use harbor_transfer_portal.Manager.Context.{
  ArtifactUpdate, OperationContext, heartbeat, set_artifact_status, set_progress, transition,
}
use harbor_transfer_portal.Manager.History.{
  Moved, heartbeat-Moved, set_artifact_status-Moved, set_progress-Moved, transition-Moved,
}
use harbor_transfer_portal.Manager.History.Control.{
  claim_worker-Moved, create_operation-Moved, mark_cancelled-Moved, mark_failed-Moved,
  reconcile-Moved, release_worker-Moved, request_cancel-Moved, shutdown-Moved,
}
use harbor_transfer_portal.Manager.Model.{Db, Operation, OperationDetails, find_operation}
use harbor_transfer_portal.Manager.Recovery.{reconcile_interrupted_operations}
use harbor_transfer_portal.Manager.Service.{
  OperationArtifactSpec, claim_worker, create_operation, handle_shutdown_interruption,
  mark_cancelled, mark_failed, release_worker, request_cancel,
}

pub data Step (db db' : Db) : Type 0 where
  create :
      (k : OperationType) (initial_status : Option OperationStatus) (details : OperationDetails)
      (specs : List OperationArtifactSpec) (id : ℕ)
      → create_operation k initial_status details specs db ≡ ok (id, db')
      → Step db db'
  claim : (id : ℕ) (token : String) (now : ℕ) → claim_worker id token now db ≡ ok db' → Step db db'
  release : (id : ℕ) (token : String) → release_worker id token db ≡ db' → Step db db'
  move :
      (c : OperationContext) (target : OperationStatus) (now : ℕ)
      → transition c target now db ≡ ok db'
      → Step db db'
  progress :
      (c : OperationContext) (current total now : ℕ)
      → set_progress c current total now db ≡ ok db'
      → Step db db'
  artifact :
      (c : OperationContext) (artifact_id : ℕ) (status : ArtifactStatus) (u : ArtifactUpdate)
      (now : ℕ)
      → set_artifact_status c artifact_id status u now db ≡ ok db'
      → Step db db'
  beat : (c : OperationContext) (now : ℕ) → heartbeat c now db ≡ ok db' → Step db db'
  ask_cancel : (id now : ℕ) → request_cancel id now db ≡ ok db' → Step db db'
  cancel : (id now : ℕ) → mark_cancelled id now db ≡ ok db' → Step db db'
  fail :
      (id : ℕ) (code message : String) (now : ℕ)
      → mark_failed id code message now db ≡ ok db'
      → Step db db'
  shutdown :
      (id now : ℕ) (removes : Bool)
      → handle_shutdown_interruption id now db ≡ ok (removes, db')
      → Step db db'
  restart : (now n : ℕ) → reconcile_interrupted_operations now db ≡ ok (n, db') → Step db db'

pub data Reach (db : Db) : Db → Type 0 where
  here : Reach db db
  next : {mid db' : Db} → Reach db mid → Step mid db' → Reach db db'

pub Step-IsConsistent : {db db' : Db} → Step db db' → IsConsistent db → IsConsistent db'
Step-IsConsistent (create k i d s id e) h =
    Ensures-ok (λ (r : ℕ × Db). IsConsistent r.1) _ (create_operation-IsConsistent k i d s _ h) e
Step-IsConsistent (claim id t now e) h =
    Ensures-ok IsConsistent _ (claim_worker-IsConsistent id t now _ h) e
Step-IsConsistent (release id t e) h = subst IsConsistent e (release_worker-IsConsistent id t _ h)
Step-IsConsistent (move c t now e) h =
    Ensures-ok IsConsistent _ (transition-IsConsistent c t now _ h) e
Step-IsConsistent (progress c x y now e) h =
    Ensures-ok IsConsistent _ (set_progress-IsConsistent c x y now _ h) e
Step-IsConsistent (artifact c a s u now e) h =
    Ensures-ok IsConsistent _ (set_artifact_status-IsConsistent c a s u now _ h) e
Step-IsConsistent (beat c now e) h = Ensures-ok IsConsistent _ (heartbeat-IsConsistent c now _ h) e
Step-IsConsistent (ask_cancel id now e) h =
    Ensures-ok IsConsistent _ (request_cancel-IsConsistent id now _ h) e
Step-IsConsistent (cancel id now e) h =
    Ensures-ok IsConsistent _ (mark_cancelled-IsConsistent id now _ h) e
Step-IsConsistent (fail id c m now e) h =
    Ensures-ok IsConsistent _ (mark_failed-IsConsistent id c m now _ h) e
Step-IsConsistent (shutdown id now r e) h =
    Ensures-ok (λ (r : Bool × Db). IsConsistent r.1) _ (shutdown-IsConsistent id now _ h) e
Step-IsConsistent (restart now n e) h = (reconcile-Moved now n _ _ h e).1

pub Step-Moved : {db db' : Db} → Step db db' → IsConsistent db → Moved db db'
Step-Moved {db} (create k i d s id e) h =
    Ensures-ok (λ (r : ℕ × Db). Moved db r.1) _ (create_operation-Moved k i d s _ h) e
Step-Moved {db} (claim id t now e) h = Ensures-ok (Moved db) _ (claim_worker-Moved id t now _) e
Step-Moved {db} (release id t e) h = subst (λ d. Moved db d) e (release_worker-Moved id t _)
Step-Moved {db} (move c t now e) h = Ensures-ok (Moved db) _ (transition-Moved c t now _) e
Step-Moved {db} (progress c x y now e) h =
    Ensures-ok (Moved db) _ (set_progress-Moved c x y now _) e
Step-Moved {db} (artifact c a s u now e) h =
    Ensures-ok (Moved db) _ (set_artifact_status-Moved c a s u now _) e
Step-Moved {db} (beat c now e) h = Ensures-ok (Moved db) _ (heartbeat-Moved c now _) e
Step-Moved {db} (ask_cancel id now e) h = Ensures-ok (Moved db) _ (request_cancel-Moved id now _) e
Step-Moved {db} (cancel id now e) h = Ensures-ok (Moved db) _ (mark_cancelled-Moved id now _) e
Step-Moved {db} (fail id c m now e) h = Ensures-ok (Moved db) _ (mark_failed-Moved id c m now _) e
Step-Moved {db} (shutdown id now r e) h =
    Ensures-ok (λ (r : Bool × Db). Moved db r.1) _ (shutdown-Moved id now _) e
Step-Moved {db} (restart now n e) h = (reconcile-Moved now n _ _ h e).0

-- Whatever transactions run, in whatever order, a consistent table stays consistent: statuses on
-- the route of their type, end dates exactly on ended operations, counters equal to the artifacts'
-- statuses, progress within its total, and distinct keys.
pub Reach-IsConsistent : {db db' : Db} → IsConsistent db → Reach db db' → IsConsistent db'
Reach-IsConsistent h here = h
Reach-IsConsistent h (next r s) = Step-IsConsistent s (Reach-IsConsistent h r)

-- The empty tables are consistent.
abbrev pub empty : Db
empty = record { operations = []; next_operation_id = 1; next_artifact_id = 1 }

pub IsConsistent-empty : IsConsistent empty
IsConsistent-empty = record { rows = tt; distinct = tt; fresh = tt }
