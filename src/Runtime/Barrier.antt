-- ===== src/Runtime/Barrier.antt =====
-- No operation runs across a switch of the mode.
pub mod Keeps
use harbor_transfer_portal.Manager.Consistency.Control.{claim_worker-IsConsistent}
use harbor_transfer_portal.Base.{
  Ensures-ok, List, Option, Result-cases, String, inl, inr, some, ℕ, ◌≡◌, Option-cases, Ensures,
  Ensures-then, refuse_if, Ensures-bind,
}
use harbor_transfer_portal.Domain.Status.{OperationStatus, OperationType}
use harbor_transfer_portal.Manager.Workers.{submit, task_running}
use mathlib.Core.Path.{subst}
use harbor_transfer_portal.Manager.Consistency.{IsConsistent}
use harbor_transfer_portal.Manager.Consistency.Creation.{create_operation-IsConsistent}
use harbor_transfer_portal.Manager.History.{Moved, Moved-refl}
use harbor_transfer_portal.Manager.History.Control.{create_operation-Moved, claim_worker-Moved}
use harbor_transfer_portal.Manager.Model.{Db, OperationDetails, Operation, find_operation}
use harbor_transfer_portal.Manager.Service.{OperationArtifactSpec, create_operation, claim_worker}
use harbor_transfer_portal.Manager.System.{Step, Step-Moved, Step-IsConsistent}
use harbor_transfer_portal.Runtime.Mode.{PortalContour}
use harbor_transfer_portal.Runtime.Starts.{
  Portal, required_mode, start_operation, start_worker, submit_under, bind_snapshot,
}
use harbor_transfer_portal.Runtime.Switching.{
  RuntimeModeSwitchPreparation, abort_switch, begin_switch, complete_switch, mode_guard, switch,
}

-- A step of the portal: a transaction of the manager or of a worker, a start of an operation or of
-- its worker, or a call of the runtime mode service, whether it returns or raises.
pub data PortalStep (p p' : Portal) : Type 0 where
  transact : {db : Db} → Step p.db db → record p { db = db } ≡ p' → PortalStep p p'
  start :
      (k : OperationType) (initial_status : Option OperationStatus) (details : OperationDetails)
      (specs : List OperationArtifactSpec)
      → (start_operation k initial_status details specs p).1 ≡ p'
      → PortalStep p p'
  submit_worker :
      (tasks : List ℕ) (id : ℕ) (token : String) (now : ℕ)
      → (start_worker tasks id token now p).1 ≡ p'
      → PortalStep p p'
  begin :
      (mode : PortalContour) (token : String)
      → record p { runtime = (begin_switch mode token p.db.operations p.runtime).1 } ≡ p'
      → PortalStep p p'
  finish :
      (prepared : RuntimeModeSwitchPreparation) (cancelled_ids : List ℕ)
      → record p { runtime = (complete_switch prepared cancelled_ids p.db.operations p.runtime).1 }
        ≡ p'
      → PortalStep p p'
  abort :
      (token : Option String)
      → record p { runtime = abort_switch token p.runtime } ≡ p'
      → PortalStep p p'
  switch_at_once :
      (mode : PortalContour)
      → record p { runtime = (switch mode p.db.operations p.runtime).1 } ≡ p'
      → PortalStep p p'

pub data PortalReach (p : Portal) : Portal → Type 0 where
  stay : PortalReach p p
  go : {mid p' : Portal} → PortalReach p mid → PortalStep mid p' → PortalReach p p'

-- What a step of the portal does to the table of the manager.
abbrev pub TableMoved : Portal → Portal → Type 0
TableMoved p p' = Moved p.db p'.db × IsConsistent p'.db

start_operation-Moved :
    (k : OperationType) (initial_status : Option OperationStatus) (details : OperationDetails)
    (specs : List OperationArtifactSpec) (p : Portal)
    → IsConsistent p.db
    → TableMoved p (start_operation k initial_status details specs p).1
unfolding start_operation
start_operation-Moved k i d specs p h =
    elim (Result-cases (mode_guard (some (required_mode k)) p.runtime).0) [
      | inr (e, no_) ↦ rw (no_, start_operation) (Moved-refl p.db, h)
      | inl (snapshot, fine) ↦
          rw (fine, start_operation)
            (elim (Result-cases (create_operation k i d specs p.db)) [
              | inr (e, bad) ↦ rw bad (Moved-refl p.db, h)
              | inl (r, made) ↦ rw made (
                Ensures-ok (λ (x : ℕ × Db). Moved p.db x.1) (create_operation k i d specs p.db)
                    (create_operation-Moved k i d specs p.db h) made,
                Ensures-ok (λ (x : ℕ × Db). IsConsistent x.1) (create_operation k i d specs p.db)
                    (create_operation-IsConsistent k i d specs p.db h) made,
              )
            ])
    ]

submit-Moved :
    (tasks : List ℕ) (id : ℕ) (token : String) (now : ℕ) (db : Db)
    → IsConsistent db
    → Ensures (λ (r : List ℕ × Db). Moved db r.1 × IsConsistent r.1) (submit tasks id token now db)
unfolding submit
submit-Moved tasks id token now db h =
    let P : List ℕ × Db → Type 0 = λ r. Moved db r.1 × IsConsistent r.1 in
    Ensures-then P (refuse_if (task_running id tasks) _) _ λ free.
      Ensures-bind P (claim_worker id token now db) _ λ db' e. (
        Ensures-ok (Moved db) _ (claim_worker-Moved id token now db) e,
        Ensures-ok IsConsistent _ (claim_worker-IsConsistent id token now db h) e,
      )

submit_under-Moved :
    (op : Operation) (tasks : List ℕ) (token : String) (now : ℕ) (p : Portal)
    → IsConsistent p.db
    → TableMoved p (submit_under op tasks token now p).1
submit_under-Moved op tasks token now p h =
    elim (Result-cases (mode_guard (some (required_mode op.type)) p.runtime).0) [
      | inr (e, no_) ↦ rw (no_, submit_under) (Moved-refl p.db, h)
      | inl (current, fine) ↦
          rw (fine, submit_under)
            (elim (Result-cases (bind_snapshot op.id current p.snapshots)) [
              | inr (e, other) ↦ rw other (Moved-refl p.db, h)
              | inl (snapshots, bound) ↦
                  rw bound (elim (Result-cases (submit tasks op.id token now p.db)) [
                    | inr (e, bad) ↦ rw bad (Moved-refl p.db, h)
                    | inl (r, done) ↦ rw done (
                        Ensures-ok (λ (r : List ℕ × Db). Moved p.db r.1 × IsConsistent r.1) _
                          (submit-Moved tasks op.id token now p.db h) done)
                  ])
            ])
    ]

start_worker-Moved :
    (tasks : List ℕ) (id : ℕ) (token : String) (now : ℕ) (p : Portal)
    → IsConsistent p.db
    → TableMoved p (start_worker tasks id token now p).1
unfolding start_worker
start_worker-Moved tasks id token now p h =
    elim (Option-cases (find_operation id p.db.operations)) [
      | inl missing ↦ rw (missing, start_worker) (Moved-refl p.db, h)
      | inr (op, found) ↦ rw (found, start_worker) (submit_under-Moved op tasks token now p h)
    ]

pub PortalStep-TableMoved : {p p' : Portal} → PortalStep p p' → IsConsistent p.db → TableMoved p p'
PortalStep-TableMoved {p} (transact s e) h =
    subst (TableMoved p) e (Step-Moved s h, Step-IsConsistent s h)
PortalStep-TableMoved {p} (start k i d specs e) h =
    subst (TableMoved p) e (start_operation-Moved k i d specs p h)
PortalStep-TableMoved {p} (submit_worker tasks id token now e) h =
    subst (TableMoved p) e (start_worker-Moved tasks id token now p h)
PortalStep-TableMoved {p} (begin mode token e) h = subst (TableMoved p) e (Moved-refl p.db, h)
PortalStep-TableMoved {p} (finish prepared ids e) h = subst (TableMoved p) e (Moved-refl p.db, h)
PortalStep-TableMoved {p} (abort token e) h = subst (TableMoved p) e (Moved-refl p.db, h)
PortalStep-TableMoved {p} (switch_at_once mode e) h = subst (TableMoved p) e (Moved-refl p.db, h)
