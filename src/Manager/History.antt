-- ===== src/Manager/History.antt =====
-- How one transaction moves the rows of the table: by at most one accepted transition each.
pub mod Control
use harbor_transfer_portal.Base.{
  ==_iff, Bool-cases, Ensures, Ensures-bind, Ensures-then, arith, inl, inr, ltb, not, ok, refl,
  refuse_if, some, sym, ℕ, ◌==◌, ◌∙◌, ◌≡◌, ◌⊎◌,
}
use harbor_transfer_portal.Domain.Status.{
  ArtifactStatus, OperationStatus, OperationType, artifact_status_in,
}
use harbor_transfer_portal.Domain.Transitions.{validate_transition}
use harbor_transfer_portal.Manager.Artifacts.{artifact_transitions, recalculate_counts}
use harbor_transfer_portal.Manager.Consistency.{owned_operation-find}
use harbor_transfer_portal.Manager.Context.{
  ArtifactUpdate, OperationContext, find_artifact, heartbeat, moved, owned_operation,
  require_artifact, set_artifact_status, set_progress, transition,
}
use harbor_transfer_portal.Manager.Model.{
  Db, Operation, check_transition, find_operation, save, value_error,
}
use harbor_transfer_portal.Manager.Table.{
  find_operation-store_ne, find_operation-store_self, id-find_operation,
}

-- The key and the type stay, and the status stays or makes one accepted transition.
pub record Follows (op op' : Operation) : Type 0 where
  pub same_id : op'.id ≡ op.id
  pub same_type : op'.type ≡ op.type
  pub step : (op'.status ≡ op.status) ⊎ (validate_transition op.type op.status op'.status ≡ ok tt)

pub Follows-refl : (op : Operation) → Follows op op
Follows-refl op = record { same_id = refl; same_type = refl; step = inl refl }

-- Every row of `db` is still there, and has followed.
abbrev pub Moved : Db → Db → Type 0
Moved db db' =
    (id : ℕ) (op : Operation)
    → find_operation id db.operations ≡ some op
    → (op' : Operation) × (find_operation id db'.operations ≡ some op') × Follows op op'

pub Moved-refl : (db : Db) → Moved db db
Moved-refl db id op e = (op, e, Follows-refl op)

pub checked_step :
    (k : OperationType) (s t : OperationStatus)
    → check_transition k s t ≡ ok tt
    → validate_transition k s t ≡ ok tt
unfolding check_transition
checked_step k s t h = ground arith

-- A row that follows the one that was found is stored.
pub save-Moved :
    (key : ℕ) (old new : Operation) (db : Db)
    → find_operation key db.operations ≡ some old
    → Follows old new
    → Moved db (save new db)
save-Moved key old new db found f id op e = elim (Bool-cases (new.id == id)) [
  | inl hit ↦
      let k : new.id ≡ id = (==_iff new.id id).0 hit in
      let at_key : old.id ≡ key = id-find_operation key db.operations old found in
      let here : key ≡ id = sym at_key ∙ sym f.same_id ∙ k in
      let o : old ≡ op = (let q : some old ≡ some op = sym found ∙ rw here e in cc) in
      (
        new,
        rw (← k) (find_operation-store_self new db.operations old (rw (k, ← here) found)),
        rw (← o) f,
      )
  | inr miss ↦ (
    op,
    find_operation-store_ne id new db.operations (λ k. absurd (ground (arith, k, miss))) ∙ e,
    Follows-refl op,
  )
]

pub transition-Moved :
    (c : OperationContext) (target : OperationStatus) (now : ℕ) (db : Db)
    → Ensures (Moved db) (transition c target now db)
unfolding transition moved
transition-Moved c target now db = Ensures-bind (Moved db) (owned_operation c db) _ λ op e.
    Ensures-then (Moved db) (check_transition op.type op.status target) _ λ t.
      save-Moved c.operation_id op _ db (owned_operation-find c db op e).0
        (record { same_id = refl; same_type = refl; step = inr (checked_step _ _ _ t) })

-- A change that leaves the key, the type and the status.
pub touched :
    (op op' : Operation)
    → op'.id ≡ op.id
    → op'.type ≡ op.type
    → op'.status ≡ op.status
    → Follows op op'
touched op op' i k s = record { same_id = i; same_type = k; step = inl s }

pub set_progress-Moved :
    (c : OperationContext) (current total now : ℕ) (db : Db)
    → Ensures (Moved db) (set_progress c current total now db)
unfolding set_progress
set_progress-Moved c current total now db =
    Ensures-then (Moved db) (refuse_if (ltb total current) value_error) _ λ _.
      Ensures-bind (Moved db) (owned_operation c db) _ λ op e.
        save-Moved c.operation_id op _ db (owned_operation-find c db op e).0
          (touched op _ refl refl refl)

pub set_artifact_status-Moved :
    (c : OperationContext) (artifact_id : ℕ) (status : ArtifactStatus) (u : ArtifactUpdate)
    (now : ℕ) (db : Db)
    → Ensures (Moved db) (set_artifact_status c artifact_id status u now db)
unfolding set_artifact_status recalculate_counts
set_artifact_status-Moved c artifact_id status u now db =
    Ensures-bind (Moved db) (owned_operation c db) _ λ op e.
      Ensures-bind (Moved db) (require_artifact (find_artifact artifact_id op.artifacts)) _ λ row f.
        Ensures-then (Moved db)
          (refuse_if (not (artifact_status_in status (artifact_transitions row.status))) _) _
          λ t.
            save-Moved c.operation_id op _ db (owned_operation-find c db op e).0
              (touched op _ refl refl refl)

pub heartbeat-Moved :
    (c : OperationContext) (now : ℕ) (db : Db) → Ensures (Moved db) (heartbeat c now db)
unfolding heartbeat
heartbeat-Moved c now db = Ensures-bind (Moved db) (owned_operation c db) _ λ op e.
    save-Moved c.operation_id op _ db (owned_operation-find c db op e).0
      (touched op _ refl refl refl)
