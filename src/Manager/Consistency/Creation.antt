-- ===== src/Manager/Consistency/Creation.antt =====
-- A created operation joins a consistent table.
use harbor_transfer_portal.Base.{
  ℕ, suc, ◌<◌, ◌≡◌, refl, ap, sym, ◌≢◌, true, false, List, [], ◌∷◌, All, length, ok, Ensures,
  Ensures-then, refuse_if, arith, Option, if◌then◌else◌, or_else,
}
use harbor_transfer_portal.Domain.Status.{
  OperationType, OperationStatus, ArtifactStatus, status_in, same_artifact_status, is_export,
  created, uploaded,
}
use harbor_transfer_portal.Domain.Transitions.{terminal_states}
use harbor_transfer_portal.Manager.Model.{OperationDetails, Db}
use harbor_transfer_portal.Manager.Artifacts.{tally}
use harbor_transfer_portal.Manager.Service.{
  OperationArtifactSpec, create_operation, validate_initial_status, new_operation, new_artifacts,
  delivery_taken,
}
use harbor_transfer_portal.Manager.Soundness.{IsSound, in_lifecycle}
use harbor_transfer_portal.Manager.Consistency.{IsConsistent}

tally-new_artifacts :
    (status : ArtifactStatus) (id : ℕ) (specs : List OperationArtifactSpec)
    → same_artifact_status ArtifactStatus.pending status ≡ false
    → tally status (new_artifacts id specs) ≡ 0
unfolding new_artifacts
tally-new_artifacts status id [] h = refl
tally-new_artifacts status id (spec ∷ specs) h = rw h (tally-new_artifacts status (suc id) specs h)

length-new_artifacts :
    (id : ℕ) (specs : List OperationArtifactSpec) → length (new_artifacts id specs) ≡ length specs
unfolding new_artifacts
length-new_artifacts id [] = refl
length-new_artifacts id (spec ∷ specs) = ap suc (length-new_artifacts (suc id) specs)

initial_status-on_route :
    (k : OperationType) (s : OperationStatus)
    → validate_initial_status k s ≡ ok tt
    → (in_lifecycle k s ≡ true) × (status_in s terminal_states ≡ false)
unfolding validate_initial_status
initial_status-on_route k s h = ground arith

new_operation-IsSound :
    (id artifact_id : ℕ) (k : OperationType) (s : OperationStatus) (details : OperationDetails)
    (specs : List OperationArtifactSpec)
    → validate_initial_status k s ≡ ok tt
    → IsSound (new_operation id artifact_id k s details specs)
unfolding new_operation
new_operation-IsSound id artifact_id k s details specs h = record {
  on_route = (initial_status-on_route k s h).0;
  dated = sym (initial_status-on_route k s h).1;
  counted = record {
    successful = omega (
      arith,
      tally-new_artifacts ArtifactStatus.imported artifact_id specs refl,
      tally-new_artifacts ArtifactStatus.verified artifact_id specs refl,
    );
    failed_ones = sym (tally-new_artifacts ArtifactStatus.failed artifact_id specs refl);
    skipped_ones = sym (tally-new_artifacts ArtifactStatus.skipped artifact_id specs refl);
    conflicts = sym (tally-new_artifacts ArtifactStatus.conflict artifact_id specs refl);
  };
  total = sym (length-new_artifacts artifact_id specs);
  progress = omega arith;
}

fresh-ne : (n : ℕ) (xs : List ℕ) → All (λ x. x < n) xs → All (λ y. n ≢ y) xs
fresh-ne n [] h = tt
fresh-ne n (x ∷ xs) h = (omega arith, fresh-ne n xs h.1)

fresh-suc : (n : ℕ) (xs : List ℕ) → All (λ x. x < n) xs → All (λ x. x < suc n) xs
fresh-suc n [] h = tt
fresh-suc n (x ∷ xs) h = (omega arith, fresh-suc n xs h.1)

pub create_operation-IsConsistent :
    (k : OperationType) (initial_status : Option OperationStatus) (details : OperationDetails)
    (specs : List OperationArtifactSpec) (db : Db)
    → IsConsistent db
    → Ensures
        (λ (r : ℕ × Db). IsConsistent r.1)
        (create_operation k initial_status details specs db)
unfolding create_operation new_operation
create_operation-IsConsistent k initial_status details specs db h =
    let status = or_else initial_status (if is_export k then created else uploaded) in
    let P : ℕ × Db → Type 0 = λ r. IsConsistent r.1 in
    Ensures-then P (validate_initial_status k status) _ λ v.
      Ensures-then P (refuse_if (delivery_taken details.delivery_id db.operations) _) _ λ _.
        record {
          rows = (new_operation-IsSound _ _ k status details specs v, h.rows);
          distinct = (fresh-ne _ _ h.fresh, h.distinct);
          fresh = (omega arith, fresh-suc _ _ h.fresh);
        }
