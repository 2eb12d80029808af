-- ===== src/Destination/Persisted.antt =====
-- The plan in the policy column of an import operation: _persist_destination_plan,
-- _persisted_destination_plan and _plan_from_policy. The JSON of a plan and of its mapping is a text.
use harbor_transfer_portal.Base.{
  Bool, List, Option, Result, String, [], err, false, none, not, ok, refuse_if, some, true, ℕ, ◌&&◌,
  ◌==◌, ◌>>=◌, ◌>>=◌, ◌>>◌,
}
use harbor_transfer_portal.Bundle.Text.{Text, is_empty, same_text}
use harbor_transfer_portal.Destination.Coordinates.{colliding_artifact_indices}
use harbor_transfer_portal.Destination.Identity.{
  Hashes, canonical_plan_hash, normalize_derived_fields,
}
use harbor_transfer_portal.Destination.Model.{
  DestinationPlan, ImportArtifactPreview, ImportDestinationPlanRequest, same_option,
}
use harbor_transfer_portal.Domain.Status.{OperationStatus, ready}
use harbor_transfer_portal.Profiles.Model.{BoundOperation}

abbrev pub PlanResult {ℓ} : Type ℓ → Type ℓ
PlanResult A = Result String A

-- A column that is null, that is no JSON object, or that has a value.
pub data Stored {ℓ} (A : Type ℓ) : Type ℓ where
  missing invalid : Stored A
  stored : A → Stored A

-- The choices that start_import records.
pub record ConfirmedPolicy : Type 0 where
  pub bundle_sha256 : Option Text
  pub destination_plan_hash : Text
  pub overwrite_conflicts : Bool
  pub skip_conflicts : Bool
  pub requested_by : Text
  pub requested_at : ℕ

-- The JSON object of the policy: `mapping_request` is none if it is absent, `destination_plan` if it
-- is absent or null.
pub record ImportPolicy : Type 0 where
  pub version : ℕ
  pub mapping_request : Option Text
  pub destination_plan : Option Text
  pub confirmed : Option ConfirmedPolicy

pub record ImportPreview : Type 0 where
  pub source_delivery_id : Text
  pub bundle_sha256 : Text
  pub signing_key_fingerprint : Text
  pub artifacts : List ImportArtifactPreview

-- The columns of an operation that planning and starting read or write. A policy that is no JSON
-- object does not validate.
pub record ImportRow : Type 0 where
  pub bound_row : BoundOperation
  pub is_import : Bool
  pub bundle_sha256 : Option Text
  pub source_delivery_id : Option Text
  pub actor_username : Option Text
  pub import_preview : Option ImportPreview
  pub import_policy : Stored ImportPolicy

abbrev pub policy_version : ℕ
policy_version = 2

-- ImportDestinationPlanRequest.model_validate({})
abbrev no_mapping : ImportDestinationPlanRequest
no_mapping = record {
  harbor_profile_id = none;
  mapping_policy_revision = 0;
  container_image_project = none;
  helm_chart_project = none;
  project_mappings = [];
  artifact_overrides = [];
}

abbrev pub validated : {A : Type 0} → Option A → PlanResult A
validated none = err "import_destination_plan_invalid"
validated (some a) = ok a

abbrev pub validated_mapping : Hashes → Option Text → PlanResult ImportDestinationPlanRequest
validated_mapping hashes none = ok no_mapping
validated_mapping hashes (some raw) = validated (hashes.load_mapping raw)

abbrev pub checked_plan :
    Hashes → ImportDestinationPlanRequest → DestinationPlan → PlanResult (Option DestinationPlan)
checked_plan hashes mapping plan = do
  refuse_if (not (same_text plan.plan_hash (canonical_plan_hash hashes mapping plan)))
      "import_destination_plan_invalid"
  refuse_if (not (is_empty (colliding_artifact_indices plan.artifacts)))
      "import_destination_plan_invalid"
  ok (some plan)

abbrev pub plan_in_version :
    Hashes → ImportPolicy → Option Text → PlanResult (Option DestinationPlan)
plan_in_version hashes policy none = ok none
plan_in_version hashes policy (some raw) = do
  refuse_if (not (policy.version == policy_version)) "import_destination_plan_invalid"
  mapping ← validated_mapping hashes policy.mapping_request
  plan ← validated (hashes.load_plan raw)
  checked_plan hashes mapping (normalize_derived_fields hashes plan)

-- _plan_from_policy
unfoldable pub plan_from_policy : Hashes → ImportPolicy → PlanResult (Option DestinationPlan)
plan_from_policy hashes policy = plan_in_version hashes policy policy.destination_plan

-- The plan belongs to the operation of the row.
unfoldable pub is_bound_plan : DestinationPlan → ImportRow → Bool
is_bound_plan plan row =
    plan.operation_id == row.bound_row.id
    && same_option (some plan.bundle_sha256) row.bundle_sha256
    && same_option (some plan.source_delivery_id) row.source_delivery_id

abbrev pub of_operation : ImportRow → Option DestinationPlan → PlanResult (Option DestinationPlan)
of_operation row none = ok none
of_operation row (some plan) = do
  refuse_if (not (is_bound_plan plan row)) "import_destination_plan_stale"
  ok (some plan)

abbrev persisted_in : Hashes → ImportRow → Stored ImportPolicy → PlanResult (Option DestinationPlan)
persisted_in hashes row missing = ok none
persisted_in hashes row invalid = err "import_destination_plan_invalid"
persisted_in hashes row (stored policy) =
    plan_from_policy hashes policy >>= (λ plan. of_operation row plan)

-- _persisted_destination_plan, of the row that was read
unfoldable pub persisted_destination_plan : Hashes → ImportRow → PlanResult (Option DestinationPlan)
persisted_destination_plan hashes row = persisted_in hashes row row.import_policy

abbrev pub is_ready : OperationStatus → Bool
is_ready ready = true
is_ready _ = false

-- An operation that is there and is an import.
abbrev pub import_row : Option ImportRow → PlanResult ImportRow
import_row none = err "import_operation_not_found"
import_row (some row) = do refuse_if (not row.is_import) "import_operation_not_found"; ok row

-- The row with the policy that holds the plan and its mapping.
abbrev pub with_plan :
    Hashes → ImportRow → ImportDestinationPlanRequest → DestinationPlan → ImportRow
with_plan hashes row mapping plan = record row {
  import_policy = stored (record {
    version = policy_version;
    mapping_request = some (hashes.dump_mapping mapping);
    destination_plan = some (hashes.dump_plan plan);
    confirmed = none;
  });
}

-- _persist_destination_plan, on the row as it is then
unfoldable pub persist_destination_plan :
    Hashes
    → Option ImportRow
    → ImportDestinationPlanRequest
    → DestinationPlan
    → PlanResult ImportRow
persist_destination_plan hashes found mapping plan = do
  row ← import_row found
  refuse_if (not (is_ready row.bound_row.status)) "import_not_ready"
  refuse_if (not (is_bound_plan plan row)) "import_destination_plan_stale"
  ok (with_plan hashes row mapping plan)
