-- ===== src/Destination/Identity.antt =====
-- The identities that a plan's hash and id are computed of. SHA-256 of their JSON is a parameter.
use harbor_transfer_portal.Base.{List, Option, if◌then◌else◌, leb, ltb, map, none, some, sort_by, ℕ}
use harbor_transfer_portal.Bundle.Text.{Text}
use harbor_transfer_portal.Destination.Model.{
  ArtifactPlan, DestinationPlan, ImportArtifactDestinationOverride, ImportDestinationPlanRequest,
  all_writable,
}
use harbor_transfer_portal.Profiles.Words.{leb_text}

-- normalized_mapping: the fields that are left out of the JSON are none.
pub record NormalizedMapping : Type 0 where
  pub container_image_project : Option Text
  pub helm_chart_project : Option Text
  pub project_mappings : List (Text × Text)
  pub artifact_overrides : List ImportArtifactDestinationOverride
  pub harbor_profile_id : Option Text
  pub mapping_policy_revision : Option ℕ

unfoldable pub normalized_mapping : ImportDestinationPlanRequest → NormalizedMapping
normalized_mapping mapping = record {
  container_image_project = mapping.container_image_project;
  helm_chart_project = mapping.helm_chart_project;
  project_mappings = sort_by (λ a b. leb_text (a.0) (b.0)) mapping.project_mappings;
  artifact_overrides = sort_by (λ a b. leb a.index b.index) mapping.artifact_overrides;
  harbor_profile_id = mapping.harbor_profile_id;
  mapping_policy_revision =
      if ltb 0 mapping.mapping_policy_revision then some mapping.mapping_policy_revision else none;
}

-- The dictionary that canonical_plan_hash encodes.
pub record PlanIdentity : Type 0 where
  pub operation_id : ℕ
  pub source_delivery_id : Text
  pub actor_username : Text
  pub bundle_sha256 : Text
  pub created_at : ℕ
  pub mapping : NormalizedMapping
  pub artifacts : List ArtifactPlan

-- An artifact in the dictionary of destination_plan_id, which leaves out the state of TARGET.
pub record ResolvedDestination : Type 0 where
  pub index : ℕ
  pub artifact_type : Text
  pub source_repository : Text
  pub source_project : Text
  pub name : Option Text
  pub reference : Option Text
  pub version : Option Text
  pub expected_digest : Option Text
  pub target_project : Option Text
  pub target_repository : Option Text
  pub final_reference : Option Text

-- What is done by SHA-256 over JSON, and by pydantic: the JSON that a model is dumped to, and the model
-- that a JSON validates to, before its own validator.
pub record Hashes : Type 0 where
  pub dump_plan : DestinationPlan → Text
  pub load_plan : Text → Option DestinationPlan
  pub dump_mapping : ImportDestinationPlanRequest → Text
  pub load_mapping : Text → Option ImportDestinationPlanRequest
  pub plan_hash : PlanIdentity → Text
  pub plan_id : Text → List ResolvedDestination → Text

abbrev by_index : List ArtifactPlan → List ArtifactPlan
by_index artifacts = sort_by (λ a b. leb a.index b.index) artifacts

unfoldable pub resolved : ArtifactPlan → ResolvedDestination
resolved item = record {
  index = item.index;
  artifact_type = item.artifact_type;
  source_repository = item.source_repository;
  source_project = item.source_project;
  name = item.name;
  reference = item.reference;
  version = item.version;
  expected_digest = item.expected_digest;
  target_project = item.target_project;
  target_repository = item.target_repository;
  final_reference = item.final_reference;
}

-- destination_plan_id
unfoldable pub destination_plan_id : Hashes → Text → List ArtifactPlan → Text
destination_plan_id hashes bundle_sha256 artifacts =
    hashes.plan_id bundle_sha256 (map resolved (by_index artifacts))

-- canonical_plan_hash, of a plan's fields
unfoldable pub canonical_plan_hash : Hashes → ImportDestinationPlanRequest → DestinationPlan → Text
canonical_plan_hash hashes mapping plan = hashes.plan_hash (record {
  operation_id = plan.operation_id;
  source_delivery_id = plan.source_delivery_id;
  actor_username = plan.actor_username;
  bundle_sha256 = plan.bundle_sha256;
  created_at = plan.created_at;
  mapping = normalized_mapping mapping;
  artifacts = by_index plan.artifacts;
})

-- normalize_derived_fields, which runs whenever a plan is made or read
unfoldable pub normalize_derived_fields : Hashes → DestinationPlan → DestinationPlan
normalize_derived_fields hashes plan = record plan {
  plan_id = destination_plan_id hashes plan.bundle_sha256 plan.artifacts;
  valid = all_writable plan.artifacts;
}
