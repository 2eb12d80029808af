-- ===== src/Destination/Examples.antt =====
-- A plan for an image and a chart, from its preview to the start of the import.
use harbor_transfer_portal.Destination.Start.{confirm_import}
use harbor_transfer_portal.Domain.Status.{import}
use harbor_transfer_portal.Manager.Model.{Db, Operation, save}
use harbor_transfer_portal.Manager.Service.{claim_worker}
use harbor_transfer_portal.Manager.Workers.{submit}
use harbor_transfer_portal.Bundle.Manifest.{ArtifactDescriptor, container_image, helm_chart}
use harbor_transfer_portal.Bundle.Verification.{BundleVerificationResult}
use harbor_transfer_portal.Destination.Projected.{
  AreProjections, project_verified_bundle-AreProjections,
}
use harbor_transfer_portal.Destination.Projection.{
  assert_plan_matches_descriptor, is_planned_for, planned_kind, project_artifact, project_artifacts,
  project_verified_bundle,
}
use harbor_transfer_portal.Destination.Once.{build_destination_plan-writes_once}
use harbor_transfer_portal.Destination.Started.{IsConfirmed}
use harbor_transfer_portal.Destination.Started.{IsConfirmed}
use harbor_transfer_portal.Destination.Once.{build_destination_plan-writes_once}
use harbor_transfer_portal.Destination.Projected.{
  AreProjections, project_verified_bundle-AreProjections,
}
use harbor_transfer_portal.Profiles.Service.{
  get, assert_operation_binding, bind_operation_profile, operation_snapshot,
}
use harbor_transfer_portal.Base.{
  List, Option, String, [], false, none, ok, refl, some, true, ◌↔◌, ◌∷◌, ◌≡◌,
}
use harbor_transfer_portal.Bundle.Text.{Text, codes}
use harbor_transfer_portal.Destination.Artifact.{
  plan_artifact, target_project_of, target_repository_of,
}
use harbor_transfer_portal.Destination.Build.{
  build_destination_plan, collided, marked, new_plan, plan_bound, planned_artifacts, ready_preview,
}
use harbor_transfer_portal.Destination.Collisions.{
  IsShared, colliding_artifact_indices-iff-IsShared, indices_at,
}
use harbor_transfer_portal.Destination.Coordinates.{
  Coordinate, add_index, colliding_artifact_indices, gather, has_several, mem, registry_coordinate,
  repeated, validated_source_repository,
}
use harbor_transfer_portal.Destination.Identity.{
  Hashes, canonical_plan_hash, destination_plan_id, normalize_derived_fields, normalized_mapping,
}
use harbor_transfer_portal.Destination.Model.{
  DestinationPlan, ImportArtifactPreview, ImportDestinationPlanRequest, all_writable, is_writable,
  is_writable_state,
}
use harbor_transfer_portal.Destination.Patterns.{
  is_component, is_component_from, is_lower_alnum, is_repository, is_separator, is_tag, is_version,
}
use harbor_transfer_portal.Destination.Persisted.{
  ImportPolicy, ImportPreview, ImportRow, PlanResult, is_bound_plan, missing,
  persist_destination_plan, persisted_destination_plan, plan_from_policy, policy_version, with_plan,
}
use harbor_transfer_portal.Destination.Planning.{
  Target, absent, capability_error, chart, chart_reference, image, image_reference, inspected,
  invalid_reference, plan_chart, plan_image, preview_state,
}
use harbor_transfer_portal.Destination.Start.{
  ImportSettings, StartRequest, check_confirmed, confirm, confirm_in_session, start_import,
}
use harbor_transfer_portal.Domain.Status.{ready}
use harbor_transfer_portal.Profiles.Model.{
  BoundOperation, ProfileStore, default_profile, default_profile_id,
}
use harbor_transfer_portal.Profiles.Words.{is_space, strip}

abbrev constant_hashes : Hashes
constant_hashes = record {
  dump_plan = λ plan. codes "{plan}";
  load_plan = λ raw. none;
  dump_mapping = λ mapping. codes "{mapping}";
  load_mapping = λ raw. none;
  plan_hash = λ i. codes "hash";
  plan_id = λ b is. codes "plan";
}

abbrev image_preview : ImportArtifactPreview
image_preview = record {
  index = 0;
  artifact_type = image;
  repository = codes "app/web";
  name = none;
  reference = some (codes "v1");
  version = none;
  expected_digest = none;
  payload_size = 3;
}

abbrev chart_preview : ImportArtifactPreview
chart_preview = record {
  index = 1;
  artifact_type = chart;
  repository = codes "app";
  name = some (codes "web");
  reference = none;
  version = some (codes "v1");
  expected_digest = none;
  payload_size = 4;
}

abbrev demo_preview : ImportPreview
demo_preview = record {
  source_delivery_id = codes "D1";
  bundle_sha256 = codes "ab";
  signing_key_fingerprint = codes "key";
  artifacts = image_preview ∷ chart_preview ∷ [];
}

abbrev demo_profiles : ProfileStore
demo_profiles = record {
  default_settings = record {
    url = some (codes "https://main");
    username = none;
    verify_tls = true;
  };
  additional = [];
  active_profile_id = default_profile_id;
}

abbrev demo_bound : BoundOperation
demo_bound = record {
  id = 7;
  status = ready;
  harbor_profile_id = some default_profile_id;
  harbor_profile_name = some (codes "Default Harbor");
  harbor_profile_url = some (codes "https://main");
}

abbrev demo_row : ImportRow
demo_row = record {
  bound_row = demo_bound;
  is_import = true;
  bundle_sha256 = some (codes "ab");
  source_delivery_id = some (codes "D1");
  actor_username = some (codes "ann");
  import_preview = some demo_preview;
  import_policy = missing;
}

abbrev demo_target : Target
demo_target = record {
  registry_host = codes "main";
  validate = λ p r. record { project_exists = true; write_allowed = true; error_code = none };
  inspect_image = λ r d. ok (record { state = absent; digest = none });
  inspect_chart = λ r d. ok (record { state = absent; digest = none });
}

-- The chart goes to its own project, and in the other request to the one of the image.
abbrev request_to : String → ImportDestinationPlanRequest
request_to project = record {
  harbor_profile_id = some default_profile_id;
  mapping_policy_revision = 0;
  container_image_project = some (codes "images");
  helm_chart_project = some (codes project);
  project_mappings = [];
  artifact_overrides = [];
}

abbrev plan_to : String → DestinationPlan
plan_to project =
    new_plan constant_hashes 7 demo_preview (codes "ann") 0 (request_to project)
      (planned_artifacts demo_target (request_to project) demo_preview.artifacts)

abbrev row_to : String → ImportRow
row_to project = with_plan constant_hashes demo_row (request_to project) (plan_to project)

abbrev seen_three : Option ImportRow × (Option ImportRow × Option ImportRow)
seen_three = (some demo_row, (some demo_row, some demo_row))

abbrev build_to : String → PlanResult (BoundOperation × (DestinationPlan × ImportRow))
build_to project =
    build_destination_plan constant_hashes (λ p. ok demo_target) true demo_profiles seen_three
      (some (codes "ann")) 0 (request_to project)

charts-built : build_to "charts" ≡ ok (demo_bound, (plan_to "charts", row_to "charts"))
unfolding build_destination_plan ready_preview bind_operation_profile operation_snapshot get strip
    is_space default_profile assert_operation_binding plan_bound persist_destination_plan
    is_bound_plan new_plan normalize_derived_fields
charts-built = refl

images-collide : colliding_artifact_indices (plan_to "images").artifacts ≡ 0 ∷ 1 ∷ []
unfolding new_plan normalize_derived_fields planned_artifacts marked collided plan_artifact
    validated_source_repository is_component is_component_from is_lower_alnum is_separator
    target_project_of target_repository_of plan_image plan_chart image_reference chart_reference
    is_repository is_tag is_version capability_error inspected preview_state invalid_reference
    colliding_artifact_indices gather add_index repeated has_several registry_coordinate
images-collide = refl

charts-valid : (plan_to "charts").valid ≡ true
unfolding new_plan normalize_derived_fields planned_artifacts marked collided plan_artifact
    validated_source_repository is_component is_component_from is_lower_alnum is_separator
    target_project_of target_repository_of plan_image plan_chart image_reference chart_reference
    is_repository is_tag is_version capability_error inspected preview_state invalid_reference
    colliding_artifact_indices gather add_index repeated has_several registry_coordinate
    all_writable is_writable is_writable_state
charts-valid = refl

build_destination_plan-writes_once_example :
    has_several (indices_at (codes "images/web", codes "v1") (plan_to "charts").artifacts) ≡ false
build_destination_plan-writes_once_example =
    build_destination_plan-writes_once constant_hashes (λ p. ok demo_target) true demo_profiles
      seen_three (some (codes "ann")) 0 (request_to "charts") (plan_to "charts") charts-built
      charts-valid (codes "images/web", codes "v1")

colliding_artifact_indices-iff-IsShared_example :
    (mem 1 (colliding_artifact_indices (plan_to "images").artifacts) ≡ true)
    ↔ ((c : Coordinate) × IsShared 1 (indices_at c (plan_to "images").artifacts))
colliding_artifact_indices-iff-IsShared_example =
    colliding_artifact_indices-iff-IsShared 1 (plan_to "images").artifacts

-- The JSON that is stored is read back as the plan.
abbrev reading : Hashes
reading = record constant_hashes {
  load_plan = λ raw. some (plan_to "charts");
  load_mapping = λ raw. some (request_to "charts");
}

-- The operation in the table, and a running task of another one.
abbrev ready_operation : Operation
ready_operation = record {
  id = 7;
  type = import;
  status = ready;
  details = record {
    delivery_id = none;
    actor_user_id = none;
    actor_username = "ann";
    comment = none;
    harbor_profile_id = none;
    harbor_profile_name = none;
    harbor_profile_url = none;
  };
  started_at = none;
  finished_at = none;
  progress_current = 0;
  progress_total = 0;
  total_artifacts = 0;
  successful_artifacts = 0;
  failed_artifacts = 0;
  skipped_artifacts = 0;
  conflict_artifacts = 0;
  error_code = none;
  error_message = none;
  worker_token = none;
  worker_started_at = none;
  heartbeat_at = none;
  cancel_requested_at = none;
  artifacts = [];
}

abbrev ready_db : Db
ready_db = record { operations = ready_operation ∷ []; next_operation_id = 8; next_artifact_id = 1 }

-- The table with the claim of the worker.
abbrev claimed_db : Db
claimed_db =
    save
      (record ready_operation {
        worker_token = some "t1";
        worker_started_at = some 5;
        heartbeat_at = some 5;
      })
      ready_db

abbrev demo_start : StartRequest
demo_start = record {
  actor_username = codes "ann";
  overwrite_conflicts = false;
  skip_conflicts = false;
  destination_plan_id = some (codes "plan");
  requested_at = 5;
}

abbrev demo_settings : ImportSettings
demo_settings = record { on_target = true; import_allow_overwrite = false }

abbrev demo_policy : ImportPolicy
demo_policy = record {
  version = policy_version;
  mapping_request = some (codes "{mapping}");
  destination_plan = some (codes "{plan}");
  confirmed = none;
}

abbrev started_row : ImportRow
started_row = confirm demo_start (row_to "charts") demo_policy (plan_to "charts")

abbrev trusted_keys : List Text
trusted_keys = codes "key" ∷ []

charts-started :
    start_import reading demo_settings demo_profiles trusted_keys demo_start
      (some (row_to "charts"))
      (some (row_to "charts"))
      (9 ∷ [])
      "t1"
      5
      ready_db
    ≡ (some started_row, ok (7 ∷ 9 ∷ [], claimed_db))
unfolding start_import confirm_import submit claim_worker confirm persisted_destination_plan
    plan_from_policy check_confirmed confirm_in_session is_bound_plan assert_operation_binding
    operation_snapshot get strip is_space default_profile canonical_plan_hash normalized_mapping
    destination_plan_id new_plan normalize_derived_fields planned_artifacts marked collided
    plan_artifact validated_source_repository is_component is_component_from is_lower_alnum
    is_separator target_project_of target_repository_of plan_image plan_chart image_reference
    chart_reference is_repository is_tag is_version capability_error inspected preview_state
    invalid_reference colliding_artifact_indices gather add_index repeated has_several
    registry_coordinate all_writable is_writable is_writable_state
charts-started = refl

abbrev signed_image : ArtifactDescriptor
signed_image = record {
  kind = container_image (codes "v1");
  repository = codes "app/web";
  source_digest = none;
  payload_path = codes "images/web";
  payload_sha256 = codes "cd";
  payload_size = 3;
}

abbrev signed_chart : ArtifactDescriptor
signed_chart = record {
  kind = helm_chart (codes "web") (codes "v1");
  repository = codes "app";
  source_digest = none;
  payload_path = codes "charts/web.tgz";
  payload_sha256 = codes "ef";
  payload_size = 4;
}

abbrev bundle_of : List ArtifactDescriptor → BundleVerificationResult
bundle_of artifacts = record {
  manifest = record {
    schema_version = codes "1.0";
    delivery_id = codes "D1";
    created_by = codes "ann";
    artifacts = artifacts;
  };
  archive_sha256 = codes "ab";
  archive_size = 9;
  signing_key_fingerprint = codes "key";
  extracted = [];
}

abbrev signed_bundle : BundleVerificationResult
signed_bundle = bundle_of (signed_image ∷ signed_chart ∷ [])

abbrev mapped_bundle : BundleVerificationResult
mapped_bundle = bundle_of (
    record signed_image { repository = codes "images/web" }
    ∷ record signed_chart { repository = codes "charts" }
    ∷ [])

charts-projected : project_verified_bundle 7 (plan_to "charts") signed_bundle ≡ ok mapped_bundle
unfolding project_verified_bundle project_artifacts project_artifact assert_plan_matches_descriptor
    is_planned_for planned_kind new_plan normalize_derived_fields planned_artifacts marked collided
    plan_artifact validated_source_repository is_component is_component_from is_lower_alnum
    is_separator target_project_of target_repository_of plan_image plan_chart image_reference
    chart_reference is_repository is_tag is_version capability_error inspected preview_state
    invalid_reference colliding_artifact_indices gather add_index repeated has_several
    registry_coordinate
charts-projected = refl

project_verified_bundle-AreProjections_example :
    AreProjections 0 signed_bundle.manifest.artifacts
      (plan_to "charts").artifacts
      mapped_bundle.manifest.artifacts
    × ((plan_to "charts").operation_id ≡ 7)
    × ((plan_to "charts").bundle_sha256 ≡ signed_bundle.archive_sha256)
    × (mapped_bundle ≡ record signed_bundle {
      manifest = record (signed_bundle.manifest) { artifacts = mapped_bundle.manifest.artifacts };
    })
project_verified_bundle-AreProjections_example =
    project_verified_bundle-AreProjections 7 (plan_to "charts") signed_bundle mapped_bundle
      charts-projected
