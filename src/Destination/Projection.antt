-- ===== src/Destination/Projection.antt =====
-- _project_verified_bundle and _assert_plan_matches_descriptor: the verified bundle under the names
-- that the persisted plan gives its artifacts in TARGET.
use harbor_transfer_portal.Base.{
  Bool, List, Option, [], err, is_some, length, none, not, ok, refuse_if, some, suc, ℕ, ◌&&◌, ◌==◌,
  ◌>>=◌, ◌>>◌, ◌||◌, ◌∷◌,
}
use harbor_transfer_portal.Bundle.Manifest.{
  ArtifactDescriptor, DescriptorKind, container_image, helm_chart,
}
use harbor_transfer_portal.Bundle.Text.{Text, same_text}
use harbor_transfer_portal.Bundle.Verification.{BundleVerificationResult}
use harbor_transfer_portal.Destination.Model.{ArtifactPlan, DestinationPlan, same_option}
use harbor_transfer_portal.Destination.Persisted.{PlanResult}
use harbor_transfer_portal.Destination.Planning.{chart, image}

abbrev pub bundle_type : DescriptorKind → Text
bundle_type (container_image reference) = image
bundle_type (helm_chart name version) = chart

-- The names of the descriptor are the ones that were planned, and it has no others.
abbrev pub same_names : DescriptorKind → ArtifactPlan → Bool
same_names (container_image reference) planned =
    same_option planned.reference (some reference) && not (is_some planned.name)
same_names (helm_chart name version) planned =
    same_option planned.name (some name)
    && same_option planned.version (some version)
    && not (is_some planned.reference)

-- The first test of _assert_plan_matches_descriptor.
unfoldable pub is_planned_for : ℕ → ArtifactDescriptor → ArtifactPlan → Bool
is_planned_for index descriptor planned =
    planned.index == index
    && same_text planned.artifact_type (bundle_type descriptor.kind)
    && same_text planned.source_repository descriptor.repository
    && same_option planned.expected_digest descriptor.source_digest

-- _assert_plan_matches_descriptor
unfoldable pub assert_plan_matches_descriptor :
    ℕ → ArtifactDescriptor → ArtifactPlan → PlanResult (Unit {0})
assert_plan_matches_descriptor index descriptor planned = do
  refuse_if (not (is_planned_for index descriptor planned)) "import_destination_plan_tampered"
  refuse_if (not (same_names descriptor.kind planned)) "import_destination_plan_tampered"

abbrev pub planned_text : Option Text → PlanResult Text
planned_text none = err "import_destination_plan_tampered"
planned_text (some t) = ok t

-- The kind of the descriptor with the names of the plan.
unfoldable pub planned_kind : DescriptorKind → ArtifactPlan → PlanResult DescriptorKind
planned_kind (container_image reference) planned = do
  next_reference ← planned_text planned.reference
  ok (container_image next_reference)
planned_kind (helm_chart name version) planned = do
  next_name ← planned_text planned.name
  next_version ← planned_text planned.version
  ok (helm_chart next_name next_version)

-- The body of the loop.
unfoldable pub project_artifact :
    ℕ → ArtifactDescriptor → ArtifactPlan → PlanResult ArtifactDescriptor
project_artifact index descriptor planned = do
  assert_plan_matches_descriptor index descriptor planned
  repository ← planned_text planned.target_repository
  kind ← planned_kind descriptor.kind planned
  ok (record descriptor { kind = kind; repository = repository })

-- The loop over both lists, from an index on; zip is strict.
unfoldable pub project_artifacts :
    ℕ → List ArtifactDescriptor → List ArtifactPlan → PlanResult (List ArtifactDescriptor)
project_artifacts index [] [] = ok []
project_artifacts index (descriptor ∷ descriptors) (planned ∷ plans) = do
  mapped ← project_artifact index descriptor planned
  rest ← project_artifacts (suc index) descriptors plans
  ok (mapped ∷ rest)
project_artifacts index [] (planned ∷ plans) = err "import_destination_plan_tampered"
project_artifacts index (descriptor ∷ descriptors) [] = err "import_destination_plan_tampered"

-- _project_verified_bundle, for the plan that was read
unfoldable pub project_verified_bundle :
    ℕ → DestinationPlan → BundleVerificationResult → PlanResult BundleVerificationResult
project_verified_bundle operation_id plan verified = do
  refuse_if
      (not (plan.operation_id == operation_id)
        || not (same_text plan.bundle_sha256 verified.archive_sha256))
      "import_destination_plan_stale"
  refuse_if (not (length plan.artifacts == length verified.manifest.artifacts))
      "import_destination_plan_tampered"
  mapped ← project_artifacts 0 verified.manifest.artifacts plan.artifacts
  ok (record verified { manifest = record (verified.manifest) { artifacts = mapped } })
