-- ===== src/Destination/Artifact.antt =====
-- _plan_artifact: the TARGET project of an artifact and its plan.
use harbor_transfer_portal.Base.{List, Option, String, [], if◌then◌else◌, none, some, ℕ, ◌==◌, ◌∷◌}
use harbor_transfer_portal.Bundle.Text.{Text, is_empty, same_text}
use harbor_transfer_portal.Destination.Coordinates.{
  below, project_part, validated_source_repository,
}
use harbor_transfer_portal.Destination.Model.{
  ArtifactPlan, ImportArtifactDestinationOverride, ImportArtifactPreview,
  ImportDestinationPlanRequest, error,
}
use harbor_transfer_portal.Destination.Patterns.{is_component}
use harbor_transfer_portal.Destination.Planning.{
  Target, chart, image, invalid_reference, plan_chart, plan_image, unplanned,
}

abbrev pub first_known : Option Text → Option Text → Option Text
first_known none other = other
first_known (some t) other = some t

-- overrides.get, of the dictionary in which a later override of an index replaces an earlier one
abbrev pub override_of : ℕ → List ImportArtifactDestinationOverride → Option Text
override_of i [] = none
override_of i (o ∷ os) =
    first_known (override_of i os) (if o.index == i then some o.target_project else none)

-- mapping.project_mappings.get
abbrev pub mapped_project : Text → List (Text × Text) → Option Text
mapped_project project [] = none
mapped_project project (m ∷ ms) =
    let rest = mapped_project project ms in if same_text (m.0) project then some (m.1) else rest

-- The project for an artifact that neither an override nor a mapping names.
abbrev pub default_project : ImportDestinationPlanRequest → Text → Option Text
default_project mapping artifact_type =
    if same_text artifact_type image
    then mapping.container_image_project
    else if same_text artifact_type chart
    then mapping.helm_chart_project
    else none

-- The TARGET project
unfoldable pub target_project_of :
    ImportDestinationPlanRequest → ImportArtifactPreview → Text → Option Text
target_project_of mapping item source_project =
    first_known
      (first_known (override_of item.index mapping.artifact_overrides)
        (mapped_project source_project mapping.project_mappings))
      (default_project mapping item.artifact_type)

-- target_project + (f"/{suffix}" if suffix else "")
unfoldable pub target_repository_of : Text → Text → Text
target_repository_of target_project suffix =
    if is_empty suffix then target_project else below target_project suffix

abbrev refused : ArtifactPlan → Option Text → String → ArtifactPlan
refused base target_project code = record base {
  target_project = target_project;
  classification = error;
  error_code = some code;
}

abbrev plan_kind : Target → ArtifactPlan → Text → Text → ArtifactPlan
plan_kind remote base target_project target_repository =
    if same_text base.artifact_type image
    then plan_image remote base target_project target_repository
    else if same_text base.artifact_type chart
    then plan_chart remote base target_project target_repository
    else invalid_reference base target_project target_repository

abbrev plan_in : Target → ArtifactPlan → Text → Option Text → ArtifactPlan
plan_in remote base suffix none = refused base none "import_destination_unmapped"
plan_in remote base suffix (some target_project) =
    if is_component target_project
    then plan_kind remote base target_project (target_repository_of target_project suffix)
    else refused base (some target_project) "import_destination_project_invalid"

abbrev plan_from :
    Target
    → ImportDestinationPlanRequest
    → ImportArtifactPreview
    → Option (Text × Text)
    → ArtifactPlan
plan_from remote mapping item none =
    refused (unplanned item (project_part item.repository)) none
      "import_destination_repository_invalid"
plan_from remote mapping item (some s) =
    plan_in remote (unplanned item (s.0)) (s.1) (target_project_of mapping item (s.0))

-- _plan_artifact
unfoldable pub plan_artifact :
    Target → ImportDestinationPlanRequest → ImportArtifactPreview → ArtifactPlan
plan_artifact remote mapping item =
    plan_from remote mapping item (validated_source_repository item.repository)
