-- ===== src/Destination/Planning.antt =====
-- _plan_artifact, _plan_image and _plan_chart of backend/app/services/import_destination_plan.py. What
-- TARGET answers during one planning is a parameter; the messages are left out.
use harbor_transfer_portal.Base.{
  Bool, Option, Result, String, err, false, if◌then◌else◌, none, ok, or_else, some, true, ◌&&◌,
  ◌++◌, ◌||◌,
}
use harbor_transfer_portal.Bundle.Text.{Text, codes, starts_with}
use harbor_transfer_portal.Destination.Coordinates.{below}
use harbor_transfer_portal.Destination.Model.{
  ArtifactPlan, ImportArtifactPreview, ImportPreviewState, error, new, same, unknown, conflict,
}
use harbor_transfer_portal.Destination.Patterns.{
  is_component, is_digest, is_repository, is_tag, is_version,
}

pub record DestinationCapability : Type 0 where
  pub project_exists : Bool
  pub write_allowed : Bool
  pub error_code : Option String

pub data TargetState : Type 0 where
  absent same_digest conflicting_digest present : TargetState

pub record TargetInspection : Type 0 where
  pub state : TargetState
  pub digest : Option Text

pub record ImageReference : Type 0 where
  pub repository : Text
  pub reference : Text

pub record HelmChartReference : Type 0 where
  pub repository : Text
  pub name : Text
  pub version : Text

-- An inspection raises with the code of the error, if it has one.
abbrev pub Inspection : Type 0
Inspection = Result (Option String) TargetInspection

pub record Target : Type 0 where
  pub registry_host : Text
  pub validate : Text → Text → DestinationCapability
  pub inspect_image : ImageReference → Option Text → Inspection
  pub inspect_chart : HelmChartReference → Option Text → Inspection

abbrev pub image : Text
image = codes "container-image"

abbrev pub chart : Text
chart = codes "helm-chart"

-- The construction of an ImageReference, which raises ValueError
unfoldable pub image_reference : Text → Option Text → Option ImageReference
image_reference repository none = none
image_reference repository (some reference) =
    if is_repository repository && (is_tag reference || is_digest reference)
    then some (record { repository = repository; reference = reference })
    else none

-- The construction of a HelmChartReference, which raises ValueError
unfoldable pub chart_reference : Text → Option Text → Option Text → Option HelmChartReference
chart_reference repository (some name) (some version) =
    if is_repository repository && is_component name && is_version version
    then some (record { repository = repository; name = name; version = version })
    else none
chart_reference repository _ _ = none

-- harbor_repository
abbrev pub harbor_repository : HelmChartReference → Text
harbor_repository remote = below remote.repository remote.name

unfoldable pub preview_state : TargetState → ImportPreviewState
preview_state absent = new
preview_state same_digest = same
preview_state conflicting_digest = conflict
preview_state present = unknown

-- The keyword arguments `base`, with the defaults of the other fields and no destination.
abbrev pub unplanned : ImportArtifactPreview → Text → ArtifactPlan
unplanned item source_project = record {
  index = item.index;
  artifact_type = item.artifact_type;
  source_repository = item.repository;
  source_project = source_project;
  name = item.name;
  reference = item.reference;
  version = item.version;
  expected_digest = item.expected_digest;
  payload_size = item.payload_size;
  target_project = none;
  target_repository = none;
  final_reference = none;
  project_exists = false;
  write_allowed = false;
  target_digest = none;
  classification = error;
  error_code = none;
}

-- _invalid_reference
unfoldable pub invalid_reference : ArtifactPlan → Text → Text → ArtifactPlan
invalid_reference base target_project target_repository = record base {
  target_project = some target_project;
  target_repository = some target_repository;
  classification = error;
  error_code = some "import_destination_reference_invalid";
}

-- _capability_error
unfoldable pub capability_error : ArtifactPlan → DestinationCapability → Option ArtifactPlan
capability_error base capability =
    if capability.project_exists && capability.write_allowed
    then none
    else some (record base {
      project_exists = capability.project_exists;
      write_allowed = capability.write_allowed;
      classification = error;
      error_code = some (or_else capability.error_code "import_destination_validation_failed");
    })

-- The result of the inspection, or _destination_inspection_error.
unfoldable pub inspected : ArtifactPlan → Inspection → ArtifactPlan
inspected base (ok inspection) = record base {
  project_exists = true;
  write_allowed = true;
  target_digest = inspection.digest;
  classification = preview_state inspection.state;
}
inspected base (err code) = record base {
  project_exists = true;
  write_allowed = true;
  classification = error;
  error_code = some (or_else code "import_target_inspection_failed");
}

abbrev unless_denied : Option ArtifactPlan → ArtifactPlan → ArtifactPlan
unless_denied none planned = planned
unless_denied (some denied) planned = denied

abbrev destined : ArtifactPlan → Text → Text → Text → ArtifactPlan
destined base target_project target_repository final_reference = record base {
  target_project = some target_project;
  target_repository = some target_repository;
  final_reference = some final_reference;
}

-- _image_display_reference
unfoldable pub image_display_reference : Text → Text → Text → Text
image_display_reference host repository reference =
    let separator = if starts_with reference (codes "sha256:") then codes "@" else codes ":" in
    below host repository ++ (separator ++ reference)

abbrev plan_image_at : Target → ArtifactPlan → Text → Text → Option ImageReference → ArtifactPlan
plan_image_at remote base target_project target_repository none =
    invalid_reference base target_project target_repository
plan_image_at remote base target_project target_repository (some r) =
    let display = image_display_reference remote.registry_host r.repository r.reference in
    let placed = destined base target_project target_repository display in
    unless_denied (capability_error placed (remote.validate target_project r.repository))
      (inspected placed (remote.inspect_image r base.expected_digest))

-- _plan_image
unfoldable pub plan_image : Target → ArtifactPlan → Text → Text → ArtifactPlan
plan_image remote base target_project target_repository =
    plan_image_at remote base target_project target_repository
      (image_reference target_repository base.reference)

abbrev chart_display_reference : Text → HelmChartReference → Text
chart_display_reference host r =
    codes "oci://" ++ (below host (harbor_repository r) ++ (codes ":" ++ r.version))

abbrev plan_chart_at :
    Target → ArtifactPlan → Text → Text → Option HelmChartReference → ArtifactPlan
plan_chart_at remote base target_project target_repository none =
    invalid_reference base target_project target_repository
plan_chart_at remote base target_project target_repository (some r) =
    let display = chart_display_reference remote.registry_host r in
    let placed = destined base target_project target_repository display in
    unless_denied (capability_error placed (remote.validate target_project (harbor_repository r)))
      (inspected placed (remote.inspect_chart r base.expected_digest))

-- _plan_chart
unfoldable pub plan_chart : Target → ArtifactPlan → Text → Text → ArtifactPlan
plan_chart remote base target_project target_repository =
    plan_chart_at remote base target_project target_repository
      (chart_reference target_repository base.name base.version)
