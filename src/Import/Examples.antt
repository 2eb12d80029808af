-- ===== src/Import/Examples.antt =====
-- An import into a registry that is a list of its contents.
use harbor_transfer_portal.Base.{
  Bool, List, Option, [], err, false, if◌then◌else◌, none, ok, refl, some, true, ℕ, ◌∷◌, ◌≡◌,
}
use harbor_transfer_portal.Bundle.Manifest.{ArtifactDescriptor, container_image, helm_chart}
use harbor_transfer_portal.Bundle.Text.{Text, codes}
use harbor_transfer_portal.Bundle.Verification.{BundleVerificationResult}
use harbor_transfer_portal.Destination.Coordinates.{Coordinate, same_coordinate}
use harbor_transfer_portal.Destination.Patterns.{
  is_component, is_component_from, is_lower_alnum, is_repository, is_separator, is_tag, is_version,
}
use harbor_transfer_portal.Destination.Planning.{
  TargetInspection, absent, chart_reference, conflicting_digest, harbor_repository, image_reference,
  preview_state,
}
use harbor_transfer_portal.Domain.Status.{importing, running}
use harbor_transfer_portal.Import.Counts.{IsImported, import_worker-IsImported}
use harbor_transfer_portal.Import.Loop.{
  ConflictPolicy, Registry, import_artifact, import_artifacts, inspect, is_failure, mutate,
  preflight_target, raised, target_reference, uncaught,
}
use harbor_transfer_portal.Import.Worker.{
  ImportTask, checked_bundle, import_bundle, import_worker, settled,
}
use harbor_transfer_portal.Profiles.Model.{
  BoundOperation, ProfileStore, default_profile, default_profile_id,
}
use harbor_transfer_portal.Profiles.Service.{assert_operation_binding, get, operation_snapshot}
use harbor_transfer_portal.Profiles.Words.{is_space, strip}

abbrev Contents : Type 0
Contents = List (Coordinate × Text)

abbrev content_of : Contents → Coordinate → Option Text
content_of [] c = none
content_of (e ∷ es) c =
    let rest = content_of es c in if same_coordinate (e.0) c then some (e.1) else rest

abbrev found_state : Option Text → TargetInspection
found_state none = record { state = absent; digest = none }
found_state (some t) = record { state = conflicting_digest; digest = some t }

-- Inspections tell whether the reference is there, and a push puts the path of the payload.
abbrev listed : Registry Contents
listed = record {
  inspect_image = λ s r d. ok (found_state (content_of s (r.repository, r.reference)));
  inspect_chart = λ s r d. ok (found_state (content_of s (harbor_repository r, r.version)));
  import_image = λ s p r d. ((((r.repository, r.reference), p) ∷ s), ok p);
  push_chart = λ s p r d b. (
    (((harbor_repository r, r.version), p) ∷ s),
    ok (record { target_digest = p; package_sha256 = codes "ef" }),
  );
}

abbrev there_image : ArtifactDescriptor
there_image = record {
  kind = container_image (codes "v1");
  repository = codes "app/web";
  source_digest = none;
  payload_path = codes "images/web";
  payload_sha256 = codes "cd";
  payload_size = 3;
}

abbrev new_chart : ArtifactDescriptor
new_chart = record {
  kind = helm_chart (codes "web") (codes "v1");
  repository = codes "charts";
  source_digest = none;
  payload_path = codes "charts/web.tgz";
  payload_sha256 = codes "ef";
  payload_size = 4;
}

abbrev both : List ArtifactDescriptor
both = there_image ∷ new_chart ∷ []

abbrev occupied : Contents
occupied = ((codes "app/web", codes "v1"), codes "old") ∷ []

abbrev skipping : ConflictPolicy
skipping = record { overwrite = false; skip_conflicts = true }

abbrev never : ℕ → Bool
never n = false

abbrev verified_both : BundleVerificationResult
verified_both = record {
  manifest = record {
    schema_version = codes "1.0";
    delivery_id = codes "D1";
    created_by = codes "ann";
    artifacts = both;
  };
  archive_sha256 = codes "ab";
  archive_size = 9;
  signing_key_fingerprint = codes "key";
  extracted = [];
}

abbrev home_profiles : ProfileStore
home_profiles = record {
  default_settings = record {
    url = some (codes "https://main");
    username = none;
    verify_tls = true;
  };
  additional = [];
  active_profile_id = default_profile_id;
}

abbrev home_row : BoundOperation
home_row = record {
  id = 7;
  status = importing;
  harbor_profile_id = some default_profile_id;
  harbor_profile_name = some (codes "Default Harbor");
  harbor_profile_url = some (codes "https://main");
}

abbrev both_task : ImportTask
both_task = record {
  begins = ok tt;
  profiles = home_profiles;
  bound_row = home_row;
  locates = ok tt;
  observed_sha256 = codes "ab";
  bundle_sha256 = some (codes "ab");
  artifact_count = 2;
  preview = record {
    source_delivery_id = codes "D1";
    bundle_sha256 = codes "ab";
    signing_key_fingerprint = codes "key";
    artifacts = [];
  };
  verified = ok verified_both;
  has_extracted_root = true;
  opens_tools = ok tt;
  policy = skipping;
  writes_receipt = λ n. ok tt;
  completes = ok tt;
}

both-completed : (import_worker listed both_task never occupied).ending ≡ ok tt
unfolding import_worker import_bundle checked_bundle settled import_artifacts import_artifact
    target_reference image_reference chart_reference is_repository is_component is_component_from
    is_lower_alnum is_separator is_tag is_version preflight_target inspect mutate preview_state
    is_failure assert_operation_binding operation_snapshot get strip is_space default_profile
both-completed = refl

import_worker-IsImported_example :
    IsImported listed both_task occupied (import_worker listed both_task never occupied)
import_worker-IsImported_example =
    import_worker-IsImported listed both_task never occupied both-completed

-- The registry goes away when the chart is pushed.
abbrev breaking : Registry Contents
breaking = record listed { push_chart = λ s p r d b. (s, err uncaught) }

breaking-raises : (import_artifacts breaking skipping never 0 occupied both).end ≡ raised running
unfolding import_artifacts import_artifact target_reference image_reference chart_reference
    is_repository is_component is_component_from is_lower_alnum is_separator is_tag is_version
    preflight_target inspect mutate preview_state is_failure
breaking-raises = refl
