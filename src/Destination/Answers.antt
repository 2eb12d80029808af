-- ===== src/Destination/Answers.antt =====
-- A destination validator on a concrete Harbor.
use harbor_transfer_portal.Destination.Granted.{IsGranted}
use harbor_transfer_portal.Destination.Validator.{absent_field, text_field}
use harbor_transfer_portal.Destination.Artifact.{
  default_project, first_known, mapped_project, override_of, target_project_of,
}
use harbor_transfer_portal.Destination.Defaults.{MappingPolicy, with_defaults}
use harbor_transfer_portal.Destination.Model.{ImportArtifactPreview, ImportDestinationPlanRequest}
use harbor_transfer_portal.Destination.Precedence.{
  IsDictionary, policy_project, target_project_of-with_defaults,
}
use harbor_transfer_portal.Destination.Artifact.{target_repository_of}
use harbor_transfer_portal.Destination.Coordinates.{validated_source_repository}
use harbor_transfer_portal.Destination.Patterns.{
  is_component, is_component_from, is_lower_alnum, is_separator,
}
use harbor_transfer_portal.Destination.SourceRepository.{
  target_repository_of-validated_source_repository,
}
use harbor_transfer_portal.Base.{[], none, ok, refl, some, true, ◌∷◌, ◌≡◌}
use harbor_transfer_portal.Bundle.Text.{codes}
use harbor_transfer_portal.Destination.Caching.{AreAnswers, validate-AreFresh, AreFresh}
use harbor_transfer_portal.Destination.Validator.{
  AccessItem, Caches, HarborApi, ask_project, ask_push, capability_of, jwt_allows_push,
  project_exists, repository_push_allowed, validate,
}

abbrev push_item : AccessItem
push_item = record {
  kind = some (codes "repository");
  name = some (codes "images/web");
  actions = some (codes "pull" ∷ codes "push" ∷ []);
}

abbrev small_harbor : HarborApi
small_harbor = record {
  project_names = λ p. ok (codes "images" ∷ []);
  token_for = λ r. ok (record {
    status_code = 200;
    is_object = true;
    token = text_field (codes "h.p.s");
    access_token = absent_field;
  });
  access_claim = λ t. ok (some (push_item ∷ []));
}

abbrev no_answers : Caches
no_answers = record { projects = []; writes = [] }

no_answers-AreFresh : AreFresh small_harbor no_answers
unfolding AreAnswers
no_answers-AreFresh = record { projects = tt; writes = tt }

images-writable :
    (validate small_harbor no_answers (codes "images") (codes "images/web")).0
    ≡ record { project_exists = true; write_allowed = true; error_code = none }
unfolding validate project_exists repository_push_allowed ask_project ask_push jwt_allows_push
images-writable = refl

validate-AreFresh_example :
    ((validate small_harbor no_answers (codes "images") (codes "images/web")).0
      ≡ capability_of small_harbor (codes "images") (codes "images/web"))
    × AreFresh small_harbor
        ((validate small_harbor no_answers (codes "images") (codes "images/web")).1)
    × ((validate small_harbor no_answers (codes "images") (codes "images/web")).0.write_allowed
          ≡ true
        → IsGranted small_harbor (codes "images") (codes "images/web"))
validate-AreFresh_example =
    validate-AreFresh small_harbor no_answers no_answers-AreFresh (codes "images/web")
      (codes "images")

web-valid :
    validated_source_repository (codes "app/team/web") ≡ some (codes "app", codes "team/web")
unfolding validated_source_repository is_component is_component_from is_lower_alnum is_separator
web-valid = refl

target_repository_of-validated_source_repository_example :
    target_repository_of (codes "app") (codes "team/web") ≡ codes "app/team/web"
target_repository_of-validated_source_repository_example =
    target_repository_of-validated_source_repository (codes "app/team/web")
      (codes "app", codes "team/web") web-valid

abbrev admin_policy : MappingPolicy
admin_policy = record {
  revision = 3;
  container_image_project = some (codes "images");
  helm_chart_project = none;
  project_mappings = (codes "app", codes "main") ∷ [];
}

abbrev partial_request : ImportDestinationPlanRequest
partial_request = record {
  harbor_profile_id = none;
  mapping_policy_revision = 0;
  container_image_project = none;
  helm_chart_project = none;
  project_mappings = (codes "app", codes "team") ∷ [];
  artifact_overrides = [];
}

abbrev web_preview : ImportArtifactPreview
web_preview = record {
  index = 0;
  artifact_type = codes "container-image";
  repository = codes "app/web";
  name = none;
  reference = some (codes "v1");
  version = none;
  expected_digest = none;
  payload_size = 3;
}

partial_request-IsDictionary : IsDictionary partial_request.project_mappings
unfolding IsDictionary
partial_request-IsDictionary = (refl, tt)

target_project_of-with_defaults_example :
    target_project_of (with_defaults admin_policy partial_request) web_preview (codes "app")
    ≡ first_known (override_of web_preview.index partial_request.artifact_overrides) (
        first_known (mapped_project (codes "app") partial_request.project_mappings) (
          first_known (mapped_project (codes "app") admin_policy.project_mappings) (
            first_known
              (default_project partial_request web_preview.artifact_type)
              (policy_project admin_policy web_preview.artifact_type))))
target_project_of-with_defaults_example =
    target_project_of-with_defaults admin_policy partial_request web_preview (codes "app")
      partial_request-IsDictionary
