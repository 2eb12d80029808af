-- ===== src/Destination/Defaults.antt =====
-- DestinationMappingPolicyService of backend/app/services/destination_mapping_policy.py: the defaults
-- of the administrator for a plan. A settings row is the value that it denotes.
use harbor_transfer_portal.Base.{
  Bool, List, Option, [], false, if◌then◌else◌, is_some, none, not, ok, or_else, refuse_if, some,
  sort_by, suc, true, ℕ, ◌&&◌, ◌>>=◌, ◌>>=◌, ◌>>◌, ◌||◌, ◌∷◌,
}
use harbor_transfer_portal.Bundle.Text.{Text, is_empty, same_text}
use harbor_transfer_portal.Destination.Artifact.{first_known}
use harbor_transfer_portal.Destination.Model.{ImportDestinationPlanRequest, same_option}
use harbor_transfer_portal.Destination.Patterns.{is_component}
use harbor_transfer_portal.Destination.Persisted.{PlanResult}
use harbor_transfer_portal.Manager.Service.{request}
use harbor_transfer_portal.Profiles.Words.{leb_text, strip}

pub record MappingPolicy : Type 0 where
  pub revision : ℕ
  pub container_image_project : Option Text
  pub helm_chart_project : Option Text
  pub project_mappings : List (Text × Text)

-- The fields that an update gives; a project may be given as null.
pub record MappingPolicyUpdate : Type 0 where
  pub container_image_project : Option (Option Text)
  pub helm_chart_project : Option (Option Text)
  pub project_mappings : Option (List (Text × Text))

-- _validate_project
unfoldable pub validate_project : Text → PlanResult Text
validate_project value = do
  refuse_if (not (is_component value)) "destination_mapping_policy_project_invalid"
  ok value

-- A dictionary after an assignment to a key.
abbrev pub assign : Text → Text → List (Text × Text) → List (Text × Text)
assign key value [] = (key, value) ∷ []
assign key value (m ∷ ms) =
    let rest = assign key value ms in if same_text (m.0) key then (m.0, value) ∷ ms else m ∷ rest

-- The loop of _validate_mappings
unfoldable pub assign_validated :
    List (Text × Text) → List (Text × Text) → PlanResult (List (Text × Text))
assign_validated normalized [] = ok normalized
assign_validated normalized (m ∷ ms) = do
  source_name ← validate_project (strip (m.0))
  target_name ← validate_project (strip (m.1))
  assign_validated (assign source_name target_name normalized) ms

-- _validate_mappings
unfoldable pub validate_mappings : List (Text × Text) → PlanResult (List (Text × Text))
validate_mappings mappings = do
  normalized ← assign_validated [] mappings
  ok (sort_by (λ a b. leb_text (a.0) (b.0)) normalized)

-- _optional_project
unfoldable pub optional_project : Option Text → PlanResult (Option Text)
optional_project none = ok none
optional_project (some raw) =
    if is_empty raw then ok none else validate_project raw >>= (λ t. ok (some t))

-- resolve
unfoldable pub resolve : MappingPolicy → PlanResult MappingPolicy
resolve rows = do
  container ← optional_project rows.container_image_project
  helm ← optional_project rows.helm_chart_project
  mappings ← validate_mappings rows.project_mappings
  ok (record {
    revision = rows.revision;
    container_image_project = container;
    helm_chart_project = helm;
    project_mappings = mappings;
  })

abbrev stripped_project : Option Text → PlanResult (Option Text)
stripped_project none = ok none
stripped_project (some raw) = optional_project (some (strip raw))

abbrev same_mappings : List (Text × Text) → List (Text × Text) → Bool
same_mappings [] [] = true
same_mappings (a ∷ xs) (b ∷ ys) =
    same_text (a.0) (b.0) && same_text (a.1) (b.1) && same_mappings xs ys
same_mappings _ _ = false

-- The given fields that change their value.
abbrev changes_container : MappingPolicyUpdate → MappingPolicy → MappingPolicy → Bool
changes_container values before after =
    is_some values.container_image_project
    && not (same_option after.container_image_project before.container_image_project)

abbrev changes_helm : MappingPolicyUpdate → MappingPolicy → MappingPolicy → Bool
changes_helm values before after =
    is_some values.helm_chart_project
    && not (same_option after.helm_chart_project before.helm_chart_project)

abbrev changes_mappings : MappingPolicyUpdate → MappingPolicy → MappingPolicy → Bool
changes_mappings values before after =
    is_some values.project_mappings
    && not (same_mappings after.project_mappings before.project_mappings)

-- The rows after the changed fields and the revision were written.
unfoldable pub write_changes :
    MappingPolicyUpdate → MappingPolicy → MappingPolicy → MappingPolicy → MappingPolicy
write_changes values rows before after =
    let container = changes_container values before after in
    let helm = changes_helm values before after in
    let mappings = changes_mappings values before after in
    record {
      revision = if container || helm || mappings then suc before.revision else rows.revision;
      container_image_project =
          if container then after.container_image_project else rows.container_image_project;
      helm_chart_project = if helm then after.helm_chart_project else rows.helm_chart_project;
      project_mappings = if mappings then after.project_mappings else rows.project_mappings;
    }

-- _normalize_candidate, of the given values over the current ones
unfoldable pub normalize_candidate : MappingPolicyUpdate → MappingPolicy → PlanResult MappingPolicy
normalize_candidate values current = do
  container ←
      stripped_project (or_else values.container_image_project current.container_image_project)
  helm ← stripped_project (or_else values.helm_chart_project current.helm_chart_project)
  mappings ← validate_mappings (or_else values.project_mappings current.project_mappings)
  ok (record {
    revision = current.revision;
    container_image_project = container;
    helm_chart_project = helm;
    project_mappings = mappings;
  })

-- update, of known fields: the rows afterwards
unfoldable pub update_policy : MappingPolicyUpdate → MappingPolicy → PlanResult MappingPolicy
update_policy values rows = do
  current ← resolve rows
  normalized ← normalize_candidate values current
  ok (write_changes values rows current normalized)

-- {**defaults, **given}
unfoldable pub merge : List (Text × Text) → List (Text × Text) → List (Text × Text)
merge defaults [] = defaults
merge defaults (m ∷ ms) = merge (assign (m.0) (m.1) defaults) ms

-- The request with the defaults of a policy.
unfoldable pub with_defaults :
    MappingPolicy → ImportDestinationPlanRequest → ImportDestinationPlanRequest
with_defaults policy request = record request {
  mapping_policy_revision = policy.revision;
  container_image_project =
      first_known request.container_image_project policy.container_image_project;
  helm_chart_project = first_known request.helm_chart_project policy.helm_chart_project;
  project_mappings = merge policy.project_mappings request.project_mappings;
}

-- resolve_request
unfoldable pub resolve_request :
    MappingPolicy → ImportDestinationPlanRequest → PlanResult ImportDestinationPlanRequest
resolve_request rows request = do policy ← resolve rows; ok (with_defaults policy request)
