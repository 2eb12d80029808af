-- ===== src/Destination/Build.antt =====
-- build_destination_plan. The row is read when the call begins, when its profile is bound and when
-- the plan is stored; each time it is what the session finds then.
use harbor_transfer_portal.Base.{
  Bool, List, Option, [], any, err, if◌then◌else◌, map, none, not, ok, refuse_if, some, ℕ, ◌==◌,
  ◌>>=◌, ◌>>◌, ◌∷◌,
}
use harbor_transfer_portal.Bundle.Text.{Text, is_empty}
use harbor_transfer_portal.Destination.Artifact.{plan_artifact}
use harbor_transfer_portal.Destination.Coordinates.{colliding_artifact_indices, mem}
use harbor_transfer_portal.Destination.Identity.{
  Hashes, canonical_plan_hash, normalize_derived_fields,
}
use harbor_transfer_portal.Destination.Model.{
  ArtifactPlan, DestinationPlan, ImportArtifactDestinationOverride, ImportArtifactPreview,
  ImportDestinationPlanRequest, all_writable, error,
}
use harbor_transfer_portal.Destination.Persisted.{
  ImportPreview, ImportRow, PlanResult, import_row, is_ready, persist_destination_plan,
}
use harbor_transfer_portal.Destination.Planning.{Target}
use harbor_transfer_portal.Policy.Transfer.{given}
use harbor_transfer_portal.Profiles.Model.{BoundOperation, HarborProfile, ProfileStore}
use harbor_transfer_portal.Profiles.Service.{bind_operation_profile}

abbrev is_listed : List ImportArtifactPreview → ImportArtifactDestinationOverride → Bool
is_listed artifacts o = any (λ item. item.index == o.index) artifacts

-- There is an override of an index that the preview has not.
abbrev pub has_unknown_override :
    List ImportArtifactPreview → List ImportArtifactDestinationOverride → Bool
has_unknown_override artifacts overrides = any (λ o. not (is_listed artifacts o)) overrides

-- The copy of an artifact with the update for a collision.
unfoldable pub collided : ArtifactPlan → ArtifactPlan
collided item = record item {
  classification = error;
  error_code = some "import_destination_collision";
}

unfoldable pub marked : List ℕ → List ArtifactPlan → List ArtifactPlan
marked collisions [] = []
marked collisions (item ∷ items) =
    let rest = marked collisions items in
    if mem item.index collisions then collided item ∷ rest else item ∷ rest

-- The planned artifacts, those that collide marked.
unfoldable pub planned_artifacts :
    Target → ImportDestinationPlanRequest → List ImportArtifactPreview → List ArtifactPlan
planned_artifacts remote mapping artifacts =
    let planned = map (plan_artifact remote mapping) artifacts in
    marked (colliding_artifact_indices planned) planned

-- The plan with its hash, and the fields that are derived.
unfoldable pub new_plan :
    Hashes
    → ℕ
    → ImportPreview
    → Text
    → ℕ
    → ImportDestinationPlanRequest
    → List ArtifactPlan
    → DestinationPlan
new_plan hashes operation_id preview actor created_at mapping artifacts =
    let unhashed : DestinationPlan = record {
      operation_id = operation_id;
      source_delivery_id = preview.source_delivery_id;
      actor_username = actor;
      bundle_sha256 = preview.bundle_sha256;
      plan_id = [];
      plan_hash = [];
      mapping_policy_revision = 0;
      created_at = created_at;
      valid = all_writable artifacts;
      artifacts = artifacts;
    } in
    normalize_derived_fields hashes
      (record unhashed { plan_hash = canonical_plan_hash hashes mapping unhashed })

abbrev nonempty_text : Option Text → Option Text
nonempty_text none = none
nonempty_text (some t) = if is_empty t then none else some t

-- actor_username or operation.actor_username
abbrev pub planner : Option Text → Option Text → PlanResult Text
planner given kept = elim (nonempty_text given) [
  | some t ↦ ok t
  | none ↦ elim (nonempty_text kept) [
    | some t ↦ ok t
    | none ↦ err "import_destination_plan_actor_missing"
  ]
]

-- The preview of an operation that is ready.
unfoldable pub ready_preview : ImportRow → PlanResult ImportPreview
ready_preview row = elim row.import_preview [
  | none ↦ err "import_not_ready"
  | some preview ↦ (do
    refuse_if (not (is_ready row.bound_row.status)) "import_not_ready"
    ok preview)
]

abbrev pub with_profile :
    ImportDestinationPlanRequest → HarborProfile → ImportDestinationPlanRequest
with_profile mapping profile = record mapping { harbor_profile_id = some profile.id }

-- What is done from the binding of the profile on; `validators` gives TARGET or raises.
unfoldable pub plan_bound :
    Hashes
    → (HarborProfile → PlanResult Target)
    → ImportRow
    → ImportPreview
    → Option Text
    → ℕ
    → ImportDestinationPlanRequest
    → HarborProfile
    → PlanResult (ImportDestinationPlanRequest × DestinationPlan)
plan_bound hashes validators row preview actor created_at mapping profile = do
  username ← planner actor row.actor_username
  refuse_if (has_unknown_override preview.artifacts mapping.artifact_overrides)
      "import_destination_override_invalid"
  remote ← validators profile
  let request = with_profile mapping profile in
      let artifacts = planned_artifacts remote request preview.artifacts in
      let plan = new_plan hashes row.bound_row.id preview username created_at request artifacts in
      ok (request, plan)

-- build_destination_plan: the rows at the start, at the binding and at the end; the result is the
-- binding, the plan and the row with the stored plan.
unfoldable pub build_destination_plan :
    Hashes
    → (HarborProfile → PlanResult Target)
    → Bool
    → ProfileStore
    → (Option ImportRow × (Option ImportRow × Option ImportRow))
    → Option Text
    → ℕ
    → ImportDestinationPlanRequest
    → PlanResult (BoundOperation × (DestinationPlan × ImportRow))
build_destination_plan hashes validators on_target profiles rows actor created_at mapping = do
  refuse_if (not on_target) "import_wrong_contour"
  row ← import_row (rows.0)
  preview ← ready_preview row
  persisted ← import_row (rows.1.0)
  selected ← bind_operation_profile profiles persisted.bound_row mapping.harbor_profile_id
  made ← plan_bound hashes validators row preview actor created_at mapping (selected.1)
  after ← persist_destination_plan hashes (rows.1.1) (made.0) (made.1)
  ok (selected.0, (made.1, after))
