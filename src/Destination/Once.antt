-- ===== src/Destination/Once.antt =====
-- A valid plan that was built has no collisions.
use mathlib.Core.Path.{subst}
use harbor_transfer_portal.Base.{
  Bool, bind-ok, false, map, not, refuse_if-ok, returned, sym, true, List, Option, ap, ok, refl, ℕ,
  ◌∙◌, ◌≡◌,
}
use harbor_transfer_portal.Bundle.Text.{Text}
use harbor_transfer_portal.Destination.Artifact.{plan_artifact}
use harbor_transfer_portal.Destination.Build.{
  build_destination_plan, has_unknown_override, marked, plan_bound, planned_artifacts, planner,
  ready_preview, with_profile, new_plan,
}
use harbor_transfer_portal.Destination.Collisions.{indices_at}
use harbor_transfer_portal.Destination.Coordinates.{
  Coordinate, has_several, colliding_artifact_indices,
}
use harbor_transfer_portal.Destination.Model.{
  all_writable, ArtifactPlan, DestinationPlan, ImportDestinationPlanRequest,
}
use harbor_transfer_portal.Destination.Persisted.{
  ImportRow, import_row, persist_destination_plan, ImportPreview, PlanResult,
}
use harbor_transfer_portal.Destination.Planning.{Target}
use harbor_transfer_portal.Destination.Valid.{
  colliding-marked, uncolliding-once, writable-uncolliding,
}
use harbor_transfer_portal.Profiles.Model.{BoundOperation, HarborProfile, ProfileStore}
use harbor_transfer_portal.Profiles.Service.{bind_operation_profile}
use harbor_transfer_portal.Destination.Identity.{Hashes, normalize_derived_fields}

-- What plan_bound returns: a plan with the collisions among its artifacts marked.
pub record IsPlanned (hashes : Hashes) (made : ImportDestinationPlanRequest × DestinationPlan)
    : Type 0 where
  pub items : List ArtifactPlan
  pub artifacts : (made.1).artifacts ≡ marked (colliding_artifact_indices items) items
  pub valid : (made.1).valid ≡ all_writable (made.1).artifacts

pub plan_bound-IsPlanned :
    (hashes : Hashes) (validators : HarborProfile → PlanResult Target) (row : ImportRow)
    (preview : ImportPreview) (actor : Option Text) (created_at : ℕ)
    (mapping : ImportDestinationPlanRequest) (profile : HarborProfile)
    {made : ImportDestinationPlanRequest × DestinationPlan}
    → plan_bound hashes validators row preview actor created_at mapping profile ≡ ok made
    → IsPlanned hashes made
unfolding plan_bound planned_artifacts new_plan normalize_derived_fields
plan_bound-IsPlanned hashes validators row preview actor created_at mapping profile h =
    let (name, p0, h0) = bind-ok (planner actor row.actor_username) _ h in
    let (p1, h1) =
      refuse_if-ok (has_unknown_override preview.artifacts mapping.artifact_overrides)
        "import_destination_override_invalid" _ h0 in
    let (remote, p2, h2) = bind-ok (validators profile) _ h1 in
    subst (λ m. IsPlanned hashes m) (returned h2)
      (record {
        items = map (plan_artifact remote (with_profile mapping profile)) preview.artifacts;
        artifacts = refl;
        valid = refl;
      })

once :
    {hashes : Hashes} {made : ImportDestinationPlanRequest × DestinationPlan}
    → IsPlanned hashes made
    → (made.1).valid ≡ true
    → (c : Coordinate) → has_several (indices_at c (made.1).artifacts) ≡ false
once {made = made} planned v c =
    let w : all_writable (marked (colliding_artifact_indices planned.items) planned.items) ≡ true =
      ap all_writable (sym planned.artifacts) ∙ sym planned.valid ∙ v in
    let n = writable-uncolliding planned.items w in
    let m =
      ap colliding_artifact_indices planned.artifacts
      ∙ colliding-marked (colliding_artifact_indices planned.items) planned.items
      ∙ n in
    uncolliding-once (made.1).artifacts c m

module _ (hashes : Hashes) (validators : HarborProfile → PlanResult Target) (on_target : Bool)
    (profiles : ProfileStore) (rows : Option ImportRow × (Option ImportRow × Option ImportRow))
    (actor : Option Text) (created_at : ℕ) (mapping : ImportDestinationPlanRequest) where
  abbrev Built : BoundOperation → DestinationPlan → ImportRow → Type 0
  Built row plan after =
      build_destination_plan hashes validators on_target profiles rows actor created_at mapping
      ≡ ok (row, (plan, after))

  -- The calls behind a plan that was built.
  made_by :
      {row : BoundOperation} {plan : DestinationPlan} {after : ImportRow}
      → Built row plan after
      → (made : ImportDestinationPlanRequest × DestinationPlan) × ((made.1) ≡ plan)
        × IsPlanned hashes made
        × (persist_destination_plan hashes (rows.1.1) (made.0) (made.1) ≡ ok after)
  unfolding build_destination_plan
  made_by h =
      let (p0, h0) = refuse_if-ok (not on_target) "import_wrong_contour" _ h in
      let (row, p1, h1) = bind-ok (import_row (rows.0)) _ h0 in
      let (preview, p2, h2) = bind-ok (ready_preview row) _ h1 in
      let (persisted, p3, h3) = bind-ok (import_row (rows.1.0)) _ h2 in
      let (selected, p4, h4) =
        bind-ok (bind_operation_profile profiles persisted.bound_row mapping.harbor_profile_id) _
          h3 in
      let (made, p5, h5) =
        bind-ok (plan_bound hashes validators row preview actor created_at mapping (selected.1)) _
          h4 in
      let (after, p6, h6) =
        bind-ok (persist_destination_plan hashes (rows.1.1) (made.0) (made.1)) _ h5 in
      let e = returned h6 in
      let x : made.1 ≡ _ = ap (λ t. t.1.0) e in
      let y : after ≡ _ = ap (λ t. t.1.1) e in
      (
        made,
        x,
        plan_bound-IsPlanned hashes validators row preview actor created_at mapping (selected.1) p5,
        p6 ∙ ap (λ a. ok a) y,
      )

  -- A valid plan writes no coordinate twice.
  pub build_destination_plan-writes_once :
      {row : BoundOperation} (plan : DestinationPlan) {after : ImportRow}
      → Built row plan after
      → plan.valid ≡ true
      → (c : Coordinate) → has_several (indices_at c plan.artifacts) ≡ false
  build_destination_plan-writes_once plan h v c =
      let (made, e, planned, p) = made_by h in
      subst (λ q. has_several (indices_at c q.artifacts) ≡ false) e
        (once planned (ap (λ q. q.valid) e ∙ v) c)
