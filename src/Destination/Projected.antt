-- ===== src/Destination/Projected.antt =====
-- What a projected bundle has in common with the verified one, and where its artifacts go.
use harbor_transfer_portal.Base.{
  ==_iff, Option, and_true_iff, ap, both_hold, is_some, length, negated_iff, none, not, refl,
  refuse_if-ok, refuse_if_passed, sym, ◌&&◌, ◌==◌, ◌||◌, ◌∙◌,
}
use harbor_transfer_portal.Bundle.Text.{same_text, same_text_iff}
use harbor_transfer_portal.Bundle.Verification.{BundleVerificationResult}
use harbor_transfer_portal.Destination.Model.{DestinationPlan, same_option}
use harbor_transfer_portal.Destination.Planning.{chart, image}
use harbor_transfer_portal.Destination.Projection.{
  bundle_type, planned_kind, project_verified_bundle, same_names,
}
use harbor_transfer_portal.Policy.Transfer.{given}
use harbor_transfer_portal.Profiles.Editing.{given_name}
use harbor_transfer_portal.Destination.Projection.{planned_text}
use mathlib.Core.Path.{subst}
use harbor_transfer_portal.Base.{
  List, [], bind-ok, ok, returned, some, suc, then-ok, true, ℕ, ◌∷◌, ◌≡◌,
}
use harbor_transfer_portal.Bundle.Manifest.{
  ArtifactDescriptor, DescriptorKind, container_image, helm_chart,
}
use harbor_transfer_portal.Bundle.Text.{Text}
use harbor_transfer_portal.Destination.Coordinates.{Coordinate, below, registry_coordinate}
use harbor_transfer_portal.Destination.Model.{ArtifactPlan}
use harbor_transfer_portal.Destination.Projection.{
  assert_plan_matches_descriptor, is_planned_for, project_artifact, project_artifacts,
}

-- The coordinate in the registry that an import of the descriptor writes.
abbrev coordinate_at : Text → DescriptorKind → Coordinate
coordinate_at repository (container_image reference) = (repository, reference)
coordinate_at repository (helm_chart name version) = (below repository name, version)

unfoldable pub descriptor_coordinate : ArtifactDescriptor → Coordinate
descriptor_coordinate d = coordinate_at d.repository d.kind

-- A projected artifact has the payload and the digests of the signed one, was planned for it, and
-- goes where the plan says.
pub record IsProjection (index : ℕ) (descriptor : ArtifactDescriptor) (planned : ArtifactPlan)
    (mapped : ArtifactDescriptor) : Type 0 where
  pub payload_path : mapped.payload_path ≡ descriptor.payload_path
  pub payload_sha256 : mapped.payload_sha256 ≡ descriptor.payload_sha256
  pub payload_size : mapped.payload_size ≡ descriptor.payload_size
  pub source_digest : mapped.source_digest ≡ descriptor.source_digest
  pub names : mapped.kind ≡ descriptor.kind
  pub planned_for : is_planned_for index descriptor planned ≡ true
  pub coordinate : registry_coordinate planned ≡ some (descriptor_coordinate mapped)

-- One projection for each artifact of the manifest and of the plan.
pub AreProjections :
    ℕ → List ArtifactDescriptor → List ArtifactPlan → List ArtifactDescriptor → Type 0
AreProjections index [] [] [] = Unit
AreProjections index (d ∷ ds) (p ∷ ps) (m ∷ ms) =
    IsProjection index d p m × AreProjections (suc index) ds ps ms
AreProjections _ _ _ _ = ⊥

image_place :
    (planned : ArtifactPlan) (repository reference : Text)
    → planned.artifact_type ≡ image
    → planned.target_repository ≡ some repository
    → planned.reference ≡ some reference
    → registry_coordinate planned ≡ some (repository, reference)
unfolding registry_coordinate
image_place planned repository reference t r n = rw r (rw t (rw n refl))

chart_place :
    (planned : ArtifactPlan) (repository name version : Text)
    → planned.artifact_type ≡ chart
    → planned.target_repository ≡ some repository
    → planned.name ≡ some name
    → planned.version ≡ some version
    → registry_coordinate planned ≡ some (below repository name, version)
unfolding registry_coordinate
chart_place planned repository name version t r n v = rw r (rw t (rw n (rw v refl)))

known : (o : Option Text) {t : Text} → planned_text o ≡ ok t → o ≡ some t
known none h = cc
known (some t) h = ap some (returned h)

equals : (o : Option Text) (t : Text) → same_option o (some t) ≡ true → o ≡ some t
equals none t h = cc
equals (some s) t h = ap some ((same_text_iff s t).0 h)

-- What is planned for a kind of artifact that has the names of the plan.
record IsKindFor (planned : ArtifactPlan) (repository : Text) (before after : DescriptorKind)
    : Type 0 where
  names : after ≡ before
  place : registry_coordinate planned ≡ some (coordinate_at repository after)

planned_kind-IsKindFor :
    (kind : DescriptorKind) (planned : ArtifactPlan) (repository : Text) {after : DescriptorKind}
    → same_names kind planned ≡ true
    → planned.artifact_type ≡ bundle_type kind
    → planned.target_repository ≡ some repository
    → planned_kind kind planned ≡ ok after
    → IsKindFor planned repository kind after
unfolding planned_kind
planned_kind-IsKindFor (container_image reference) planned repository n t r h =
    let (given, p, h0) = bind-ok (planned_text planned.reference) _ h in
    let o = known planned.reference p in
    let (a, b) =
      (and_true_iff (same_option planned.reference (some reference)) (not (is_some planned.name))).0
        n in
    let same : some given ≡ some reference = sym o ∙ equals planned.reference reference a in
    let e : given ≡ reference = cc in
    subst (λ k. IsKindFor planned repository (container_image reference) k) (returned h0)
      (record {
        names = ap (λ x. container_image x) e;
        place = image_place planned repository given t r o;
      })
planned_kind-IsKindFor (helm_chart name version) planned repository n t r h =
    let (given_name, p, h0) = bind-ok (planned_text planned.name) _ h in
    let (given_version, q, h1) = bind-ok (planned_text planned.version) _ h0 in
    let o = known planned.name p in
    let v = known planned.version q in
    let (ab, d) =
      (and_true_iff
          (same_option planned.name (some name) && same_option planned.version (some version))
          (not (is_some planned.reference))).0
        n in
    let (a, c) =
      (and_true_iff (same_option planned.name (some name))
          (same_option planned.version (some version))).0
        ab in
    let same_name : some given_name ≡ some name = sym o ∙ equals planned.name name a in
    let same_version : some given_version ≡ some version =
      sym v ∙ equals planned.version version c in
    subst (λ k. IsKindFor planned repository (helm_chart name version) k) (returned h1)
      (record {
        names = cc;
        place = chart_place planned repository given_name given_version t r o v;
      })

planned_type :
    (index : ℕ) (descriptor : ArtifactDescriptor) (planned : ArtifactPlan)
    → is_planned_for index descriptor planned ≡ true
    → planned.artifact_type ≡ bundle_type descriptor.kind
unfolding is_planned_for
planned_type index descriptor planned h =
    let (a, digest) =
      (and_true_iff
          (planned.index == index
            && same_text planned.artifact_type (bundle_type descriptor.kind)
            && same_text planned.source_repository descriptor.repository)
          (same_option planned.expected_digest descriptor.source_digest)).0
        h in
    let (b, repository) =
      (and_true_iff
          (planned.index == index && same_text planned.artifact_type (bundle_type descriptor.kind))
          (same_text planned.source_repository descriptor.repository)).0
        a in
    let (i, c) =
      (and_true_iff (planned.index == index)
          (same_text planned.artifact_type (bundle_type descriptor.kind))).0
        b in
    (same_text_iff planned.artifact_type (bundle_type descriptor.kind)).0 c

project_artifact-IsProjection :
    (index : ℕ) (descriptor : ArtifactDescriptor) (planned : ArtifactPlan)
    {mapped : ArtifactDescriptor}
    → project_artifact index descriptor planned ≡ ok mapped
    → IsProjection index descriptor planned mapped
unfolding project_artifact assert_plan_matches_descriptor descriptor_coordinate
project_artifact-IsProjection index descriptor planned h =
    let (p0, h0) = then-ok (assert_plan_matches_descriptor index descriptor planned) _ h in
    let (q0, q1) =
      refuse_if-ok (not (is_planned_for index descriptor planned))
        "import_destination_plan_tampered" _ p0 in
    let q2 =
      refuse_if_passed (not (same_names descriptor.kind planned)) "import_destination_plan_tampered"
        q1 in
    let fits = (negated_iff (is_planned_for index descriptor planned)).0 q0 in
    let same = (negated_iff (same_names descriptor.kind planned)).0 q2 in
    let (repository, p1, h1) = bind-ok (planned_text planned.target_repository) _ h0 in
    let (kind, p2, h2) = bind-ok (planned_kind descriptor.kind planned) _ h1 in
    let k =
      planned_kind-IsKindFor descriptor.kind planned repository same
        (planned_type index descriptor planned fits) (known planned.target_repository p1) p2 in
    subst (λ m. IsProjection index descriptor planned m) (returned h2)
      (record {
        payload_path = refl;
        payload_sha256 = refl;
        payload_size = refl;
        source_digest = refl;
        names = k.names;
        planned_for = fits;
        coordinate = k.place;
      })

project_artifacts-AreProjections :
    (index : ℕ) (ds : List ArtifactDescriptor) (ps : List ArtifactPlan)
    {ms : List ArtifactDescriptor}
    → project_artifacts index ds ps ≡ ok ms
    → AreProjections index ds ps ms
unfolding project_artifacts AreProjections
project_artifacts-AreProjections index [] [] h =
    subst (λ ms. AreProjections index [] [] ms) (returned h) tt
project_artifacts-AreProjections index (d ∷ ds) (p ∷ ps) h =
    let (m, p0, h0) = bind-ok (project_artifact index d p) _ h in
    let (rest, p1, h1) = bind-ok (project_artifacts (suc index) ds ps) _ h0 in
    subst (λ ms. AreProjections index (d ∷ ds) (p ∷ ps) ms) (returned h1)
      (
        project_artifact-IsProjection index d p p0,
        project_artifacts-AreProjections (suc index) ds ps p1,
      )
project_artifacts-AreProjections index [] (p ∷ ps) h = cc
project_artifacts-AreProjections index (d ∷ ds) [] h = cc

-- A projected bundle differs from the verified one in the artifacts of its manifest alone, each of
-- which is the projection of the artifact at its place.
pub project_verified_bundle-AreProjections :
    (operation_id : ℕ) (plan : DestinationPlan) (verified after : BundleVerificationResult)
    → project_verified_bundle operation_id plan verified ≡ ok after
    → AreProjections 0 verified.manifest.artifacts plan.artifacts after.manifest.artifacts
      × (plan.operation_id ≡ operation_id)
      × (plan.bundle_sha256 ≡ verified.archive_sha256)
      × (after ≡ record verified {
        manifest = record (verified.manifest) { artifacts = after.manifest.artifacts };
      })
unfolding project_verified_bundle
project_verified_bundle-AreProjections operation_id plan verified after h =
    let (p0, h0) =
      refuse_if-ok
        (not (plan.operation_id == operation_id)
          || not (same_text plan.bundle_sha256 verified.archive_sha256))
        "import_destination_plan_stale" _ h in
    let (p1, h1) =
      refuse_if-ok (not (length plan.artifacts == length verified.manifest.artifacts))
        "import_destination_plan_tampered" _ h0 in
    let (mapped, p2, h2) =
      bind-ok (project_artifacts 0 verified.manifest.artifacts plan.artifacts) _ h1 in
    let (a, b) =
      both_hold (plan.operation_id == operation_id)
        (same_text plan.bundle_sha256 verified.archive_sha256) p0 in
    subst
      (λ r.
        AreProjections 0 verified.manifest.artifacts plan.artifacts r.manifest.artifacts
        × (plan.operation_id ≡ operation_id)
        × (plan.bundle_sha256 ≡ verified.archive_sha256)
        × (r ≡ record verified {
          manifest = record (verified.manifest) { artifacts = r.manifest.artifacts };
        }))
      (returned h2)
      (
        project_artifacts-AreProjections 0 verified.manifest.artifacts plan.artifacts p2,
        (==_iff plan.operation_id operation_id).0 a,
        (same_text_iff plan.bundle_sha256 verified.archive_sha256).0 b,
        refl,
      )
