-- ===== src/Destination/Precedence.antt =====
-- Which TARGET project an artifact gets when the request and the policy both name one.
use harbor_transfer_portal.Base.{Option, ap, ◌∙◌}
use harbor_transfer_portal.Destination.Artifact.{
  default_project, first_known, override_of, target_project_of,
}
use harbor_transfer_portal.Destination.Defaults.{MappingPolicy, merge, with_defaults}
use harbor_transfer_portal.Destination.Model.{ImportArtifactPreview, ImportDestinationPlanRequest}
use harbor_transfer_portal.Destination.Planning.{chart, image}
use harbor_transfer_portal.Manager.Service.{request}
use harbor_transfer_portal.Profiles.Lookup.{differs_from}
use mathlib.Core.Path.{subst}
use harbor_transfer_portal.Base.{
  Bool-cases, List, [], if◌then◌else◌, inl, inr, none, refl, some, ◌∷◌, ◌≡◌,
}
use harbor_transfer_portal.Bundle.Text.{Text, same_text, same_text_iff}
use harbor_transfer_portal.Destination.Artifact.{mapped_project}
use harbor_transfer_portal.Destination.Defaults.{assign}

-- The keys of a dictionary are distinct.
unfoldable pub IsDictionary : List (Text × Text) → Type 0
IsDictionary [] = Unit
IsDictionary (m ∷ ms) = (mapped_project (m.0) ms ≡ none) × IsDictionary ms

assigned_here :
    (s k v value : Text) (ms : List (Text × Text))
    → mapped_project s ((k, value) ∷ ms)
      ≡ (if same_text k s then some value else mapped_project s ((k, v) ∷ ms))
assigned_here s k v value ms = elim (Bool-cases (same_text k s)) [
  | inl e ↦ rw e refl
  | inr e ↦ rw e refl
]

mapped_project-assign :
    (s key value : Text) (ms : List (Text × Text))
    → mapped_project s (assign key value ms)
      ≡ (if same_text key s then some value else mapped_project s ms)
mapped_project-assign s key value [] = refl
mapped_project-assign s key value (m ∷ ms) = elim (Bool-cases (same_text (m.0) key)) [
  | inl e ↦
      let p = (same_text_iff (m.0) key).0 e in
      rw e (
        subst
          (λ k.
            mapped_project s ((m.0, value) ∷ ms)
            ≡ (if same_text k s then some value else mapped_project s (m ∷ ms)))
          p (assigned_here s (m.0) (m.1) value ms))
  | inr e ↦ rw e (elim (Bool-cases (same_text (m.0) s)) [
    | inl f ↦ rw f (rw (differs_from (m.0) s key f e) refl)
    | inr f ↦ rw f (mapped_project-assign s key value ms)
  ])
]

-- A merged dictionary has the given value of a key, and the default where none is given.
mapped_project-merge :
    (s : Text) (defaults given : List (Text × Text))
    → IsDictionary given
    → mapped_project s (merge defaults given)
      ≡ first_known (mapped_project s given) (mapped_project s defaults)
unfolding merge IsDictionary
mapped_project-merge s defaults [] d = refl
mapped_project-merge s defaults (m ∷ ms) d =
    mapped_project-merge s (assign (m.0) (m.1) defaults) ms (d.1)
    ∙ ap (λ o. first_known (mapped_project s ms) o) (mapped_project-assign s (m.0) (m.1) defaults)
    ∙ elim (Bool-cases (same_text (m.0) s)) [
      | inl e ↦
          let p = (same_text_iff (m.0) s).0 e in
          let n : mapped_project s ms ≡ none = subst (λ k. mapped_project k ms ≡ none) p (d.0) in
          rw n (rw e refl)
      | inr e ↦ rw e refl
    ]

-- The project of the policy for a kind of artifact.
abbrev pub policy_project : MappingPolicy → Text → Option Text
policy_project policy kind =
    if same_text kind image
    then policy.container_image_project
    else if same_text kind chart
    then policy.helm_chart_project
    else none

regroup :
    (a b c d : Option Text)
    → first_known (first_known a (first_known b c)) d
      ≡ first_known a (first_known b (first_known c d))
regroup (some a) b c d = refl
regroup none (some b) c d = refl
regroup none none (some c) d = refl
regroup none none none d = refl

default_project-resolved :
    (policy : MappingPolicy) (request : ImportDestinationPlanRequest) (kind : Text)
    → default_project (with_defaults policy request) kind
      ≡ first_known (default_project request kind) (policy_project policy kind)
unfolding with_defaults
default_project-resolved policy request kind = elim (Bool-cases (same_text kind image)) [
  | inl e ↦ rw e refl
  | inr e ↦
      rw e (elim (Bool-cases (same_text kind chart)) [ inl f ↦ rw f refl | inr f ↦ rw f refl ])
]

-- With the defaults of a policy, an artifact goes to its override, or else to the project that the
-- request maps its project to, or else the policy, or else to the project of its kind in the
-- request, or else in the policy.
pub target_project_of-with_defaults :
    (policy : MappingPolicy) (request : ImportDestinationPlanRequest) (item : ImportArtifactPreview)
    (project : Text)
    → IsDictionary request.project_mappings
    → target_project_of (with_defaults policy request) item project
      ≡ first_known (override_of item.index request.artifact_overrides) (
          first_known (mapped_project project request.project_mappings) (
            first_known (mapped_project project policy.project_mappings) (
              first_known
                (default_project request item.artifact_type)
                (policy_project policy item.artifact_type))))
unfolding target_project_of with_defaults
target_project_of-with_defaults policy request item project d =
    ap
      (λ o.
        first_known (first_known (override_of item.index request.artifact_overrides) o)
          (default_project (with_defaults policy request) item.artifact_type))
      (mapped_project-merge project policy.project_mappings request.project_mappings d)
    ∙ ap
        (λ o.
          first_known
            (first_known (override_of item.index request.artifact_overrides) (
              first_known (mapped_project project request.project_mappings)
                (mapped_project project policy.project_mappings)))
            o)
        (default_project-resolved policy request item.artifact_type)
    ∙ regroup (override_of item.index request.artifact_overrides)
        (mapped_project project request.project_mappings)
        (mapped_project project policy.project_mappings) _
