-- ===== src/Import/Loop.antt =====
-- The loop of _import_worker in backend/app/services/import_orchestrator.py over the artifacts, and
-- _preflight_target. The registry of TARGET is a parameter with its own state.
use harbor_transfer_portal.Base.{
  Bool, List, Option, Result, String, [], err, false, if◌then◌else◌, none, not, ok, or_else,
  refuse_if, some, suc, true, ℕ, ◌>>=◌, ◌>>=◌, ◌>>◌, ◌∷◌,
}
use harbor_transfer_portal.Bundle.Manifest.{
  ArtifactDescriptor, DescriptorKind, container_image, helm_chart,
}
use harbor_transfer_portal.Bundle.Text.{Text, same_text}
use harbor_transfer_portal.Destination.Model.{
  conflict, ImportPreviewState, error, new, same, unknown,
}
use harbor_transfer_portal.Destination.Planning.{
  HelmChartReference, ImageReference, TargetInspection, chart_reference, image_reference,
  preview_state,
}
use harbor_transfer_portal.Domain.Status.{
  conflict as artifact_conflict, ArtifactStatus, failed, pending, running, skipped, verified,
}

-- A push gives the digest in TARGET and the SHA-256 of the file that it pushed.
pub record PushResult : Type 0 where
  pub target_digest : Text
  pub package_sha256 : Text

-- What a tool raises: one of the four types that the loop catches (SkopeoServiceError,
-- NexusServiceError, HelmServiceError and ValueError), with its code if it has one, or any other
-- exception, such as HarborSettingsError or OSError.
pub data ToolError : Type 0 where
  caught : Option String → ToolError
  uncaught : ToolError

abbrev pub Raising : Type 0 → Type 0
Raising A = Result ToolError A

-- The tools that reach the registry.
pub record Registry (S : Type 0) : Type 0 where
  pub inspect_image : S → ImageReference → Option Text → Raising TargetInspection
  pub inspect_chart : S → HelmChartReference → Option Text → Raising TargetInspection
  pub import_image : S → Text → ImageReference → Option Text → S × Raising Text
  pub push_chart : S → Text → HelmChartReference → Option Text → Bool → S × Raising PushResult

pub record ConflictPolicy : Type 0 where
  pub overwrite : Bool
  pub skip_conflicts : Bool

-- What set_artifact_status is last called with for an artifact.
pub record Outcome : Type 0 where
  pub status : ArtifactStatus
  pub target_digest : Option Text
  pub error_code : Option String

-- The reference that an import of the descriptor writes.
pub data TargetReference : Type 0 where
  to_image : ImageReference → TargetReference
  to_chart : HelmChartReference → TargetReference

abbrev image_target : Option ImageReference → Option TargetReference
image_target none = none
image_target (some r) = some (to_image r)

abbrev chart_target : Option HelmChartReference → Option TargetReference
chart_target none = none
chart_target (some r) = some (to_chart r)

abbrev kind_target : Text → DescriptorKind → Option TargetReference
kind_target repository (container_image reference) =
    image_target (image_reference repository (some reference))
kind_target repository (helm_chart name version) =
    chart_target (chart_reference repository (some name) (some version))

-- The reference of a descriptor, whose construction may raise ValueError.
unfoldable pub target_reference : ArtifactDescriptor → Option TargetReference
target_reference d = kind_target d.repository d.kind

-- How the body of the loop ends for an artifact: with an outcome, or with an exception that leaves
-- the loop and the status that the row has then.
abbrev pub Ended : Type 0
Ended = Result ArtifactStatus Outcome

abbrev failed_with : Option String → String → Outcome
failed_with code default = record {
  status = failed;
  target_digest = none;
  error_code = some (or_else code default);
}

module _ {S : Type 0} (registry : Registry S) where
  unfoldable pub inspect : S → TargetReference → Option Text → Raising TargetInspection
  inspect s (to_image r) digest = registry.inspect_image s r digest
  inspect s (to_chart r) digest = registry.inspect_chart s r digest

  -- _preflight_target, for a reference that was made
  unfoldable pub preflight_target :
      S → TargetReference → Option Text → Raising (ImportPreviewState × Option Text)
  preflight_target s r digest = do
    inspection ← inspect s r digest
    ok (preview_state inspection.state, inspection.digest)

  -- The digest of a push, unless the package is not the payload that was signed.
  abbrev pub pushed_digest : ArtifactDescriptor → PushResult → Raising Text
  pushed_digest d pushed = do
    refuse_if (not (same_text pushed.package_sha256 d.payload_sha256))
        (caught (some "helm_payload_digest_mismatch"))
    ok pushed.target_digest

  -- The mutation of TARGET.
  unfoldable pub mutate : S → ArtifactDescriptor → TargetReference → Bool → S × Raising Text
  mutate s d (to_image r) allow_existing = registry.import_image s d.payload_path r d.source_digest
  mutate s d (to_chart r) allow_existing =
      let pushed = registry.push_chart s d.payload_path r d.source_digest allow_existing in
      (pushed.0, pushed.1 >>= (λ p. pushed_digest d p))

  abbrev pub mutation_outcome : Raising Text → Ended
  mutation_outcome (ok digest) =
      ok (record { status = verified; target_digest = some digest; error_code = none })
  mutation_outcome (err (caught code)) = ok (failed_with code "import_artifact_failed")
  mutation_outcome (err uncaught) = err running

  abbrev written : S × Raising Text → S × Ended
  written m = (m.0, mutation_outcome (m.1))

  -- An artifact whose reference in TARGET has another digest.
  abbrev pub on_conflict :
      ConflictPolicy → S → ArtifactDescriptor → TargetReference → Option Text → S × Ended
  on_conflict policy s d r digest =
      if policy.overwrite
      then written (mutate s d r true)
      else if policy.skip_conflicts
      then (
        s,
        ok (record {
          status = skipped;
          target_digest = digest;
          error_code = some "import_conflict_skipped";
        }),
      )
      else (
        s,
        ok (record { status = artifact_conflict; target_digest = digest; error_code = none }),
      )

  -- What is done after the preflight.
  abbrev pub after_preflight :
      ConflictPolicy
      → S
      → ArtifactDescriptor
      → TargetReference
      → Raising (ImportPreviewState × Option Text)
      → S × Ended
  after_preflight policy s d r (err (caught code)) =
      (s, ok (failed_with code "import_target_inspection_failed"))
  after_preflight policy s d r (err uncaught) = (s, err pending)
  after_preflight policy s d r (ok (same, digest)) =
      (s, ok (record { status = skipped; target_digest = digest; error_code = none }))
  after_preflight policy s d r (ok (conflict, digest)) = on_conflict policy s d r digest
  after_preflight policy s d r (ok (new, digest)) = written (mutate s d r false)
  after_preflight policy s d r (ok (unknown, digest)) =
      (s, ok (failed_with none "import_target_state_unresolved"))
  after_preflight policy s d r (ok (error, digest)) =
      (s, ok (failed_with none "import_target_state_unresolved"))

  abbrev pub import_to :
      ConflictPolicy → S → ArtifactDescriptor → Option TargetReference → S × Ended
  import_to policy s d none = (s, ok (failed_with none "import_target_inspection_failed"))
  import_to policy s d (some r) =
      after_preflight policy s d r (preflight_target s r d.source_digest)

  -- The body of the loop
  unfoldable pub import_artifact : ConflictPolicy → S → ArtifactDescriptor → S × Ended
  import_artifact policy s d = import_to policy s d (target_reference d)

-- The artifacts that count as failures.
unfoldable pub is_failure : ArtifactStatus → Bool
is_failure failed = true
is_failure artifact_conflict = true
is_failure _ = false

-- The loop goes through all artifacts, or a cancellation stops it before one, or an exception leaves
-- it, with the status of the row it was at.
pub data LoopEnd : Type 0 where
  through cancelled : LoopEnd
  raised : ArtifactStatus → LoopEnd

-- What the loop has done: the registry, an outcome for each artifact so far, the failures, and how it
-- ended.
pub record Progress (S : Type 0) : Type 0 where
  pub registry : S
  pub outcomes : List Outcome
  pub failures : ℕ
  pub end : LoopEnd

abbrev pub record_outcome : {S : Type 0} → Outcome → Progress S → Progress S
record_outcome o p = record p {
  outcomes = o ∷ p.outcomes;
  failures = if is_failure o.status then suc p.failures else p.failures;
}

abbrev pub left_at : {S : Type 0} → S → LoopEnd → Progress S
left_at s end = record { registry = s; outcomes = []; failures = 0; end = end }

-- The rest of the loop, unless an exception leaves it.
abbrev pub go_on : {S : Type 0} → S → Ended → Progress S → Progress S
go_on s (ok o) rest = record_outcome o rest
go_on s (err status) rest = left_at s (raised status)

module _ {S : Type 0} (registry : Registry S) (policy : ConflictPolicy) where
  -- The loop; a cancellation may be requested before any artifact.
  unfoldable pub import_artifacts : (ℕ → Bool) → ℕ → S → List ArtifactDescriptor → Progress S
  import_artifacts cancels index s [] = left_at s through
  import_artifacts cancels index s (d ∷ ds) =
      let step = import_artifact registry policy s d in
      let rest = import_artifacts cancels (suc index) (step.0) ds in
      if cancels index then left_at s cancelled else go_on (step.0) (step.1) rest
