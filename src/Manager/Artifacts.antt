-- ===== src/Manager/Artifacts.antt =====
-- The artifacts of an operation: their transitions, their failure when a run stops, and the
-- counters that are computed from them.
use harbor_transfer_portal.Base.{ℕ, ◌+◌, String, some, List, [], ◌∷◌, map, count, if◌then◌else◌}
use harbor_transfer_portal.Domain.Status.{ArtifactStatus, same_artifact_status}
use harbor_transfer_portal.Manager.Model.{ArtifactResult, Operation}

-- _ARTIFACT_TRANSITIONS.get(status, set())
unfoldable pub artifact_transitions : ArtifactStatus → List ArtifactStatus
artifact_transitions ArtifactStatus.pending =
    ArtifactStatus.running ∷ ArtifactStatus.skipped ∷ ArtifactStatus.conflict
    ∷ ArtifactStatus.failed ∷ []
artifact_transitions ArtifactStatus.running =
    ArtifactStatus.imported ∷ ArtifactStatus.skipped ∷ ArtifactStatus.conflict
    ∷ ArtifactStatus.failed ∷ ArtifactStatus.verified ∷ []
artifact_transitions ArtifactStatus.imported = ArtifactStatus.verified ∷ ArtifactStatus.failed ∷ []
artifact_transitions _ = []

-- The rows of one status.
abbrev pub tally : ArtifactStatus → List ArtifactResult → ℕ
tally status rows = count (λ row. same_artifact_status row.status status) rows

-- _recalculate_counts
unfoldable pub recalculate_counts : Operation → Operation
recalculate_counts op = record op {
  successful_artifacts =
      tally ArtifactStatus.imported op.artifacts + tally ArtifactStatus.verified op.artifacts;
  failed_artifacts = tally ArtifactStatus.failed op.artifacts;
  skipped_artifacts = tally ArtifactStatus.skipped op.artifacts;
  conflict_artifacts = tally ArtifactStatus.conflict op.artifacts;
}

-- The body of the loop of _fail_running_artifacts.
unfoldable pub fail_if_running : String → String → ℕ → ArtifactResult → ArtifactResult
fail_if_running code message now row =
    if same_artifact_status row.status ArtifactStatus.running
    then record row {
      status = ArtifactStatus.failed;
      error_code = some code;
      error_message = some message;
      finished_at = some now;
    }
    else row

-- _fail_running_artifacts
unfoldable pub fail_running_artifacts : String → String → ℕ → Operation → Operation
fail_running_artifacts code message now op = record op {
  artifacts = map (fail_if_running code message now) op.artifacts;
}
