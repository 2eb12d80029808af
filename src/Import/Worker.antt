-- ===== src/Import/Worker.antt =====
-- _import_worker around its loop: the steps before it, the checks of the archive, the bundle and the
-- rows, and the end after it. The files are left out; what the transitions, the stored state and the
-- receipt do is in the task as how they end.
use harbor_transfer_portal.Base.{
  Bool, List, Option, Result, String, [], err, length, not, ok, refuse_if, some, ℕ, ◌==◌, ◌>>=◌,
  ◌>>◌, ◌||◌,
}
use harbor_transfer_portal.Bundle.Text.{Text, same_text}
use harbor_transfer_portal.Bundle.Verification.{BundleVerificationResult}
use harbor_transfer_portal.Destination.Model.{same_option}
use harbor_transfer_portal.Destination.Persisted.{ImportPreview}
use harbor_transfer_portal.Import.Loop.{
  ConflictPolicy, LoopEnd, Outcome, Progress, Registry, cancelled, import_artifacts, raised,
  through,
}
use harbor_transfer_portal.Profiles.Model.{BoundOperation, ProfileStore}
use harbor_transfer_portal.Profiles.Service.{assert_operation_binding}

-- What leaves the worker: an OperationTaskFailure with its code, a cancellation, or any other
-- exception.
pub data TaskError : Type 0 where
  failed_ending : String → TaskError
  cancelled_ending crashed_ending : TaskError

-- How a call that returns nothing ends, and how the task ends: it returns when it is completed.
abbrev pub Ending : Type 0
Ending = Result TaskError (Unit {0})

-- What the worker works on: how the transition to `importing` with the reading of the stored state,
-- the lookup of the archive, the transition to `verifying_target` with the receipt (for a number of
-- failures) and the transition to `completed` end; the profiles and the row; the hash of the archive
-- on disk, the row's hash and the number of its artifacts, the preview, the result of verify_bundle
-- for the plan and whether it extracted the bundle, how the progress and the clients of the registry
-- are set up, and the stored choices.
pub record ImportTask : Type 0 where
  pub begins : Ending
  pub profiles : ProfileStore
  pub bound_row : BoundOperation
  pub locates : Ending
  pub observed_sha256 : Text
  pub bundle_sha256 : Option Text
  pub artifact_count : ℕ
  pub preview : ImportPreview
  pub verified : Result TaskError BundleVerificationResult
  pub has_extracted_root : Bool
  pub opens_tools : Ending
  pub policy : ConflictPolicy
  pub writes_receipt : ℕ → Ending
  pub completes : Ending

pub record Finished (S : Type 0) : Type 0 where
  pub registry : S
  pub outcomes : List Outcome
  pub ending : Ending

-- _assert_operation_profile; its ImportOrchestrationError is no OperationTaskFailure.
abbrev pub assert_operation_profile : ImportTask → Ending
assert_operation_profile task = elim (assert_operation_binding task.profiles task.bound_row) [
  | ok profile ↦ ok tt
  | err code ↦ err crashed_ending
]

-- The steps and the guards before the loop.
unfoldable pub checked_bundle : ImportTask → Result TaskError BundleVerificationResult
checked_bundle task = do
  task.begins
  assert_operation_profile task
  task.locates
  refuse_if
      (not (same_option (some task.observed_sha256) task.bundle_sha256)
        || not (same_text task.observed_sha256 task.preview.bundle_sha256))
      (failed_ending "import_bundle_changed")
  bundle ← task.verified
  refuse_if
      (not (same_text bundle.archive_sha256 task.preview.bundle_sha256)
        || not (same_text bundle.manifest.delivery_id task.preview.source_delivery_id))
      (failed_ending "import_bundle_changed")
  refuse_if (not task.has_extracted_root) (failed_ending "import_extract_failed")
  refuse_if (not (task.artifact_count == length bundle.manifest.artifacts))
      (failed_ending "import_preview_artifacts_changed")
  task.opens_tools
  ok bundle

-- After a loop that went through all artifacts.
unfoldable pub settled : ImportTask → ℕ → Ending
settled task failures = do
  task.writes_receipt failures
  refuse_if (not (failures == 0)) (failed_ending "import_partial_failure")
  task.completes

abbrev pub loop_ending : ImportTask → ℕ → LoopEnd → Ending
loop_ending task failures through = settled task failures
loop_ending task failures cancelled = err cancelled_ending
loop_ending task failures (raised status) = err crashed_ending

module _ {S : Type 0} (registry : Registry S) (task : ImportTask) (cancels : ℕ → Bool) where
  abbrev pub after_loop : Progress S → Finished S
  after_loop p = record {
    registry = p.registry;
    outcomes = p.outcomes;
    ending = loop_ending task p.failures p.end;
  }

  unfoldable pub import_bundle : S → Result TaskError BundleVerificationResult → Finished S
  import_bundle s (err e) = record { registry = s; outcomes = []; ending = err e }
  import_bundle s (ok bundle) =
      after_loop (import_artifacts registry task.policy cancels 0 s bundle.manifest.artifacts)

  -- _import_worker
  unfoldable pub import_worker : S → Finished S
  import_worker s = import_bundle s (checked_bundle task)
