-- ===== src/Import/Imported.antt =====
-- What the loop of an import has done for the artifacts without a failure, as steps on TARGET.
pub mod Runs
use harbor_transfer_portal.Base.{Bool, List, Option, [], false, none, ok, some, true, ◌∷◌, ◌≡◌}
use harbor_transfer_portal.Bundle.Manifest.{ArtifactDescriptor}
use harbor_transfer_portal.Bundle.Text.{Text}
use harbor_transfer_portal.Destination.Planning.{
  TargetInspection, absent, conflicting_digest, same_digest,
}
use harbor_transfer_portal.Domain.Status.{skipped, verified}
use harbor_transfer_portal.Import.Loop.{
  ConflictPolicy, Outcome, PushResult, Registry, TargetReference, inspect, target_reference,
  to_chart, to_image,
}

abbrev pub skipped_as : Option Text → Outcome
skipped_as digest = record { status = skipped; target_digest = digest; error_code = none }

abbrev pub passed_over : Option Text → Outcome
passed_over digest = record {
  status = skipped;
  target_digest = digest;
  error_code = some "import_conflict_skipped";
}

abbrev pub verified_as : Text → Outcome
verified_as digest = record { status = verified; target_digest = some digest; error_code = none }

module _ {S : Type 0} (registry : Registry S) where
  -- The tool pushed the payload of the descriptor to the reference and gave that digest, a chart only
  -- as the file that was signed.
  pub data IsPushed (s : S) (d : ArtifactDescriptor) (allow_existing : Bool) (s' : S)
      (digest : Text) : TargetReference → Type 0 where
    image_pushed :
        (r : _)
        → registry.import_image s d.payload_path r d.source_digest ≡ (s', ok digest)
        → IsPushed s d allow_existing s' digest (to_image r)
    chart_pushed :
        (r : _) (pushed : PushResult)
        → registry.push_chart s d.payload_path r d.source_digest allow_existing ≡ (s', ok pushed)
        → pushed.package_sha256 ≡ d.payload_sha256
        → pushed.target_digest ≡ digest
        → IsPushed s d allow_existing s' digest (to_chart r)

module _ {S : Type 0} (registry : Registry S) (policy : ConflictPolicy) where
  -- How an artifact is dealt with: it is there already, or another one is and the caller chose to pass
  -- over it, or its place is free and it is pushed, or it is pushed over another one since the caller
  -- chose that.
  pub data IsImportedAs (s : S) (d : ArtifactDescriptor) (r : TargetReference)
      (found : TargetInspection) : Outcome → S → Type 0 where
    already_there : found.state ≡ same_digest → IsImportedAs s d r found (skipped_as found.digest) s
    conflict_skipped :
        found.state ≡ conflicting_digest
        → policy.overwrite ≡ false
        → policy.skip_conflicts ≡ true
        → IsImportedAs s d r found (passed_over found.digest) s
    put :
        (s' : S) (digest : Text)
        → found.state ≡ absent
        → IsPushed registry s d false s' digest r
        → IsImportedAs s d r found (verified_as digest) s'
    replaced :
        (s' : S) (digest : Text)
        → found.state ≡ conflicting_digest
        → policy.overwrite ≡ true
        → IsPushed registry s d true s' digest r
        → IsImportedAs s d r found (verified_as digest) s'

  -- The artifact was inspected in TARGET at the reference that its descriptor names, and dealt with.
  pub record IsArtifactStep (s : S) (d : ArtifactDescriptor) (o : Outcome) (s' : S) : Type 0 where
    pub reference : TargetReference
    pub named : target_reference d ≡ some reference
    pub found : TargetInspection
    pub inspected : inspect registry s reference d.source_digest ≡ ok found
    pub imported : IsImportedAs s d reference found o s'

  -- All the artifacts, one after the other, up to the last state of TARGET.
  pub data IsRun (last : S) : S → List ArtifactDescriptor → List Outcome → Type 0 where
    no_more : IsRun last last [] []
    one_more :
        {d : ArtifactDescriptor} {ds : List ArtifactDescriptor} {o : Outcome} {os : List Outcome}
        {s mid : S}
        → IsArtifactStep s d o mid
        → IsRun last mid ds os
        → IsRun last s (d ∷ ds) (o ∷ os)
