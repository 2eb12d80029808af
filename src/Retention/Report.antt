-- ===== src/Retention/Report.antt =====
-- cleanup_transfer_storage: the three cleanups one after the other, and their report.
use harbor_transfer_portal.Base.{
  List, Option, [], false, if◌then◌else◌, ltb, none, some, ℕ, ◌+◌, ◌-◌, ◌||◌,
}
use harbor_transfer_portal.Retention.Cleanup.{
  Directory, StoredOperation, clean_staging, storage_keys,
}
use harbor_transfer_portal.Retention.Deliveries.{clean_deliveries}
use harbor_transfer_portal.Retention.Workspaces.{
  CleanedWorkspaces, DigitReading, clean_workspaces, workspace_names,
}

pub record StorageCleanupReport : Type 0 where
  pub export_deliveries_removed : ℕ
  pub import_staging_removed : ℕ
  pub extraction_workspaces_removed : ℕ
  pub bytes_reclaimed : ℕ

pub record RetentionSettings : Type 0 where
  pub export_bundle_retention_seconds : ℕ
  pub import_bundle_retention_seconds : ℕ

-- The three roots; the root of the workspaces need not be there.
pub record Storage : Type 0 where
  pub outgoing : Directory
  pub staging : Directory
  pub workspaces : Option Directory

-- The report, unless an error ended the cleanup, and what is left.
pub record Cleaned : Type 0 where
  pub report : Option StorageCleanupReport
  pub storage : Storage

abbrev pub no_workspaces : CleanedWorkspaces
no_workspaces = record { bytes = 0; removed = 0; left = []; raised = false }

abbrev pub cleaned_root : DigitReading → List StoredOperation → Option Directory → CleanedWorkspaces
cleaned_root reading operations none = no_workspaces
cleaned_root reading operations (some dir) =
    clean_workspaces reading operations (workspace_names dir) dir

abbrev pub root_left : Option Directory → CleanedWorkspaces → Option Directory
root_left none w = none
root_left (some dir) w = some w.left

-- The work after the cutoffs were computed.
unfoldable pub clean_until : DigitReading → ℕ → ℕ → List StoredOperation → Storage → Cleaned
clean_until reading export_cutoff import_cutoff operations s =
    let (reclaimed, deliveries, outgoing) = clean_deliveries export_cutoff operations s.outgoing in
    let (more, staged, staging) =
      clean_staging import_cutoff operations (storage_keys [] operations) s.staging in
    let w = cleaned_root reading operations s.workspaces in
    record {
      report =
          if w.raised
          then none
          else some (record {
            export_deliveries_removed = deliveries;
            import_staging_removed = staged;
            extraction_workspaces_removed = w.removed;
            bytes_reclaimed = reclaimed + more + w.bytes;
          });
      storage = record {
        outgoing = outgoing;
        staging = staging;
        workspaces = root_left s.workspaces w;
      };
    }

-- cleanup_transfer_storage; a cutoff before the first date there is raises OverflowError.
unfoldable pub cleanup_transfer_storage :
    DigitReading → RetentionSettings → ℕ → List StoredOperation → Storage → Cleaned
cleanup_transfer_storage reading settings now operations s =
    if ltb now settings.export_bundle_retention_seconds
      || ltb now settings.import_bundle_retention_seconds
    then record { report = none; storage = s }
    else clean_until reading (now - settings.export_bundle_retention_seconds)
        (now - settings.import_bundle_retention_seconds) operations s
