-- ===== src/Retention/Examples.antt =====
-- Two stored imports, of which one is still running, and an old export.
use harbor_transfer_portal.Base.{false, true, ◌+◌, ◌-◌}
use harbor_transfer_portal.Domain.Status.{export}
use harbor_transfer_portal.Retention.Bytes.{
  HasDistinctNames, RootIsDistinct, cleanup_transfer_storage-bytes, stored_bytes,
}
use harbor_transfer_portal.Retention.Cleanup.{file}
use harbor_transfer_portal.Retention.Deliveries.{
  clean_deliveries, expired_delivery, remove_export_delivery, remove_file, remove_files,
  valid_delivery_id,
}
use harbor_transfer_portal.Retention.Report.{
  RetentionSettings, Storage, StorageCleanupReport, clean_until, cleanup_transfer_storage,
}
use harbor_transfer_portal.Retention.Spared.{AreSpared, cleanup_transfer_storage-AreSpared}
use harbor_transfer_portal.Retention.Workspaces.{
  DigitReading, clean_workspaces, extraction_operation_id, workspace_names,
}
use harbor_transfer_portal.Base.{List, String, [], none, refl, some, ℕ, ◌∷◌, ◌≡◌}
use harbor_transfer_portal.Domain.Status.{OperationStatus, completed, import, importing}
use harbor_transfer_portal.Retention.Cleanup.{
  Directory, StoredOperation, clean_staging, find_item, operation_timestamp,
  remove_direct_child_tree, storage_keys, tree,
}
use harbor_transfer_portal.Retention.Kept.{clean_staging-keeps}
use harbor_transfer_portal.Retention.Keys.{valid_storage_key}

abbrev key_a : String
key_a = "aaaaaaaaaaaaaaaaaaaaaaaaaaaaaaaaaaaaaaaaaaaaaaaa"

abbrev key_b : String
key_b = "bbbbbbbbbbbbbbbbbbbbbbbbbbbbbbbbbbbbbbbbbbbbbbbb"

abbrev stored_import : ℕ → OperationStatus → String → StoredOperation
stored_import id status key = record {
  id = id;
  type = import;
  status = status;
  import_storage_key = some key;
  delivery_id = none;
  finished_at = none;
  updated_at = 5;
}

abbrev imports : List StoredOperation
imports = stored_import 1 completed key_a ∷ stored_import 2 importing key_b ∷ []

abbrev staging : Directory
staging = (key_a, tree 700) ∷ (key_b, tree 300) ∷ []

-- The cleanup removes the first of them.
reclaimed :
    clean_staging 10 imports (storage_keys [] imports) staging ≡ (700, 1, (key_b, tree 300) ∷ [])
unfolding clean_staging remove_direct_child_tree valid_storage_key operation_timestamp
reclaimed = refl

clean_staging-keeps_example :
    find_item key_b (clean_staging 10 imports (storage_keys [] imports) staging).2 ≡ some (tree 300)
clean_staging-keeps_example =
    clean_staging-keeps 10 imports (storage_keys [] imports) key_b staging refl

abbrev old_export : StoredOperation
old_export = record {
  id = 3;
  type = export;
  status = completed;
  import_storage_key = none;
  delivery_id = some "DELIVERY-1";
  finished_at = some 4;
  updated_at = 4;
}

abbrev all_operations : List StoredOperation
all_operations = old_export ∷ imports

-- A suffix of one decimal digit.
abbrev one_digit : DigitReading
one_digit = record {
  isdigit = λ t. elim t [ [] ↦ false | c ∷ s ↦ true ];
  int = λ t. elim t [ [] ↦ none | c ∷ s ↦ some (c - 48) ];
}

abbrev one_each : RetentionSettings
one_each = record { export_bundle_retention_seconds = 1; import_bundle_retention_seconds = 1 }

abbrev full : Storage
full = record {
  outgoing = ("DELIVERY-1.htp.tar.gz", file 90) ∷ ("notes.txt", file 5) ∷ [];
  staging = staging;
  workspaces = some (("import-1", tree 20) ∷ ("import-2", tree 30) ∷ []);
}

abbrev full_report : StorageCleanupReport
full_report = record {
  export_deliveries_removed = 1;
  import_staging_removed = 1;
  extraction_workspaces_removed = 1;
  bytes_reclaimed = 810;
}

full-reported :
    (cleanup_transfer_storage one_digit one_each 10 all_operations full).report ≡ some full_report
unfolding cleanup_transfer_storage clean_until clean_deliveries expired_delivery
    remove_export_delivery valid_delivery_id remove_files remove_file clean_workspaces
    workspace_names extraction_operation_id clean_staging remove_direct_child_tree valid_storage_key
    operation_timestamp
full-reported = refl

outgoing-HasDistinctNames : HasDistinctNames full.outgoing
unfolding HasDistinctNames
outgoing-HasDistinctNames = (refl, (refl, tt))

staging-HasDistinctNames : HasDistinctNames full.staging
unfolding HasDistinctNames
staging-HasDistinctNames = (refl, (refl, tt))

workspaces-RootIsDistinct : RootIsDistinct full.workspaces
unfolding RootIsDistinct HasDistinctNames
workspaces-RootIsDistinct = (refl, (refl, tt))

cleanup_transfer_storage-bytes_example :
    810 + stored_bytes (cleanup_transfer_storage one_digit one_each 10 all_operations full).storage
    ≡ stored_bytes full
cleanup_transfer_storage-bytes_example =
    cleanup_transfer_storage-bytes one_digit one_each 10 all_operations full full_report
      outgoing-HasDistinctNames staging-HasDistinctNames workspaces-RootIsDistinct full-reported

cleanup_transfer_storage-AreSpared_example :
    AreSpared one_digit 9 9 all_operations full
      (cleanup_transfer_storage one_digit one_each 10 all_operations full).storage
cleanup_transfer_storage-AreSpared_example =
    cleanup_transfer_storage-AreSpared one_digit one_each 10 all_operations full
