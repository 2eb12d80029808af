-- ===== src/Retention/Workspaces.antt =====
-- The removal of extraction workspaces whose import has ended.
use harbor_transfer_portal.Base.{
  Bool, List, Option, String, [], any, false, if◌then◌else◌, ltb, none, not, some, suc, true, ℕ,
  ◌&&◌, ◌+◌, ◌==◌, ◌∷◌,
}
use harbor_transfer_portal.Bundle.Checksums.{drop}
use harbor_transfer_portal.Bundle.Text.{Text, codes, starts_with}
use harbor_transfer_portal.Domain.Status.{is_export}
use harbor_transfer_portal.Retention.Cleanup.{
  Directory, StoredOperation, is_live, remove_direct_child_tree,
}

-- str.isdigit, and int, which raises ValueError for some digits.
pub record DigitReading : Type 0 where
  pub isdigit : Text → Bool
  pub int : Text → Option ℕ

pub data WorkspaceId : Type 0 where
  no_operation : WorkspaceId
  operation_id : ℕ → WorkspaceId
  value_error : WorkspaceId

abbrev positive : Option ℕ → WorkspaceId
positive none = value_error
positive (some n) = if ltb 0 n then operation_id n else no_operation

-- _extraction_operation_id
unfoldable pub extraction_operation_id : DigitReading → String → WorkspaceId
extraction_operation_id reading name =
    if starts_with (codes name) (codes "import-") && reading.isdigit (drop 7 (codes name))
    then positive (reading.int (drop 7 (codes name)))
    else no_operation

-- The id is in active_import_ids.
abbrev pub is_active : List StoredOperation → ℕ → Bool
is_active operations i = any (λ o. o.id == i && not (is_export o.type) && is_live o) operations

-- What the loop over the workspaces has done; a ValueError ends the whole cleanup.
pub record CleanedWorkspaces : Type 0 where
  pub bytes : ℕ
  pub removed : ℕ
  pub left : Directory
  pub raised : Bool

abbrev added : ℕ → Bool → CleanedWorkspaces → CleanedWorkspaces
added bytes removed rest = record rest {
  bytes = bytes + rest.bytes;
  removed = if removed then suc rest.removed else rest.removed;
}

abbrev pub is_spared : List StoredOperation → WorkspaceId → Bool
is_spared operations no_operation = true
is_spared operations (operation_id i) = is_active operations i
is_spared operations value_error = false

abbrev pub is_value_error : WorkspaceId → Bool
is_value_error value_error = true
is_value_error _ = false

-- The loop over the candidates of the glob "import-*".
unfoldable pub clean_workspaces :
    DigitReading → List StoredOperation → List String → Directory → CleanedWorkspaces
clean_workspaces reading operations [] dir = record {
  bytes = 0;
  removed = 0;
  left = dir;
  raised = false;
}
clean_workspaces reading operations (name ∷ names) dir =
    let (bytes, removed, left) = remove_direct_child_tree name dir in
    let after = clean_workspaces reading operations names left in
    let skipped = clean_workspaces reading operations names dir in
    if is_value_error (extraction_operation_id reading name)
    then record { bytes = 0; removed = 0; left = dir; raised = true }
    else if is_spared operations (extraction_operation_id reading name)
    then skipped
    else added bytes removed after

-- glob("import-*"), in the order of the directory
unfoldable pub workspace_names : Directory → List String
workspace_names [] = []
workspace_names ((name, item) ∷ rest) =
    let names = workspace_names rest in
    if starts_with (codes name) (codes "import-") then name ∷ names else names
