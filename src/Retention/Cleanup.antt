-- ===== src/Retention/Cleanup.antt =====
-- The cleanup of the import staging. A directory is the list of its children by name.
use harbor_transfer_portal.Base.{
  Bool, List, Option, String, [], any, false, if◌then◌else◌, leb, ltb, none, not, or_else, some,
  str_eq, suc, true, ℕ, ◌&&◌, ◌++◌, ◌+◌, ◌||◌, ◌∷◌,
}
use harbor_transfer_portal.Domain.Status.{
  OperationStatus, OperationType, cancelled, completed, failed, is_export, rejected, status_in,
}
use harbor_transfer_portal.Retention.Keys.{valid_storage_key}

-- A child of a directory; a file and a tree by their bytes.
pub data StoredItem : Type 0 where
  link : StoredItem
  file tree : ℕ → StoredItem

abbrev pub Directory : Type 0
Directory = List (String × StoredItem)

-- The columns that the cleanup reads.
pub record StoredOperation : Type 0 where
  pub id : ℕ
  pub type : OperationType
  pub status : OperationStatus
  pub import_storage_key : Option String
  pub delivery_id : Option String
  pub finished_at : Option ℕ
  pub updated_at : ℕ

-- _operation_timestamp; `updated_at` is never null
unfoldable pub operation_timestamp : StoredOperation → ℕ
operation_timestamp o = or_else o.finished_at o.updated_at

-- _TERMINAL_STATUSES
abbrev pub terminal_statuses : List OperationStatus
terminal_statuses = completed ∷ failed ∷ rejected ∷ cancelled ∷ []

abbrev pub is_live : StoredOperation → Bool
is_live o = not (status_in o.status terminal_statuses)

abbrev pub find_item : String → Directory → Option StoredItem
find_item name [] = none
find_item name ((n, item) ∷ rest) = if str_eq n name then some item else find_item name rest

abbrev pub unlink : String → Directory → Directory
unlink name [] = []
unlink name ((n, item) ∷ rest) =
    let others = unlink name rest in if str_eq n name then others else (n, item) ∷ others

abbrev pub remove_item : String → Option StoredItem → Directory → ℕ × Bool × Directory
remove_item name none dir = (0, false, dir)
remove_item name (some link) dir = (0, true, unlink name dir)
remove_item name (some (file size)) dir = (0, false, dir)
remove_item name (some (tree size)) dir = (size, true, unlink name dir)

-- _remove_direct_child_tree: the bytes reclaimed, whether it was removed, and what is left
unfoldable pub remove_direct_child_tree : String → Directory → ℕ × Bool × Directory
remove_direct_child_tree name dir = remove_item name (find_item name dir) dir

abbrev pub same_key : Option String → String → Bool
same_key none key = false
same_key (some k) key = str_eq k key

-- The import operations that are stored under the key.
abbrev pub owners : String → List StoredOperation → List StoredOperation
owners key [] = []
owners key (o ∷ os) =
    let rest = owners key os in
    if not (is_export o.type) && same_key o.import_storage_key key then o ∷ rest else rest

abbrev pub storage_key_of : StoredOperation → List String
storage_key_of o = elim o.import_storage_key [
  | none ↦ []
  | some key ↦ if is_export o.type || str_eq key "" then [] else key ∷ []
]

abbrev pub add_key : List String → List String → List String
add_key keys [] = keys
add_key keys (key ∷ _) = if any (λ k. str_eq k key) keys then keys else keys ++ key ∷ []

-- The keys of `import_by_storage`, in the order in which they were first seen.
abbrev pub storage_keys : List String → List StoredOperation → List String
storage_keys seen [] = seen
storage_keys seen (o ∷ os) = storage_keys (add_key seen (storage_key_of o)) os

abbrev pub latest : List StoredOperation → ℕ
latest [] = 0
latest (o ∷ os) =
    let rest = latest os in if ltb rest (operation_timestamp o) then operation_timestamp o else rest

-- The guards of the loop over the keys.
abbrev pub is_removable : ℕ → List StoredOperation → String → Bool
is_removable import_cutoff operations key =
    valid_storage_key key
    && not (any is_live (owners key operations))
    && leb (latest (owners key operations)) import_cutoff

-- The loop over the keys: the bytes and items reclaimed, and what is left.
unfoldable pub clean_staging :
    ℕ → List StoredOperation → List String → Directory → ℕ × ℕ × Directory
clean_staging import_cutoff operations [] staging = (0, 0, staging)
clean_staging import_cutoff operations (key ∷ keys) staging =
    if is_removable import_cutoff operations key
    then (let (bytes, removed, left) = remove_direct_child_tree key staging in
        let (more, items, last) = clean_staging import_cutoff operations keys left in
        (bytes + more, (if removed then suc items else items), last))
    else clean_staging import_cutoff operations keys staging
